-- ===== src/Tests/Network.antt =====
-- Runs of the theorems about trackers and peers at concrete inputs.
use totorrent.Util.Env.{is_port_taken}
use totorrent.Network.TestPeer.{Attempt, port_as_string, atoi_from, test_peer, new_test_peer}
use totorrent.Network.Ports.{has_free, new_test_peer_lem}
use totorrent.Base.{
  ℕ, ◌+◌, ◌==◌, if◌then◌else◌, ◌≤◌, ◌≡◌, refl, Bool, true, false, List, [], ◌∷◌, Bytes, some, none,
  length, arith, io_error, get_elem?, ok,
}
use totorrent.Announce.{
  AnnounceUrlResponse, QueryResult, bad_request, failed, responded, empty_response, usable_urls,
  query_announce_urls,
}
use totorrent.Announce.First.{AnsweredFirst, query_announce_urls-AnsweredFirst}
use totorrent.Network.{
  PeerEvent, peer_error, peer_done, nothing, Waited, wait_for_peers, peers_to_try,
}
use totorrent.Network.Waiting.{
  reports, length-peers_to_try, wait_for_peers_lem, PeerEnd, reported, wait_for_peers-reported,
}

-- Two trackers and a URL of another protocol; the first tracker is down.
abbrev http_url : ℕ → Bytes
http_url n = b'h' ∷ b't' ∷ b't' ∷ b'p' ∷ n ∷ []

abbrev urls : List Bytes
urls = http_url 1 ∷ (b'u' ∷ b'd' ∷ b'p' ∷ []) ∷ http_url 2 ∷ []

abbrev query : Bytes → QueryResult
query [] = bad_request
query (a ∷ []) = failed
query (a ∷ b ∷ []) = failed
query (a ∷ b ∷ c ∷ []) = failed
query (a ∷ b ∷ c ∷ d ∷ []) = failed
query (a ∷ b ∷ c ∷ d ∷ n ∷ url) = if n == 1 then failed else responded 200 (7 ∷ [])

abbrev unmarshal : Bytes → AnnounceUrlResponse → AnnounceUrlResponse × Bool
unmarshal encoded body = (record body { tracker_id = encoded }, true)

abbrev response : AnnounceUrlResponse
response = record empty_response { tracker_id = 7 ∷ [] }

query-urls : query_announce_urls query unmarshal urls ≡ (some response, none)
unfolding query_announce_urls
query-urls = refl

query_announce_urls-AnsweredFirst_example :
    AnsweredFirst query unmarshal (usable_urls urls) response × (response.failure_reason ≡ [])
query_announce_urls-AnsweredFirst_example =
    query_announce_urls-AnsweredFirst query unmarshal urls response query-urls

-- A limit of 1, and three peers: two are tried.
length-peers_to_try_example :
    length (peers_to_try 1 0 (http_url 1 ∷ http_url 2 ∷ http_url 3 ∷ [])) ≡ 2
length-peers_to_try_example = length-peers_to_try 1 (http_url 1 ∷ http_url 2 ∷ http_url 3 ∷ [])

abbrev events : List PeerEvent
events = nothing ∷ peer_error (http_url 1) io_error ∷ nothing ∷ peer_done (http_url 2) ∷ []

wait_for_peers_lem_example :
    (w : Waited) × (wait_for_peers 2 events ≡ some w)
    × (length w.closed ≡ 2)
    × (length w.errors ≤ 2)
    × (reports w.rest + 2 ≡ 2)
wait_for_peers_lem_example = wait_for_peers_lem 2 events (omega arith)

-- One peer whose reading ends in an unknown error, and one that cannot be dialed.
abbrev ends : List PeerEnd
ends =
    record {
      target = http_url 1;
      dial_error = none;
      handshake_error = none;
      listen_error = io_error;
      is_closed = false;
    }
    ∷ record {
      target = http_url 2;
      dial_error = some io_error;
      handshake_error = none;
      listen_error = io_error;
      is_closed = false;
    }
    ∷ []

wait_for_peers-reported_example :
    (w : Waited) × (wait_for_peers 2 (reported (http_url 3) ends) ≡ some w)
    × (length w.closed ≡ 2)
    × (reports w.rest ≡ 1)
wait_for_peers-reported_example = wait_for_peers-reported (http_url 3) ends

-- The first port that is drawn is taken.
abbrev attempts : List Attempt
attempts =
    record { draws = 0 ∷ 1 ∷ 0 ∷ 1 ∷ 1 ∷ []; conn = some (1 ∷ []) }
    ∷ record { draws = 1 ∷ 1 ∷ 0 ∷ 0 ∷ 1 ∷ []; conn = none }
    ∷ []

one_is_free : has_free attempts ≡ true
unfolding is_port_taken
one_is_free = refl

new_test_peer_lem_example :
    (i : ℕ) × (a : Attempt) × (s : Bytes) × (get_elem? attempts i ≡ some a)
    × (is_port_taken a.conn ≡ false)
    × (port_as_string a.draws ≡ ok s)
    × (new_test_peer attempts ≡ ok (some (test_peer s)))
    × (33333 ≤ atoi_from 0 s)
    × (atoi_from 0 s ≤ 44444)
new_test_peer_lem_example = new_test_peer_lem attempts (omega arith) one_is_free
