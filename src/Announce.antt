-- ===== src/Announce.antt =====
-- announce/announce.go: the announce URLs of a torrent and the query of them. A URL is its bytes. The
-- HTTP client, SHA-1, the decimal printer and the bencode decoder are parameters.
pub mod First
use totorrent.Base.{
  ℕ, ◌+◌, ◌%◌, ◌^◌, Bool, true, false, ◌&&◌, List, [], ◌∷◌, ◌++◌, Bytes, Option, none, some, length,
  leb, ◌==◌, if◌then◌else◌, Outcome, ok, err, panic, Error, err_announceurl, err_query_announce,
  io_error, ◌>>=◌,
}

pub data AnnounceUrlKind : Type 0 where
  dht udp http : AnnounceUrlKind

pub record AnnounceUrl : Type 0 where
  pub url : Bytes
  pub kind : AnnounceUrlKind

abbrev pub has_prefix : Bytes → Bytes → Bool
has_prefix [] url = true
has_prefix (x ∷ xs) [] = false
has_prefix (x ∷ xs) (y ∷ url) = x == y && has_prefix xs url

abbrev pub is_http : Bytes → Bool
is_http url = has_prefix (b'h' ∷ b't' ∷ b't' ∷ b'p' ∷ []) url

unfoldable pub new_announce_url : Bytes → Outcome AnnounceUrl
new_announce_url url =
    if has_prefix (b'd' ∷ b'h' ∷ b't' ∷ []) url
    then ok (record { url = url; kind = dht })
    else if has_prefix (b'u' ∷ b'd' ∷ b'p' ∷ []) url
    then ok (record { url = url; kind = udp })
    else if is_http url
    then ok (record { url = url; kind = http })
    else err err_announceurl

pub record AnnounceHandshakeParams : Type 0 where
  pub info_hash : Bytes
  pub peer_id : Bytes
  pub port : Bytes
  pub uploaded : Bytes
  pub downloaded : Bytes
  pub left : Bytes
  pub event : Bytes

-- `peers` are addresses and ports.
pub record AnnounceUrlResponse : Type 0 where
  pub failure_reason : Bytes
  pub interval : ℕ
  pub tracker_id : Bytes
  pub complete : ℕ
  pub incomplete : ℕ
  pub peers : List (Bytes × ℕ)

abbrev pub empty_response : AnnounceUrlResponse
empty_response = record {
  failure_reason = [];
  interval = 0;
  tracker_id = [];
  complete = 0;
  incomplete = 0;
  peers = [];
}

-- What the query of one URL comes to: no request can be made of it, the client fails, or a status code
-- and a body.
pub data QueryResult : Type 0 where
  bad_request : QueryResult
  failed : QueryResult
  responded : ℕ → Bytes → QueryResult

abbrev pub is_success : ℕ → Bool
is_success status = leb 100 status && leb status 299

-- The response and the error that a Go function returns.
abbrev pub Answer : Type 0
Answer = Option AnnounceUrlResponse × Option Error

unfoldable pub usable_urls : List Bytes → List Bytes
usable_urls [] = []
usable_urls (url ∷ urls) = let rest = usable_urls urls in if is_http url then url ∷ rest else rest

-- `none`: no request can be made of a URL. `unmarshal` decodes a body over the response at hand, which
-- a body that fails can have changed, and tells whether that went well.
unfoldable pub query_loop :
    (Bytes → QueryResult)
    → (Bytes → AnnounceUrlResponse → AnnounceUrlResponse × Bool)
    → List Bytes
    → AnnounceUrlResponse
    → Option (AnnounceUrlResponse × Bool)
query_loop query unmarshal [] body = some (body, false)
query_loop query unmarshal (url ∷ urls) body = elim (query url) [
  | bad_request ↦ none
  | failed ↦ query_loop query unmarshal urls body
  | responded status encoded ↦ elim (is_success status) [
    | false ↦ query_loop query unmarshal urls body
    | true ↦ elim (unmarshal encoded body).1 [
      | true ↦ some ((unmarshal encoded body).0, true)
      | false ↦ query_loop query unmarshal urls (unmarshal encoded body).0
    ]
  ]
]

-- The end of `QueryAnnounceUrls`: the tests of the failure reason and of `foundValidResp`.
unfoldable pub checked_answer : Option (AnnounceUrlResponse × Bool) → Answer
checked_answer (some (body, found)) =
    if length body.failure_reason == 0
    then (if found then (some body, none) else (none, some err_query_announce))
    else (some body, some err_query_announce)
checked_answer none = (none, some err_query_announce)

-- `GetPeers` takes the first URL of every tier, and panics on a tier of none.
unfoldable pub first_of_tiers : List (List Bytes) → Outcome (List Bytes)
first_of_tiers [] = ok []
first_of_tiers ([] ∷ tiers) = panic
first_of_tiers ((url ∷ tier) ∷ tiers) = do rest ← first_of_tiers tiers; ok (url ∷ rest)

unfoldable pub announce_urls : Bytes → List (List Bytes) → List Bytes → Outcome (List Bytes)
unfolding first_of_tiers
announce_urls announce announce_list url_list = do
  firsts ← first_of_tiers announce_list
  ok (announce ∷ firsts ++ url_list)

-- The sum of the lengths of the files, as a `uint64`.
unfoldable pub sum_of_lengths : List ℕ → ℕ
sum_of_lengths [] = 0
sum_of_lengths (n ∷ ns) = (n + sum_of_lengths ns) % 2 ^ 64

unfoldable pub total_length : ℕ → List ℕ → ℕ
unfolding sum_of_lengths
total_length length_of_file lengths =
    if length_of_file == 0 then sum_of_lengths lengths else length_of_file % 2 ^ 64

-- `sum` is SHA-1, and `format` prints a number; an info that does not decode is an error before this.
unfoldable pub get_announce_handshake_params :
    (Bytes → Bytes) → (ℕ → Bytes) → Bytes → Bytes → ℕ → List ℕ → AnnounceHandshakeParams
unfolding total_length
get_announce_handshake_params sum format info_bytes my_peer_id length_of_file lengths = record {
  info_hash = sum info_bytes;
  peer_id = my_peer_id;
  port = b'6' ∷ b'8' ∷ b'8' ∷ b'1' ∷ [];
  uploaded = b'0' ∷ [];
  downloaded = b'0' ∷ [];
  left = format (total_length length_of_file lengths);
  event = b's' ∷ b't' ∷ b'a' ∷ b'r' ∷ b't' ∷ b'e' ∷ b'd' ∷ [];
}

unfoldable pub query_announce_urls :
    (Bytes → QueryResult)
    → (Bytes → AnnounceUrlResponse → AnnounceUrlResponse × Bool)
    → List Bytes
    → Answer
unfolding query_loop usable_urls checked_answer
query_announce_urls query unmarshal urls =
    if length (usable_urls urls) == 0
    then (none, some err_query_announce)
    else checked_answer (query_loop query unmarshal (usable_urls urls) empty_response)

-- What the program reads of `metainfo.MetaInfo` and of `metainfo.Info`; `info` is `none` where
-- `UnmarshalInfo` fails.
pub record Info : Type 0 where
  pub info_length : ℕ
  pub piece_length : ℕ
  pub pieces : Bytes
  pub file_lengths : List ℕ

pub record MetaInfo : Type 0 where
  pub announce : Bytes
  pub announce_list : List (List Bytes)
  pub url_list : List Bytes
  pub info_bytes : Bytes
  pub info : Option Info

-- What `GetPeers` asks of the libraries: SHA-1, the decimal printer, the query of a URL with the parameters,
-- and the decoder of a body.
pub record Tracker : Type 0 where
  pub sum : Bytes → Bytes
  pub format : ℕ → Bytes
  pub query : AnnounceHandshakeParams → Bytes → QueryResult
  pub unmarshal : Bytes → AnnounceUrlResponse → AnnounceUrlResponse × Bool

-- A body behind an error is dropped.
abbrev pub answered : Answer → Outcome AnnounceUrlResponse
answered (body, some e) = err e
answered (some body, none) = ok body
answered (none, none) = panic

unfoldable pub get_peers : Tracker → MetaInfo → Bytes → Outcome AnnounceUrlResponse
unfolding get_announce_handshake_params announce_urls query_announce_urls
get_peers t m my_peer_id = elim m.info [
  | none ↦ err io_error
  | some i ↦ (do
    urls ← announce_urls m.announce m.announce_list m.url_list
    answered (
        query_announce_urls
          (t.query (
            get_announce_handshake_params t.sum t.format m.info_bytes my_peer_id i.info_length
              i.file_lengths))
          t.unmarshal urls))
]
