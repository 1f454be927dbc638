-- ===== src/Network.antt =====
-- peer/peer.go and peer/peerconn.go: `ConnectWithAllPeers`, and what the goroutine of each peer reports to
-- it. A peer is its name. Dialing, sending the handshake and the end of the reading are parameters.
pub mod Accept
pub mod Identity
pub mod Ports
pub mod TestPeer
pub mod Waiting
use totorrent.Base.{
  ℕ, zero, suc, ◌+◌, Bool, true, false, not, ◌&&◌, List, [], ◌∷◌, ◌++◌, Bytes, Option, none, some,
  length, ltb, ◌==◌, if◌then◌else◌, Outcome, ok, err, blocked, Error, err_peer_listen_eof,
  err_peer_listen_reset, err_peer_listen_timeout, err_connect_peers,
}

-- What the loop of `ConnectWithAllPeers` finds on its two channels; `nothing` is its default case.
pub data PeerEvent : Type 0 where
  peer_error : Bytes → Error → PeerEvent
  peer_done : Bytes → PeerEvent
  nothing : PeerEvent

-- The first error on `errChan` of `listenForMessages`; `closed` tells whether its text has "use of closed
-- network connection". The errors that end a connection in good order are not reported.
unfoldable pub listen_for_messages : Bytes → Error → Bool → List PeerEvent
listen_for_messages from_peer err_peer_listen_eof closed = []
listen_for_messages from_peer err_peer_listen_reset closed = []
listen_for_messages from_peer err_peer_listen_timeout closed = []
listen_for_messages from_peer e closed = if closed then [] else peer_error from_peer e ∷ []

-- `connectWithPeer`, with the error of the dialing and that of the handshake, nil where they succeed. The
-- handshake runs beside the reading; its error is put first.
unfoldable pub connect_with_peer :
    Bytes → Bytes → Option Error → Option Error → Error → Bool → List PeerEvent
unfolding listen_for_messages
connect_with_peer self target (some e) handshake_error listen_error closed =
    peer_error target e ∷ []
connect_with_peer self target none (some e) listen_error closed =
    peer_error target e ∷ (listen_for_messages self listen_error closed ++ peer_done target ∷ [])
connect_with_peer self target none none listen_error closed =
    listen_for_messages self listen_error closed ++ peer_done target ∷ []

-- The peers that are tried; `tried` have been before.
unfoldable pub peers_to_try : ℕ → ℕ → List Bytes → List Bytes
peers_to_try limit tried [] = []
peers_to_try limit tried (p ∷ ps) =
    let rest = peers_to_try limit (suc tried) ps in
    if not (limit == 0) && ltb limit tried then [] else p ∷ rest

-- The peers that the loop closed, the errors it passed to `onPeerErrorFunc`, and what it did not read.
pub record Waited : Type 0 where
  pub closed : List Bytes
  pub errors : List (Bytes × Error)
  pub rest : List PeerEvent

abbrev pub and_error : Bytes → Error → Option Waited → Option Waited
and_error p e none = none
and_error p e (some w) =
    some (record { closed = p ∷ w.closed; errors = (p, e) ∷ w.errors; rest = w.rest })

abbrev pub and_done : Bytes → Option Waited → Option Waited
and_done p none = none
and_done p (some w) = some (record { closed = p ∷ w.closed; errors = w.errors; rest = w.rest })

-- The loop over `peersRemaining`; `none`: it is still waiting.
unfoldable pub wait_for_peers : ℕ → List PeerEvent → Option Waited
wait_for_peers zero es = some (record { closed = []; errors = []; rest = es })
wait_for_peers (suc n) [] = none
wait_for_peers (suc n) (nothing ∷ es) = wait_for_peers (suc n) es
wait_for_peers (suc n) (peer_error p e ∷ es) = and_error p e (wait_for_peers n es)
wait_for_peers (suc n) (peer_done p ∷ es) = and_done p (wait_for_peers n es)

-- An error if there is no peer, and otherwise the wait for the peers that are tried.
unfoldable pub connect_with_all_peers : ℕ → List Bytes → List PeerEvent → Outcome (Option Waited)
unfolding wait_for_peers
connect_with_all_peers limit targets es =
    if length targets == 0
    then err err_connect_peers
    else ok (wait_for_peers (length (peers_to_try limit 0 targets)) es)
