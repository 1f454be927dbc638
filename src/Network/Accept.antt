-- ===== src/Network/Accept.antt =====
-- peer/peerconn.go and peer/peer.go: how connections come about. `acceptConn`, the loop of `ListenForPeers`,
-- `DialPeer`, `DefaultSendHandshakeFunc` and `Peer.Close`. What the sockets do is an argument.
use totorrent.Base.{
  ℕ, suc, Bool, true, false, List, [], ◌∷◌, ◌++◌, Bytes, Option, none, some, if◌then◌else◌, Outcome,
  ok, err, panic, blocked, Error, err_listen_for_peers, err_accept_conn_closed_conn, err_dial_peer,
}
use totorrent.Wire.Build.{build_peer_handshake_msg}
use totorrent.Conn.State.{Conn, write_peer_msg}

-- `IP` and `Port` of a peer.
pub record Address : Type 0 where
  pub ip : Bytes
  pub port : ℕ

-- What `listener.Accept()` does: a connection from the address, or an error, with "use of closed network
-- connection" in its text or without.
pub data AcceptEvent : Type 0 where
  accepted : Address → AcceptEvent
  listener_closed : AcceptEvent
  accept_failure : AcceptEvent

-- Any other error is ignored, and the connection is nil: its `RemoteAddr()` panics.
unfoldable pub accept_conn : AcceptEvent → Outcome Address
accept_conn (accepted a) = ok a
accept_conn listener_closed = err err_accept_conn_closed_conn
accept_conn accept_failure = panic

-- What `OnConnectFunc` and `SendHandshakeFunc` return for a connection; `none` where the function is nil.
pub record Hooks : Type 0 where
  pub on_connect : Option (Address → Option Error)
  pub send_handshake : Option (Address → Option Error)

-- The error that the goroutine of a hook reports, if any.
unfoldable pub hook_error : Option (Address → Option Error) → Address → List Error
hook_error none a = []
hook_error (some f) a = elim (f a) [ none ↦ [] | some e ↦ e ∷ [] ]

-- The connections of `self.PeerConnections`, and the errors on `errChan`, those of each connection in turn.
-- `is_waiting`: the last `Accept` has not returned.
pub record Listening : Type 0 where
  pub connections : List Address
  pub errors : List Error
  pub is_waiting : Bool

abbrev pub and_connection : Address → List Error → Listening → Listening
and_connection a es l = record {
  connections = a ∷ l.connections;
  errors = es ++ l.errors;
  is_waiting = l.is_waiting;
}

-- The loop over the connections that are accepted.
unfoldable pub listen_loop : Hooks → List AcceptEvent → Outcome Listening
unfolding accept_conn hook_error
listen_loop h [] = ok (record { connections = []; errors = []; is_waiting = true })
listen_loop h (ev ∷ evs) =
    let rest = listen_loop h evs in
    elim (accept_conn ev) [
      | err e ↦ ok (record { connections = []; errors = e ∷ []; is_waiting = false })
      | panic ↦ panic
      | blocked ↦ blocked
      | ok a ↦ elim rest [
        | ok l ↦
            ok (and_connection a (hook_error h.on_connect a ++ hook_error h.send_handshake a) l)
        | err e ↦ err e
        | panic ↦ panic
        | blocked ↦ blocked
      ]
    ]

-- `ListenForPeers`: `can_listen` tells whether `net.Listen` succeeds.
unfoldable pub listen_for_peers : Bool → Hooks → List AcceptEvent → Outcome Listening
unfolding listen_loop
listen_for_peers can_listen h evs =
    if can_listen then listen_loop h evs else err err_listen_for_peers

-- `DialPeer`: whether `IP.To4()` is an address, and whether the dialer succeeds.
unfoldable pub dial_peer : Bool → Bool → Address → Outcome Address
dial_peer is_ipv4 is_reached target =
    if is_ipv4 then (if is_reached then ok target else err err_dial_peer) else err err_dial_peer

-- `DefaultSendHandshakeFunc`, for the ID of the remote peer, `ToPeer.ID`. SHA-1 is a parameter.
unfoldable pub default_send_handshake_func : (Bytes → Bytes) → Bytes → Bytes → Conn → Conn
default_send_handshake_func sha1_sum to_id info_bytes c =
    write_peer_msg (build_peer_handshake_msg to_id (sha1_sum info_bytes)) c

-- How many connections `Close` closes, whether it closes the listener, and its error.
pub record Closing : Type 0 where
  pub count : ℕ
  pub closes_listener : Bool
  pub error : Option Error

abbrev pub and_closed : Closing → Closing
and_closed r = record { count = suc r.count; closes_listener = r.closes_listener; error = r.error }

-- `Peer.Close`, with the errors of `Conn.Close()` of its connections, in order. The first error ends it, and
-- the listener stays open.
unfoldable pub close : Bool → List (Option Error) → Closing
close has_listener [] = record { count = 0; closes_listener = has_listener; error = none }
close has_listener (some e ∷ rs) = record { count = 0; closes_listener = false; error = some e }
close has_listener (none ∷ rs) = and_closed (close has_listener rs)
