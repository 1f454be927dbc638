-- ===== src/Conn/Reader.antt =====
-- `ReadPeerMsg` of peer/peerconn.go. The network is a list of what each `Conn.Read` returns. The
-- record of messages that the tests keep (`doTrackMsgs`) and the sleeps have no effect on the result.
pub mod Delivery
pub mod Header
pub mod Partial
pub mod Step
use totorrent.Base.{
  ℕ, suc, ◌+◌, ◌-◌, Bool, true, false, List, [], ◌∷◌, ◌++◌, Bytes, Option, none, some, length, take,
  drop, replicate, ltb, ◌==◌, if◌then◌else◌, Outcome, ok, err, panic, blocked, err_peer_listen,
  err_peer_listen_eof, err_peer_listen_timeout, err_peer_listen_reset,
}
use totorrent.Util.Slices.{min}
use totorrent.Wire.Msg.{PeerMsg}
use totorrent.Wire.Parse.{new_peer_msg_from_buffer, parse_raw_peer_msg_length}

-- A timeout carries whether `FromPeer` is downloading when it strikes; `failure` is any other `net.Error`
-- of the read, or an error of the deadline, and `foreign_failure` an error of the read that is no `net.Error`.
pub data ReadEvent : Type 0 where
  chunk : Bytes → ReadEvent
  eof : ReadEvent
  timeout : Bool → ReadEvent
  reset : ReadEvent
  failure : ReadEvent
  foreign_failure : ReadEvent

-- `none`: the reader waits for more. Otherwise what it returns, and what it has not read.
abbrev pub ReadResult : Type 0
ReadResult = Option (Outcome PeerMsg × List ReadEvent)

abbrev pub buffer_size : ℕ
buffer_size = 1024

-- `Conn.Read(msgBuf)` writes over the front of the buffer and leaves the rest of it.
abbrev pub fill : Bytes → Bytes → Bytes
fill c msg_buf = c ++ drop (length c) msg_buf

-- The length that is still to be read: the one at hand, or the one that the buffer starts with.
unfoldable pub remaining_msg_len : ℕ → Bytes → Outcome ℕ
remaining_msg_len remaining msg_buf =
    if remaining == 0 then parse_raw_peer_msg_length msg_buf else ok remaining

unfoldable pub read_loop : List ReadEvent → Bytes → Bytes → ℕ → ReadResult
unfolding remaining_msg_len min
read_loop [] msg_buf total_buff remaining = none
read_loop (eof ∷ es) msg_buf total_buff remaining = some (err err_peer_listen_eof, es)
read_loop (reset ∷ es) msg_buf total_buff remaining = some (err err_peer_listen_reset, es)
read_loop (failure ∷ es) msg_buf total_buff remaining = some (err err_peer_listen, es)
-- The `err` of the type assertion, which is nil, hides the one of the read: `err.Error()` panics.
read_loop (foreign_failure ∷ es) msg_buf total_buff remaining = some (panic, es)
read_loop (timeout still_downloading ∷ es) msg_buf total_buff remaining =
    let again = read_loop es msg_buf total_buff remaining in
    if still_downloading then again else some (err err_peer_listen_timeout, es)
read_loop (chunk [] ∷ es) msg_buf total_buff remaining = some (err err_peer_listen, es)
read_loop (chunk (x ∷ c) ∷ es) msg_buf total_buff remaining =
    let buf = fill (x ∷ c) msg_buf in
    elim (remaining_msg_len remaining buf) [
      | err e ↦ some (err e, es)
      | panic ↦ some (panic, es)
      | blocked ↦ some (blocked, es)
      | ok n ↦
          let read_length = min (length buf) n in
          let total = total_buff ++ take read_length buf in
          let again = read_loop es buf total (n - read_length) in
          if ltb 0 (n - read_length) then again else some (new_peer_msg_from_buffer total, es)
    ]

unfoldable pub read_peer_msg : List ReadEvent → ReadResult
unfolding read_loop
read_peer_msg es = read_loop es (replicate buffer_size 0) [] 0
