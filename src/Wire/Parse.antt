-- ===== src/Wire/Parse.antt =====
-- The parser of one whole message (`NewPeerMsgFromBuffer`) and of the length of the next one
-- (`ParseRawPeerMsgLength`) of peermsg.go.
use totorrent.Base.{ℕ, ◌+◌, Bool, false, [], ◌∷◌, Bytes, Option, none, some}
use totorrent.Base.{length, drop, get_or, ltb, ◌==◌, bytes_eq, if◌then◌else◌}
use totorrent.Base.{Outcome, ok, err, err_peer_listen, err_parse_peer, io_error, ◌>>=◌, or_fail}
use totorrent.Base.Words.{be_uint32, read_at}
use totorrent.Wire.Msg.{
  PeerMsg, keep_alive, choked, unchoked, interested, not_interested, have, bitfield, request, piece,
  peermsg_choked, peermsg_unchoked, peermsg_interested, peermsg_not_interested, peermsg_have,
  peermsg_bitfield, peermsg_request, peermsg_piece,
}
use totorrent.Wire.Build.{protocol_name, build_peer_handshake_msg}

-- The check of the protocol's name, behind that of the first byte.
unfoldable pub has_protocol_name : Bytes → Bool
has_protocol_name buf = elim (read_at buf 19 1) [
  | none ↦ false
  | some fixed_protocol_msg ↦ bytes_eq fixed_protocol_msg protocol_name
]

unfoldable pub is_peer_handshake_msg : Bytes → Bool
unfolding has_protocol_name
is_peer_handshake_msg [] = false
is_peer_handshake_msg (message_length ∷ rest) =
    if 68 == message_length + 49 then has_protocol_name (message_length ∷ rest) else false

unfoldable pub build_peer_handshake_msg_from_raw_bytes : Bytes → Outcome PeerMsg
build_peer_handshake_msg_from_raw_bytes buf = do
  peer_id ← or_fail (read_at buf 20 48) err_peer_listen
  infohash ← or_fail (read_at buf 20 28) err_peer_listen
  ok (build_peer_handshake_msg peer_id infohash)

-- The buffer of the message id, nil where the message has none.
unfoldable pub msg_id_buff : Bytes → Outcome (Option Bytes)
msg_id_buff buf =
    if ltb 4 (length buf) then (do b ← or_fail (read_at buf 1 4) io_error; ok (some b)) else ok none

unfoldable pub payload_buff : Bytes → Bytes
payload_buff buf = if ltb 5 (length buf) then drop 5 buf else []

-- The `switch` over the message id; a buffer of the id holds one byte.
unfoldable pub msg_of_id : Option Bytes → Bytes → Outcome PeerMsg
msg_of_id none p = ok (keep_alive p)
msg_of_id (some b) p =
    let id = get_or b 0 0 in
    if id == peermsg_interested
    then ok (interested p)
    else if id == peermsg_not_interested
    then ok (not_interested p)
    else if id == peermsg_unchoked
    then ok (unchoked p)
    else if id == peermsg_choked
    then ok (choked p)
    else if id == peermsg_have
    then ok (have p)
    else if id == peermsg_bitfield
    then ok (bitfield p)
    else if id == peermsg_request
    then ok (request p)
    else if id == peermsg_piece
    then ok (piece p)
    else err err_parse_peer

-- The part of `NewPeerMsgFromBuffer` behind the test for a handshake.
unfoldable pub framed_msg : Bytes → Outcome PeerMsg
unfolding msg_id_buff payload_buff msg_of_id
framed_msg buf = do id ← msg_id_buff buf; msg_of_id id (payload_buff buf)

unfoldable pub new_peer_msg_from_buffer : Bytes → Outcome PeerMsg
new_peer_msg_from_buffer buf =
    if is_peer_handshake_msg buf
    then build_peer_handshake_msg_from_raw_bytes buf
    else framed_msg buf

-- The largest message that is read, with its length prefix.
abbrev pub max_msg_len : ℕ
max_msg_len = 16640

unfoldable pub prefix_length : Bytes → Outcome ℕ
prefix_length buf = do
  msg_len_buff ← or_fail (read_at buf 4 0) err_peer_listen
  n ← be_uint32 msg_len_buff
  if ltb max_msg_len (n + 4) then err err_peer_listen else ok (n + 4)

unfoldable pub parse_raw_peer_msg_length : Bytes → Outcome ℕ
parse_raw_peer_msg_length buf = if is_peer_handshake_msg buf then ok 68 else prefix_length buf
