-- ===== src/Wire/Samples.antt =====
-- The helpers of peermsg.go and peerconn.go that pick and make messages: `BytesOrPanic`, `filterPeerMsgsOfType`,
-- and `GetRandomPeerMsgs`. The random numbers are arguments.
use totorrent.Base.{
  ℕ, ◌%◌, ◌^◌, List, [], ◌∷◌, Bytes, Option, none, some, ◌==◌, if◌then◌else◌, Outcome, ok, err,
  panic, blocked, ◌>>=◌,
}
use totorrent.Piece.Block.{Block, new_block, pos}
use totorrent.Wire.Msg.{
  PeerMsg, handshake, keep_alive, choked, unchoked, interested, not_interested, have, bitfield,
  request, piece, bytes, peermsg_choked, peermsg_unchoked, peermsg_interested,
  peermsg_not_interested, peermsg_have, peermsg_bitfield, peermsg_request, peermsg_piece,
}
use totorrent.Wire.Build.{
  build_peer_have_msg, build_peer_interested_msg, build_peer_not_interested_msg,
  build_peer_keep_alive_msg, build_peer_unchoked_msg, build_peer_choked_msg, build_peer_request_msg,
  build_peer_piece_msg,
}

unfoldable pub bytes_or_panic : PeerMsg → Outcome Bytes
bytes_or_panic m = elim (bytes m) [
  | ok b ↦ ok b
  | err e ↦ panic
  | panic ↦ panic
  | blocked ↦ blocked
]

unfoldable pub set_payload : PeerMsg → Bytes → PeerMsg
set_payload (handshake p) b = handshake b
set_payload (keep_alive p) b = keep_alive b
set_payload (choked p) b = choked b
set_payload (unchoked p) b = unchoked b
set_payload (interested p) b = interested b
set_payload (not_interested p) b = not_interested b
set_payload (have p) b = have b
set_payload (bitfield p) b = bitfield b
set_payload (request p) b = request b
set_payload (piece p) b = piece b

-- The number of a type, for `reflect.TypeOf`.
abbrev pub type_of : PeerMsg → ℕ
type_of (handshake p) = 99
type_of (keep_alive p) = 98
type_of (choked p) = peermsg_choked
type_of (unchoked p) = peermsg_unchoked
type_of (interested p) = peermsg_interested
type_of (not_interested p) = peermsg_not_interested
type_of (have p) = peermsg_have
type_of (bitfield p) = peermsg_bitfield
type_of (request p) = peermsg_request
type_of (piece p) = peermsg_piece

unfoldable pub same_type : List PeerMsg → PeerMsg → List PeerMsg
same_type [] f = []
same_type (m ∷ ms) f =
    let rest = same_type ms f in if type_of m == type_of f then m ∷ rest else rest

-- `filterPeerMsgsOfType`: nothing is chosen by a nil message.
unfoldable pub filter_peer_msgs_of_type : List PeerMsg → Option PeerMsg → List PeerMsg
unfolding same_type
filter_peer_msgs_of_type ms none = []
filter_peer_msgs_of_type ms (some f) = same_type ms f

-- What is random in a message: its type, `rand.Intn(MAX_PEERMSG_TYPES - 1)`, the index of a HAVE, and the four
-- numbers and 40 bytes of a block.
pub record Sample : Type 0 where
  pub kind : ℕ
  pub index : ℕ
  pub block_idx : ℕ
  pub piece_idx : ℕ
  pub begin : ℕ
  pub block_length : ℕ
  pub buff : Bytes

abbrev pub block_of_sample : Sample → Block
block_of_sample s = new_block (pos s.block_idx) s.piece_idx s.begin s.block_length s.buff

-- HANDSHAKE and KEEP_ALIVE have numbers that are never drawn, and 8 falls to the default. A BITFIELD needs the
-- file information of a nil torrent, of which `NewFileInfo` reads the length: it panics.
unfoldable pub random_peer_msg : Sample → Outcome PeerMsg
random_peer_msg s =
    if s.kind == peermsg_choked
    then ok build_peer_choked_msg
    else if s.kind == peermsg_unchoked
    then ok build_peer_unchoked_msg
    else if s.kind == peermsg_interested
    then ok build_peer_interested_msg
    else if s.kind == peermsg_not_interested
    then ok build_peer_not_interested_msg
    else if s.kind == peermsg_have
    then ok (build_peer_have_msg (s.index % 2 ^ 32))
    else if s.kind == peermsg_bitfield
    then panic
    else if s.kind == peermsg_request
    then build_peer_request_msg (some (block_of_sample s))
    else if s.kind == peermsg_piece
    then ok (build_peer_piece_msg (block_of_sample s))
    else ok build_peer_keep_alive_msg

unfoldable pub get_random_peer_msgs : List Sample → Outcome (List PeerMsg)
unfolding random_peer_msg
get_random_peer_msgs [] = ok []
get_random_peer_msgs (s ∷ ss) = do m ← random_peer_msg s; ms ← get_random_peer_msgs ss; ok (m ∷ ms)
