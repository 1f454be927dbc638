-- ===== src/Wire/Msg.antt =====
-- The message types of peermsg.go, and their `Bytes` methods. A nil slice and an empty one behave
-- alike in this file and are both the empty list.
use totorrent.Base.{ℕ, ◌+◌, [], ◌∷◌, ◌++◌, Bytes, length}
use totorrent.Base.{Outcome, ok, err_peer_listen, ◌>>=◌, or_fail}
use totorrent.Base.Words.{put_uint32, read_fresh}

-- One constructor for each struct, with its `Payload`.
pub data PeerMsg : Type 0 where
  handshake : Bytes → PeerMsg
  keep_alive : Bytes → PeerMsg
  choked : Bytes → PeerMsg
  unchoked : Bytes → PeerMsg
  interested : Bytes → PeerMsg
  not_interested : Bytes → PeerMsg
  have : Bytes → PeerMsg
  bitfield : Bytes → PeerMsg
  request : Bytes → PeerMsg
  piece : Bytes → PeerMsg

abbrev pub peermsg_choked : ℕ
peermsg_choked = 0

abbrev pub peermsg_unchoked : ℕ
peermsg_unchoked = 1

abbrev pub peermsg_interested : ℕ
peermsg_interested = 2

abbrev pub peermsg_not_interested : ℕ
peermsg_not_interested = 3

abbrev pub peermsg_have : ℕ
peermsg_have = 4

abbrev pub peermsg_bitfield : ℕ
peermsg_bitfield = 5

abbrev pub peermsg_request : ℕ
peermsg_request = 6

abbrev pub peermsg_piece : ℕ
peermsg_piece = 7

unfoldable pub get_payload : PeerMsg → Bytes
get_payload (handshake p) = p
get_payload (keep_alive p) = p
get_payload (choked p) = p
get_payload (unchoked p) = p
get_payload (interested p) = p
get_payload (not_interested p) = p
get_payload (have p) = p
get_payload (bitfield p) = p
get_payload (request p) = p
get_payload (piece p) = p

abbrev pub handshake_bytes : Bytes → Outcome Bytes
handshake_bytes p = ok p

-- `ChokedPeerMsg.Bytes` and `UnchokedPeerMsg.Bytes` write no payload.
abbrev pub choked_bytes : Outcome Bytes
choked_bytes = ok (0 ∷ 0 ∷ 0 ∷ 1 ∷ peermsg_choked ∷ [])

abbrev pub unchoked_bytes : Outcome Bytes
unchoked_bytes = ok (0 ∷ 0 ∷ 0 ∷ 1 ∷ peermsg_unchoked ∷ [])

-- `HavePeerMsg.Bytes`: the four bytes of the index, zeros where the payload is shorter.
unfoldable pub have_bytes : Bytes → Outcome Bytes
have_bytes p = do
  piece_idx_buff ← or_fail (read_fresh p 4) err_peer_listen
  ok (0 ∷ 0 ∷ 0 ∷ 5 ∷ peermsg_have ∷ piece_idx_buff)

unfoldable pub request_bytes : Bytes → Outcome Bytes
request_bytes p = do
  block_info_buff ← or_fail (read_fresh p 12) err_peer_listen
  ok (0 ∷ 0 ∷ 0 ∷ 0x0d ∷ peermsg_request ∷ block_info_buff)

unfoldable pub piece_bytes : Bytes → Outcome Bytes
piece_bytes p = do
  block_buff ← or_fail (read_fresh p (length p)) err_peer_listen
  ok (put_uint32 (length p + 1) ++ peermsg_piece ∷ block_buff)

unfoldable pub bitfield_bytes : Bytes → Outcome Bytes
bitfield_bytes p = ok (put_uint32 (1 + length p) ++ peermsg_bitfield ∷ p)

unfoldable pub bytes : PeerMsg → Outcome Bytes
unfolding have_bytes request_bytes piece_bytes bitfield_bytes
bytes (handshake p) = handshake_bytes p
bytes (keep_alive p) = ok (0 ∷ 0 ∷ 0 ∷ 0 ∷ [])
bytes (choked p) = choked_bytes
bytes (unchoked p) = unchoked_bytes
bytes (interested p) = ok (0 ∷ 0 ∷ 0 ∷ 1 ∷ peermsg_interested ∷ [])
bytes (not_interested p) = ok (0 ∷ 0 ∷ 0 ∷ 1 ∷ peermsg_not_interested ∷ [])
bytes (have p) = have_bytes p
bytes (bitfield p) = bitfield_bytes p
bytes (request p) = request_bytes p
bytes (piece p) = piece_bytes p
