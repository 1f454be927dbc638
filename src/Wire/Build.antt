-- ===== src/Wire/Build.antt =====
-- The constructors of messages (`BuildPeer...`) of peermsg.go.
use totorrent.Base.{ℕ, [], ◌∷◌, ◌++◌, Bytes, Option, none, some}
use totorrent.Base.{Outcome, ok, err, err_peermsg_build}
use totorrent.Base.Words.{put_uint32}
use totorrent.Piece.Block.{Block}
use totorrent.Wire.Msg.{
  PeerMsg, handshake, keep_alive, choked, unchoked, interested, not_interested, have, request,
  piece,
}

-- "BitTorrent protocol"
abbrev pub protocol_name : Bytes
protocol_name =
    b'B' ∷ b'i' ∷ b't' ∷ b'T' ∷ b'o' ∷ b'r' ∷ b'r' ∷ b'e' ∷ b'n' ∷ b't' ∷ 0x20 ∷ b'p' ∷ b'r' ∷ b'o'
    ∷ b't' ∷ b'o' ∷ b'c' ∷ b'o' ∷ b'l' ∷ []

abbrev pub reserved_bytes : Bytes
reserved_bytes = 0 ∷ 0 ∷ 0 ∷ 0 ∷ 0 ∷ 0 ∷ 0 ∷ 0 ∷ []

-- `peerId` and `infohash` are arrays of 20 bytes.
unfoldable pub build_peer_handshake_msg : Bytes → Bytes → PeerMsg
build_peer_handshake_msg peer_id infohash =
    handshake (19 ∷ (protocol_name ++ (reserved_bytes ++ (infohash ++ peer_id))))

unfoldable pub build_peer_piece_msg : Block → PeerMsg
build_peer_piece_msg block =
    piece (put_uint32 block.piece_idx ++ (put_uint32 block.begin ++ block.buff))

unfoldable pub build_peer_have_msg : ℕ → PeerMsg
build_peer_have_msg piece_idx = have (put_uint32 piece_idx)

unfoldable pub build_peer_interested_msg : PeerMsg
build_peer_interested_msg = interested []

unfoldable pub build_peer_not_interested_msg : PeerMsg
build_peer_not_interested_msg = not_interested []

unfoldable pub build_peer_keep_alive_msg : PeerMsg
build_peer_keep_alive_msg = keep_alive []

unfoldable pub build_peer_unchoked_msg : PeerMsg
build_peer_unchoked_msg = unchoked []

unfoldable pub build_peer_choked_msg : PeerMsg
build_peer_choked_msg = choked []

-- A nil block is an error.
unfoldable pub build_peer_request_msg : Option Block → Outcome PeerMsg
build_peer_request_msg none = err err_peermsg_build
build_peer_request_msg (some block) = ok (
    request
      (put_uint32 block.piece_idx ++ (put_uint32 block.begin ++ put_uint32 block.block_length)))
