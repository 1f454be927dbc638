-- ===== src/Wire/Bitfields.antt =====
-- BITFIELD messages of peermsg.go.
use totorrent.Base.{
  ℕ, List, [], ◌∷◌, Bytes, Option, none, some, length, ltb, ◌==◌, if◌then◌else◌, Outcome, ok, err,
  err_peermsg_build, ◌>>=◌,
}
use totorrent.Util.Bitfield.{Bitfield, new_bitfield, new_bitfield_from_bytes, set_bit, as_int_slice}
use totorrent.Piece.Impl.{downloaded}
use totorrent.Piece.Safe.{SafePieces, max_piece_idx}
use totorrent.Wire.Msg.{PeerMsg, bitfield}

-- The loop over `pieces.Data()`.
unfoldable pub set_downloaded : SafePieces → Bitfield → Outcome Bitfield
set_downloaded [] f = ok f
set_downloaded ((k, p) ∷ t) f = do
  g ← if downloaded p then set_bit f p.idx else ok f
  set_downloaded t g

-- Nil pieces are an error.
unfoldable pub build_peer_bitfield_msg : Option SafePieces → Outcome PeerMsg
build_peer_bitfield_msg none = err err_peermsg_build
build_peer_bitfield_msg (some pieces) =
    if length pieces == 0
    then err err_peermsg_build
    else do f ← set_downloaded pieces (new_bitfield (max_piece_idx pieces)); ok (bitfield f.bytes)

-- `GetPieceIndices` of a payload.
unfoldable pub get_piece_indices : Bytes → ℕ → Outcome (List ℕ)
get_piece_indices p max_idx =
    let field = new_bitfield_from_bytes p in
    if ltb field.num_of_bits max_idx then err err_peermsg_build else as_int_slice field max_idx
