-- ===== src/Tests/Wire.antt =====
-- Runs of the theorems about messages at concrete inputs.
use totorrent.Base.{◌%◌, ◌≡◌, ◌≢◌, ◌↔◌, refl, true, [], ◌∷◌, ◌++◌, Bytes, some, ok, panic, arith}
use totorrent.Piece.Block.{pos, new_block}
use totorrent.Piece.Impl.{downloaded, done}
use totorrent.Piece.Safe.{SafePieces, max_piece_idx, max_from}
use totorrent.Piece.Safe.Indices.{is_downloaded}
use totorrent.Tests.{a_block, a_piece, pieces_0}
use totorrent.Wire.Msg.{piece, request, have, bitfield, bytes, get_payload}
use totorrent.Wire.Build.{build_peer_request_msg, build_peer_piece_msg}
use totorrent.Wire.Parse.{new_peer_msg_from_buffer, parse_raw_peer_msg_length}
use totorrent.Wire.Fields.{request_get_block, piece_get_block, request_get_block_length}
use totorrent.Wire.Bitfields.{build_peer_bitfield_msg, get_piece_indices}
use totorrent.Wire.RoundTrip.{new_peer_msg_from_buffer-bytes, have_bytes-length_four}
use totorrent.Wire.Length.{parse_raw_peer_msg_length-bytes}
use totorrent.Wire.Blocks.{FitsWire, request_get_block-build, piece_get_block-build}
use totorrent.Wire.Malformed.{request_get_block_panics}
use totorrent.Wire.PieceList.{
  downloaded_list, get_piece_indices-build, build_peer_bitfield_msg-panic,
}

new_peer_msg_from_buffer-bytes_example :
    (b : Bytes) × (bytes (piece (1 ∷ 2 ∷ 3 ∷ [])) ≡ ok b)
    × (new_peer_msg_from_buffer b ≡ ok (piece (1 ∷ 2 ∷ 3 ∷ [])))
new_peer_msg_from_buffer-bytes_example =
    new_peer_msg_from_buffer-bytes (piece (1 ∷ 2 ∷ 3 ∷ [])) (omega arith)

abbrev have_five : Bytes
have_five = 0 ∷ 0 ∷ 0 ∷ 5 ∷ 4 ∷ 0 ∷ 0 ∷ 0 ∷ 5 ∷ []

have_five_bytes : bytes (have (0 ∷ 0 ∷ 0 ∷ 5 ∷ [])) ≡ ok have_five
unfolding bytes
have_five_bytes = have_bytes-length_four (0 ∷ 0 ∷ 0 ∷ 5 ∷ []) refl

-- Another message follows in the buffer.
parse_raw_peer_msg_length-bytes_example : parse_raw_peer_msg_length (have_five ++ 0 ∷ 0 ∷ []) ≡ ok 9
parse_raw_peer_msg_length-bytes_example =
    parse_raw_peer_msg_length-bytes (have (0 ∷ 0 ∷ 0 ∷ 5 ∷ [])) have_five (0 ∷ 0 ∷ []) tt
      have_five_bytes (omega arith)

a_block-FitsWire : FitsWire a_block
a_block-FitsWire = record {
  piece_idx_fits = omega arith;
  begin_fits = omega arith;
  length_fits = omega arith;
}

request_get_block-build_example :
    (p : Bytes) × (build_peer_request_msg (some a_block) ≡ ok (request p))
    × (request_get_block p ≡ ok (new_block (pos 0) 1 0 2 []))
request_get_block-build_example = request_get_block-build a_block a_block-FitsWire

piece_get_block-build_example :
    piece_get_block (get_payload (build_peer_piece_msg a_block))
    ≡ ok (new_block (pos 0) 1 0 2 (7 ∷ 8 ∷ []))
piece_get_block-build_example = piece_get_block-build a_block a_block-FitsWire

abbrev zero_length : Bytes
zero_length = 0 ∷ 0 ∷ 0 ∷ 1 ∷ 0 ∷ 0 ∷ 0 ∷ 2 ∷ 0 ∷ 0 ∷ 0 ∷ 0 ∷ []

request_get_block_panics_example :
    (request_get_block zero_length ≡ panic) ↔ (request_get_block_length zero_length ≡ ok 0)
request_get_block_panics_example = request_get_block_panics zero_length

max_of_pieces : max_piece_idx pieces_0 ≡ 1
unfolding max_piece_idx max_from
max_of_pieces = refl

not_multiple : max_piece_idx pieces_0 % 8 ≢ 0
not_multiple = rw max_of_pieces (omega arith)

get_piece_indices-build_example :
    (p : Bytes) × (build_peer_bitfield_msg (some pieces_0) ≡ ok (bitfield p))
    × (get_piece_indices p (max_piece_idx pieces_0) ≡ ok (downloaded_list pieces_0))
get_piece_indices-build_example =
    get_piece_indices-build pieces_0 (omega arith) (refl, (refl, tt)) not_multiple

-- A torrent of one piece, which is downloaded.
abbrev one_piece : SafePieces
one_piece = (0, record a_piece { idx = 0; status = done }) ∷ []

max_of_one : max_piece_idx one_piece ≡ 0
unfolding max_piece_idx max_from
max_of_one = refl

multiple : max_piece_idx one_piece % 8 ≡ 0
multiple = rw max_of_one refl

one_downloaded : is_downloaded one_piece (max_piece_idx one_piece) ≡ true
unfolding max_piece_idx max_from downloaded
one_downloaded = refl

build_peer_bitfield_msg-panic_example : build_peer_bitfield_msg (some one_piece) ≡ panic
build_peer_bitfield_msg-panic_example =
    build_peer_bitfield_msg-panic one_piece (omega arith) multiple one_downloaded
