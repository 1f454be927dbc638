-- ===== src/Tests/Transfer.antt =====
-- A torrent of four bytes goes from one client to another.
use totorrent.Base.{ℕ, ◌≡◌, refl, Bool, true, false, [], ◌∷◌, Bytes, some, none, map, arith, ok}
use totorrent.Piece.Block.{Block, pos, new_block}
use totorrent.Piece.Impl.{
  Piece, PieceStatus, idle, done, calculate_new_piece, regular_blocks, mark_last_block,
  set_as_last_piece,
}
use totorrent.Piece.Safe.{
  SafePieces, new_safe_pieces, get, insert, put, modify, set_as_last, total_undone_pieces_left,
}
use totorrent.Wire.Msg.{bitfield}
use totorrent.Wire.Bitfields.{build_peer_bitfield_msg}
use totorrent.FileInfo.{new_pieces, put_regular_pieces}
use totorrent.FileInfo.Assemble.{file_of, assemble_blocks}
use totorrent.Conn.State.{Conn}
use totorrent.Conn.Handlers.{Files, default_peer_msg_func}
use totorrent.Transfer.{exchange}
use totorrent.Transfer.Answers.{IsRegular}
use totorrent.Transfer.Download.{download_whole}
use totorrent.Tests.Conn.{a_conn, no_files}

abbrev four_bytes : Bytes
four_bytes = 11 ∷ 12 ∷ 13 ∷ 14 ∷ []

abbrev byte_block : ℕ → ℕ → Bool → Block
byte_block k i is_last = record {
  idx = pos i;
  piece_idx = k;
  begin = i;
  buff = [];
  block_length = 1;
  downloader_peer_id = [];
  is_last_block = is_last;
}

abbrev two_blocks : ℕ → PieceStatus → Bool → Piece
two_blocks k status is_last = record {
  idx = k;
  piece_length = 2;
  blocks = byte_block k 0 false ∷ byte_block k 1 true ∷ [];
  status = status;
  downloader = [];
  is_last_piece = is_last;
}

abbrev two_pieces : PieceStatus → SafePieces
two_pieces status = (0, two_blocks 0 status false) ∷ (1, two_blocks 1 status true) ∷ []

new_idle : new_pieces 1 4 2 1 false ≡ ok (two_pieces idle)
unfolding new_pieces put_regular_pieces calculate_new_piece regular_blocks mark_last_block
    new_safe_pieces put insert set_as_last modify get set_as_last_piece new_block
new_idle = refl

new_done : new_pieces 1 4 2 1 true ≡ ok (two_pieces done)
unfolding new_pieces put_regular_pieces calculate_new_piece regular_blocks mark_last_block
    new_safe_pieces put insert set_as_last modify get set_as_last_piece new_block
new_done = refl

abbrev empty_conn : Conn
empty_conn = record a_conn {
  pieces_to_download_queue = [];
  block_requester = none;
  pieces = two_pieces idle;
}

abbrev full_conn : Conn
full_conn = record empty_conn { pieces = two_pieces done; is_seeding = true }

abbrev full_files : Files
full_files = record no_files { finished_file = some four_bytes }

four_bytes-IsRegular : IsRegular four_bytes 2 2 1
four_bytes-IsRegular = record {
  length_pos = omega arith;
  blocks_pos = omega arith;
  pieces_fit = omega arith;
  piece_fits = omega arith;
  whole = refl;
}

download_whole_example :
    (p : Bytes) × (b d u : Conn) × (build_peer_bitfield_msg (some (two_pieces done))
      ≡ ok (bitfield p))
    × (default_peer_msg_func no_files (bitfield p) empty_conn ≡ ok (b, none))
    × (exchange 2 no_files full_files b full_conn ≡ ok (d, u, []))
    × (d.is_seeding ≡ true)
    × (total_undone_pieces_left d.pieces ≡ 0)
    × (assemble_blocks false (record {
      blocks = some (map file_of d.saved_blocks);
      finished_file = none;
      has_working_directory = true;
      can_create = true;
    })
        ≡ ok (record { finished = some four_bytes; left = []; error = none }))
download_whole_example =
    download_whole four_bytes 1 2 1 four_bytes-IsRegular (omega arith) no_files full_files
      empty_conn full_conn (record { saves = refl; assembles = refl })
      (record { single_file = refl; file = refl }) new_idle new_done (omega arith)
      (record { no_queue = refl; no_outbox = refl; no_blocks = refl }) refl
