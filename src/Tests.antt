-- ===== src/Tests.antt =====
-- Runs of the theorems about pieces and files at concrete inputs.
pub mod Wire
pub mod Conn
pub mod Network
pub mod Flow
pub mod Util
pub mod Random
pub mod Startup
pub mod Swarm
pub mod Transfer
use totorrent.Base.{
  ◌≢◌, get_elem?, ◌↔◌, ◌+◌, ◌*◌, ◌≤◌, ◌==◌, if◌then◌else◌, ℕ, Bool, length, true, false, List, [],
  ◌∷◌, ◌++◌, Bytes, some, ◌≡◌, refl, sym, subst, ◌∙◌, ok, arith,
}
use totorrent.Piece.Block.{Block, pos, new_block}
use totorrent.Piece.Impl.{
  Piece, regular_blocks, remaining_block, mark_last_block, set_status, set_downloader,
  get_block_from_offset, idle, downloading, done, calculate_new_piece,
}
use totorrent.Piece.Impl.Layout.{Sizes, Layout, calculate_new_piece-Layout}
use totorrent.Piece.Impl.Offsets.{get_block_from_offset-regular, remaining_block_misplaced}
use totorrent.Piece.Safe.{
  SafePieces, insert, modify, total_undone_pieces_left, get, mark_as_done, try_to_reserve,
  max_piece_idx,
}
use totorrent.Piece.Safe.Table.{undone, AllDone, mark_as_done_lem}
use totorrent.Piece.Safe.Reserve.{Call, IsTaken, reserve, finish, call, run}
use totorrent.Piece.Safe.Exclusive.{reserved_once, reserved_stays}
use totorrent.Piece.Safe.Indices.{is_downloaded}
use totorrent.FileInfo.Seek.{Serves, get_block-aligned, get_block-place}
use totorrent.Wire.Msg.{PeerMsg, have, request, piece, bytes}
use totorrent.Wire.Build.{build_peer_handshake_msg}
use totorrent.Wire.Parse.{new_peer_msg_from_buffer}
use totorrent.Wire.RoundTrip.{new_peer_msg_from_buffer-bytes}

abbrev pub a_block : Block
a_block = record {
  idx = pos 0;
  piece_idx = 1;
  begin = 0;
  buff = 7 ∷ 8 ∷ [];
  block_length = 2;
  downloader_peer_id = [];
  is_last_block = false;
}

abbrev pub a_piece : Piece
a_piece = record {
  idx = 1;
  piece_length = 4;
  blocks = a_block ∷ record a_block { idx = pos 1; begin = 2 } ∷ [];
  status = idle;
  downloader = [];
  is_last_piece = false;
}

abbrev pub pieces_0 : SafePieces
pieces_0 = (0, record a_piece { idx = 0; status = done }) ∷ (1, a_piece) ∷ []

abbrev pub twenty : ℕ → Bytes
twenty n = n ∷ n ∷ n ∷ n ∷ n ∷ n ∷ n ∷ n ∷ n ∷ n ∷ n ∷ n ∷ n ∷ n ∷ n ∷ n ∷ n ∷ n ∷ n ∷ n ∷ []

pub get_one : get 1 pieces_0 ≡ some a_piece
unfolding get
get_one = refl

abbrev pieces_1 : SafePieces
pieces_1 =
    (0, record a_piece { idx = 0; status = done })
    ∷ (1, record a_piece { status = downloading; downloader = twenty 3 })
    ∷ []

-- Two connections want piece 1, and it is done in the end.
abbrev pub calls : List Call
calls = reserve 1 (twenty 3) ∷ reserve 1 (twenty 4) ∷ finish 1 ∷ reserve 1 (twenty 4) ∷ []

abbrev pieces_2 : SafePieces
pieces_2 =
    (0, record a_piece { idx = 0; status = done })
    ∷ (1, record a_piece { status = done; downloader = twenty 3 })
    ∷ []

run-calls : run 1 pieces_0 calls ≡ ok (pieces_2, 1)
unfolding run call try_to_reserve mark_as_done modify get insert set_status set_downloader
run-calls = refl

reserved_once_example : 1 ≤ 1
reserved_once_example = reserved_once 1 pieces_0 calls {v = pieces_2} {n = 1} run-calls

abbrev later_calls : List Call
later_calls = reserve 1 (twenty 4) ∷ finish 1 ∷ reserve 1 (twenty 4) ∷ []

reserve_first : try_to_reserve 1 (twenty 3) pieces_0 ≡ ok (pieces_1, true)
unfolding try_to_reserve get insert set_status set_downloader
reserve_first = refl

run_later : run 1 pieces_1 later_calls ≡ ok (pieces_2, 0)
unfolding run call try_to_reserve mark_as_done modify get insert set_status set_downloader
run_later = refl

abbrev pub calls_won : ℕ
calls_won = 0

reserved_stays_example : IsTaken 1 (twenty 3) pieces_2 × (calls_won ≡ 0)
reserved_stays_example =
    reserved_stays 1 (twenty 3) pieces_0 {u = pieces_1} later_calls {v = pieces_2} {n = 0}
      reserve_first run_later

sizes : Sizes 5 2
sizes = record { piece_pos = omega arith; block_pos = omega arith; small = omega arith }

calculate_new_piece-Layout_example :
    (p : Piece) × (calculate_new_piece 1 5 2 false ≡ ok p)
    × (p.idx ≡ 1)
    × (p.status ≡ idle)
    × Layout 1 5 2 p
calculate_new_piece-Layout_example = calculate_new_piece-Layout 1 5 2 false sizes

ok-injective : {p q : Piece} → ok p ≡ ok q → p ≡ q
ok-injective e = cc e

calculated-Layout :
    (n : ℕ) (seeding : Bool) (p : Piece)
    → Sizes n 2
    → calculate_new_piece 1 n 2 seeding ≡ ok p
    → Layout 1 n 2 p
calculated-Layout n seeding p s e =
    let found = calculate_new_piece-Layout 1 n 2 seeding s in
    subst (Layout 1 n 2) (ok-injective (sym found.1 ∙ e)) found.4

-- Five bytes in blocks of two: the last block has the offset 0 and the number 1.
abbrev cut : Piece
cut = record {
  idx = 1;
  piece_length = 5;
  blocks =
      new_block (pos 0) 1 0 2 []
      ∷ new_block (pos 1) 1 2 2 []
      ∷ record (new_block (pos 1) 1 0 1 []) { is_last_block = true }
      ∷ [];
  status = idle;
  downloader = [];
  is_last_piece = false;
}

calculate_new_piece-five : calculate_new_piece 1 5 2 false ≡ ok cut
unfolding calculate_new_piece regular_blocks remaining_block mark_last_block new_block
calculate_new_piece-five = refl

cut-Layout : Layout 1 5 2 cut
cut-Layout = calculated-Layout 5 false cut sizes calculate_new_piece-five

-- Four bytes in blocks of two.
abbrev even : Piece
even = record {
  idx = 1;
  piece_length = 4;
  blocks =
      new_block (pos 0) 1 0 2 []
      ∷ record (new_block (pos 1) 1 2 2 []) { is_last_block = true }
      ∷ [];
  status = done;
  downloader = [];
  is_last_piece = false;
}

calculate_new_piece-four : calculate_new_piece 1 4 2 true ≡ ok even
unfolding calculate_new_piece regular_blocks remaining_block mark_last_block new_block
calculate_new_piece-four = refl

remaining_block_misplaced_example :
    (b : Block) × (get_elem? cut.blocks 2 ≡ some b) × (b.begin ≢ 4) × (b.idx ≢ pos 2)
remaining_block_misplaced_example =
    remaining_block_misplaced 1 5 2 cut sizes cut-Layout (omega arith)

four-Sizes : Sizes 4 2
four-Sizes = record { piece_pos = omega arith; block_pos = omega arith; small = omega arith }

even-Layout : Layout 1 4 2 even
even-Layout = calculated-Layout 4 true even four-Sizes calculate_new_piece-four

abbrev torrent : Bytes
torrent = 10 ∷ 11 ∷ 12 ∷ 13 ∷ 14 ∷ 15 ∷ 16 ∷ 17 ∷ []

get-even : get 1 ((1, even) ∷ []) ≡ some even
unfolding get
get-even = refl

-- The second block of the second piece.
get_block-aligned_example : Serves torrent 1 2 2 ((1, even) ∷ []) 6
get_block-aligned_example =
    get_block-aligned 1 4 2 even four-Sizes even-Layout torrent ((1, even) ∷ []) 1 get-even refl
      refl (omega arith) (omega arith)

get-cut : get 1 ((1, cut) ∷ []) ≡ some cut
unfolding get
get-cut = refl

get_block-place_example : Serves (torrent ++ torrent) 1 2 2 ((1, cut) ∷ []) 8
get_block-place_example =
    get_block-place 1 5 2 cut sizes cut-Layout (torrent ++ torrent) ((1, cut) ∷ []) 1 get-cut refl
      (omega arith) (omega arith)
