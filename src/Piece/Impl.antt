-- ===== src/Piece/Impl.antt =====
-- piece/piece.go: one piece (`PieceImpl`). A method that mutates the piece returns the new one.
pub mod Layout
pub mod Marks
pub mod Offsets
use totorrent.Base.{
  ℕ, zero, suc, ◌+◌, ◌-◌, ◌*◌, ◌/◌, ◌%◌, ◌^◌, Bool, true, false, List, [], ◌∷◌, ◌++◌, Bytes, Option,
  none, length, get_elem?, leb, ltb, ◌==◌, if◌then◌else◌, Outcome, ok, panic, ◌>>=◌,
}
use totorrent.Piece.Block.{Block, ℤ, pos, negsuc, new_block}

pub data PieceStatus : Type 0 where
  idle downloading done : PieceStatus

pub PieceStatus-discrete : Discrete PieceStatus
PieceStatus-discrete = hlevel

abbrev pub is_idle : PieceStatus → Bool
is_idle idle = true
is_idle downloading = false
is_idle done = false

abbrev pub is_done : PieceStatus → Bool
is_done idle = false
is_done downloading = false
is_done done = true

pub record Piece : Type 0 where
  pub idx : ℕ
  pub piece_length : ℕ
  pub blocks : List Block
  pub status : PieceStatus
  pub downloader : Bytes
  pub is_last_piece : Bool

unfoldable pub new_piece : ℕ → ℕ → PieceStatus → Piece
new_piece idx piece_length status = record {
  idx = idx;
  piece_length = piece_length;
  blocks = [];
  status = status;
  downloader = [];
  is_last_piece = false;
}

unfoldable pub new_piece_with_blocks : ℕ → ℕ → List Block → Piece
new_piece_with_blocks idx piece_length blocks = record {
  idx = idx;
  piece_length = piece_length;
  blocks = blocks;
  status = idle;
  downloader = [];
  is_last_piece = false;
}

-- The `int` a - b.
abbrev pub sub_int : ℕ → ℕ → ℤ
sub_int a b = if leb b a then pos (a - b) else negsuc (b - a - 1)

abbrev pub uint32 : ℕ → ℕ
uint32 n = n % 2 ^ 32

-- `uint32(a - b)` of two `int`s of 64 bits.
abbrev pub uint32_sub : ℕ → ℕ → ℕ
uint32_sub a b = (a + 2 ^ 64 - b) % 2 ^ 32

-- The blocks of full length: `count` of them from number `block_idx` on.
unfoldable pub regular_blocks : ℕ → ℕ → ℕ → ℕ → List Block
regular_blocks piece_idx block_length block_idx zero = []
regular_blocks piece_idx block_length block_idx (suc count) =
    new_block (pos block_idx) piece_idx (uint32 (block_idx * block_length)) (uint32 block_length) []
    ∷ regular_blocks piece_idx block_length (suc block_idx) count

-- The block of `remaining` bytes behind them. The source writes its offset as
-- `uint32(totalBlocks-1*blockLength)`, which is `totalBlocks - blockLength`.
unfoldable pub remaining_block : ℕ → ℕ → ℕ → ℕ → Block
remaining_block piece_idx total_blocks block_length remaining =
    new_block (sub_int total_blocks 1) piece_idx (uint32_sub total_blocks (1 * block_length))
      (uint32 remaining) []

-- `p.blocks[len(p.blocks)-1].IsLastBlock = true`
unfoldable pub mark_last_block : List Block → Outcome (List Block)
mark_last_block [] = panic
mark_last_block (b ∷ []) = ok (record b { is_last_block = true } ∷ [])
mark_last_block (b ∷ c ∷ bs) = do rest ← mark_last_block (c ∷ bs); ok (b ∷ rest)

abbrev pub unmarked_blocks : ℕ → ℕ → ℕ → List Block
unmarked_blocks piece_idx piece_length block_length =
    let total_blocks = piece_length / block_length in
    let remaining_length = piece_length % block_length in
    regular_blocks piece_idx block_length 0 total_blocks
    ++ (if remaining_length == 0
        then []
        else remaining_block piece_idx total_blocks block_length remaining_length ∷ [])

-- A block length of 0 divides by 0, and a piece without blocks has no last one: both panic.
unfoldable pub calculate_new_piece : ℕ → ℕ → ℕ → Bool → Outcome Piece
calculate_new_piece piece_idx piece_length block_length is_seeding =
    if block_length == 0 then panic else do
      blocks ← mark_last_block (unmarked_blocks piece_idx piece_length block_length)
      ok (record {
        idx = piece_idx;
        piece_length = piece_length;
        blocks = blocks;
        status = if is_seeding then done else idle;
        downloader = [];
        is_last_piece = false;
      })

unfoldable pub put_block : Piece → Block → Piece
put_block p b = record p { blocks = p.blocks ++ b ∷ [] }

unfoldable pub downloaded : Piece → Bool
downloaded p = is_done p.status

-- The `uint32` division panics on a length of 0; a block that is not there is nil.
unfoldable pub get_block_from_offset : Piece → ℕ → ℕ → Outcome (Option Block)
get_block_from_offset p block_begin block_length =
    if block_length == 0
    then panic
    else if leb (uint32 (length p.blocks)) (block_begin / block_length)
    then ok none
    else ok (get_elem? p.blocks (block_begin / block_length))

unfoldable pub set_status : Piece → PieceStatus → Piece
set_status p status = record p { status = status }

unfoldable pub set_downloader : Piece → Bytes → Piece
set_downloader p peer_id = record p { downloader = peer_id }

unfoldable pub set_as_last_piece : Piece → Piece
set_as_last_piece p = record p { is_last_piece = true }

unfoldable pub block_count : Piece → ℕ
block_count p = length p.blocks

unfoldable pub set_blocks : Piece → List Block → Piece
set_blocks p blocks = record p { blocks = blocks }

unfoldable pub set_length : Piece → ℕ → Piece
set_length p i = record p { piece_length = i }

unfoldable pub set_idx : Piece → ℕ → Piece
set_idx p i = record p { idx = i }
