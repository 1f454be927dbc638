-- ===== src/FileInfo/Random.antt =====
-- The blocks, pieces and file information of random bytes, which piece.go, block.go and fileinfo.go have for the
-- tests. The bytes and numbers that are drawn are arguments.
use totorrent.Base.{
  ℕ, zero, suc, ◌%◌, ◌^◌, Bool, true, List, [], ◌∷◌, Bytes, Option, none, some, length,
  if◌then◌else◌, Outcome, ok, err, panic, blocked, ◌>>=◌, or_fail, io_error,
}
use totorrent.Piece.Block.{pos, Block, new_block}
use totorrent.Piece.Impl.{calculate_new_piece}
use totorrent.Piece.Safe.{SafePieces, new_safe_pieces, get, insert, put, mark_as_done}
use totorrent.Util.Env.{rand_range, rand_byte_slice}
use totorrent.FileInfo.{new_pieces}

-- An error that the caller panics with.
abbrev pub no_error {ℓ} : {A : Type ℓ} → Outcome A → Outcome A
no_error (ok a) = ok a
no_error (err e) = panic
no_error panic = panic
no_error blocked = blocked

-- `NewBlockFromFile`, with the file, if it can be read.
unfoldable pub new_block_from_file : ℕ → ℕ → Option Bytes → Outcome Block
new_block_from_file piece_idx begin none = panic
new_block_from_file piece_idx begin (some payload) =
    ok (new_block (pos 0) piece_idx begin (length payload % 2 ^ 32) payload)

-- `NewRandomBlock`. The number of the piece is passed to `NewBlock` as that of the block, and the other way round.
unfoldable pub new_random_block : (ℕ → ℕ) → (ℕ → ℕ) → (ℕ → Option Bytes) → ℕ → ℕ → ℕ → Outcome Block
unfolding rand_range rand_byte_slice
new_random_block draw_length draw_begin read piece_idx block_idx max_buff_size = do
  n ← rand_range draw_length 0 max_buff_size
  rand_buff ← no_error (rand_byte_slice read n)
  begin ← rand_range draw_begin 0 0xffff
  ok (new_block (pos piece_idx) block_idx (begin % 2 ^ 32) (length rand_buff % 2 ^ 32) rand_buff)

-- The bytes that are drawn for a piece, a place in its list of blocks, and a length.
abbrev pub Draws : Type 0
Draws = ℕ → ℕ → ℕ → Option Bytes

-- The loop of `NewRandomPieces` over the blocks from place `i` on: every one gets `n` bytes.
unfoldable pub fill_blocks : Draws → ℕ → ℕ → ℕ → List Block → Outcome (List Block)
unfolding rand_byte_slice
fill_blocks read k i n [] = ok []
fill_blocks read k i n (b ∷ bs) = do
  block_buff ← no_error (rand_byte_slice (read k i) n)
  rest ← fill_blocks read k (suc i) n bs
  ok (record b { buff = block_buff } ∷ rest)

-- The pieces `k`, `k + 1`, …, `count` of them.
unfoldable pub put_random_pieces : Draws → ℕ → ℕ → ℕ → ℕ → SafePieces → Outcome SafePieces
unfolding fill_blocks
put_random_pieces read zero k piece_length block_length t = ok t
put_random_pieces read (suc count) k piece_length block_length t = do
  p ← calculate_new_piece k piece_length block_length true
  blocks ← fill_blocks read k 0 block_length p.blocks
  put_random_pieces read count (suc k) piece_length block_length
      (put (record p { blocks = blocks }) t)

unfoldable pub new_random_pieces : Draws → ℕ → ℕ → ℕ → Outcome SafePieces
unfolding put_random_pieces
new_random_pieces read piece_count piece_length block_length =
    put_random_pieces read piece_count 0 piece_length block_length new_safe_pieces

-- The loop of `NewFileInfoFilledWithRandomData` over the blocks: each gets as many bytes as it is long, and an
-- error is returned.
unfoldable pub fill_exactly : Draws → ℕ → ℕ → List Block → Outcome (List Block)
fill_exactly read k i [] = ok []
fill_exactly read k i (b ∷ bs) = do
  block_buff ← or_fail (read k i b.block_length) io_error
  rest ← fill_exactly read k (suc i) bs
  ok (record b { buff = block_buff } ∷ rest)

-- The loop over the pieces `k`, `k + 1`, …, `count` of them.
unfoldable pub fill_pieces : Draws → Bool → ℕ → ℕ → SafePieces → Outcome SafePieces
unfolding fill_exactly
fill_pieces read is_seeding zero k t = ok t
fill_pieces read is_seeding (suc count) k t = elim (get k t) [
  | none ↦ panic
  | some p ↦ (do
    blocks ← fill_exactly read k 0 p.blocks
    let filled = insert k (record p { blocks = blocks }) t
    u ← if is_seeding then mark_as_done p.idx filled else ok filled
    fill_pieces read is_seeding count (suc k) u)
]

unfoldable pub new_file_info_filled_with_random_data :
    Draws → ℕ → ℕ → ℕ → ℕ → Bool → Outcome SafePieces
unfolding fill_pieces
new_file_info_filled_with_random_data read last_idx torrent_length piece_length block_length
      is_seeding =
    do
      t ← new_pieces last_idx torrent_length piece_length block_length is_seeding
      fill_pieces read is_seeding (length t) 0 t
