-- ===== src/Piece/Impl/Offsets.antt =====
-- Finding a block by its offset in piece.go, and the offset of the block behind the full ones.
use totorrent.Base.{
  ℕ, suc, ◌+◌, ◌*◌, ◌/◌, ◌%◌, ◌^◌, ◌≤◌, ◌<◌, ◌≡◌, ◌≢◌, [], some, length, get_elem?, ◌==◌, ok, arith,
}
use totorrent.Piece.Block.{Block, pos, new_block}
use totorrent.Piece.Impl.{Piece, remaining_block, get_block_from_offset}
use totorrent.Piece.Impl.Marks.{marked}
use totorrent.Piece.Impl.Layout.{Sizes, Layout, block_total}
use native.Mathlib.Nat.{mod-lt, div-add-mod, div-le_self, mul-div_cancel}

module _ (k n l : ℕ) (p : Piece) (s : Sizes n l) (y : Layout k n l p) where
  count_small : length p.blocks < 2 ^ 32
  count_small =
      ground (arith, y.count, div-le_self n l, mod-lt n {m = l} s.block_pos, s.small, s.piece_pos)

  mul_div : (i : ℕ) → i * l / l ≡ i
  mul_div i = mul-div_cancel i s.block_pos

  parts : n / l * l + n % l ≡ n
  parts = omega (arith, div-add-mod n l)

  mod_pos : n % l ≢ 0 → 0 < n % l
  mod_pos h = omega arith

  div_le_mul : n / l ≤ n / l * l
  div_le_mul = grind (arith, s.block_pos)

  -- In a piece cut by `CalculateNewPiece`, a REQUEST with the offset and length of a full block
  -- finds that block.
  pub get_block_from_offset-regular :
      (i : ℕ)
      → i < n / l
      → get_block_from_offset p (i * l) l
        ≡ ok (some (marked (suc i == block_total n l) (new_block (pos i) k (i * l) l [])))
  unfolding get_block_from_offset
  get_block_from_offset-regular i h =
      ground (arith, s.block_pos, mul_div i, count_small, y.count, y.regular i h)

  -- In a piece cut by `CalculateNewPiece` with a rest, the block behind the full ones has neither
  -- their next offset nor their next number.
  pub remaining_block_misplaced :
      n % l ≢ 0
      → (b : Block) × (get_elem? p.blocks (n / l) ≡ some b)
        × (b.begin ≢ n / l * l)
        × (b.idx ≢ pos (n / l))
  unfolding remaining_block new_block
  remaining_block_misplaced h = (
    _,
    y.rest h,
    λ e. absurd (omega (arith, parts, div_le_mul, s.small, s.block_pos, mod_pos h)),
    λ e. ground arith,
  )
