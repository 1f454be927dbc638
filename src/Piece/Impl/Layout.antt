-- ===== src/Piece/Impl/Layout.antt =====
-- The blocks that `CalculateNewPiece` of piece.go cuts a piece into.
use totorrent.Base.{
  ℕ, suc, ◌+◌, ◌*◌, ◌/◌, ◌%◌, ◌^◌, ◌≤◌, ◌<◌, ◌≡◌, ◌≢◌, refl, sym, ◌∙◌, ap, Bool, true, false, List,
  [], ◌∷◌, some, length, length-append, get_elem?, ◌==◌, if◌then◌else◌, ok, arith, Bool-cases,
  ==_iff, inl, inr,
}
use totorrent.Piece.Block.{Block, pos, new_block}
use totorrent.Piece.Impl.{
  Piece, regular_blocks, remaining_block, mark_last_block, unmarked_blocks, calculate_new_piece,
  uint32, idle, done,
}
use native.Mathlib.Nat.{div-add-mod, mod-lt, zero-add}
use totorrent.Piece.Impl.Marks.{
  total_length, marked, Marks, total_length-append, mark_last_block_lem, length-regular_blocks,
  total_length-regular_blocks, get_elem?-regular_blocks, get_elem?-append_front,
  get_elem?-append_last,
}
use mathlib.Core.List.{append-nil}

-- The lengths of a piece and of its blocks for which no offset wraps.
pub record Sizes (n l : ℕ) : Type 0 where
  pub piece_pos : 0 < n
  pub block_pos : 0 < l
  pub small : n + l ≤ 2 ^ 32

-- How many blocks a piece has: the full ones, and one for what is left over.
abbrev pub block_total : ℕ → ℕ → ℕ
block_total n l = n / l + (if n % l == 0 then 0 else 1)

-- What `CalculateNewPiece` promises of the blocks of a piece.
pub record Layout (k n l : ℕ) (p : Piece) : Type 0 where
  pub count : length p.blocks ≡ block_total n l
  pub covers : total_length p.blocks ≡ n
  pub regular :
      (i : ℕ)
      → i < n / l
      → get_elem? p.blocks i
        ≡ some (marked (suc i == block_total n l) (new_block (pos i) k (i * l) l []))
  pub rest :
      n % l ≢ 0
      → get_elem? p.blocks (n / l) ≡ some (marked true (remaining_block k (n / l) l (n % l)))

module _ (k n l : ℕ) (s : Sizes n l) where
  abbrev front : List Block
  front = regular_blocks k l 0 (n / l)

  parts : n / l * l + n % l ≡ n
  parts = omega (arith, div-add-mod n l)

  offset_small : (i : ℕ) → i ≤ n / l → i * l ≤ n
  offset_small i h = grind (arith, parts)

  small_mod : (x : ℕ) → x < 2 ^ 32 → x % 2 ^ 32 ≡ x
  small_mod x h = omega arith

  uint32_l : uint32 l ≡ l
  uint32_l = omega (arith, s.piece_pos, s.small)

  no_wrap :
      (i : ℕ)
      → i ≤ n / l
      → some (new_block (pos (0 + i)) k (uint32 ((0 + i) * l)) (uint32 l) [])
        ≡ some (new_block (pos i) k (i * l) l [])
  no_wrap i h =
      rw (zero-add i, uint32_l)
        (rw (small_mod (i * l) (omega (arith, offset_small i h, s.block_pos, s.small))))

  length-unmarked : length (unmarked_blocks k n l) ≡ block_total n l
  length-unmarked = elim (Bool-cases (n % l == 0)) [
    | inl e ↦ rw e (omega (arith, length-append front [], length-regular_blocks k l 0 (n / l)))
    | inr e ↦ rw e (
        omega (
          arith,
          length-append front (remaining_block k (n / l) l (n % l) ∷ []),
          length-regular_blocks k l 0 (n / l),
        ))
  ]

  front_total : total_length front ≡ n / l * l
  front_total = total_length-regular_blocks k l 0 (n / l) ∙ ap (◌*◌ (n / l)) uint32_l

  total_length-unmarked : total_length (unmarked_blocks k n l) ≡ n
  unfolding remaining_block new_block
  total_length-unmarked = elim (Bool-cases (n % l == 0)) [
    | inl e ↦ rw (e, append-nil) (front_total ∙ omega (arith, parts, (==_iff (n % l) 0).0 e))
    | inr e ↦ rw e (
        omega (
          arith,
          total_length-append front (remaining_block k (n / l) l (n % l) ∷ []),
          front_total,
          parts,
          mod-lt n {m = l} s.block_pos,
          s.small,
        ))
  ]

  unmarked-regular :
      (i : ℕ)
      → i < n / l
      → get_elem? (unmarked_blocks k n l) i ≡ some (new_block (pos i) k (i * l) l [])
  unmarked-regular i h =
      get_elem?-append_front front _ i (omega (arith, length-regular_blocks k l 0 (n / l)))
      ∙ get_elem?-regular_blocks k l 0 (n / l) i h
      ∙ no_wrap i (omega arith)

  unmarked-rest :
      n % l ≢ 0
      → get_elem? (unmarked_blocks k n l) (n / l) ≡ some (remaining_block k (n / l) l (n % l))
  unmarked-rest h = elim (Bool-cases (n % l == 0)) [
    | inl e ↦ absurd (ground arith)
    | inr e ↦
        rw e (get_elem?-append_last front _ (n / l) (sym (length-regular_blocks k l 0 (n / l))))
  ]

  total_pos : 0 < block_total n l
  total_pos = grind (arith, parts, s.piece_pos)

module _ (k n l : ℕ) (s : Sizes n l) (p : Piece) (m : Marks (unmarked_blocks k n l) p.blocks) where
  last : n % l ≢ 0 → (suc (n / l) == length (unmarked_blocks k n l)) ≡ true
  last h = ground (arith, length-unmarked k n l s)

  Marks-Layout : Layout k n l p
  Marks-Layout = record {
    count = m.same_length ∙ length-unmarked k n l s;
    covers = m.same_total ∙ total_length-unmarked k n l s;
    regular = λ i h. rw (← length-unmarked k n l s) (m.elems i _ (unmarked-regular k n l s i h));
    rest = λ h. rw (last h) at (m.elems (n / l) _ (unmarked-rest k n l s h));
  }

abbrev piece_of : ℕ → ℕ → Bool → List Block → Piece
piece_of k n seeding bs = record {
  idx = k;
  piece_length = n;
  blocks = bs;
  status = if seeding then done else idle;
  downloader = [];
  is_last_piece = false;
}

calculate_new_piece-ok :
    (k n l : ℕ) (seeding : Bool) (bs : List Block)
    → 0 < l
    → mark_last_block (unmarked_blocks k n l) ≡ ok bs
    → calculate_new_piece k n l seeding ≡ ok (piece_of k n seeding bs)
unfolding calculate_new_piece
calculate_new_piece-ok k n l seeding bs h e = ground (arith, e)

-- For a positive piece and block length of which the sum is at most 2 ^ 32, `CalculateNewPiece`
-- returns a piece cut as follows: full blocks at the multiples of the block length, numbered from
-- 0, then a block for the rest, if any; together they are as long as the piece, and the last one
-- and no other is marked.
pub calculate_new_piece-Layout :
    (k n l : ℕ) (seeding : Bool)
    → Sizes n l
    → (p : Piece) × (calculate_new_piece k n l seeding ≡ ok p)
      × (p.idx ≡ k)
      × (p.status ≡ (if seeding then done else idle))
      × Layout k n l p
calculate_new_piece-Layout k n l seeding s =
    let (cs, e, m) =
      mark_last_block_lem (unmarked_blocks k n l)
        (omega (arith, length-unmarked k n l s, total_pos k n l s)) in
    let p = piece_of k n seeding cs in
    (p, calculate_new_piece-ok k n l seeding cs s.block_pos e, refl, refl, Marks-Layout k n l s p m)
