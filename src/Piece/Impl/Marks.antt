-- ===== src/Piece/Impl/Marks.antt =====
-- Lists of blocks (piece.go): their elements, their total length, and the mark on the last one.
use totorrent.Base.{
  ℕ, zero, suc, ◌+◌, ◌*◌, ◌<◌, ◌≡◌, refl, ap, Bool, true, List, [], ◌∷◌, ◌++◌, some, length,
  get_elem?, ◌==◌, if◌then◌else◌, ok, arith,
}
use totorrent.Piece.Block.{Block, pos, new_block}
use totorrent.Piece.Impl.{regular_blocks, mark_last_block, uint32}
use native.Mathlib.Nat.{add-zero}

abbrev pub total_length : List Block → ℕ
total_length [] = 0
total_length (b ∷ bs) = b.block_length + total_length bs

abbrev pub marked : Bool → Block → Block
marked last b = if last then record b { is_last_block = true } else b

pub total_length-append :
    (bs cs : List Block) → total_length (bs ++ cs) ≡ total_length bs + total_length cs
total_length-append [] cs = omega arith
total_length-append (b ∷ bs) cs = omega (arith, total_length-append bs cs)

-- What marking the last block of a list keeps and changes.
pub record Marks (bs cs : List Block) : Type 0 where
  pub same_length : length cs ≡ length bs
  pub same_total : total_length cs ≡ total_length bs
  pub elems :
      (i : ℕ) (b : Block)
      → get_elem? bs i ≡ some b
      → get_elem? cs i ≡ some (marked (suc i == length bs) b)

mark_last_block-Marks :
    (b : Block) (bs : List Block)
    → (cs : List Block) × (mark_last_block (b ∷ bs) ≡ ok cs) × Marks (b ∷ bs) cs
unfolding mark_last_block
mark_last_block-Marks b [] =
    (_, refl, record { same_length = refl; same_total = refl; elems = one })
  where
    one :
        (i : ℕ) (x : Block)
        → get_elem? (b ∷ []) i ≡ some x
        → get_elem? (record b { is_last_block = true } ∷ []) i ≡ some (marked (suc i == 1) x)
    one zero x e = ground arith
    one (suc i) x e = cc
mark_last_block-Marks b (c ∷ bs) =
    let (cs, e, m) = mark_last_block-Marks c bs in
    (
      b ∷ cs,
      rw e,
      record {
        same_length = omega (arith, m.same_length);
        same_total = omega (arith, m.same_total);
        elems = more cs m.elems;
      },
    )
  where
    more :
        (cs : List Block)
        → ((i : ℕ) (x : Block)
            → get_elem? (c ∷ bs) i ≡ some x
            → get_elem? cs i ≡ some (marked (suc i == length (c ∷ bs)) x))
        → (i : ℕ) (x : Block) → get_elem? (b ∷ c ∷ bs) i ≡ some x
        → get_elem? (b ∷ cs) i ≡ some (marked (suc i == length (b ∷ c ∷ bs)) x)
    more cs h zero x e = ground arith
    more cs h (suc i) x e = ground (arith, h i x e)

pub mark_last_block_lem :
    (bs : List Block)
    → 0 < length bs
    → (cs : List Block) × (mark_last_block bs ≡ ok cs) × Marks bs cs
mark_last_block_lem [] h = absurd (omega arith)
mark_last_block_lem (b ∷ bs) h = mark_last_block-Marks b bs

pub length-regular_blocks : (k l i n : ℕ) → length (regular_blocks k l i n) ≡ n
unfolding regular_blocks
length-regular_blocks k l i zero = refl
length-regular_blocks k l i (suc n) = ap suc (length-regular_blocks k l (suc i) n)

pub total_length-regular_blocks :
    (k l i n : ℕ) → total_length (regular_blocks k l i n) ≡ n * uint32 l
unfolding regular_blocks new_block
total_length-regular_blocks k l i zero = omega arith
total_length-regular_blocks k l i (suc n) = omega (arith, total_length-regular_blocks k l (suc i) n)

pub get_elem?-regular_blocks :
    (k l j n i : ℕ)
    → i < n
    → get_elem? (regular_blocks k l j n) i
      ≡ some (new_block (pos (j + i)) k (uint32 ((j + i) * l)) (uint32 l) [])
unfolding regular_blocks
get_elem?-regular_blocks k l j zero i h = absurd (omega arith)
get_elem?-regular_blocks k l j (suc n) zero h = rw (add-zero j)
get_elem?-regular_blocks k l j (suc n) (suc i) h =
    rw (add_suc_comm j i) (get_elem?-regular_blocks k l (suc j) n i (omega arith))
  where
    add_suc_comm : (a b : ℕ) → a + suc b ≡ suc a + b
    add_suc_comm a b = omega arith

pub get_elem?-append_front :
    (xs ys : List Block) (i : ℕ) → i < length xs → get_elem? (xs ++ ys) i ≡ get_elem? xs i
get_elem?-append_front [] ys i h = absurd (omega arith)
get_elem?-append_front (x ∷ xs) ys zero h = refl
get_elem?-append_front (x ∷ xs) ys (suc i) h = get_elem?-append_front xs ys i (omega arith)

pub get_elem?-append_last :
    (xs : List Block) (y : Block) (i : ℕ) → i ≡ length xs → get_elem? (xs ++ y ∷ []) i ≡ some y
get_elem?-append_last [] y i h = rw h
get_elem?-append_last (x ∷ xs) y zero h = absurd (omega arith)
get_elem?-append_last (x ∷ xs) y (suc i) h = get_elem?-append_last xs y i (omega arith)
