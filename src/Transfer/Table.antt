-- ===== src/Transfer/Table.antt =====
-- Pieces of full blocks in the tables of two clients (piece.go, fileinfo.go).
use totorrent.Base.{
  ℕ, zero, suc, ◌+◌, ◌*◌, ◌/◌, ◌%◌, ◌^◌, ◌<◌, ◌≡◌, refl, sym, ◌∙◌, subst, Bool-cases, inl, inr,
  List, [], ◌∷◌, Bytes, some, length, get_elem?, set, length-set, ◌==◌, ==_iff, arith, ok,
}
use totorrent.Piece.Block.{Block, pos, new_block}
use totorrent.Piece.Impl.{Piece, get_block_from_offset}
use totorrent.Piece.Impl.Marks.{marked}
use totorrent.Piece.Impl.Layout.{Layout, block_total}
use totorrent.Piece.Safe.{SafePieces, get}
use totorrent.Piece.Safe.Table.{get-insert}
use totorrent.FileInfo.Seek.{IsAt, marked-IsAt, filled, refilled}
use native.Mathlib.Nat.{mul-div_cancel, add-zero}

-- The blocks of piece `k` from number `i` on, of `l` bytes each.
abbrev pub AreFrom : ℕ → ℕ → ℕ → List Block → Type 0
AreFrom k l i [] = Unit {0}
AreFrom k l i (b ∷ bs) = IsAt k i l b × AreFrom k l (suc i) bs

-- Piece `k` is there, with `m` blocks of `l` bytes.
pub record HasBlocks (k m l : ℕ) (t : SafePieces) : Type 0 where
  pub piece : Piece
  pub there : get k t ≡ some piece
  pub number : piece.idx ≡ k
  pub count : length piece.blocks ≡ m
  pub cut : AreFrom k l 0 piece.blocks

-- So are all pieces from `k` to the end.
abbrev pub HasAll : ℕ → ℕ → ℕ → SafePieces → Type 0
HasAll pieces m l t = (k : ℕ) → k < pieces → HasBlocks k m l t

AreFrom_of :
    (k l i : ℕ) (bs : List Block)
    → ((j : ℕ) → j < length bs → (b : Block) × (get_elem? bs j ≡ some b) × IsAt k (i + j) l b)
    → AreFrom k l i bs
AreFrom_of k l i [] h = tt
AreFrom_of k l i (b ∷ bs) h = (
  first (h 0 (omega arith)),
  AreFrom_of k l (suc i) bs λ j s.
      let (c, e, at) = h (suc j) (omega arith) in
      (c, e, subst (λ n. IsAt k n l c) (omega arith) at),
)
  where
    first : (c : Block) × (get_elem? (b ∷ bs) 0 ≡ some c) × IsAt k (i + 0) l c → IsAt k i l b
    first (c, e, at) =
        let same : c ≡ b = cc e in
        subst (IsAt k i l) same (subst (λ n. IsAt k n l c) (add-zero i) at)

pub AreFrom-get :
    (k l i j : ℕ) (bs : List Block)
    → j < length bs
    → AreFrom k l i bs
    → (b : Block) × (get_elem? bs j ≡ some b) × IsAt k (i + j) l b
AreFrom-get k l i j [] h a = absurd (omega arith)
AreFrom-get k l i zero (b ∷ bs) h a = (b, refl, subst (λ n. IsAt k n l b) (sym (add-zero i)) a.0)
AreFrom-get k l i (suc j) (b ∷ bs) h a =
    let (c, e, at) = AreFrom-get k l (suc i) j bs (omega arith) a.1 in
    (c, e, subst (λ n. IsAt k n l c) (omega arith) at)

AreFrom-set :
    (k l i j : ℕ) (bs : List Block) (b : Block)
    → IsAt k (i + j) l b
    → AreFrom k l i bs
    → AreFrom k l i (set bs j b)
AreFrom-set k l i j [] b at a = tt
AreFrom-set k l i zero (c ∷ bs) b at a = (subst (λ n. IsAt k n l b) (add-zero i) at, a.1)
AreFrom-set k l i (suc j) (c ∷ bs) b at a =
    (a.0, AreFrom-set k l (suc i) j bs b (subst (λ n. IsAt k n l b) (omega arith) at) a.1)

-- A piece that is cut as `m` full blocks.
pub Layout-HasBlocks :
    (k m l : ℕ) (p : Piece) (t : SafePieces)
    → 0 < l
    → get k t ≡ some p
    → p.idx ≡ k
    → Layout k (m * l) l p
    → HasBlocks k m l t
Layout-HasBlocks k m l p t l_pos e idx y =
    let full : m * l / l ≡ m = mul-div_cancel m l_pos in
    let none_left : (m * l) % l ≡ 0 = grind (arith, l_pos) in
    let total : block_total (m * l) l ≡ m = rw (full, none_left) (omega arith) in
    record {
      piece = p;
      there = e;
      number = idx;
      count = y.count ∙ total;
      cut = AreFrom_of k l 0 p.blocks λ j h. (
        marked (suc j == block_total (m * l) l) (new_block (pos j) k (j * l) l []),
        y.regular j (omega (arith, y.count, total, full)),
        subst
            (λ n.
              IsAt k n l
                (marked (suc j == block_total (m * l) l) (new_block (pos j) k (j * l) l [])))
            (omega arith) (marked-IsAt (suc j == block_total (m * l) l) k j l),
      );
    }

-- Reading a block changes its bytes only.
pub refilled-HasBlocks :
    (k i j m l place : ℕ) (content : Bytes) (p : Piece) (b : Block) (t : SafePieces)
    → get k t ≡ some p
    → p.idx ≡ k
    → length p.blocks ≡ m
    → AreFrom k l 0 p.blocks
    → IsAt k i l b
    → HasBlocks j m l t
    → HasBlocks j m l (refilled k i p (filled content place l b) t)
refilled-HasBlocks k i j m l place content p b t e idx count cut at h =
    let q : Piece = record p { blocks = set p.blocks i (filled content place l b) } in
    elim (Bool-cases (k == j)) [
      | inl same ↦
          let kj = (==_iff k j).0 same in
          subst (λ n. HasBlocks n m l (refilled k i p (filled content place l b) t)) kj
            (record {
              piece = q;
              there = ground (arith, get-insert k k q t);
              number = idx;
              count = length-set p.blocks i (filled content place l b) ∙ count;
              cut =
                  AreFrom-set k l 0 i p.blocks (filled content place l b)
                    (subst (λ n. IsAt k n l (filled content place l b)) (omega arith) at) cut;
            })
      | inr other ↦ record {
        piece = h.piece;
        there = get-insert k j q t ∙ rw other h.there;
        number = h.number;
        count = h.count;
        cut = h.cut;
      }
    ]

pub found-IsAt :
    (k m l i : ℕ) (t : SafePieces) (h : HasBlocks k m l t)
    → 0 < l
    → m < 2 ^ 32
    → i < m
    → (b : Block) × (get_block_from_offset h.piece (i * l) l ≡ ok (some b)) × IsAt k i l b
unfolding get_block_from_offset
found-IsAt k m l i t h l_pos small inside =
    let (b, e, at) = AreFrom-get k l 0 i h.piece.blocks (omega (arith, h.count)) h.cut in
    (
      b,
      ground (arith, mul-div_cancel i l_pos, e, h.count, small),
      subst (λ n. IsAt k n l b) (omega arith) at,
    )
