-- ===== src/FileInfo/Pieces.antt =====
-- The table of pieces that `NewFileInfo` of fileinfo.go makes.
use totorrent.Base.{
  ℕ, zero, suc, ◌+◌, ◌*◌, ◌/◌, ◌%◌, ◌≤◌, ◌<◌, ◌≡◌, ◌≢◌, refl, ◌∙◌, ap, Bool, true, false,
  Bool-cases, inl, inr, some, arith, ◌==◌, if◌then◌else◌, ok, subst, ℕ_discrete, Outcome-Cases,
  is_ok, is_err, is_panic, is_blocked,
}
use totorrent.Piece.Impl.{
  Piece, calculate_new_piece, mark_last_block, unmarked_blocks, set_as_last_piece, idle, done,
}
use totorrent.Piece.Impl.Layout.{Sizes, Layout, calculate_new_piece-Layout}
use totorrent.Piece.Safe.{SafePieces, new_safe_pieces, get, insert, put, modify, set_as_last}
use totorrent.Piece.Safe.Table.{get-insert}
use totorrent.FileInfo.{put_regular_pieces, last_length, new_pieces}
use native.Mathlib.Nat.{mod-lt, div-add-mod, le-div_iff_mul-le, div-lt_iff_lt-mul}

-- The piece under number `k` is there, has that number, and is cut as one of `n` bytes.
pub record IsCut (k n l : ℕ) (seeding is_last : Bool) (t : SafePieces) : Type 0 where
  pub piece : Piece
  pub there : get k t ≡ some piece
  pub number : piece.idx ≡ k
  pub status : piece.status ≡ (if seeding then done else idle)
  pub marked : piece.is_last_piece ≡ is_last
  pub layout : Layout k n l piece

IsCut-get :
    (k n l : ℕ) (seeding is_last : Bool) (t u : SafePieces)
    → get k u ≡ get k t
    → IsCut k n l seeding is_last t
    → IsCut k n l seeding is_last u
IsCut-get k n l seeding is_last t u e h = record {
  piece = h.piece;
  there = e ∙ h.there;
  number = h.number;
  status = h.status;
  marked = h.marked;
  layout = h.layout;
}

calculate_new_piece-unmarked :
    (k n l : ℕ) (seeding : Bool) {p : Piece}
    → calculate_new_piece k n l seeding ≡ ok p
    → p.is_last_piece ≡ false
unfolding calculate_new_piece
calculate_new_piece-unmarked k n l seeding e = elim (Bool-cases (l == 0)) [
  | inl z ↦ absurd (ground (arith, z, e))
  | inr z ↦ elim (Outcome-Cases (mark_last_block (unmarked_blocks k n l))) [
    | is_ok bs h ↦ ground (arith, z, h, e)
    | is_err x h ↦ absurd (ground (arith, z, h, e))
    | is_panic h ↦ absurd (ground (arith, z, h, e))
    | is_blocked h ↦ absurd (ground (arith, z, h, e))
  ]
]

put_new_piece :
    (k n l : ℕ) (seeding : Bool) (t : SafePieces)
    → Sizes n l
    → (p : Piece) × (calculate_new_piece k n l seeding ≡ ok p)
      × ((j : ℕ) → get j (put p t) ≡ (if k == j then some p else get j t))
      × IsCut k n l seeding false (put p t)
unfolding put
put_new_piece k n l seeding t s =
    let (p, e, number, status, layout) = calculate_new_piece-Layout k n l seeding s in
    (
      p,
      e,
      λ j. get-insert p.idx j p t ∙ ap (λ i. if i == j then some p else get j t) number,
      record {
        piece = p;
        there = ground (arith, get-insert p.idx k p t, number);
        number = number;
        status = status;
        marked = calculate_new_piece-unmarked k n l seeding e;
        layout = layout;
      },
    )

module _ (n l : ℕ) (s : Sizes n l) (seeding : Bool) where
  -- The regular pieces, behind those that are there already.
  put_regular_pieces_lem :
      (count i : ℕ) (t : SafePieces)
      → (u : SafePieces) × (put_regular_pieces count i n l seeding t ≡ ok u)
        × ((k : ℕ) → k < i → get k u ≡ get k t)
        × ((k : ℕ) → i ≤ k → k < i + count → IsCut k n l seeding false u)
  unfolding put_regular_pieces
  put_regular_pieces_lem zero i t = (t, refl, (λ k h. refl), λ k h h'. absurd (omega arith))
  put_regular_pieces_lem (suc count) i t =
      let (p, e, lookup, first_cut) = put_new_piece i n l seeding t s in
      let (u, e', same, cut) = put_regular_pieces_lem count (suc i) (put p t) in
      (
        u,
        rw e e',
        λ k h. same k (omega arith) ∙ ground (arith, lookup k),
        λ k h h'. elim (ℕ_discrete i k) [
          | yes d ↦
              subst (λ j. IsCut j n l seeding false u) d
                (IsCut-get i n l seeding false (put p t) u (same i (omega arith)) first_cut)
          | no d ↦ cut k (omega (arith, d)) (omega arith)
        ],
      )

mark_last :
    (k n l : ℕ) (seeding : Bool) (t : SafePieces)
    → IsCut k n l seeding false t
    → (u : SafePieces) × (set_as_last k t ≡ ok u)
      × ((j : ℕ) → j ≢ k → get j u ≡ get j t)
      × IsCut k n l seeding true u
unfolding set_as_last modify set_as_last_piece
mark_last k n l seeding t h =
    let last : Piece = record h.piece { is_last_piece = true } in
    (
      insert k last t,
      rw (modify, h.there) refl,
      λ j ne. ground (arith, get-insert k j last t, ne),
      record {
        piece = last;
        there = ground (arith, get-insert k k last t);
        number = h.number;
        status = h.status;
        marked = refl;
        layout = record {
          count = h.layout.count;
          covers = h.layout.covers;
          regular = h.layout.regular;
          rest = h.layout.rest;
        };
      },
    )

-- The rest of a length, as the source computes it.
pub last_length_lem :
    (last_idx torrent n : ℕ)
    → 0 < n
    → last_idx * n < torrent
    → torrent ≤ suc last_idx * n
    → (0 < last_length torrent n)
      × (last_length torrent n ≤ n)
      × (last_idx * n + last_length torrent n ≡ torrent)
last_length_lem last_idx torrent n n_pos low high =
    let parts : torrent / n * n + torrent % n ≡ torrent = omega (arith, div-add-mod torrent n) in
    let at_least : last_idx ≤ torrent / n = (le-div_iff_mul-le n_pos).1 (omega arith) in
    let below : torrent / n < suc (suc last_idx) = (div-lt_iff_lt-mul n_pos).1 (ground arith) in
    elim (ℕ_discrete (torrent / n) last_idx) [
      | yes e ↦ ground (arith, ap (λ q. q * n + torrent % n) e, mod-lt torrent {m = n} n_pos)
      | no ne ↦
          let next : torrent / n ≡ suc last_idx = omega arith in
          let none_left : torrent % n ≡ 0 = omega (arith, parts, ap (λ q. q * n) next) in
          ground (arith, none_left, ap (λ q. q * n) next)
    ]

-- For positive lengths of a piece and of a block whose sum is at most 2 ^ 32, and a torrent of
-- which `lastIdx + 1` is the number of pieces: `NewFileInfo` makes a table in which each piece has
-- its number and its blocks, the last one is marked and no other, and its length makes the lengths
-- of all pieces sum up to that of the torrent.
pub new_pieces-IsCut :
    (last_idx torrent n l : ℕ) (seeding : Bool)
    → Sizes n l
    → last_idx * n < torrent
    → torrent ≤ suc last_idx * n
    → (u : SafePieces) × (new_pieces last_idx torrent n l seeding ≡ ok u)
      × ((k : ℕ) → k < last_idx → IsCut k n l seeding false u)
      × IsCut last_idx (last_length torrent n) l seeding true u
      × (last_idx * n + last_length torrent n ≡ torrent)
unfolding new_pieces
new_pieces-IsCut last_idx torrent n l seeding s low high =
    let (some_left, within, total) = last_length_lem last_idx torrent n s.piece_pos low high in
    let (t, e, same, regular) = put_regular_pieces_lem n l s seeding last_idx 0 new_safe_pieces in
    let (p, e', lookup, cut) =
      put_new_piece last_idx (last_length torrent n) l seeding t (record {
        piece_pos = some_left;
        block_pos = s.block_pos;
        small = omega (arith, s.small);
      }) in
    let (u, e'', same', last) =
      mark_last last_idx (last_length torrent n) l seeding (put p t) cut in
    let has_length : (n == 0) ≡ false = ground (arith, s.piece_pos) in
    (
      u,
      rw (e, has_length, e', e'') refl,
      λ k h.
          IsCut-get k n l seeding false t u (same' k (omega arith) ∙ ground (arith, lookup k))
            (regular k (omega arith) (omega arith)),
      last,
      total,
    )
