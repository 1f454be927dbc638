-- ===== src/Piece/Safe/Listed.antt =====
-- Tables of piece.go whose pieces are numbered one after the other, all with one status.
use totorrent.Base.{
  ℕ, suc, ◌+◌, ◌≤◌, ◌<◌, ◌≡◌, refl, sym, ◌∙◌, ap, true, false, Bool-cases, inl, inr, [], ◌∷◌, some,
  length, ltb, ◌==◌, ==_iff, if◌then◌else◌, arith,
}
use totorrent.Piece.Impl.{Piece, PieceStatus, idle, done, downloaded}
use totorrent.Piece.Safe.{
  SafePieces, get, insert, max_from, max_piece_idx, total_undone_pieces_left,
}
use totorrent.Piece.Safe.Indices.{IsKeyed, is_downloaded}

abbrev pub IsListed : ℕ → PieceStatus → SafePieces → Type 0
IsListed k s [] = Unit {0}
IsListed k s ((j, p) ∷ t) = (j ≡ k) × (p.idx ≡ k) × (p.status ≡ s) × IsListed (suc k) s t

pub IsListed-insert_new :
    (k j : ℕ) (s : PieceStatus) (p : Piece) (t : SafePieces)
    → j ≡ k + length t
    → p.idx ≡ j
    → p.status ≡ s
    → IsListed k s t
    → IsListed k s (insert j p t) × (length (insert j p t) ≡ suc (length t))
unfolding insert
IsListed-insert_new k j s p [] e i st h = ((omega arith, omega arith, st, tt), refl)
IsListed-insert_new k j s p ((n, q) ∷ t) e i st (hn, hq, hs, ht) =
    let differ : (n == j) ≡ false = ground (arith, hn, e) in
    let rest = IsListed-insert_new (suc k) j s p t (omega arith) i st ht in
    rw (differ, insert) ((hn, hq, hs, rest.0), ap suc rest.1)

pub IsListed-insert_old :
    (k j : ℕ) (s : PieceStatus) (p q : Piece) (t : SafePieces)
    → get j t ≡ some q
    → p.idx ≡ q.idx
    → p.status ≡ q.status
    → IsListed k s t
    → IsListed k s (insert j p t) × (length (insert j p t) ≡ length t)
unfolding insert get
IsListed-insert_old k j s p q [] e i st h = absurd (ground (arith, e))
IsListed-insert_old k j s p q ((n, r) ∷ t) e i st (hn, hq, hs, ht) = elim (Bool-cases (n == j)) [
  | inl same ↦
      let found : r ≡ q = ground (arith, same, e) in
      let nj = (==_iff n j).0 same in
      rw (same, insert)
        (
          (
            sym nj ∙ hn,
            i ∙ ap (λ (x : Piece). x.idx) (sym found) ∙ hq,
            st ∙ ap (λ (x : Piece). x.status) (sym found) ∙ hs,
            ht,
          ),
          refl,
        )
  | inr other ↦
      let rest = IsListed-insert_old (suc k) j s p q t (rw other at e) i st ht in
      rw (other, insert) ((hn, hq, hs, rest.0), ap suc rest.1)
]

pub IsListed-IsKeyed : (k : ℕ) (s : PieceStatus) (t : SafePieces) → IsListed k s t → IsKeyed t
IsListed-IsKeyed k s [] h = tt
IsListed-IsKeyed k s ((j, p) ∷ t) h = (omega arith, IsListed-IsKeyed (suc k) s t h.3)

pub total_undone-IsListed :
    (k : ℕ) (t : SafePieces) → IsListed k idle t → total_undone_pieces_left t ≡ length t
unfolding total_undone_pieces_left
total_undone-IsListed k [] h = refl
total_undone-IsListed k ((j, p) ∷ t) (hj, hp, hs, ht) =
    rw (total_undone_pieces_left, hs) (omega (arith, total_undone-IsListed (suc k) t ht))

max_from-IsListed :
    (k : ℕ) (s : PieceStatus) (t : SafePieces) → IsListed (suc k) s t → max_from k t ≡ k + length t
unfolding max_from
max_from-IsListed k s [] h = omega arith
max_from-IsListed k s ((j, p) ∷ t) (hj, hp, hs, ht) =
    let larger : (if ltb k j then j else k) ≡ suc k = ground (arith, hj) in
    rw (max_from, larger, max_from-IsListed (suc k) s t ht) (omega arith)

-- The largest index is that of the last piece.
pub max_piece_idx-IsListed :
    (s : PieceStatus) (t : SafePieces)
    → 0 < length t
    → IsListed 0 s t
    → suc (max_piece_idx t) ≡ length t
unfolding max_piece_idx max_from
max_piece_idx-IsListed s [] h l = absurd (omega arith)
max_piece_idx-IsListed s ((j, p) ∷ t) h (hj, hp, hs, ht) =
    let largest : (if ltb 0 j then j else 0) ≡ 0 = ground (arith, hj) in
    rw (max_from, largest) (omega (arith, max_from-IsListed 0 s t ht))

pub is_downloaded-IsListed :
    (k j : ℕ) (t : SafePieces)
    → IsListed k done t
    → k ≤ j
    → j < k + length t
    → is_downloaded t j ≡ true
unfolding downloaded
is_downloaded-IsListed k j [] h low high = absurd (omega arith)
is_downloaded-IsListed k j ((n, p) ∷ t) (hn, hp, hs, ht) low high = elim (Bool-cases (k == j)) [
  | inl same ↦ rw (hs, hp, same) refl
  | inr other ↦
      rw (hs, hp, other)
        (is_downloaded-IsListed (suc k) j t ht (ground (arith, other)) (omega arith))
]
