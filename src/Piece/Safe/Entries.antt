-- ===== src/Piece/Safe/Entries.antt =====
-- Properties of every piece of the table of piece.go.
use totorrent.Base.{ℕ, ◌≡◌, Bool-cases, inl, inr, [], ◌∷◌, some, All, subst, ◌==◌, arith}
use totorrent.Piece.Impl.{Piece}
use totorrent.Piece.Safe.{SafePieces, get, insert}

-- Every piece of the table has the property.
abbrev pub Every : (Piece → Type 0) → SafePieces → Type 0
Every Q t = All (λ e. Q e.1) t

module _ (Q : Piece → Type 0) where
  pub Every-insert : (k : ℕ) (p : Piece) (t : SafePieces) → Q p → Every Q t → Every Q (insert k p t)
  unfolding insert
  Every-insert k p [] q h = (q, tt)
  Every-insert k p ((j, r) ∷ t) q (h, hs) = elim (Bool-cases (j == k)) [
    | inl e ↦ rw (e, insert) (q, hs)
    | inr e ↦ rw (e, insert) (h, Every-insert k p t q hs)
  ]

  pub Every-get : (k : ℕ) (t : SafePieces) {p : Piece} → get k t ≡ some p → Every Q t → Q p
  unfolding get
  Every-get k [] e h = absurd (ground (arith, e))
  Every-get k ((j, r) ∷ t) {p} e (h, hs) = elim (Bool-cases (j == k)) [
    | inl m ↦ subst Q (ground (arith, m, e)) h
    | inr m ↦ Every-get k t (rw m at e) hs
  ]

pub Every-weaken :
    (Q R : Piece → Type 0) (t : SafePieces) → ((p : Piece) → Q p → R p) → Every Q t → Every R t
Every-weaken Q R [] f h = tt
Every-weaken Q R ((j, r) ∷ t) f (h, hs) = (f r h, Every-weaken Q R t f hs)
