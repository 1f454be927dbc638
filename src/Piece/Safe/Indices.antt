-- ===== src/Piece/Safe/Indices.antt =====
-- The indices of a table of pieces of piece.go.
use totorrent.Base.{ℕ, ◌≤◌, ◌≡◌, Bool, false, ◌||◌, ◌&&◌, [], ◌∷◌, arith, ltb, ◌==◌, if◌then◌else◌}
use totorrent.Piece.Impl.{downloaded}
use totorrent.Piece.Safe.{SafePieces, max_from, max_piece_idx}

-- Each piece stands under its own index.
abbrev pub IsKeyed : SafePieces → Type 0
IsKeyed [] = Unit {0}
IsKeyed ((k, p) ∷ t) = (k ≡ p.idx) × IsKeyed t

-- Whether the piece of index `i` is downloaded.
abbrev pub is_downloaded : SafePieces → ℕ → Bool
is_downloaded [] i = false
is_downloaded ((k, p) ∷ t) i = (downloaded p && p.idx == i) || is_downloaded t i

abbrev pub IdxBelow : ℕ → SafePieces → Type 0
IdxBelow n [] = Unit {0}
IdxBelow n ((k, p) ∷ t) = (p.idx ≤ n) × IdxBelow n t

max_from-le : (m : ℕ) (t : SafePieces) → m ≤ max_from m t
unfolding max_from
max_from-le m [] = omega arith
max_from-le m ((k, p) ∷ t) = ground (arith, max_from-le (if ltb m k then k else m) t)

IdxBelow-mono : (m n : ℕ) (t : SafePieces) → m ≤ n → IdxBelow m t → IdxBelow n t
IdxBelow-mono m n [] h b = tt
IdxBelow-mono m n ((k, p) ∷ t) h b = (omega arith, IdxBelow-mono m n t h b.1)

max_from-IdxBelow : (m : ℕ) (t : SafePieces) → IsKeyed t → IdxBelow (max_from m t) t
unfolding max_from
max_from-IdxBelow m [] h = tt
max_from-IdxBelow m ((k, p) ∷ t) h = (
  ground (arith, max_from-le (if ltb m k then k else m) t),
  max_from-IdxBelow (if ltb m k then k else m) t h.1,
)

-- `MaxPieceIdx` bounds every index.
pub max_piece_idx-IdxBelow : (t : SafePieces) → IsKeyed t → IdxBelow (max_piece_idx t) t
unfolding max_piece_idx
max_piece_idx-IdxBelow t h = max_from-IdxBelow 0 t h
