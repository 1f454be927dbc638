-- ===== src/Piece/Safe.antt =====
-- piece/piece.go: the table of pieces (`SafePiecesImpl`). Each method runs under the mutex or only
-- reads, so it is one step. The map is a list of its entries: Go ranges over a map in no fixed
-- order, and the list is that order. A method of a piece that is not there is called on nil, and
-- panics.
pub mod Entries
pub mod Exclusive
pub mod Far
pub mod Refinement
pub mod Indices
pub mod Listed
pub mod Reserve
pub mod Table
use totorrent.Base.{
  ℕ, zero, suc, ◌+◌, Bool, true, false, List, [], ◌∷◌, ◌++◌, Bytes, Option, none, some, length, ltb,
  ◌==◌, if◌then◌else◌, Outcome, ok, panic, ◌>>=◌,
}
use totorrent.Piece.Block.{Block}
use totorrent.Piece.Impl.{
  Piece, PieceStatus, idle, downloading, done, is_idle, is_done, downloaded, set_status,
  set_downloader, set_as_last_piece, block_count,
}

abbrev pub SafePieces : Type 0
SafePieces = List (ℕ × Piece)

unfoldable pub new_safe_pieces : SafePieces
new_safe_pieces = []

-- `self.data[pieceIdx]`
unfoldable pub get : ℕ → SafePieces → Option Piece
get k [] = none
get k ((j, p) ∷ t) = if j == k then some p else get k t

-- `self.data[k] = p`
unfoldable pub insert : ℕ → Piece → SafePieces → SafePieces
insert k p [] = (k, p) ∷ []
insert k p ((j, q) ∷ t) = if j == k then (k, p) ∷ t else (j, q) ∷ insert k p t

unfoldable pub put : Piece → SafePieces → SafePieces
put p t = insert p.idx p t

-- A call of a method that changes the piece at `k`.
unfoldable pub modify : ℕ → (Piece → Piece) → SafePieces → Outcome SafePieces
modify k f t = elim (get k t) [ none ↦ panic | some p ↦ ok (insert k (f p) t) ]

unfoldable pub mark_as_done : ℕ → SafePieces → Outcome SafePieces
mark_as_done k t = modify k (λ p. set_status p done) t

unfoldable pub set_as_last : ℕ → SafePieces → Outcome SafePieces
set_as_last k t = modify k set_as_last_piece t

-- The table after the call, and whether the piece was reserved.
unfoldable pub try_to_reserve : ℕ → Bytes → SafePieces → Outcome (SafePieces × Bool)
try_to_reserve k peer_id t = elim (get k t) [
  | none ↦ panic
  | some p ↦
      if is_idle p.status
      then ok (insert k (set_downloader (set_status p downloading) peer_id) t, true)
      else ok (t, false)
]

unfoldable pub max_from : ℕ → SafePieces → ℕ
max_from m [] = m
max_from m ((k, p) ∷ t) = max_from (if ltb m k then k else m) t

unfoldable pub max_piece_idx : SafePieces → ℕ
unfolding max_from
max_piece_idx t = max_from 0 t

unfoldable pub min_from : ℕ → SafePieces → ℕ
min_from m [] = m
min_from m ((k, p) ∷ t) = min_from (if ltb k m then k else m) t

unfoldable pub first : SafePieces → Option Piece
unfolding min_from
first t = get (min_from 0xffffffff t) t

unfoldable pub last : SafePieces → Option Piece
last t = get (max_piece_idx t) t

unfoldable pub downloaded_piece_indices : SafePieces → List ℕ
downloaded_piece_indices [] = []
downloaded_piece_indices ((k, p) ∷ t) =
    let rest = downloaded_piece_indices t in if downloaded p then k ∷ rest else rest

unfoldable pub as_int_slice : SafePieces → List ℕ
as_int_slice [] = []
as_int_slice ((k, p) ∷ t) = k ∷ as_int_slice t

unfoldable pub total_blocks_in_all_pieces_count : SafePieces → ℕ
total_blocks_in_all_pieces_count [] = 0
total_blocks_in_all_pieces_count ((k, p) ∷ t) = block_count p + total_blocks_in_all_pieces_count t

unfoldable pub total_undone_pieces_left : SafePieces → ℕ
total_undone_pieces_left [] = 0
total_undone_pieces_left ((k, p) ∷ t) =
    (if is_done p.status then 0 else 1) + total_undone_pieces_left t

-- The blocks of the pieces `i`, `i + 1`, …, `count` of them.
unfoldable pub blocks_from : SafePieces → ℕ → ℕ → Outcome (List Block)
blocks_from t i zero = ok []
blocks_from t i (suc count) = elim (get i t) [
  | none ↦ panic
  | some p ↦ (do rest ← blocks_from t (suc i) count; ok (p.blocks ++ rest))
]

unfoldable pub all_blocks : SafePieces → Outcome (List Block)
unfolding blocks_from
all_blocks t = blocks_from t 0 (length t)
