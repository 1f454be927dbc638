-- ===== src/Piece/Safe/Table.antt =====
-- Lookups in a changed table of piece.go, and the number of pieces that are not done.
use totorrent.Base.{ℕ, ◌+◌, ◌≡◌, refl, true, [], ◌∷◌, some, arith, ◌==◌, if◌then◌else◌, ok, ◌↔◌}
use totorrent.Piece.Impl.{Piece, PieceStatus, done, is_done, set_status}
use totorrent.Piece.Safe.{SafePieces, get, insert, modify, mark_as_done, total_undone_pieces_left}

pub get-insert :
    (k j : ℕ) (p : Piece) (t : SafePieces)
    → get j (insert k p t) ≡ (if k == j then some p else get j t)
unfolding get insert
get-insert k j p [] = refl
get-insert k j p ((i, q) ∷ t) = ground (arith, get-insert k j p t)

-- 1 for a piece that is still to be downloaded.
abbrev pub undone : Piece → ℕ
undone p = if is_done p.status then 0 else 1

pub total_undone-insert :
    (k : ℕ) (p q : Piece) (t : SafePieces)
    → get k t ≡ some p
    → total_undone_pieces_left (insert k q t) + undone p ≡ total_undone_pieces_left t + undone q
unfolding get insert total_undone_pieces_left
total_undone-insert k p q [] e = cc
total_undone-insert k p q ((i, r) ∷ t) e = ground (arith, total_undone-insert k p q t)

-- `MarkAsDone` of a piece that is there makes it done, leaves every other piece, and lowers
-- `TotalUndonePiecesLeft` by one exactly when the piece was not done before.
pub mark_as_done_lem :
    (k : ℕ) (p : Piece) (t : SafePieces)
    → get k t ≡ some p
    → (u : SafePieces) × (mark_as_done k t ≡ ok u)
      × ((j : ℕ) → get j u ≡ (if k == j then some (record p { status = done }) else get j t))
      × (total_undone_pieces_left u + undone p ≡ total_undone_pieces_left t)
unfolding mark_as_done modify set_status
mark_as_done_lem k p t e = (
  insert k (record p { status = done }) t,
  rw (e, modify),
  λ j. get-insert k j (record p { status = done }) t,
  omega (arith, total_undone-insert k p (record p { status = done }) t e),
)

abbrev pub AllDone : SafePieces → Type 0
AllDone [] = Unit {0}
AllDone ((k, p) ∷ t) = (p.status ≡ done) × AllDone t

-- `TotalUndonePiecesLeft` is 0 exactly when every piece of the table is done.
pub total_undone-AllDone : (t : SafePieces) → (total_undone_pieces_left t ≡ 0) ↔ AllDone t
unfolding total_undone_pieces_left
total_undone-AllDone t = (sound t, complete t)
  where
    status_done : (s : PieceStatus) → is_done s ≡ true → s ≡ done
    status_done s h = ground arith

    sound : (t : SafePieces) → total_undone_pieces_left t ≡ 0 → AllDone t
    sound [] h = tt
    sound ((k, p) ∷ t) h = (status_done p.status (ground arith), sound t (omega arith))

    complete : (t : SafePieces) → AllDone t → total_undone_pieces_left t ≡ 0
    complete [] a = refl
    complete ((k, p) ∷ t) a = ground (arith, complete t a.1)
