-- ===== src/Piece/Safe/Refinement.antt =====
-- The table of piece.go implements an abstract ledger: who downloads what, and what is done.
use totorrent.Base.{
  ℕ, ◌≡◌, refl, ◌∙◌, ap, Bool, true, false, Bool-cases, Option-cases, inl, inr, List, [], ◌∷◌,
  Bytes, Option, none, some, ◌==◌, if◌then◌else◌, Outcome, ok, panic, ◌>>=◌, err, blocked,
}
use totorrent.Piece.Impl.{Piece, PieceStatus, idle, downloading, done, set_status, set_downloader}
use totorrent.Piece.Safe.{SafePieces, get, insert, modify, mark_as_done, try_to_reserve}
use totorrent.Piece.Safe.Table.{get-insert}
use totorrent.Piece.Safe.Reserve.{Call, reserve, finish, call}
use mathlib.Core.Path.{fun_ext}

-- The state of a piece, as its users see it.
pub data Phase : Type 0 where
  free : Phase
  held_by : Bytes → Phase
  complete : Phase

-- What is known of each index; `none`: there is no such piece.
abbrev pub Ledger : Type 0
Ledger = ℕ → Option Phase

abbrev pub phase_of : Piece → Phase
phase_of p = elim p.status [ idle ↦ free | downloading ↦ held_by p.downloader | done ↦ complete ]

abbrev pub phase_of? : Option Piece → Option Phase
phase_of? none = none
phase_of? (some p) = some (phase_of p)

abbrev pub ledger_of : SafePieces → Ledger
ledger_of t k = phase_of? (get k t)

abbrev pub write : ℕ → Phase → Ledger → Ledger
write k s l j = if k == j then some s else l j

abbrev pub is_free : Phase → Bool
is_free free = true
is_free (held_by p) = false
is_free complete = false

-- The abstract calls: a free piece is given to the peer that asks, any other piece is refused, a piece that is
-- finished is complete, and a call for a piece that is not there fails.
abbrev pub spec_call : Ledger → Call → Option (Ledger × Bool)
spec_call l (reserve k peer_id) = elim (l k) [
  | none ↦ none
  | some s ↦ if is_free s then some (write k (held_by peer_id) l, true) else some (l, false)
]
spec_call l (finish k) = elim (l k) [ none ↦ none | some s ↦ some (write k complete l, false) ]

abbrev pub and_answer : Bool → Option (Ledger × List Bool) → Option (Ledger × List Bool)
and_answer r none = none
and_answer r (some (l, rs)) = some (l, r ∷ rs)

-- A list of calls, with their answers.
abbrev pub spec_run : Ledger → List Call → Option (Ledger × List Bool)
spec_run l [] = some (l, [])
spec_run l (c ∷ cs) = elim (spec_call l c) [
  | none ↦ none
  | some (m, r) ↦ and_answer r (spec_run m cs)
]

-- The calls of the program, with their answers.
unfoldable pub answers : SafePieces → List Call → Outcome (SafePieces × List Bool)
answers t [] = ok (t, [])
answers t (c ∷ cs) = do (u, r) ← call t c; (v, rs) ← answers u cs; ok (v, r ∷ rs)

-- What is seen of a result: a panic is a failure.
abbrev pub seen {ℓ} : {A : Type ℓ} → Outcome (SafePieces × A) → Option (Ledger × A)
seen (ok (t, a)) = some (ledger_of t, a)
seen _ = none

ledger_of-insert :
    (k : ℕ) (p : Piece) (t : SafePieces)
    → ledger_of (insert k p t) ≡ write k (phase_of p) (ledger_of t)
ledger_of-insert k p t = fun_ext λ j. elim (Bool-cases (k == j)) [
  | inl e ↦ rw (get-insert k j p t, e) refl
  | inr e ↦ rw (get-insert k j p t, e) refl
]

reserve_refines :
    (t : SafePieces) (k : ℕ) (peer_id : Bytes) (p : Piece)
    → get k t ≡ some p
    → (s : PieceStatus) → p.status ≡ s
    → seen (try_to_reserve k peer_id t) ≡ spec_call (ledger_of t) (reserve k peer_id)
unfolding try_to_reserve set_status set_downloader
reserve_refines t k peer_id p n idle e =
    rw (seen, try_to_reserve, spec_call, ledger_of, phase_of?, phase_of, n, e, ledger_of-insert)
      refl
reserve_refines t k peer_id p n downloading e =
    rw (seen, try_to_reserve, spec_call, ledger_of, phase_of?, phase_of, n, e) refl
reserve_refines t k peer_id p n done e =
    rw (seen, try_to_reserve, spec_call, ledger_of, phase_of?, phase_of, n, e) refl

call_refines : (t : SafePieces) (c : Call) → seen (call t c) ≡ spec_call (ledger_of t) c
unfolding call try_to_reserve mark_as_done modify set_status
call_refines t (reserve k peer_id) = elim (Option-cases (get k t)) [
  | inl n ↦ rw (seen, try_to_reserve, spec_call, ledger_of, phase_of?, n) refl
  | inr (p, n) ↦ reserve_refines t k peer_id p n p.status refl
]
call_refines t (finish k) = elim (Option-cases (get k t)) [
  | inl n ↦ rw (seen, call, mark_as_done, modify, spec_call, ledger_of, phase_of?, n) refl
  | inr (p, n) ↦
      rw (seen, call, mark_as_done, modify, spec_call, ledger_of, phase_of?, n, ledger_of-insert)
        refl
]

seen-and_answer :
    (r : Bool) (o : Outcome (SafePieces × List Bool))
    → seen (do (v, rs) ← o; ok (v, r ∷ rs)) ≡ and_answer r (seen o)
seen-and_answer r (ok (v, rs)) = refl
seen-and_answer r (err e) = refl
seen-and_answer r panic = refl
seen-and_answer r blocked = refl

seen-bind :
    (o : Outcome (SafePieces × Bool)) (f : SafePieces → Outcome (SafePieces × List Bool))
    (g : Ledger → Option (Ledger × List Bool))
    → ((u : SafePieces) → seen (f u) ≡ g (ledger_of u))
    → seen (do (u, r) ← o; (v, rs) ← f u; ok (v, r ∷ rs))
      ≡ (elim (seen o) [ none ↦ none | some (m, r) ↦ and_answer r (g m) ])
seen-bind (ok (u, r)) f g h = seen-and_answer r (f u) ∙ ap (and_answer r) (h u)
seen-bind (err e) f g h = refl
seen-bind panic f g h = refl
seen-bind blocked f g h = refl

-- For any table and any list of calls of `TryToReserve` and `MarkAsDone`: the answers, and the
-- state of each index at the end, are those of the abstract ledger, in which a free piece goes to
-- the first peer that asks and any other piece is refused; a panic of the code is a failure of the
-- ledger.
pub answers_refine :
    (t : SafePieces) (cs : List Call) → seen (answers t cs) ≡ spec_run (ledger_of t) cs
unfolding answers
answers_refine t [] = refl
answers_refine t (c ∷ cs) =
    seen-bind (call t c) (λ u. answers u cs) (λ l. spec_run l cs) (λ u. answers_refine u cs)
    ∙ rw (call_refines t c) refl
