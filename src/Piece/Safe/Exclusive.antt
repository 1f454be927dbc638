-- ===== src/Piece/Safe/Exclusive.antt =====
-- At most one connection gets a piece of piece.go, whatever the order of the calls.
use totorrent.Base.{
  ℕ, ◌+◌, ◌≤◌, ◌≡◌, refl, Bool, true, List, [], ◌∷◌, Bytes, arith, if◌then◌else◌, ok, bind_ok,
  Bool-cases, inl, inr, subst,
}
use totorrent.Piece.Safe.{SafePieces, try_to_reserve}
use totorrent.Piece.Safe.Table.{get-insert}
use totorrent.Piece.Safe.Reserve.{
  Call, reserve, finish, call, run, won, IsTaken, call-IsTaken, taken_by, try_to_reserve-cases,
}

-- What a run that succeeds is made of.
record Step (k : ℕ) (t : SafePieces) (c : Call) (cs : List Call) (v : SafePieces) (n : ℕ)
    : Type 0 where
  mid : SafePieces
  result : Bool
  later : ℕ
  called : call t c ≡ ok (mid, result)
  ran : run k mid cs ≡ ok (v, later)
  total : n ≡ (if won k c result then 1 else 0) + later

run-Step :
    (k : ℕ) (t : SafePieces) (c : Call) (cs : List Call) {v : SafePieces} {n : ℕ}
    → run k t (c ∷ cs) ≡ ok (v, n)
    → Step k t c cs v n
unfolding run
run-Step k t c cs {v} {n} e =
    let ((u, r), ec, rest) = bind_ok (call t c) _ e in
    let ((w, m), er, last) = bind_ok (run k u cs) _ rest in
    record {
      mid = u;
      result = r;
      later = m;
      called = ec;
      ran = ground (arith, er, last);
      total = ground (arith, last);
    }

-- A piece that is taken stays with its owner, and nobody gets it again.
pub run-IsTaken :
    (k : ℕ) (peer_id : Bytes) (t : SafePieces) (cs : List Call) {v : SafePieces} {n : ℕ}
    → IsTaken k peer_id t
    → run k t cs ≡ ok (v, n)
    → IsTaken k peer_id v × (n ≡ 0)
run-IsTaken k peer_id t [] h e =
    unfold run in (subst (IsTaken k peer_id) (ground arith) h, ground arith)
run-IsTaken k peer_id t (c ∷ cs) h e =
    let s = run-Step k t c cs e in
    let (taken, lost) = call-IsTaken k peer_id t c h s.called in
    let (at_end, none_later) = run-IsTaken k peer_id s.mid cs taken s.ran in
    (at_end, ground (arith, s.total, lost, none_later))

-- A call that reserves `k` leaves it taken.
granted-IsTaken :
    (k : ℕ) (peer_id : Bytes) (t : SafePieces) {u : SafePieces}
    → try_to_reserve k peer_id t ≡ ok (u, true)
    → IsTaken k peer_id u
granted-IsTaken k peer_id t {u} e = elim (try_to_reserve-cases k peer_id t e) [
  | inl (_, no_way) ↦ absurd (ground (arith, no_way))
  | inr (q, n, b, eu, _) ↦ subst (IsTaken k peer_id) eu (record {
    piece = taken_by q peer_id;
    there = ground (arith, get-insert k k (taken_by q peer_id) t);
    not_idle = refl;
    owner = refl;
  })
]

won-IsTaken :
    (k : ℕ) (t : SafePieces) (c : Call) {u : SafePieces} {r : Bool}
    → call t c ≡ ok (u, r)
    → won k c r ≡ true
    → (peer_id : Bytes) × IsTaken k peer_id u
unfolding call
won-IsTaken k t (reserve j peer_id) {u} {r} e w =
    let same : j ≡ k = ground (arith, w) in
    let got : r ≡ true = ground (arith, w) in
    (peer_id, granted-IsTaken k peer_id t (rw (← same, ← got) e))
won-IsTaken k t (finish j) e w = absurd (ground (arith, w))

-- In any sequence of calls of `TryToReserve` and `MarkAsDone` that returns, from any table, at most
-- one call reserves a given piece.
pub reserved_once :
    (k : ℕ) (t : SafePieces) (cs : List Call) {v : SafePieces} {n : ℕ}
    → run k t cs ≡ ok (v, n)
    → n ≤ 1
reserved_once k t [] e = unfold run in ground arith
reserved_once k t (c ∷ cs) e =
    let s = run-Step k t c cs e in
    elim (Bool-cases (won k c s.result)) [
      | inr lost ↦ ground (arith, s.total, lost, reserved_once k s.mid cs s.ran)
      | inl here ↦
          let (peer_id, taken) = won-IsTaken k t c s.called here in
          ground (arith, s.total, here, (run-IsTaken k peer_id s.mid cs taken s.ran).1)
    ]

-- The connection that reserved a piece stays its downloader, and the piece is not reserved again,
-- in whatever calls of `TryToReserve` and `MarkAsDone` follow and return.
pub reserved_stays :
    (k : ℕ) (peer_id : Bytes) (t : SafePieces) {u : SafePieces} (cs : List Call) {v : SafePieces}
    {n : ℕ}
    → try_to_reserve k peer_id t ≡ ok (u, true)
    → run k u cs ≡ ok (v, n)
    → IsTaken k peer_id v × (n ≡ 0)
reserved_stays k peer_id t {u} cs e r = run-IsTaken k peer_id u cs (granted-IsTaken k peer_id t e) r
