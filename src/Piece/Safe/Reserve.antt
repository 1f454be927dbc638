-- ===== src/Piece/Safe/Reserve.antt =====
-- The reservation of pieces of piece.go by many connections. The mutex makes each call one step, so
-- an interleaving of goroutines is a list of calls.
use totorrent.Base.{
  ℕ, ◌+◌, ◌≡◌, ◌≢◌, refl, Bool, true, false, ◌&&◌, List, [], ◌∷◌, Bytes, some, arith, ◌==◌,
  if◌then◌else◌, Outcome, ok, ◌>>=◌, Option-cases, Bool-cases, inl, inr, bind_ok, subst, ◌∙◌,
  ℕ_discrete, ◌⊎◌,
}
use totorrent.Piece.Impl.{Piece, downloading, done, is_idle, set_status, set_downloader}
use totorrent.Piece.Safe.{SafePieces, get, insert, modify, mark_as_done, try_to_reserve}
use totorrent.Piece.Safe.Table.{get-insert}

pub data Call : Type 0 where
  reserve : ℕ → Bytes → Call
  finish : ℕ → Call

-- One call, with the table that it leaves and whether it reserved a piece.
unfoldable pub call : SafePieces → Call → Outcome (SafePieces × Bool)
call t (reserve k peer_id) = try_to_reserve k peer_id t
call t (finish k) = do u ← mark_as_done k t; ok (u, false)

-- Whether the call with this result reserved piece `k`.
abbrev pub won : ℕ → Call → Bool → Bool
won k (reserve j peer_id) r = j == k && r
won k (finish j) r = false

-- A list of calls, with the number of them that reserved piece `k`.
unfoldable pub run : ℕ → SafePieces → List Call → Outcome (SafePieces × ℕ)
run k t [] = ok (t, 0)
run k t (c ∷ cs) = do
  (u, r) ← call t c
  (v, n) ← run k u cs
  ok (v, (if won k c r then 1 else 0) + n)

-- Piece `k` is not idle, and was reserved by `peer_id`.
pub record IsTaken (k : ℕ) (peer_id : Bytes) (t : SafePieces) : Type 0 where
  pub piece : Piece
  pub there : get k t ≡ some piece
  pub not_idle : is_idle piece.status ≡ false
  pub owner : piece.downloader ≡ peer_id

abbrev pub taken_by : Piece → Bytes → Piece
taken_by q peer_id = record q { status = downloading; downloader = peer_id }

-- The two ways in which a call of `TryToReserve` returns.
abbrev pub Refused : SafePieces → SafePieces → Bool → Type 0
Refused t u r = (t ≡ u) × (r ≡ false)

abbrev pub Granted : ℕ → Bytes → SafePieces → SafePieces → Bool → Type 0
Granted j peer_id t u r =
    (q : Piece) × (get j t ≡ some q)
    × (is_idle q.status ≡ true)
    × (insert j (taken_by q peer_id) t ≡ u)
    × (r ≡ true)

pub try_to_reserve-cases :
    (j : ℕ) (peer_id : Bytes) (t : SafePieces) {u : SafePieces} {r : Bool}
    → try_to_reserve j peer_id t ≡ ok (u, r)
    → Refused t u r ⊎ Granted j peer_id t u r
unfolding try_to_reserve set_status set_downloader
try_to_reserve-cases j peer_id t e = elim (Option-cases (get j t)) [
  | inl n ↦ absurd (ground (arith, n))
  | inr (q, n) ↦ elim (Bool-cases (is_idle q.status)) [
    | inr b ↦ inl (ground (arith, n, b), ground (arith, n, b))
    | inl b ↦ inr (q, n, b, ground (arith, n, b), ground (arith, n, b))
  ]
]

pub mark_as_done-cases :
    (j : ℕ) (t : SafePieces) {u : SafePieces}
    → mark_as_done j t ≡ ok u
    → (q : Piece) × (get j t ≡ some q) × (insert j (record q { status = done }) t ≡ u)
unfolding mark_as_done modify set_status
mark_as_done-cases j t e = elim (Option-cases (get j t)) [
  | inl n ↦ absurd (ground (arith, n))
  | inr (q, n) ↦ (q, n, ground (arith, n))
]

module _ (k : ℕ) (peer_id : Bytes) where
  -- A change of another piece, or one that keeps the owner and the reservation.
  IsTaken-insert :
      (j : ℕ) (q q' : Piece) (t : SafePieces)
      → get j t ≡ some q
      → (j ≡ k → (is_idle q'.status ≡ false) × (q'.downloader ≡ q.downloader))
      → IsTaken k peer_id t
      → IsTaken k peer_id (insert j q' t)
  IsTaken-insert j q q' t n h v = elim (ℕ_discrete j k) [
    | yes e ↦ record {
      piece = q';
      there = ground (arith, get-insert j k q' t);
      not_idle = (h e).0;
      owner = (h e).1 ∙ ground (arith, n, v.there, v.owner);
    }
    | no ne ↦ record {
      piece = v.piece;
      there = ground (arith, get-insert j k q' t, v.there);
      not_idle = v.not_idle;
      owner = v.owner;
    }
  ]

  not_idle_there :
      (j : ℕ) (q : Piece) (t : SafePieces)
      → IsTaken k peer_id t
      → get j t ≡ some q
      → is_idle q.status ≡ true
      → j ≢ k
  not_idle_there j q t v n b e = ground (arith, v.there, v.not_idle)

  reserve-IsTaken :
      (t : SafePieces) (j : ℕ) (other : Bytes) {u : SafePieces} {r : Bool}
      → IsTaken k peer_id t
      → try_to_reserve j other t ≡ ok (u, r)
      → IsTaken k peer_id u × (won k (reserve j other) r ≡ false)
  reserve-IsTaken t j other v e = elim (try_to_reserve-cases j other t e) [
    | inl (eu, er) ↦ (subst (IsTaken k peer_id) eu v, ground (arith, er))
    | inr (q, n, b, eu, er) ↦
        let ne = not_idle_there j q t v n b in
        (
          subst (IsTaken k peer_id) eu
              (IsTaken-insert j q (taken_by q other) t n (λ e'. absurd (ne e')) v),
          ground (arith, ne),
        )
  ]

  finish-IsTaken :
      (t : SafePieces) (j : ℕ) {u : SafePieces}
      → IsTaken k peer_id t
      → mark_as_done j t ≡ ok u
      → IsTaken k peer_id u
  finish-IsTaken t j v e =
      let (q, n, eu) = mark_as_done-cases j t e in
      subst (IsTaken k peer_id) eu
        (IsTaken-insert j q (record q { status = done }) t n (λ _. (refl, refl)) v)

  pub call-IsTaken :
      (t : SafePieces) (c : Call) {u : SafePieces} {r : Bool}
      → IsTaken k peer_id t
      → call t c ≡ ok (u, r)
      → IsTaken k peer_id u × (won k c r ≡ false)
  unfolding call
  call-IsTaken t (reserve j other) v e = reserve-IsTaken t j other v e
  call-IsTaken t (finish j) v e =
      let (w, em, ew) = bind_ok (mark_as_done j t) (λ w. ok (w, false)) e in
      (subst (IsTaken k peer_id) (ground (arith, ew)) (finish-IsTaken t j v em), refl)
