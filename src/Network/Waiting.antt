-- ===== src/Network/Waiting.antt =====
-- How many peers `ConnectWithAllPeers` of peer.go tries, and when its loop ends.
use totorrent.Base.{
  ℕ, zero, suc, ◌+◌, ◌≤◌, ◌≡◌, refl, ap, ◌∙◌, ◌-◌, min, List, [], ◌∷◌, ◌++◌, Bytes, none, some,
  length, ◌==◌, if◌then◌else◌, arith, Bool, Bool-cases, inl, inr, true, Option, Option-cases, Error,
  err_peer_listen_eof, err_peer_listen_reset, err_peer_listen_timeout,
}
use totorrent.Network.{
  PeerEvent, peer_error, peer_done, nothing, Waited, connect_with_peer, peers_to_try,
  wait_for_peers, and_error, and_done, listen_for_messages,
}

-- How many reports there are.
abbrev pub reports : List PeerEvent → ℕ
reports [] = 0
reports (nothing ∷ es) = reports es
reports (peer_error p e ∷ es) = suc (reports es)
reports (peer_done p ∷ es) = suc (reports es)

tried_behind :
    (limit tried : ℕ) (ps : List Bytes)
    → length (peers_to_try limit tried ps)
      ≡ (if limit == 0 then length ps else min (length ps) (limit + 1 - tried))
unfolding peers_to_try
tried_behind limit tried [] = ground arith
tried_behind limit tried (p ∷ ps) = ground (arith, tried_behind limit (suc tried) ps)

-- Without a limit every peer is tried; with a limit, one peer more than the limit, if there are as
-- many.
pub length-peers_to_try :
    (limit : ℕ) (ps : List Bytes)
    → length (peers_to_try limit 0 ps)
      ≡ (if limit == 0 then length ps else min (length ps) (limit + 1))
length-peers_to_try limit ps = ground (arith, tried_behind limit 0 ps)

-- Where at least as many reports arrive as peers are waited for, the loop of `ConnectWithAllPeers`
-- ends, closes one peer for each report it counted, and leaves the later reports unread.
pub wait_for_peers_lem :
    (n : ℕ) (es : List PeerEvent)
    → n ≤ reports es
    → (w : Waited) × (wait_for_peers n es ≡ some w)
      × (length w.closed ≡ n)
      × (length w.errors ≤ n)
      × (reports w.rest + n ≡ reports es)
unfolding wait_for_peers
wait_for_peers_lem zero es h =
    (record { closed = []; errors = []; rest = es }, refl, refl, omega arith, omega arith)
wait_for_peers_lem (suc n) [] h = absurd (omega arith)
wait_for_peers_lem (suc n) (nothing ∷ es) h = wait_for_peers_lem (suc n) es h
wait_for_peers_lem (suc n) (peer_error p e ∷ es) h =
    let (w, a, b, c, d) = wait_for_peers_lem n es (omega arith) in
    (
      record { closed = p ∷ w.closed; errors = (p, e) ∷ w.errors; rest = w.rest },
      ap (and_error p e) a,
      omega arith,
      omega arith,
      omega arith,
    )
wait_for_peers_lem (suc n) (peer_done p ∷ es) h =
    let (w, a, b, c, d) = wait_for_peers_lem n es (omega arith) in
    (
      record { closed = p ∷ w.closed; errors = w.errors; rest = w.rest },
      ap (and_done p) a,
      omega arith,
      omega arith,
      omega arith,
    )

-- How one peer goes: the errors of dialing, of the handshake and of the reading, and whether the last one has the
-- text of a closed connection.
pub record PeerEnd : Type 0 where
  pub target : Bytes
  pub dial_error : Option Error
  pub handshake_error : Option Error
  pub listen_error : Error
  pub is_closed : Bool

-- The ends of the reading that are in good order.
abbrev pub is_quiet : PeerEnd → Bool
is_quiet o = elim o.listen_error as (λ _. Bool) [
  | err_peer_listen_eof ↦ true
  | err_peer_listen_reset ↦ true
  | err_peer_listen_timeout ↦ true
  | _ ↦ o.is_closed
]

-- How many errors a peer that was dialed has.
abbrev pub later_errors : PeerEnd → ℕ
later_errors o = elim o.dial_error [
  | some e ↦ 0
  | none ↦ (elim o.handshake_error [ none ↦ 0 | some e ↦ 1 ]) + (if is_quiet o then 0 else 1)
]

abbrev pub later_errors_of_all : List PeerEnd → ℕ
later_errors_of_all [] = 0
later_errors_of_all (o ∷ os) = later_errors o + later_errors_of_all os

-- What the peers report, one peer after the other.
abbrev pub reported : Bytes → List PeerEnd → List PeerEvent
reported self [] = []
reported self (o ∷ os) =
    connect_with_peer self o.target o.dial_error o.handshake_error o.listen_error o.is_closed
    ++ reported self os

reports-append : (xs ys : List PeerEvent) → reports (xs ++ ys) ≡ reports xs + reports ys
reports-append [] ys = omega arith
reports-append (nothing ∷ xs) ys = reports-append xs ys
reports-append (peer_error p e ∷ xs) ys = omega (arith, reports-append xs ys)
reports-append (peer_done p ∷ xs) ys = omega (arith, reports-append xs ys)

reports-listen :
    (self : Bytes) (o : PeerEnd) (e : Error)
    → o.listen_error ≡ e
    → reports (listen_for_messages self e o.is_closed) ≡ (if is_quiet o then 0 else 1)
unfolding listen_for_messages
reports-listen self o err_peer_listen_eof same = rw same refl
reports-listen self o err_peer_listen_reset same = rw same refl
reports-listen self o err_peer_listen_timeout same = rw same refl
reports-listen self o _ same =
    rw same (elim (Bool-cases o.is_closed) [ inl e ↦ rw e refl | inr e ↦ rw e refl ])

reports-connect :
    (self : Bytes) (o : PeerEnd)
    → reports
        (connect_with_peer self o.target o.dial_error o.handshake_error o.listen_error o.is_closed)
      ≡ later_errors o + 1
unfolding connect_with_peer
reports-connect self o =
    let listened = listen_for_messages self o.listen_error o.is_closed in
    let read_out : reports (listened ++ peer_done o.target ∷ [])
        ≡ (if is_quiet o then 0 else 1) + 1 =
      reports-append listened (peer_done o.target ∷ [])
      ∙ ap (λ n. n + 1) (reports-listen self o o.listen_error refl) in
    elim (Option-cases o.dial_error) [
      | inr (e, d) ↦ rw d (omega arith)
      | inl d ↦ elim (Option-cases o.handshake_error) [
        | inl h ↦ rw (d, h) (omega (arith, read_out))
        | inr (e, h) ↦ rw (d, h) (omega (arith, read_out))
      ]
    ]

reports-reported :
    (self : Bytes) (os : List PeerEnd)
    → reports (reported self os) ≡ later_errors_of_all os + length os
reports-reported self [] = omega arith
reports-reported self (o ∷ os) = omega (
  arith,
  reports-append
      (connect_with_peer self o.target o.dial_error o.handshake_error o.listen_error o.is_closed)
      (reported self os),
  reports-connect self o,
  reports-reported self os,
)

-- Whatever the errors of dialing, of the handshakes and of the reading are: where the peers report
-- one after the other, the loop that waits for as many reports as there are peers ends, closes that
-- many, and leaves one report unread for each error of a peer that was dialed, since such a peer is
-- also reported as done.
pub wait_for_peers-reported :
    (self : Bytes) (os : List PeerEnd)
    → (w : Waited) × (wait_for_peers (length os) (reported self os) ≡ some w)
      × (length w.closed ≡ length os)
      × (reports w.rest ≡ later_errors_of_all os)
wait_for_peers-reported self os =
    let (w, a, b, c, d) =
      wait_for_peers_lem (length os) (reported self os) (omega (arith, reports-reported self os)) in
    (w, a, b, omega (arith, d, reports-reported self os))
