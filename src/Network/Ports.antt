-- ===== src/Network/Ports.antt =====
-- The ports of the peers of peer/testpeer.go.
use totorrent.Base.{
  ℕ, suc, ◌≤◌, ◌<◌, ◌≡◌, refl, false, true, ◌||◌, not, Bool, Bool-cases, inl, inr, List, [], ◌∷◌,
  Bytes, some, All, length, get_elem?, arith, ok,
}
use totorrent.Util.Env.{is_port_taken}
use totorrent.Network.TestPeer.{Attempt, port_as_string, atoi_from, test_peer, new_test_peer}

-- `rand.Intn(2)` draws 0 or 1, for each of five digits.
abbrev pub IsDrawn : Attempt → Type 0
IsDrawn a = (length a.draws ≡ 5) × All (λ d. d < 2) a.draws

-- What an attempt prints.
abbrev Prints : List ℕ → Type 0
Prints draws =
    (s : Bytes) × (port_as_string draws ≡ ok s) × (33333 ≤ atoi_from 0 s) × (atoi_from 0 s ≤ 44444)

port_as_string-Prints : (draws : List ℕ) → length draws ≡ 5 → All (λ d. d < 2) draws → Prints draws
unfolding port_as_string atoi_from
port_as_string-Prints [] e h = absurd (omega arith)
port_as_string-Prints (a ∷ []) e h = absurd (omega arith)
port_as_string-Prints (a ∷ b ∷ []) e h = absurd (omega arith)
port_as_string-Prints (a ∷ b ∷ c ∷ []) e h = absurd (omega arith)
port_as_string-Prints (a ∷ b ∷ c ∷ d ∷ []) e h = absurd (omega arith)
port_as_string-Prints (a ∷ b ∷ c ∷ d ∷ f ∷ []) e h = (_, refl, omega arith, omega arith)
port_as_string-Prints (a ∷ b ∷ c ∷ d ∷ f ∷ g ∷ draws) e h = absurd (omega arith)

abbrev pub has_free : List Attempt → Bool
has_free [] = false
has_free (a ∷ attempts) = not (is_port_taken a.conn) || has_free attempts

-- Where each attempt draws 0 or 1 for each of five digits, and some drawn port is free:
-- `NewTestPeer` ends with the port of a free attempt, which lies between 33333 and 44444, though
-- digits from 1 to 3 are asked for.
pub new_test_peer_lem :
    (attempts : List Attempt)
    → All IsDrawn attempts
    → has_free attempts ≡ true
    → (i : ℕ) × (a : Attempt) × (s : Bytes) × (get_elem? attempts i ≡ some a)
      × (is_port_taken a.conn ≡ false)
      × (port_as_string a.draws ≡ ok s)
      × (new_test_peer attempts ≡ ok (some (test_peer s)))
      × (33333 ≤ atoi_from 0 s)
      × (atoi_from 0 s ≤ 44444)
unfolding new_test_peer
new_test_peer_lem [] h free = absurd (ground (arith, free))
new_test_peer_lem (a ∷ attempts) (h, hs) free =
    let (s, e, low, high) = port_as_string-Prints a.draws h.0 h.1 in
    elim (Bool-cases (is_port_taken a.conn)) [
      | inr open_port ↦ (0, a, s, refl, open_port, e, rw (e, open_port) refl, low, high)
      | inl taken ↦
          let (i, b, s', there, open_port, e', found, low', high') =
            new_test_peer_lem attempts hs (rw taken at free) in
          (suc i, b, s', there, open_port, e', rw (e, taken) found, low', high')
    ]
