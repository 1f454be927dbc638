-- ===== src/Network/TestPeer.antt =====
-- peer/testpeer.go: a peer for the tests, on a port of the local host that nobody listens on.
use totorrent.Base.{
  ℕ, ◌+◌, ◌-◌, ◌*◌, List, [], ◌∷◌, ◌++◌, Bytes, Option, none, some, if◌then◌else◌, Outcome, ok,
  ◌>>=◌,
}
use totorrent.Piece.Block.{pos}
use totorrent.Util.Env.{intn, rand_range, is_port_taken}
use totorrent.Network.Identity.{Peer, copy_20}

-- One round of the loop: what `rand.Intn` draws for each of the digits, and the connection that `net.DialTimeout`
-- makes to that port, nil where there is none.
pub record Attempt : Type 0 where
  pub draws : List ℕ
  pub conn : Option Bytes

-- The `%d` of a number below ten.
abbrev pub digit : ℕ → ℕ
digit n = b'0' + n

-- The calls of `RandRange(1, 3)`, printed one after the other.
unfoldable pub port_as_string : List ℕ → Outcome Bytes
unfolding rand_range intn
port_as_string [] = ok []
port_as_string (d ∷ draws) = do
  n ← rand_range (λ _. d) 1 3
  rest ← port_as_string draws
  ok (digit n ∷ rest)

-- `strconv.Atoi`, of digits.
unfoldable pub atoi_from : ℕ → Bytes → ℕ
atoi_from n [] = n
atoi_from n (c ∷ s) = atoi_from (n * 10 + (c - b'0')) s

abbrev pub testme : Bytes
testme = b'-' ∷ b't' ∷ b'e' ∷ b's' ∷ b't' ∷ b'm' ∷ b'e' ∷ b'-' ∷ []

-- `net.IPv4(127, 0, 0, 1)`
abbrev pub local_host : Bytes
local_host = 0 ∷ 0 ∷ 0 ∷ 0 ∷ 0 ∷ 0 ∷ 0 ∷ 0 ∷ 0 ∷ 0 ∷ 0xff ∷ 0xff ∷ 127 ∷ 0 ∷ 0 ∷ 1 ∷ []

abbrev pub test_peer : Bytes → Peer
test_peer port_as_string = record {
  ip = local_host;
  port = pos (atoi_from 0 port_as_string);
  id = copy_20 (testme ++ port_as_string);
}

-- `NewTestPeer`, with the address and the identity of the peer; `none`: it still looks for a port.
unfoldable pub new_test_peer : List Attempt → Outcome (Option Peer)
unfolding port_as_string is_port_taken
new_test_peer [] = ok none
new_test_peer (a ∷ attempts) = do
  port ← port_as_string a.draws
  let rest = new_test_peer attempts
  if is_port_taken a.conn then rest else ok (some (test_peer port))
