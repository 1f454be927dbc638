-- ===== src/Swarm/Changes.antt =====
-- What a handler, or the end of a wait, does to the connections of a client.
use totorrent.Base.{
  refl, ℕ, ◌≡◌, Bool, Option-cases, inl, inr, [], ◌∷◌, Option, some, get_elem?, arith,
  Outcome-Cases, is_ok, is_err, is_panic, is_blocked, ok, Error,
}
use totorrent.Piece.Block.{Block}
use totorrent.Wire.Msg.{PeerMsg}
use totorrent.Conn.State.{Conn, write_peer_msg}
use totorrent.Conn.Requester.{wait_for_block}
use totorrent.Conn.Requester.Waits.{SameCore, wait_for_block-SameCore}
use totorrent.Conn.Handlers.{Files, default_peer_msg_func}
use totorrent.Swarm.{Swarm, seen_by, put_back, receive, wait_ends, greet}

-- Connection `i` changes, and nothing else but what is shared.
pub record Changed (i : ℕ) (s t : Swarm) (R : Conn → Conn → Type 0) : Type 0 where
  pub before : Conn
  pub after : Conn
  pub there : get_elem? s.conns i ≡ some before
  pub related : R (seen_by s.client before) after
  pub left : put_back i s after ≡ t

-- A message was handled.
abbrev pub Handles : Files → PeerMsg → Conn → Conn → Type 0
Handles fs m c d = (e : Option Error) × (default_peer_msg_func fs m c ≡ ok (d, e))

pub receive-Changed :
    (fs : Files) (i : ℕ) (m : PeerMsg) (e : Option Error) (s t : Swarm)
    → receive fs i m s ≡ some (ok (t, e))
    → Changed i s t (Handles fs m)
unfolding receive
receive-Changed fs i m e s t h = elim (Option-cases (get_elem? s.conns i)) [
  | inl n ↦ absurd (ground (arith, n, h))
  | inr (c, n) ↦ elim (Outcome-Cases (default_peer_msg_func fs m (seen_by s.client c))) [
    | is_err x r ↦ absurd (ground (arith, n, r, h))
    | is_panic r ↦ absurd (ground (arith, n, r, h))
    | is_blocked r ↦ absurd (ground (arith, n, r, h))
    | is_ok (d, e') r ↦ record {
      before = c;
      after = d;
      there = n;
      related = (e', r);
      left = cc (rw (n, r, receive) at h);
    }
  ]
]

abbrev pub Greets : PeerMsg → Conn → Conn → Type 0
Greets m c d = d ≡ write_peer_msg m c

pub greet-Changed :
    (i : ℕ) (m : PeerMsg) (s t : Swarm) → greet i m s ≡ some t → Changed i s t (Greets m)
unfolding greet
greet-Changed i m s t h = elim (Option-cases (get_elem? s.conns i)) [
  | inl n ↦ absurd (ground (arith, n, h))
  | inr (c, n) ↦ record {
    before = c;
    after = write_peer_msg m (seen_by s.client c);
    there = n;
    related = refl;
    left = cc (rw (n, greet) at h);
  }
]

pub wait_ends-Changed :
    (i : ℕ) (received : Bool) (b : Block) (s t : Swarm)
    → wait_ends i received b s ≡ some (ok t)
    → Changed i s t SameCore
unfolding wait_ends
wait_ends-Changed i received b s t h = elim (Option-cases (get_elem? s.conns i)) [
  | inl n ↦ absurd (ground (arith, n, h))
  | inr (c, n) ↦ elim (Outcome-Cases (wait_for_block (received ∷ []) b (seen_by s.client c))) [
    | is_err x r ↦ absurd (ground (arith, n, r, h))
    | is_panic r ↦ absurd (ground (arith, n, r, h))
    | is_blocked r ↦ absurd (ground (arith, n, r, h))
    | is_ok d r ↦ record {
      before = c;
      after = d;
      there = n;
      related = wait_for_block-SameCore (received ∷ []) b (seen_by s.client c) d r;
      left = cc (rw (n, r, wait_ends) at h);
    }
  ]
]
