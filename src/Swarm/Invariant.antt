-- ===== src/Swarm/Invariant.antt =====
-- What holds of all connections of a client in every state that it can reach (peerconn.go, peermsghandlers.go).
use mathlib.Core.List.{map-append}
use totorrent.Base.{
  ℕ, ◌≡◌, ◌⊎◌, refl, sym, ◌∙◌, ap, subst, Bool, false, List, [], ◌∷◌, ◌++◌, Bytes, Option, some, ok,
  Error, get_elem?,
}
use totorrent.Piece.Block.{Block}
use totorrent.Piece.Safe.{SafePieces, total_undone_pieces_left}
use totorrent.Piece.Safe.Entries.{Every, Every-weaken}
use totorrent.Wire.Msg.{PeerMsg}
use totorrent.Conn.State.{Conn, write_peer_msg}
use totorrent.Conn.Requester.Waits.{SameCore}
use totorrent.Conn.Handlers.{Files, default_peer_msg_func}
use totorrent.Conn.Handlers.Gives.{Gives-ok}
use totorrent.Conn.Handlers.Stable.{default_peer_msg_func-Stable}
use totorrent.Conn.Handlers.Table.{OfTable, OfTable-IsStable, SeedsAll, SeedsAll-IsStable}
use totorrent.Swarm.{
  Swarm, seen_by, new_peer_connection, connect, receive, wait_ends, Step, connects, receives,
  accesses, Access, put_back, waits, Reach, here, next, start, greet, greets,
}
use totorrent.Swarm.Shared.{Access-OfTable, Access-SeedsAll}
use totorrent.Swarm.Changes.{
  Changed, Handles, receive-Changed, wait_ends-Changed, greet-Changed, Greets,
}
use totorrent.Swarm.Peers.{
  peers, IsHeld, map-set_same, known-get, IsHeld-more, IsHeld-IsTableStable,
}

-- The invariant.
pub record Inv (s : Swarm) : Type 0 where
  pub held : Every (IsHeld (peers s)) s.client.pieces
  pub seeds_all : (s.client.is_seeding ≡ false) ⊎ (total_undone_pieces_left s.client.pieces ≡ 0)

module _ (i : ℕ) (s t : Swarm) (R : Conn → Conn → Type 0) (h : Changed i s t R) where
  -- The peers stay, when the connection that changes is to the same one.
  peers-Changed : h.after.to_peer_id ≡ h.before.to_peer_id → peers t ≡ peers s
  peers-Changed same = ap peers (sym h.left) ∙ map-set_same s.conns i h.before h.after h.there same

  -- What the changed connection has of the invariant is what the client has.
  Inv-Changed :
      h.after.to_peer_id ≡ h.before.to_peer_id
      → Every (IsHeld (peers s)) h.after.pieces
      → SeedsAll h.after
      → Inv s
      → Inv t
  Inv-Changed same held all inv = record {
    held =
        subst (λ (ids : List Bytes). Every (IsHeld ids) t.client.pieces) (sym (peers-Changed same))
          (subst (λ (u : Swarm). Every (IsHeld (peers s)) u.client.pieces) h.left held);
    seeds_all =
        subst
          (λ (u : Swarm).
            (u.client.is_seeding ≡ false) ⊎ (total_undone_pieces_left u.client.pieces ≡ 0))
          h.left all;
  }

connect-Inv : (id : Bytes) (s : Swarm) → Inv s → Inv (connect id s)
unfolding connect new_peer_connection
connect-Inv id s inv = record {
  held =
      rw (map-append (λ (c : Conn). c.to_peer_id) s.conns (new_peer_connection s.client id ∷ [])) (
        Every-weaken (IsHeld (peers s)) (IsHeld (peers s ++ id ∷ [])) s.client.pieces
          (IsHeld-more (peers s) (id ∷ [])) inv.held);
  seeds_all = inv.seeds_all;
}

receive-Inv :
    (fs : Files) (i : ℕ) (m : PeerMsg) (e : Option Error) (s t : Swarm)
    → receive fs i m s ≡ some (ok (t, e))
    → Inv s
    → Inv t
receive-Inv fs i m e s t h inv =
    let ch = receive-Changed fs i m e s t h in
    let c = seen_by s.client ch.before in
    let (x, r) = ch.related in
    let T : SafePieces → Type 0 = Every (IsHeld (peers s)) in
    let id = ch.before.to_peer_id in
    let there = known-get s.conns i ch.before ch.there in
    let tab = Gives-ok (OfTable id T) (default_peer_msg_func fs m c) r (
      default_peer_msg_func-Stable (OfTable id T)
        (OfTable-IsStable id T (IsHeld-IsTableStable (peers s) id there)) fs m c
        (refl, inv.held)) in
    Inv-Changed i s t (Handles fs m) ch tab.0 tab.1
      (Gives-ok SeedsAll (default_peer_msg_func fs m c) r
        (default_peer_msg_func-Stable SeedsAll SeedsAll-IsStable fs m c inv.seeds_all))
      inv

wait_ends-Inv :
    (i : ℕ) (received : Bool) (b : Block) (s t : Swarm)
    → wait_ends i received b s ≡ some (ok t)
    → Inv s
    → Inv t
wait_ends-Inv i received b s t h inv =
    let ch = wait_ends-Changed i received b s t h in
    let same = ch.related in
    Inv-Changed i s t SameCore ch same.same_peer (rw same.same_pieces inv.held)
      (rw (same.same_seeding, same.same_pieces) inv.seeds_all) inv

greet-Inv : (i : ℕ) (m : PeerMsg) (s t : Swarm) → greet i m s ≡ some t → Inv s → Inv t
unfolding write_peer_msg
greet-Inv i m s t h inv =
    let ch = greet-Changed i m s t h in
    let c = seen_by s.client ch.before in
    let keeps = λ (P : Conn → Type 0) (p : P (write_peer_msg m c)). subst P (sym ch.related) p in
    Inv-Changed i s t (Greets m) ch (ap (λ (d : Conn). d.to_peer_id) ch.related)
      (keeps (λ (d : Conn). Every (IsHeld (peers s)) d.pieces) inv.held)
      (keeps SeedsAll inv.seeds_all) inv

accesses-Inv :
    (i : ℕ) (s t : Swarm) (c d : Conn)
    → get_elem? s.conns i ≡ some c
    → Access (seen_by s.client c) d
    → put_back i s d ≡ t
    → Inv s
    → Inv t
accesses-Inv i s t c d n a e inv =
    let T : SafePieces → Type 0 = Every (IsHeld (peers s)) in
    let there = known-get s.conns i c n in
    let tab =
      Access-OfTable c.to_peer_id T (IsHeld-IsTableStable (peers s) c.to_peer_id there)
        (seen_by s.client c) a (refl, inv.held) in
    Inv-Changed i s t Access (record { before = c; after = d; there = n; related = a; left = e })
      tab.0 tab.1 (Access-SeedsAll (seen_by s.client c) a inv.seeds_all) inv

Step-Inv : {s t : Swarm} → Step s t → Inv s → Inv t
Step-Inv (connects id s t e) inv = subst Inv e (connect-Inv id s inv)
Step-Inv (greets i m s t h) inv = greet-Inv i m s t h inv
Step-Inv (receives fs i m e s t h) inv = receive-Inv fs i m e s t h inv
Step-Inv (accesses i s t c d n a e) inv = accesses-Inv i s t c d n a e inv
Step-Inv (waits i received b s t h) inv = wait_ends-Inv i received b s t h inv

-- From the start, in any interleaving of new connections, greetings on them, handlers of messages
-- of any content with any errors of the file system, single accesses of handlers that run at once,
-- and waits that end, in vain or not: each piece that is being downloaded is so by a peer that the
-- client has connected with, and the client seeds only if every piece is done. At the start no
-- piece is being downloaded, and the client is not seeding or has every piece.
pub Reach-Inv :
    (t : SafePieces) (seeding : Bool) {u : Swarm}
    → Every (IsHeld []) t
    → (seeding ≡ false) ⊎ (total_undone_pieces_left t ≡ 0)
    → Reach (start t seeding) u
    → Inv u
Reach-Inv t seeding h a here = record { held = h; seeds_all = a }
Reach-Inv t seeding h a (next v u r st) = Step-Inv st (Reach-Inv t seeding h a r)
