-- ===== src/Swarm/Progress.antt =====
-- The pieces of a client, whatever its connections do and in whatever order (peerconn.go, peermsghandlers.go).
use totorrent.Base.{
  ℕ, ◌≤◌, ◌≡◌, ◌⊎◌, refl, sym, ◌∙◌, Bool, true, Bool-cases, inl, inr, Bytes, subst, some, ok, arith,
  Option, Error, ◌==◌, ==_iff,
}
use totorrent.Piece.Block.{Block}
use totorrent.Piece.Impl.{Piece, downloading, done, is_idle}
use totorrent.Piece.Safe.{SafePieces, get, insert, total_undone_pieces_left}
use totorrent.Piece.Safe.Table.{get-insert}
use totorrent.Piece.Safe.Reserve.{taken_by}
use totorrent.Piece.Safe.Far.{IsAsFar, one_piece, insert-IsAsFar, taken-IsAsFar}
use totorrent.Wire.Msg.{PeerMsg}
use totorrent.Conn.State.{Conn, write_peer_msg}
use totorrent.Conn.Handlers.{Files, default_peer_msg_func}
use totorrent.Conn.Handlers.Gives.{Gives-ok}
use totorrent.Conn.Handlers.Stable.{default_peer_msg_func-Stable}
use totorrent.Conn.Handlers.Table.{IsTableStable, OfTable, OfTable-IsStable, undone-IsTableStable}
use totorrent.Swarm.{
  Swarm, seen_by, connect, greet, receive, wait_ends, Access, put_back, accesses, Step, connects,
  greets, receives, waits, Reach, here, next,
}
use totorrent.Swarm.Shared.{Access-OfTable}
use totorrent.Swarm.Changes.{receive-Changed, greet-Changed, wait_ends-Changed}

-- What the changes of every connection keep of the table holds in every state that is reached.
module _ (T : SafePieces → Type 0) (stable : (id : Bytes) → IsTableStable id T) where
  abbrev OfSwarm : Swarm → Type 0
  OfSwarm s = T s.client.pieces

  receive-OfSwarm :
      (fs : Files) (i : ℕ) (m : PeerMsg) (e : Option Error) (s t : Swarm)
      → receive fs i m s ≡ some (ok (t, e))
      → OfSwarm s
      → OfSwarm t
  receive-OfSwarm fs i m e s t h a =
      let ch = receive-Changed fs i m e s t h in
      let c = seen_by s.client ch.before in
      let (x, r) = ch.related in
      let id = ch.before.to_peer_id in
      subst OfSwarm ch.left
        (Gives-ok (OfTable id T) (default_peer_msg_func fs m c) r (
          default_peer_msg_func-Stable (OfTable id T) (OfTable-IsStable id T (stable id)) fs m c
            (refl, a))).1

  greet-OfSwarm : (i : ℕ) (m : PeerMsg) (s t : Swarm) → greet i m s ≡ some t → OfSwarm s → OfSwarm t
  unfolding write_peer_msg
  greet-OfSwarm i m s t h a =
      let ch = greet-Changed i m s t h in
      subst OfSwarm ch.left (subst (λ (d : Conn). T d.pieces) (sym ch.related) a)

  wait_ends-OfSwarm :
      (i : ℕ) (received : Bool) (b : Block) (s t : Swarm)
      → wait_ends i received b s ≡ some (ok t)
      → OfSwarm s
      → OfSwarm t
  wait_ends-OfSwarm i received b s t h a =
      let ch = wait_ends-Changed i received b s t h in
      subst OfSwarm ch.left (rw ch.related.same_pieces a)

  accesses-OfSwarm :
      (i : ℕ) (s t : Swarm) (c d : Conn)
      → Access (seen_by s.client c) d
      → put_back i s d ≡ t
      → OfSwarm s
      → OfSwarm t
  accesses-OfSwarm i s t c d x e a =
      let id = c.to_peer_id in
      subst OfSwarm e (Access-OfTable id T (stable id) (seen_by s.client c) x (refl, a)).1

  Step-OfSwarm : {s t : Swarm} → Step s t → OfSwarm s → OfSwarm t
  unfolding connect
  Step-OfSwarm (connects id s t e) a = subst OfSwarm e a
  Step-OfSwarm (greets i m s t h) a = greet-OfSwarm i m s t h a
  Step-OfSwarm (receives fs i m e s t h) a = receive-OfSwarm fs i m e s t h a
  Step-OfSwarm (accesses i s t c d n x e) a = accesses-OfSwarm i s t c d x e a
  Step-OfSwarm (waits i received b s t h) a = wait_ends-OfSwarm i received b s t h a

  Reach-OfSwarm : {s t : Swarm} → OfSwarm s → Reach s t → OfSwarm t
  Reach-OfSwarm a here = a
  Reach-OfSwarm a (next u t r st) = Step-OfSwarm st (Reach-OfSwarm a r)

IsAsFar-IsTableStable : (k : ℕ) (p : Piece) (id : Bytes) → IsTableStable id (IsAsFar k p)
IsAsFar-IsTableStable k p id = record {
  refills = λ j q bs t g c h.
      insert-IsAsFar k p j q (record q { blocks = bs }) t g (omega arith) refl c h;
  takes = λ j q t g i h. taken-IsAsFar k p j q id t g i h;
  completes = λ j q t g h.
      insert-IsAsFar k p j q (record q { status = done }) t g (omega arith) refl refl h;
}

-- In any interleaving of new connections, greetings on them, handlers of messages of any content
-- with any errors of the file system, single accesses of handlers that run at once, and waits that
-- end, in vain or not: a piece of the shared table stays there under its number with as many blocks
-- as before, and stays done if it was; and no more pieces are left to download than before.
pub Reach-IsAsFar :
    (k : ℕ) (p : Piece) (s : Swarm) {t : Swarm}
    → IsAsFar k p s.client.pieces
    → Reach s t
    → IsAsFar k p t.client.pieces
      × (total_undone_pieces_left t.client.pieces ≤ total_undone_pieces_left s.client.pieces)
Reach-IsAsFar k p s a r =
    let n = total_undone_pieces_left s.client.pieces in
    (
      Reach-OfSwarm (IsAsFar k p) (IsAsFar-IsTableStable k p) a r,
      Reach-OfSwarm (λ t. total_undone_pieces_left t ≤ n) (λ id. undone-IsTableStable id n)
          (omega arith) r,
    )

-- A piece is with the peer `owner`, or is done.
abbrev pub HeldBy : Bytes → Piece → Type 0
HeldBy owner q = (q.status ≡ done) ⊎ ((q.status ≡ downloading) × (q.downloader ≡ owner))

-- Piece `k` of the table is still with the peer `owner`, or is done.
abbrev pub IsKept : ℕ → Bytes → SafePieces → Type 0
IsKept k owner t = (q : Piece) × (get k t ≡ some q) × HeldBy owner q

IsKept-insert :
    (k : ℕ) (owner : Bytes) (j : ℕ) (r : Piece) (t : SafePieces)
    → (j ≡ k → HeldBy owner r)
    → IsKept k owner t
    → IsKept k owner (insert j r t)
IsKept-insert k owner j r t f (q, g, h) = elim (Bool-cases (j == k)) [
  | inl e ↦ (r, get-insert j k r t ∙ rw e refl, f ((==_iff j k).0 e))
  | inr e ↦ (q, get-insert j k r t ∙ rw e g, h)
]

IsKept-HeldBy :
    (k : ℕ) (owner : Bytes) (j : ℕ) (q : Piece) (t : SafePieces)
    → get j t ≡ some q
    → IsKept k owner t
    → j ≡ k
    → HeldBy owner q
IsKept-HeldBy k owner j q t g (n, h, held) e =
    subst (HeldBy owner) (sym (one_piece k q j q t g h e)) held

idle_not_held : (owner : Bytes) (q : Piece) → is_idle q.status ≡ true → HeldBy owner q → ⊥
idle_not_held owner q i (inl d) = ground (arith, i, d)
idle_not_held owner q i (inr (d, o)) = ground (arith, i, d)

IsKept-IsTableStable : (k : ℕ) (owner id : Bytes) → IsTableStable id (IsKept k owner)
IsKept-IsTableStable k owner id = record {
  refills = λ j q bs t g c h.
      IsKept-insert k owner j (record q { blocks = bs }) t (IsKept-HeldBy k owner j q t g h) h;
  takes = λ j q t g i h.
      IsKept-insert k owner j (taken_by q id) t
        (λ e. absurd (idle_not_held owner q i (IsKept-HeldBy k owner j q t g h e))) h;
  completes = λ j q t g h. IsKept-insert k owner j (record q { status = done }) t (λ e. inl refl) h;
}

-- From a state in which a piece is being downloaded, in any interleaving of new connections,
-- greetings on them, handlers of messages of any content with any errors of the file system, single
-- accesses of handlers that run at once, and waits that end, in vain or not: the piece stays in the
-- shared table, being downloaded by the same peer, until it is done. No other connection takes it,
-- however many waits for its blocks end in vain.
pub Reach-IsKept :
    (k : ℕ) (p : Piece) (s : Swarm) {t : Swarm}
    → get k s.client.pieces ≡ some p
    → p.status ≡ downloading
    → Reach s t
    → IsKept k p.downloader t.client.pieces
Reach-IsKept k p s g d r =
    Reach-OfSwarm (IsKept k p.downloader) (IsKept-IsTableStable k p.downloader)
      (p, g, inr (d, refl)) r
