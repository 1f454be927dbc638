-- ===== src/Swarm/Shared.antt =====
-- The single accesses of the handlers of peermsghandlers.go to what they share, and the handlers as sequences of them.
use totorrent.Base.{
  ℕ, ◌≤◌, ◌≡◌, refl, sym, ◌∙◌, ap, subst, inl, inr, Bytes, Option, some, arith, ok, Error, ==_iff,
  true,
}
use totorrent.Piece.Safe.{SafePieces, try_to_reserve, insert, total_undone_pieces_left}
use totorrent.Piece.Safe.Reserve.{try_to_reserve-cases, mark_as_done-cases, taken_by}
use totorrent.FileInfo.Progress.{get_block-cases}
use totorrent.Wire.Msg.{PeerMsg}
use totorrent.Conn.State.{Conn}
use totorrent.Piece.Safe.{get}
use totorrent.Piece.Impl.{Piece, is_idle, set_status, set_downloader}
use totorrent.Conn.State.{write_peer_msg}
use totorrent.Conn.Queue.{request_next_piece}
use totorrent.Conn.Queue.Next.{request_next_piece_lem}
use totorrent.Conn.Handlers.{Files, default_peer_msg_func}
use totorrent.Conn.Handlers.Gives.{Gives-ok}
use totorrent.Conn.Handlers.Stable.{IsStable, default_peer_msg_func-Stable}
use totorrent.Conn.Handlers.Table.{
  IsTableStable, OfTable, undone-IsTableStable, SeedsAll, keeps_SeedsAll,
}
use totorrent.Swarm.{
  Access, Accesses, no_access, and_then, overwrites, reserves, finishes, reads, seeds,
}

-- Changes of what has no lock.
overwritten :
    (c d e : Conn)
    → e.pieces ≡ d.pieces
    → e.is_seeding ≡ d.is_seeding
    → e.to_peer_id ≡ d.to_peer_id
    → Accesses c d
    → Accesses c e
overwritten c d e p g i a = and_then d e a (overwrites e p g i)

reserves-idle :
    (k : ℕ) (id : Bytes) (q : Piece) (t : SafePieces)
    → get k t ≡ some q
    → is_idle q.status ≡ true
    → try_to_reserve k id t ≡ ok (insert k (taken_by q id) t, true)
unfolding try_to_reserve set_status set_downloader
reserves-idle k id q t g i = rw (g, try_to_reserve, i) refl

requests-Accesses :
    (c d e : Conn) (n : ℕ) → request_next_piece d ≡ ok (e, n) → Accesses c d → Accesses c e
requests-Accesses c d e n h a = elim (request_next_piece_lem d h) [
  | inl o ↦ overwritten c d e o.no_change o.same_seeding o.same_peer a
  | inr o ↦
      let t = insert o.index (taken_by o.piece d.to_peer_id) d.pieces in
      let mid = record d { pieces = t } in
      overwritten c mid e o.reserved o.same_seeding o.same_peer (
        and_then d mid a (
          reserves o.index t true
            (reserves-idle o.index d.to_peer_id o.piece d.pieces o.there o.was_idle)))
]

Accesses-IsStable : (c : Conn) → IsStable (Accesses c)
unfolding write_peer_msg
Accesses-IsStable c = record {
  writes = λ m d h. overwritten c d _ refl refl refl h;
  closes = λ d h. overwritten c d _ refl refl refl h;
  requester = λ r d h. overwritten c d _ refl refl refl h;
  saves = λ b d h. overwritten c d _ refl refl refl h;
  queues = λ k d new h. overwritten c d _ refl refl refl h;
  merges = λ is d h. overwritten c d _ refl refl refl h;
  requests = λ d e n. requests-Accesses c d e n;
  reads = λ is_dir file k begin l d u o e h. and_then d _ h (reads is_dir file k begin l u o e);
  finishes = λ k d t e h. and_then d _ h (finishes k t e);
  stops = λ d h. overwritten c d _ refl refl refl h;
  seeds = λ d z h. and_then d _ h (seeds z);
}

-- What a handler that returns has done to its connection and to what it shares, for any message and
-- any errors of the file system, is a sequence of single accesses: reservations of an idle or taken
-- piece, pieces marked as done, reads of blocks, the flag of a seed that is set where no piece is
-- left, and writes of what has no lock.
pub default_peer_msg_func-Accesses :
    (fs : Files) (m : PeerMsg) (c d : Conn) (e : Option Error)
    → default_peer_msg_func fs m c ≡ ok (d, e)
    → Accesses c d
default_peer_msg_func-Accesses fs m c d e h =
    Gives-ok (Accesses c) (default_peer_msg_func fs m c) h
      (default_peer_msg_func-Stable (Accesses c) (Accesses-IsStable c) fs m c no_access)

-- An access keeps of the table what the changes that handlers make keep.
pub Access-OfTable :
    (id : Bytes) (T : SafePieces → Type 0)
    → IsTableStable id T
    → (c : Conn) {d : Conn} → Access c d
    → OfTable id T c
    → OfTable id T d
Access-OfTable id T s c (overwrites d p g i) h = (i ∙ h.0, subst T (sym p) h.1)
Access-OfTable id T s c (reserves k t r e) h = (
  h.0,
  elim (try_to_reserve-cases k c.to_peer_id c.pieces e) [
    | inl (same, _) ↦ subst T same h.1
    | inr (q, g, i, same, _) ↦
        subst T (ap (λ x. insert k (taken_by q x) c.pieces) (sym h.0) ∙ same)
          (s.takes k q c.pieces g i h.1)
  ],
)
Access-OfTable id T s c (finishes k t e) h =
    let (q, g, i) = mark_as_done-cases k c.pieces e in
    (h.0, subst T i (s.completes k q c.pieces g h.1))
Access-OfTable id T s c (reads is_dir file k begin l t o e) h = (
  h.0,
  elim (get_block-cases is_dir file k begin l c.is_seeding c.pieces e) [
    | inl same ↦ subst T same h.1
    | inr r ↦ subst T r.table (s.refills k r.piece r.blocks c.pieces r.there r.same_count h.1)
  ],
)
Access-OfTable id T s c (seeds z) h = h

Access-undone :
    (c : Conn) {d : Conn}
    → Access c d
    → total_undone_pieces_left d.pieces ≤ total_undone_pieces_left c.pieces
Access-undone c a =
    let n = total_undone_pieces_left c.pieces in
    (Access-OfTable c.to_peer_id (λ t. total_undone_pieces_left t ≤ n)
      (undone-IsTableStable c.to_peer_id n) c a (refl, omega arith)).1

pub Access-SeedsAll : (c : Conn) {d : Conn} → Access c d → SeedsAll c → SeedsAll d
Access-SeedsAll c (overwrites d p g i) h =
    keeps_SeedsAll c d g (Access-undone c (overwrites d p g i)) h
Access-SeedsAll c (reserves k t r e) h =
    keeps_SeedsAll c (record c { pieces = t }) refl (Access-undone c (reserves k t r e)) h
Access-SeedsAll c (finishes k t e) h =
    keeps_SeedsAll c (record c { pieces = t }) refl (Access-undone c (finishes k t e)) h
Access-SeedsAll c (reads is_dir file k begin l t o e) h =
    keeps_SeedsAll c (record c { pieces = t }) refl
      (Access-undone c (reads is_dir file k begin l t o e)) h
Access-SeedsAll c (seeds z) h = inr ((==_iff (total_undone_pieces_left c.pieces) 0).0 z)
