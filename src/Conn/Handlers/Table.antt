-- ===== src/Conn/Handlers/Table.antt =====
-- What every handler of peermsghandlers.go keeps of the table of pieces, on the connection to one peer.
use totorrent.Base.{
  ℕ, ◌≤◌, ◌≡◌, ◌⊎◌, refl, sym, ◌∙◌, ap, subst, Bool, true, false, inl, inr, List, Bytes, Option,
  some, length, arith, ==_iff, ok,
}
use totorrent.Piece.Block.{Block}
use totorrent.Piece.Impl.{Piece, done, is_idle}
use totorrent.Piece.Safe.{SafePieces, get, insert, mark_as_done, total_undone_pieces_left}
use totorrent.Piece.Safe.Table.{undone, total_undone-insert}
use totorrent.Piece.Safe.Reserve.{mark_as_done-cases, taken_by}
use totorrent.FileInfo.{get_block}
use totorrent.FileInfo.Progress.{get_block-cases}
use totorrent.Conn.State.{Conn, write_peer_msg}
use totorrent.Conn.Queue.Next.{request_next_piece_lem}
use totorrent.Conn.Queue.Counts.{requested-undone, requested-seeding}
use totorrent.Conn.Handlers.Stable.{IsStable}

-- The changes that the handlers make to the table, for the peer `id`.
pub record IsTableStable (id : Bytes) (T : SafePieces → Type 0) : Type 0 where
  pub refills :
      (j : ℕ) (q : Piece) (bs : List Block) (t : SafePieces)
      → get j t ≡ some q
      → length bs ≡ length q.blocks
      → T t
      → T (insert j (record q { blocks = bs }) t)
  pub takes :
      (j : ℕ) (q : Piece) (t : SafePieces)
      → get j t ≡ some q
      → is_idle q.status ≡ true
      → T t
      → T (insert j (taken_by q id) t)
  pub completes :
      (j : ℕ) (q : Piece) (t : SafePieces)
      → get j t ≡ some q
      → T t
      → T (insert j (record q { status = done }) t)

-- The connection is still to the same peer, and the table has the property.
abbrev pub OfTable : Bytes → (SafePieces → Type 0) → Conn → Type 0
OfTable id T c = (c.to_peer_id ≡ id) × T c.pieces

module _ (id : Bytes) (T : SafePieces → Type 0) (s : IsTableStable id T) where
  pub OfTable-IsStable : IsStable (OfTable id T)
  unfolding write_peer_msg
  OfTable-IsStable = record {
    writes = λ m c h. h;
    closes = λ c h. h;
    requester = λ r c h. h;
    saves = λ b c h. h;
    queues = λ k c new h. h;
    merges = λ is c h. h;
    requests = λ c d n e h. elim (request_next_piece_lem c e) [
      | inl o ↦ (o.same_peer ∙ h.0, subst T (sym o.no_change) h.1)
      | inr o ↦ (
        o.same_peer ∙ h.0,
        subst T (sym (o.reserved ∙ ap (λ i. insert o.index (taken_by o.piece i) c.pieces) h.0))
            (s.takes o.index o.piece c.pieces o.there o.was_idle h.1),
      )
    ];
    reads = λ is_dir file k begin l c u o e h. (
      h.0,
      elim (get_block-cases is_dir file k begin l c.is_seeding c.pieces e) [
        | inl same ↦ subst T same h.1
        | inr r ↦ subst T r.table (s.refills k r.piece r.blocks c.pieces r.there r.same_count h.1)
      ],
    );
    finishes = λ k c t e h.
        let (q, g, i) = mark_as_done-cases k c.pieces e in
        (h.0, subst T i (s.completes k q c.pieces g h.1));
    stops = λ c h. h;
    seeds = λ c z h. h;
  }

-- At most `n` pieces are still to be downloaded.
pub undone-IsTableStable :
    (id : Bytes) (n : ℕ) → IsTableStable id (λ t. total_undone_pieces_left t ≤ n)
undone-IsTableStable id n = record {
  refills = λ j q bs t g c h. omega (arith, total_undone-insert j q (record q { blocks = bs }) t g);
  takes = λ j q t g i h.
      let one : undone (taken_by q id) ≤ undone q = ground (arith, i) in
      omega (arith, total_undone-insert j q (taken_by q id) t g);
  completes = λ j q t g h. omega (arith, total_undone-insert j q (record q { status = done }) t g);
}

-- A client that seeds has every piece.
abbrev pub SeedsAll : Conn → Type 0
SeedsAll c = (c.is_seeding ≡ false) ⊎ (total_undone_pieces_left c.pieces ≡ 0)

pub keeps_SeedsAll :
    (c d : Conn)
    → d.is_seeding ≡ c.is_seeding
    → total_undone_pieces_left d.pieces ≤ total_undone_pieces_left c.pieces
    → SeedsAll c
    → SeedsAll d
keeps_SeedsAll c d same less (inl off) = inl (same ∙ off)
keeps_SeedsAll c d same less (inr none_left) = inr (omega arith)

reads-undone :
    (is_dir : Bool) (file : Option Bytes) (j begin l : ℕ) (seeding : Bool) (t u : SafePieces)
    (o : Option Block)
    → get_block is_dir file j begin l seeding t ≡ ok (u, o)
    → total_undone_pieces_left u ≤ total_undone_pieces_left t
reads-undone is_dir file j begin l seeding t u o e =
    elim (get_block-cases is_dir file j begin l seeding t e) [
      | inl same ↦ omega (arith, ap total_undone_pieces_left same)
      | inr r ↦ omega (
        arith,
        total_undone-insert j r.piece (record r.piece { blocks = r.blocks }) t r.there,
        ap total_undone_pieces_left r.table,
      )
    ]

finishes-undone :
    (k : ℕ) (t u : SafePieces)
    → mark_as_done k t ≡ ok u
    → total_undone_pieces_left u ≤ total_undone_pieces_left t
finishes-undone k t u e =
    let (q, g, i) = mark_as_done-cases k t e in
    omega (
      arith,
      total_undone-insert k q (record q { status = done }) t g,
      ap total_undone_pieces_left i,
    )

pub SeedsAll-IsStable : IsStable SeedsAll
unfolding write_peer_msg
SeedsAll-IsStable = record {
  writes = λ m c h. h;
  closes = λ c h. h;
  requester = λ r c h. h;
  saves = λ b c h. h;
  queues = λ k c new h. h;
  merges = λ is c h. h;
  requests = λ c d n e h.
      let how = request_next_piece_lem c e in
      keeps_SeedsAll c d (requested-seeding _ c d n how)
        (omega (arith, requested-undone _ c d n how)) h;
  reads = λ is_dir file k begin l c u o e h.
      keeps_SeedsAll c (record c { pieces = u }) refl
        (reads-undone is_dir file k begin l c.is_seeding c.pieces u o e) h;
  finishes = λ k c t e h.
      keeps_SeedsAll c (record c { pieces = t }) refl (finishes-undone k c.pieces t e) h;
  stops = λ c h. h;
  seeds = λ c z h. inr ((==_iff (total_undone_pieces_left c.pieces) 0).0 z);
}
