-- ===== src/Conn/Queue/Counts.antt =====
-- What `RequestNextPiece` (peerconn.go) leaves of the number of pieces that are still to be downloaded.
use totorrent.Base.{ℕ, ◌≡◌, ◌⊎◌, refl, ◌∙◌, ap, inl, inr, true, false, List, arith}
use totorrent.Piece.Impl.{PieceStatus, idle, downloading, done, is_idle, is_done}
use totorrent.Piece.Safe.{total_undone_pieces_left}
use totorrent.Piece.Safe.Table.{undone, total_undone-insert}
use totorrent.Piece.Safe.Reserve.{taken_by}
use totorrent.Conn.State.{Conn}
use totorrent.Conn.Queue.Next.{RanOut, Took}

idle_not_done : (s : PieceStatus) → is_idle s ≡ true → is_done s ≡ false
idle_not_done idle h = refl
idle_not_done downloading h = refl
idle_not_done done h = cc h

-- The next piece that is reserved is still to be downloaded.
pub requested-undone :
    (queue : List ℕ) (c d : Conn) (n : ℕ)
    → RanOut queue c d n ⊎ Took queue c d n
    → total_undone_pieces_left d.pieces ≡ total_undone_pieces_left c.pieces
requested-undone queue c d n (inl o) = ap total_undone_pieces_left o.no_change
requested-undone queue c d n (inr o) =
    let one : undone o.piece ≡ 1 = rw (idle_not_done o.piece.status o.was_idle) refl in
    ap total_undone_pieces_left o.reserved
    ∙ omega (
      arith,
      total_undone-insert o.index o.piece (taken_by o.piece c.to_peer_id) c.pieces o.there,
      one,
    )

pub requested-seeding :
    (queue : List ℕ) (c d : Conn) (n : ℕ)
    → RanOut queue c d n ⊎ Took queue c d n
    → d.is_seeding ≡ c.is_seeding
requested-seeding queue c d n (inl o) = o.same_seeding
requested-seeding queue c d n (inr o) = o.same_seeding

pub requested-peer :
    (queue : List ℕ) (c d : Conn) (n : ℕ)
    → RanOut queue c d n ⊎ Took queue c d n
    → d.to_peer_id ≡ c.to_peer_id
requested-peer queue c d n (inl o) = o.same_peer
requested-peer queue c d n (inr o) = o.same_peer
