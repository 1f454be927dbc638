-- ===== src/Conn/Handlers/Progress.antt =====
-- Handlers lose no piece, and no progress (peermsghandlers.go).
use totorrent.Base.{ℕ, ◌≡◌, sym, subst, inl, inr, ok}
use totorrent.Piece.Impl.{Piece}
use totorrent.Piece.Safe.Far.{IsAsFar, mark_as_done-IsAsFar, taken-IsAsFar}
use totorrent.FileInfo.Progress.{get_block-IsAsFar}
use totorrent.Wire.Msg.{PeerMsg}
use totorrent.Conn.State.{Conn, write_peer_msg}
use totorrent.Conn.Queue.{request_next_piece}
use totorrent.Conn.Queue.Next.{request_next_piece_lem}
use totorrent.Conn.Handlers.Stable.{IsStable, default_peer_msg_func-Stable}
use totorrent.Conn.Handlers.Gives.{Gives}
use totorrent.Conn.Handlers.{Files, default_peer_msg_func}

module _ (k : ℕ) (p : Piece) where
  abbrev Far : Conn → Type 0
  Far c = IsAsFar k p c.pieces

  pub request_next_piece-Far :
      (c : Conn) {d : Conn} {n : ℕ} → Far c → request_next_piece c ≡ ok (d, n) → Far d
  request_next_piece-Far c {d} h e = elim (request_next_piece_lem c e) [
    | inl o ↦ subst (IsAsFar k p) (sym o.no_change) h
    | inr o ↦
        subst (IsAsFar k p) (sym o.reserved)
          (taken-IsAsFar k p o.index o.piece c.to_peer_id c.pieces o.there o.was_idle h)
  ]

  Far-IsStable : IsStable Far
  unfolding write_peer_msg
  Far-IsStable = record {
    writes = λ m c h. h;
    closes = λ c h. h;
    requester = λ r c h. h;
    saves = λ b c h. h;
    queues = λ j c new h. h;
    merges = λ is c h. h;
    requests = λ c d n e h. request_next_piece-Far c h e;
    reads = λ is_dir file j begin l c u o e h.
        get_block-IsAsFar k p is_dir file j begin l c.is_seeding c.pieces e h;
    finishes = λ j c t e h. mark_as_done-IsAsFar k p j c.pieces e h;
    stops = λ c h. h;
    seeds = λ c z h. h;
  }

  -- Whatever message arrives, well formed or not, and with whatever errors of the file system: if
  -- the handler returns, a piece of the table is still there under its number with as many blocks
  -- as before, and is done if it was.
  pub default_peer_msg_func-IsAsFar :
      (fs : Files) (m : PeerMsg) (c : Conn)
      → IsAsFar k p c.pieces
      → Gives (λ d. IsAsFar k p d.pieces) (default_peer_msg_func fs m c)
  default_peer_msg_func-IsAsFar fs m c h = default_peer_msg_func-Stable Far Far-IsStable fs m c h
