-- ===== src/Transfer/Serve.antt =====
-- A client that has everything answers the requests for a piece (peermsghandlers.go, fileinfo.go, peermsg.go).
use totorrent.Base.{
  ℕ, suc, ◌+◌, ◌*◌, ◌≤◌, ◌<◌, ◌≡◌, refl, sym, ◌∙◌, ap, subst, true, false, List, [], ◌∷◌, ◌++◌,
  Bytes, none, some, map, length, arith, ok,
}
use totorrent.Piece.Block.{Block, new_block}
use totorrent.Piece.Safe.{SafePieces}
use totorrent.Wire.Msg.{piece, request}
use totorrent.Wire.Build.{build_peer_piece_msg}
use totorrent.Wire.Fields.{request_get_block}
use totorrent.FileInfo.{get_block}
use totorrent.FileInfo.Seek.{IsAt, filled, refilled, get_block-filled}
use totorrent.Conn.State.{Conn, write_peer_msg}
use totorrent.Conn.Requester.Sends.{request_of}
use totorrent.Conn.Handlers.{
  Files, handle_request, answer_request, default_peer_msg_func, handle_all,
}
use totorrent.Transfer.Answers.{answer, answers, IsRegular, inside, blocks_fit, request_read}
use totorrent.Transfer.Table.{AreFrom, HasAll, refilled-HasBlocks, found-IsAt}
use native.Mathlib.Nat.{mul-div_cancel}
use mathlib.Core.List.{append_assoc, append-nil}

-- A client that seeds the file `content`, of `pieces` pieces of `m` blocks of `l` bytes.
pub record IsSeed (content : Bytes) (pieces m l : ℕ) (s : Conn) : Type 0 where
  pub seeding : s.is_seeding ≡ true
  pub has_all : HasAll pieces m l s.pieces

-- Where the file can be read.
pub record Reads (content : Bytes) (gs : Files) : Type 0 where
  pub single_file : gs.is_dir ≡ false
  pub file : gs.finished_file ≡ some content

module _ (content : Bytes) (pieces m l : ℕ) (r : IsRegular content pieces m l) where
  block_read :
      (k i : ℕ) (t : SafePieces)
      → k < pieces
      → i < m
      → HasAll pieces m l t
      → (u : SafePieces) × (HasAll pieces m l u)
        × (c : Block) × (get_block false (some content) k (i * l) l true t ≡ ok (u, some c))
        × (build_peer_piece_msg c ≡ piece (answer content m l k i))
  unfolding build_peer_piece_msg
  block_read k i t hk hi all =
      let h = all k hk in
      let (c, found, at) =
        found-IsAt k m l i t h r.length_pos (blocks_fit content pieces m l r) hi in
      let place = (k * m + i) * l in
      let got =
        get_block-filled content k (i * l) i l h.piece c t r.length_pos h.there h.number found at.0
          at.3
          (subst (λ n. (k * n + i) * l + l ≤ length content) (sym h.count)
            (inside content pieces m l r k i hk hi)) in
      (
        refilled k i h.piece (filled content place l c) t,
        λ j hj.
            refilled-HasBlocks k i j m l place content h.piece c t h.there h.number h.count h.cut at
              (all j hj),
        filled content place l c,
        rw (h.count, mul-div_cancel i r.length_pos) at got,
        rw (at.1, at.2) refl,
      )

  handled :
      (gs : Files) (s : Conn) (p : Bytes) (b : Block) (u : SafePieces) (c : Block)
      → Reads content gs
      → s.is_seeding ≡ true
      → request_get_block p ≡ ok b
      → get_block false (some content) b.piece_idx b.begin b.block_length true s.pieces
        ≡ ok (u, some c)
      → default_peer_msg_func gs (request p) s
        ≡ ok (record s { pieces = u; outbox = s.outbox ++ build_peer_piece_msg c ∷ [] }, none)
  unfolding default_peer_msg_func handle_request answer_request write_peer_msg
  handled gs s p b u c reads seeding asked got =
      rw (asked, reads.single_file, reads.file, seeding, got) refl

  -- The answer to a request for a block.
  serve :
      (gs : Files) (s : Conn) (k i : ℕ) (b : Block)
      → Reads content gs
      → IsSeed content pieces m l s
      → k < pieces
      → i < m
      → IsAt k i l b
      → (u : SafePieces) × (HasAll pieces m l u)
        × (default_peer_msg_func gs (request_of b) s
            ≡ ok (
              record s { pieces = u; outbox = s.outbox ++ piece (answer content m l k i) ∷ [] },
              none,
            ))
  unfolding new_block
  serve gs s k i b reads seed hk hi at =
      let (p, e, asked) = request_read content pieces m l r k i b hk hi at in
      let (u, all, c, got, msg) = block_read k i s.pieces hk hi seed.has_all in
      (
        u,
        all,
        ap (λ x. default_peer_msg_func gs x s) e
            ∙ handled gs s p _ u c reads seed.seeding asked got
            ∙ ap (λ x. ok (record s { pieces = u; outbox = s.outbox ++ x ∷ [] }, none)) msg,
      )

  -- The requests for the rest of a piece, in order, are answered in order.
  pub serve_all :
      (gs : Files) (k i : ℕ) (bs : List Block) (s : Conn)
      → Reads content gs
      → IsSeed content pieces m l s
      → k < pieces
      → i + length bs ≤ m
      → AreFrom k l i bs
      → (d : Conn) × (handle_all gs (map request_of bs) s ≡ ok (d, []))
        × (d.outbox ≡ s.outbox ++ map piece (answers content m l k i (length bs)))
        × IsSeed content pieces m l d
  unfolding handle_all
  serve_all gs k i [] s reads seed hk hi a = (s, refl, sym (append-nil s.outbox), seed)
  serve_all gs k i (b ∷ bs) s reads seed hk hi a =
      let (u, all, e) = serve gs s k i b reads seed hk (omega arith) a.0 in
      let now = record s { pieces = u; outbox = s.outbox ++ piece (answer content m l k i) ∷ [] } in
      let (d, e', out, seed') =
        serve_all gs k (suc i) bs now reads (record { seeding = seed.seeding; has_all = all }) hk
          (omega arith) a.1 in
      (
        d,
        rw (e, e') refl,
        out
            ∙ append_assoc s.outbox (piece (answer content m l k i) ∷ [])
                (map piece (answers content m l k (suc i) (length bs))),
        seed',
      )
