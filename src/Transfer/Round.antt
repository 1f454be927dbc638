-- ===== src/Transfer/Round.antt =====
-- One round of a download: all blocks of a piece are answered and saved, and the next piece of the queue is
-- requested (peermsghandlers.go, peerconn.go, blockrequester.go).
use totorrent.Base.{
  ℕ, zero, suc, ◌<◌, ◌≡◌, refl, sym, ◌∙◌, ap, subst, true, false, List, [], Bytes, some, none, map,
  ◌==◌, arith, ok,
}
use totorrent.Piece.Block.{pos}
use totorrent.Piece.Impl.{done}
use totorrent.Piece.Safe.{total_undone_pieces_left}
use totorrent.Piece.Safe.Table.{undone, mark_as_done_lem}
use totorrent.Wire.Msg.{piece}
use totorrent.Conn.State.{Conn, BlockRequester, SavedBlock, mark_downloading}
use totorrent.Conn.Requester.{reset}
use totorrent.Conn.Handlers.{Files, handle_all, finish_piece, default_finalize_func}
use totorrent.Conn.Handlers.Arriving.{saved_all}
use totorrent.Conn.Handlers.Complete.{handle_all-arrived}
use totorrent.Transfer.{sent_off}
use totorrent.Transfer.Answers.{IsRegular, answers}
use totorrent.Transfer.Serve.{IsSeed, Reads, serve_all}
use totorrent.Transfer.Asked.{all_answered, length-all_answered, all_answered-Arriving}
use totorrent.Transfer.Between.{IsDownloading, AreFree-get, request_next_piece-IsDownloading}

-- Where the files can be written and assembled.
pub record Writes (fs : Files) : Type 0 where
  pub saves : fs.write_error ≡ none
  pub assembles : fs.assemble_error ≡ none

-- Behind piece `k`: the next of `rest` pieces is requested, or the client seeds.
abbrev pub IsBehind : ℕ → ℕ → ℕ → ℕ → Conn → Type 0
IsBehind k zero m l d = (d.is_seeding ≡ true) × (total_undone_pieces_left d.pieces ≡ 0)
IsBehind k (suc rest) m l d = IsDownloading (suc k) rest m l d

abbrev Saved : List SavedBlock → ℕ → ℕ → ℕ → ℕ → Conn → Type 0
Saved saved k rest m l d = (d.saved_blocks ≡ saved) × IsBehind k rest m l d

finish :
    (fs : Files) (k rest m l : ℕ) (c : Conn) (r : BlockRequester) (saved : List SavedBlock)
    → Writes fs
    → IsDownloading k rest m l c
    → r.total_num_of_blocks ≡ m
    → (d : Conn) × (finish_piece fs k r
          (record c { outbox = []; block_requester = some r; saved_blocks = saved })
        ≡ ok (d, none))
      × Saved saved k rest m l d
unfolding finish_piece default_finalize_func mark_downloading reset
finish fs k zero m l c r saved w h total =
    let (t, marks, lookup, count) = mark_as_done_lem k h.piece c.pieces h.there in
    let was_undone : undone h.piece ≡ 1 = rw h.not_done refl in
    let left : total_undone_pieces_left t ≡ 0 = omega (arith, h.left) in
    (
      record c {
        outbox = [];
        block_requester = some (reset r);
        saved_blocks = saved;
        pieces = t;
        from_downloading = false;
        to_downloading = false;
        is_seeding = true;
      },
      rw (marks, left, w.assembles) refl,
      (refl, (refl, left)),
    )
finish fs k (suc rest) m l c r saved w h total =
    let (t, marks, lookup, count) = mark_as_done_lem k h.piece c.pieces h.there in
    let was_undone : undone h.piece ≡ 1 = rw h.not_done refl in
    let left : total_undone_pieces_left t ≡ suc rest = omega (arith, h.left) in
    let more : (total_undone_pieces_left t == 0) ≡ false = rw left (ground arith) in
    let marked : Conn = record c {
      outbox = [];
      block_requester = some (reset r);
      saved_blocks = saved;
      pieces = t;
    } in
    let (d, e, same, next) =
      request_next_piece-IsDownloading (suc k) rest m l marked (reset r) refl (ap pos total) total
        refl h.queue
        (AreFree-get k (suc k) (suc rest) m l (record h.piece { status = done }) c.pieces t
          (omega arith) lookup h.later)
        left in
    (d, rw (marks, more, e) refl, (same, next))

module _ (content : Bytes) (pieces m l : ℕ) (r : IsRegular content pieces m l) (fs gs : Files)
    (w : Writes fs) (reads : Reads content gs) where
  pub round :
      (k rest : ℕ) (c s : Conn)
      → k < pieces
      → IsDownloading k rest m l c
      → IsSeed content pieces m l s
      → (u : Conn) × (handle_all gs c.outbox (sent_off s) ≡ ok (u, []))
        × IsSeed content pieces m l u
        × (d : Conn) × (handle_all fs u.outbox (sent_off c) ≡ ok (d, []))
        × (d.saved_blocks ≡ saved_all (all_answered content pieces m l r k 0 m) c.saved_blocks)
        × IsBehind k rest m l d
  round k rest c s hk h seed =
      let bs = all_answered content pieces m l r k 0 m in
      let (u, e, out, seed') =
        serve_all content pieces m l r gs k 0 h.blocks (sent_off s) reads
          (record { seeding = seed.seeding; has_all = seed.has_all }) hk (omega (arith, h.count))
          h.cut in
      let (d, e', q) =
        handle_all-arrived fs k w.saves w.assembles (Saved (saved_all bs c.saved_blocks) k rest m l)
          (answers content m l k 0 m) bs (sent_off c) h.requester h.has_requester
          (h.blocks_left ∙ ap pos (sym (length-all_answered content pieces m l r k 0 m)))
          (omega (arith, length-all_answered content pieces m l r k 0 m, r.blocks_pos))
          (all_answered-Arriving content pieces m l r k 0 m h.requester.channels hk (omega arith)
            h.awaited)
          (λ r' total.
            finish fs k rest m l c r' (saved_all bs c.saved_blocks) w h (total ∙ h.total)) in
      (
        u,
        rw h.wrote e,
        seed',
        d,
        subst (λ o. handle_all fs o (sent_off c) ≡ ok (d, []))
            (sym (out ∙ ap (λ n. map piece (answers content m l k 0 n)) h.count)) e',
        q.0,
        q.1,
      )
