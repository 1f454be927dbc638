-- ===== src/Conn/Handlers/Complete.antt =====
-- A piece of which all blocks arrive is completed (peermsghandlers.go, blockrequester.go).
use totorrent.Base.{
  ℕ, ◌+◌, ◌<◌, ◌≡◌, refl, subst, ◌∙◌, ap, true, false, Bool-cases, inl, inr, List, [], ◌∷◌, Bytes,
  none, some, map, All, arith, length, ◌==◌, if◌then◌else◌, ok,
}
use totorrent.Piece.Block.{pos, Block}
use totorrent.Piece.Impl.{Piece, done}
use totorrent.Piece.Safe.{SafePieces, get, total_undone_pieces_left}
use totorrent.Piece.Safe.Table.{mark_as_done_lem, undone}
use totorrent.Piece.Safe.Far.{IsAsFar}
use totorrent.Wire.Msg.{piece}
use totorrent.Wire.Fields.{piece_get_block}
use totorrent.Conn.State.{
  Conn, BlockRequester, SavedBlock, open_channel, channel_of, decrement, mark_downloading,
}
use totorrent.Conn.Requester.{reset}
use totorrent.Conn.Queue.Counts.{requested-undone, requested-seeding}
use totorrent.Conn.Queue.Returns.{IsPresent, request_next_piece_returns}
use totorrent.Conn.Handlers.{
  Files, handle_piece, store_block, finish_piece, is_zero, default_finalize_func,
  default_peer_msg_func, handle_all,
}
use totorrent.Conn.Handlers.Progress.{request_next_piece-Far}
use totorrent.Conn.Handlers.Arriving.{
  Arriving, Arriving-close, saved_all, took_block, stored, received_block,
}

-- What holds behind the last block of piece `k`, which was `p`, of a download that started as `c`.
abbrev pub Completed : ℕ → Piece → List SavedBlock → Conn → Conn → Type 0
Completed k p saved c d =
    IsAsFar k (record p { status = done }) d.pieces
    × (d.saved_blocks ≡ saved)
    × (total_undone_pieces_left d.pieces + undone p ≡ total_undone_pieces_left c.pieces)
    × (d.is_seeding ≡ (if total_undone_pieces_left d.pieces == 0 then true else c.is_seeding))

-- The connection behind the last block.
abbrev pub arrived : List Block → BlockRequester → Conn → Conn
arrived bs r c = record c { block_requester = some r; saved_blocks = saved_all bs c.saved_blocks }

module _ (fs : Files) (k : ℕ) (writes : fs.write_error ≡ none)
    (assembles : fs.assemble_error ≡ none) where
  arrives :
      (p : Bytes) (b : Block) (c : Conn) (r : BlockRequester)
      → c.block_requester ≡ some r
      → piece_get_block p ≡ ok b
      → channel_of b.idx r.channels ≡ some open_channel
      → default_peer_msg_func fs (piece p) c ≡ store_block fs b (took_block b r) c
  unfolding default_peer_msg_func handle_piece
  arrives p b c r er g ch = rw (g, er, received_block b r ch) refl

  -- A block that is not the last one.
  stored_early :
      (b : Block) (r : BlockRequester) (c : Conn)
      → is_zero (decrement r.blocks_left) ≡ false
      → store_block fs b (took_block b r) c ≡ ok (stored b r c, none)
  unfolding store_block
  stored_early b r c z = rw (writes, store_block, z) refl

  stored_last :
      (b : Block) (r : BlockRequester) (c : Conn)
      → is_zero (decrement r.blocks_left) ≡ true
      → store_block fs b (took_block b r) c
        ≡ finish_piece fs b.piece_idx (took_block b r) (stored b r c)
  unfolding store_block
  stored_last b r c z = rw (writes, store_block, z) refl

  All-IsPresent :
      (j : ℕ) (p : Piece) (t u : SafePieces) (queue : List ℕ)
      → ((m : ℕ) → get m u ≡ (if j == m then some p else get m t))
      → All (IsPresent t) queue
      → All (IsPresent u) queue
  All-IsPresent j p t u [] g h = tt
  All-IsPresent j p t u (m ∷ queue) g ((q, h), hs) = (
    elim (Bool-cases (j == m)) [ inl e ↦ (p, rw (g m, e) refl) | inr e ↦ (q, rw (g m, e) h) ],
    All-IsPresent j p t u queue g hs,
  )

  finished :
      (p : Piece) (r : BlockRequester) (c : Conn)
      → get k c.pieces ≡ some p
      → All (IsPresent c.pieces) c.pieces_to_download_queue
      → (d : Conn) × (finish_piece fs k r c ≡ ok (d, none)) × Completed k p c.saved_blocks c d
  unfolding finish_piece mark_downloading default_finalize_func
  finished p r c there present =
      let (t, marks, lookup, count) = mark_as_done_lem k p c.pieces there in
      let far : IsAsFar k (record p { status = done }) t = record {
        now = record p { status = done };
        there = ground (arith, lookup k);
        no_less_done = omega arith;
        same_idx = refl;
        same_count = refl;
      } in
      let marked : Conn = record c { block_requester = some (reset r); pieces = t } in
      elim (Bool-cases (total_undone_pieces_left t == 0)) [
        | inl z ↦ (
          record marked { from_downloading = false; to_downloading = false; is_seeding = true },
          rw (marks, z, assembles) refl,
          (far, refl, count, rw z refl),
        )
        | inr z ↦
            let (d, n, e, how) = request_next_piece_returns marked (reset r) refl (
              All-IsPresent k (record p { status = done }) c.pieces t c.pieces_to_download_queue
                lookup present) in
            (
              d,
              rw (marks, z, e) refl,
              (
                request_next_piece-Far k (record p { status = done }) marked far e,
                elim how [ inl o ↦ o.same_saved | inr o ↦ o.same_saved ],
                ap (λ x. x + undone p) (requested-undone _ marked d n how) ∙ count,
                requested-seeding _ marked d n how ∙ rw (requested-undone _ marked d n how, z) refl,
              ),
            )
      ]

  -- Behind the last block, for any property of how the piece is finished.
  pub handle_all-arrived {ℓ} :
      (Q : Conn → Type ℓ) (ps : List Bytes) (bs : List Block) (c : Conn) (r : BlockRequester)
      → c.block_requester ≡ some r
      → r.blocks_left ≡ pos (length bs)
      → 0 < length bs
      → Arriving k r.channels ps bs
      → ((r' : BlockRequester)
          → r'.total_num_of_blocks ≡ r.total_num_of_blocks
          → (d : Conn) × (finish_piece fs k r' (arrived bs r' c) ≡ ok (d, none)) × Q d)
      → (d : Conn) × (handle_all fs (map piece ps) c ≡ ok (d, [])) × Q d
  unfolding handle_all
  handle_all-arrived Q [] [] c r er left some_left a ends = absurd (omega arith)
  handle_all-arrived Q (x ∷ ps) [] c r er left some_left a ends = absurd a
  handle_all-arrived Q [] (b ∷ bs) c r er left some_left a ends = absurd a
  handle_all-arrived Q (x ∷ []) (b ∷ []) c r er left some_left (g, kb, ch, ne, a) ends =
      let last : is_zero (decrement r.blocks_left) ≡ true = rw left refl in
      let (d, e, q) = ends (took_block b r) refl in
      let to_finish =
        subst
          (λ j.
            store_block fs b (took_block b r) c ≡ finish_piece fs j (took_block b r) (stored b r c))
          kb (stored_last b r c last) in
      (d, rw (arrives x b c r er g ch, to_finish, e) refl, q)
  handle_all-arrived Q (x ∷ []) (b ∷ b' ∷ bs) c r er left some_left (g, kb, ch, ne, a) ends =
      absurd a
  handle_all-arrived Q (x ∷ x' ∷ ps) (b ∷ []) c r er left some_left (g, kb, ch, ne, a) ends =
      absurd a
  handle_all-arrived Q (x ∷ x' ∷ ps) (b ∷ b' ∷ bs) c r er left some_left (g, kb, ch, ne, a) ends =
      let early : is_zero (decrement r.blocks_left) ≡ false = rw left (ground arith) in
      let (d, e, q) =
        handle_all-arrived Q (x' ∷ ps) (b' ∷ bs) (stored b r c) (took_block b r) refl (rw left refl)
          (omega arith) (Arriving-close k b.idx r.channels (x' ∷ ps) (b' ∷ bs) ne a) ends in
      (d, rw (arrives x b c r er g ch, stored_early b r c early, e) refl, q)

  -- The PIECE messages of all blocks that are left of a piece, in any order, each of a block that
  -- was requested and of a different one: where the files can be written and assembled, the piece
  -- is in the table, and the queue names pieces of the table only, every handler returns without an
  -- error, all blocks are saved in the order of arrival, and the piece is done. The number of
  -- pieces left falls by one if it was not done before, and where it reaches 0 the client is
  -- seeding.
  pub handle_all-completes :
      (p : Piece) (ps : List Bytes) (bs : List Block) (c : Conn) (r : BlockRequester)
      → c.block_requester ≡ some r
      → r.blocks_left ≡ pos (length bs)
      → 0 < length bs
      → Arriving k r.channels ps bs
      → get k c.pieces ≡ some p
      → All (IsPresent c.pieces) c.pieces_to_download_queue
      → (d : Conn) × (handle_all fs (map piece ps) c ≡ ok (d, []))
        × Completed k p (saved_all bs c.saved_blocks) c d
  handle_all-completes p ps bs c r er left some_left a there present =
      handle_all-arrived (Completed k p (saved_all bs c.saved_blocks) c) ps bs c r er left some_left
        a λ r' same. finished p r' (arrived bs r' c) there present
