-- ===== src/Transfer/Start.antt =====
-- The pieces that `NewFileInfo` makes on two clients, and the BITFIELD message with which a download starts
-- (fileinfo.go, piece.go, peermsg.go, peermsghandlers.go).
use totorrent.Base.{
  ℕ, zero, suc, ◌+◌, ◌*◌, ◌%◌, ◌≤◌, ◌<◌, ◌≡◌, ◌≢◌, refl, sym, ◌∙◌, ap, subst, Bool, true, false, [],
  ◌∷◌, Bytes, some, none, length, ℕ_discrete, ◌==◌, if◌then◌else◌, arith, ok,
}
use totorrent.Piece.Block.{pos}
use totorrent.Piece.Impl.{Piece, idle, done, block_count}
use totorrent.Piece.Impl.Layout.{Sizes}
use totorrent.Piece.Safe.{SafePieces, get, max_piece_idx}
use totorrent.Piece.Safe.Indices.{is_downloaded}
use totorrent.Piece.Safe.Listed.{
  IsListed, IsListed-IsKeyed, total_undone-IsListed, max_piece_idx-IsListed, is_downloaded-IsListed,
}
use totorrent.Util.Bitfield.Laws.{indices_where}
use totorrent.Util.Slices.{int_slice_unique_merge_slices}
use totorrent.Util.Slices.Range.{range, int_slice_unique_merge_slices-range}
use totorrent.Conn.Requester.{new_block_requester}
use totorrent.Conn.Queue.{request_next_piece}
use totorrent.Wire.Msg.{bitfield}
use totorrent.Wire.Bitfields.{build_peer_bitfield_msg, get_piece_indices}
use totorrent.Wire.PieceList.{get_piece_indices-build}
use totorrent.FileInfo.{new_pieces, last_length}
use totorrent.FileInfo.Pieces.{IsCut, new_pieces-IsCut}
use totorrent.FileInfo.Listed.{new_pieces-IsListed}
use totorrent.Conn.State.{Conn}
use totorrent.Conn.Handlers.{
  Files, default_peer_msg_func, handle_bitfield, start_with_first, start_downloading,
}
use totorrent.Transfer.Table.{HasBlocks, Layout-HasBlocks}
use totorrent.Transfer.Answers.{IsRegular}
use totorrent.Transfer.Between.{IsDownloading, IsFree, AreFree, request_next_piece-IsDownloading}

where_all :
    (p : ℕ → Bool) (k count : ℕ)
    → ((j : ℕ) → k ≤ j → j < k + count → p j ≡ true)
    → indices_where p k count ≡ range k count
where_all p k zero h = refl
where_all p k (suc count) h =
    rw (h k (omega arith) (omega arith))
      (ap (◌∷◌ k) (where_all p (suc k) count (λ j low high. h j (omega arith) (omega arith))))

module _ (content : Bytes) (last m l : ℕ) (r : IsRegular content (suc last) m l) where
  pub sizes : Sizes (m * l) l
  sizes = record {
    piece_pos = grind (arith, r.blocks_pos, r.length_pos);
    block_pos = r.length_pos;
    small = r.piece_fits;
  }

  low : last * (m * l) < suc last * (m * l)
  low = omega (arith, sizes.piece_pos)

  high : suc last * (m * l) ≤ suc last * (m * l)
  high = omega arith

  -- What is known of the table that `NewFileInfo` makes.
  pub record IsNew (seeding : Bool) (t : SafePieces) : Type 0 where
    pub pieces_cut : (k : ℕ) → k < suc last → (is_last : Bool) × IsCut k (m * l) l seeding is_last t
    pub listed : IsListed 0 (if seeding then done else idle) t
    pub total : length t ≡ suc last

  pub new_pieces-IsNew :
      (seeding : Bool) (t : SafePieces)
      → new_pieces last (suc last * (m * l)) (m * l) l seeding ≡ ok t
      → IsNew seeding t
  new_pieces-IsNew seeding t e =
      let (u, e', regular, end, total) =
        new_pieces-IsCut last (suc last * (m * l)) (m * l) l seeding sizes low high in
      let (v, e'', listed, count) =
        new_pieces-IsListed last (suc last * (m * l)) (m * l) l seeding sizes low high in
      let ut : u ≡ t = cc (e, e') in
      let vt : v ≡ t = cc (e, e'') in
      let full : last_length (suc last * (m * l)) (m * l) ≡ m * l = omega (arith, total) in
      record {
        pieces_cut = λ k h. elim (ℕ_discrete k last) [
          | yes is ↦ (
            true,
            subst (λ (t : SafePieces). IsCut k (m * l) l seeding true t) ut
                (subst (λ n. IsCut k n l seeding true u) full
                  (subst (λ j. IsCut j (last_length (suc last * (m * l)) (m * l)) l seeding true u)
                    (sym is) end)),
          )
          | no isnt ↦ (
            false,
            subst (λ (t : SafePieces). IsCut k (m * l) l seeding false t) ut
                (regular k (omega (arith, isnt))),
          )
        ];
        listed = subst (IsListed 0 (if seeding then done else idle)) vt listed;
        total = subst (λ (t : SafePieces). length t ≡ suc last) vt count;
      }

  pub IsNew-HasBlocks :
      (seeding : Bool) (t : SafePieces)
      → IsNew seeding t
      → (k : ℕ) → k < suc last
      → HasBlocks k m l t
  IsNew-HasBlocks seeding t new k h =
      let (is_last, c) = new.pieces_cut k h in
      Layout-HasBlocks k m l c.piece t r.length_pos c.there c.number c.layout

  IsNew-IsFree : (t : SafePieces) → IsNew false t → (k : ℕ) → k < suc last → IsFree k m l t
  IsNew-IsFree t new k h =
      let b = IsNew-HasBlocks false t new k h in
      let (is_last, c) = new.pieces_cut k h in
      let same : c.piece ≡ b.piece = cc (c.there, b.there) in
      record {
        piece = b.piece;
        there = b.there;
        is_free = ap (λ (p : Piece). p.status) (sym same) ∙ c.status;
        count = b.count;
        cut = b.cut;
      }

  IsNew-AreFree :
      (t : SafePieces)
      → IsNew false t
      → (k count : ℕ) → k + count ≤ suc last
      → AreFree k count m l t
  IsNew-AreFree t new k zero h = tt
  IsNew-AreFree t new k (suc count) h =
      (IsNew-IsFree t new k (omega arith), IsNew-AreFree t new (suc k) count (omega arith))

  -- The BITFIELD message of a client that has everything.
  pub whole_bitfield :
      (t : SafePieces)
      → IsNew true t
      → last % 8 ≢ 0
      → (p : Bytes) × (build_peer_bitfield_msg (some t) ≡ ok (bitfield p))
        × (get_piece_indices p last ≡ ok (range 0 (suc last)))
  whole_bitfield t new odd =
      let largest = max_piece_idx-IsListed done t (omega (arith, new.total)) new.listed in
      let is_last : max_piece_idx t ≡ last = omega (arith, new.total) in
      let (p, e, got) =
        get_piece_indices-build t (omega (arith, new.total)) (IsListed-IsKeyed 0 done t new.listed)
          (λ z. odd (ap (λ n. n % 8) (sym is_last) ∙ z)) in
      (
        p,
        e,
        ap (get_piece_indices p) (sym is_last)
            ∙ got
            ∙ ap (λ n. ok (indices_where (is_downloaded t) 0 (suc n))) is_last
            ∙ ap ok (
                where_all (is_downloaded t) 0 (suc last) (λ j low high.
                  is_downloaded-IsListed 0 j t new.listed low (omega (arith, new.total)))),
      )

  bitfield_handled :
      (fs : Files) (p : Bytes) (c : Conn) (q : Piece) (d : Conn) (n : ℕ)
      → get_piece_indices p (max_piece_idx c.pieces) ≡ ok (range 0 (suc last))
      → c.pieces_to_download_queue ≡ []
      → get 0 c.pieces ≡ some q
      → request_next_piece (record c {
        pieces_to_download_queue = range 0 (suc last);
        block_requester = some (new_block_requester (block_count q));
      })
        ≡ ok (d, n)
      → default_peer_msg_func fs (bitfield p) c ≡ ok (d, none)
  unfolding default_peer_msg_func handle_bitfield start_with_first start_downloading
  bitfield_handled fs p c q d n e no_queue there got =
      let merged : int_slice_unique_merge_slices c.pieces_to_download_queue (range 0 (suc last))
          ≡ range 0 (suc last) =
        ap (λ x. int_slice_unique_merge_slices x (range 0 (suc last))) no_queue
        ∙ int_slice_unique_merge_slices-range 0 (suc last) in
      let some_left : (suc (length (range 1 last)) == 0) ≡ false = ground arith in
      let empty : (length c.pieces_to_download_queue == 0) ≡ true =
        ground (arith, ap length no_queue) in
      rw (e, some_left, empty, merged, start_with_first, start_downloading, there, got) refl

  -- The client that has nothing asks for the first piece.
  pub starts :
      (fs : Files) (p : Bytes) (c : Conn)
      → IsNew false c.pieces
      → c.pieces_to_download_queue ≡ []
      → c.outbox ≡ []
      → get_piece_indices p last ≡ ok (range 0 (suc last))
      → (d : Conn) × (default_peer_msg_func fs (bitfield p) c ≡ ok (d, none))
        × (d.saved_blocks ≡ c.saved_blocks)
        × IsDownloading 0 last m l d
  unfolding new_block_requester block_count
  starts fs p c new no_queue no_outbox e =
      let largest = max_piece_idx-IsListed idle c.pieces (omega (arith, new.total)) new.listed in
      let is_last : max_piece_idx c.pieces ≡ last = omega (arith, new.total) in
      let f = IsNew-IsFree c.pieces new 0 (omega arith) in
      let requester = new_block_requester (block_count f.piece) in
      let mid : Conn = record c {
        pieces_to_download_queue = range 0 (suc last);
        block_requester = some requester;
      } in
      let (d, got, same, next) =
        request_next_piece-IsDownloading 0 last m l mid requester refl (ap pos f.count) f.count
          no_outbox refl (IsNew-AreFree c.pieces new 0 (suc last) (omega arith))
          (total_undone-IsListed 0 c.pieces new.listed ∙ new.total) in
      (
        d,
        bitfield_handled fs p c f.piece d m (ap (get_piece_indices p) is_last ∙ e) no_queue f.there
            got,
        same,
        next,
      )
