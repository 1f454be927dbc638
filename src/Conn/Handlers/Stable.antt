-- ===== src/Conn/Handlers/Stable.antt =====
-- What every handler of peermsghandlers.go keeps: a property of the connection that each of the changes which the
-- handlers are made of keeps.
use totorrent.Base.{
  ℕ, ◌≡◌, Bool, true, false, Option-cases, Outcome-Cases, is_ok, is_err, is_panic, is_blocked, inl,
  inr, List, [], ◌∷◌, ◌++◌, Bytes, Option, none, some, length, ◌==◌, ok, Error,
  err_fileinfo_assemble_blocks_already_exists,
}
use totorrent.Piece.Block.{Block}
use totorrent.Piece.Safe.{
  SafePieces, get, mark_as_done, max_piece_idx, downloaded_piece_indices, total_undone_pieces_left,
}
use totorrent.Util.Slices.{int_slice_has, int_slice_unique_merge_slices}
use totorrent.FileInfo.{get_block, save_block}
use totorrent.Wire.Fields.{have_get_piece_idx, request_get_block, piece_get_block}
use totorrent.Wire.Bitfields.{get_piece_indices, build_peer_bitfield_msg}
use totorrent.Wire.Build.{build_peer_interested_msg, build_peer_unchoked_msg, build_peer_piece_msg}
use totorrent.Wire.Msg.{
  PeerMsg, handshake, keep_alive, choked, unchoked, interested, not_interested, have, bitfield,
  request, piece,
}
use totorrent.Conn.State.{Conn, BlockRequester, write_peer_msg, mark_downloading}
use totorrent.Conn.Requester.{on_block_receive, reset}
use totorrent.Conn.Queue.{request_next_piece}
use totorrent.Conn.Handlers.Gives.{Gives, bind-Gives, try-Gives, if-Gives}
use totorrent.Conn.Handlers.{
  Files, go_on, start_downloading, start_with_first, handle_handshake, handle_have, handle_bitfield,
  handle_request, handle_piece, handle_interested, handle_drop, answer_request, finish_piece,
  store_block, is_zero, default_finalize_func, default_peer_msg_func,
}

-- The changes that handlers make to a connection, and to the pieces and files behind it.
pub record IsStable (P : Conn → Type 0) : Type 0 where
  pub writes : (m : PeerMsg) (c : Conn) → P c → P (write_peer_msg m c)
  pub closes : (c : Conn) → P c → P (record c { is_closed = true })
  pub requester :
      (r : Option BlockRequester) (c : Conn) → P c → P (record c { block_requester = r })
  pub saves :
      (b : Block) (c : Conn) → P c → P (record c { saved_blocks = save_block b c.saved_blocks })
  pub queues :
      (k : ℕ) (c : Conn)
      → int_slice_has c.pieces_to_download_queue k ≡ false
      → P c
      → P (record c { pieces_to_download_queue = c.pieces_to_download_queue ++ k ∷ [] })
  pub merges :
      (is : List ℕ) (c : Conn)
      → P c
      → P (record c {
        pieces_to_download_queue = int_slice_unique_merge_slices c.pieces_to_download_queue is;
      })
  pub requests : (c d : Conn) (n : ℕ) → request_next_piece c ≡ ok (d, n) → P c → P d
  pub reads :
      (is_dir : Bool) (file : Option Bytes) (k begin l : ℕ) (c : Conn) (u : SafePieces)
      (o : Option Block)
      → get_block is_dir file k begin l c.is_seeding c.pieces ≡ ok (u, o)
      → P c
      → P (record c { pieces = u })
  pub finishes :
      (k : ℕ) (c : Conn) (t : SafePieces)
      → mark_as_done k c.pieces ≡ ok t
      → P c
      → P (record c { pieces = t })
  pub stops : (c : Conn) → P c → P (record c { from_downloading = false; to_downloading = false })
  pub seeds :
      (c : Conn)
      → (total_undone_pieces_left c.pieces == 0) ≡ true
      → P c
      → P (record c { is_seeding = true })

module _ (P : Conn → Type 0) (s : IsStable P) where
  go_on-Stable : (c : Conn) → P c → Gives P (go_on c)
  go_on-Stable c h =
      bind-Gives P (request_next_piece c) (λ r. ok (r.0, none)) (λ r e. s.requests c r.0 r.1 e h)

  start_downloading-Stable : (k : ℕ) (c : Conn) → P c → Gives P (start_downloading k c)
  unfolding start_downloading
  start_downloading-Stable k c h = elim (Option-cases (get k c.pieces)) [
    | inl n ↦ rw (n, start_downloading) tt
    | inr (q, n) ↦ rw (n, start_downloading) (go_on-Stable _ (s.requester _ c h))
  ]

  handle_have-Stable : (b : Bytes) (c : Conn) → P c → Gives P (handle_have b c)
  unfolding handle_have
  handle_have-Stable b c h = try-Gives P c (have_get_piece_idx b) _ h λ j _.
      if-Gives P (int_slice_has c.pieces_to_download_queue j) _ _ (λ _. h)
        λ new.
          if-Gives P (length c.pieces_to_download_queue == 0) _ _
            (λ _. start_downloading-Stable j _ (s.queues j c new h)) (λ _. s.queues j c new h)

  start_with_first-Stable : (queue : List ℕ) (c : Conn) → P c → Gives P (start_with_first queue c)
  unfolding start_with_first
  start_with_first-Stable [] c h = tt
  start_with_first-Stable (j ∷ queue) c h = start_downloading-Stable j c h

  handle_bitfield-Stable : (b : Bytes) (c : Conn) → P c → Gives P (handle_bitfield b c)
  unfolding handle_bitfield
  handle_bitfield-Stable b c h =
      try-Gives P c (get_piece_indices b (max_piece_idx c.pieces)) _ h λ is _.
        if-Gives P (length is == 0) _ _ (λ _. h)
          λ _.
            if-Gives P (length c.pieces_to_download_queue == 0) _ _
              (λ _. start_with_first-Stable _ _ (s.merges is c h)) (λ _. s.merges is c h)

  answer_request-Stable :
      (c : Conn) (u : SafePieces) (o : Option Block)
      → P (record c { pieces = u })
      → Gives P (answer_request c (u, o))
  unfolding answer_request
  answer_request-Stable c u none h = tt
  answer_request-Stable c u (some b) h = s.writes (build_peer_piece_msg b) _ h

  handle_request-Stable :
      (fs : Files) (b : Bytes) (c : Conn) → P c → Gives P (handle_request fs b c)
  unfolding handle_request
  handle_request-Stable fs b c h = try-Gives P c (request_get_block b) _ h λ b _.
      try-Gives P c
        (get_block fs.is_dir fs.finished_file b.piece_idx b.begin b.block_length c.is_seeding
          c.pieces)
        (answer_request c) h
        λ r e.
          answer_request-Stable c r.0 r.1
            (s.reads fs.is_dir fs.finished_file b.piece_idx b.begin b.block_length c r.0 r.1 e h)

  default_finalize_func-Stable :
      (e : Option Error) (c : Conn)
      → (total_undone_pieces_left c.pieces == 0) ≡ true
      → P c
      → Gives P (default_finalize_func e c)
  unfolding default_finalize_func
  default_finalize_func-Stable none c z h = s.seeds c z h
  default_finalize_func-Stable (some err_fileinfo_assemble_blocks_already_exists) c z h =
      s.seeds c z h
  default_finalize_func-Stable (some _) c z h = h

  finish_piece-Stable :
      (fs : Files) (j : ℕ) (r : BlockRequester) (c : Conn) → P c → Gives P (finish_piece fs j r c)
  unfolding finish_piece mark_downloading
  finish_piece-Stable fs j r c h = bind-Gives P (mark_as_done j c.pieces) _ λ t e.
      let marked = s.requester (some (reset r)) _ (s.finishes j c t e h) in
      if-Gives P (total_undone_pieces_left t == 0) _ _
        (λ z. default_finalize_func-Stable fs.assemble_error _ z (s.stops _ marked))
        (λ _. go_on-Stable _ marked)

  store_block-Stable :
      (fs : Files) (b : Block) (r : BlockRequester) (c : Conn)
      → P c
      → Gives P (store_block fs b r c)
  unfolding store_block
  store_block-Stable fs b r c h =
      let stored = s.saves b _ (s.requester (some r) c h) in
      elim (Option-cases fs.write_error) [
        | inr (e, w) ↦ rw (w, store_block) (s.requester (some r) c h)
        | inl w ↦
            rw (w, store_block)
              (if-Gives P (is_zero r.blocks_left) _ _
                (λ _. finish_piece-Stable fs b.piece_idx r _ stored) (λ _. stored))
      ]

  handle_piece-Stable : (fs : Files) (b : Bytes) (c : Conn) → P c → Gives P (handle_piece fs b c)
  unfolding handle_piece
  handle_piece-Stable fs b c h = try-Gives P c (piece_get_block b) _ h λ b _.
      elim (Option-cases c.block_requester) [
        | inl n ↦ rw n tt
        | inr (r, n) ↦
            rw n (bind-Gives P (on_block_receive b r) _ λ r' e. store_block-Stable fs b r' c h)
      ]

  handle_handshake-Stable : (c : Conn) → P c → Gives P (handle_handshake c)
  unfolding handle_handshake
  handle_handshake-Stable c h =
      let greeted = s.writes build_peer_interested_msg c h in
      if-Gives P (length (downloaded_piece_indices c.pieces) == 0) _ _ (λ _. greeted)
        λ _. elim (Outcome-Cases (build_peer_bitfield_msg (some c.pieces))) [
          | is_ok m e ↦ rw e (s.writes m _ greeted)
          | is_err x e ↦ rw e greeted
          | is_panic e ↦ rw e tt
          | is_blocked e ↦ rw e tt
        ]

  pub default_peer_msg_func-Stable :
      (fs : Files) (m : PeerMsg) (c : Conn) → P c → Gives P (default_peer_msg_func fs m c)
  unfolding default_peer_msg_func handle_interested handle_drop
  default_peer_msg_func-Stable fs (handshake b) c h = handle_handshake-Stable c h
  default_peer_msg_func-Stable fs (keep_alive b) c h = h
  default_peer_msg_func-Stable fs (interested b) c h = s.writes build_peer_unchoked_msg c h
  default_peer_msg_func-Stable fs (not_interested b) c h = s.closes c h
  default_peer_msg_func-Stable fs (unchoked b) c h = h
  default_peer_msg_func-Stable fs (choked b) c h = s.closes c h
  default_peer_msg_func-Stable fs (have b) c h = handle_have-Stable b c h
  default_peer_msg_func-Stable fs (bitfield b) c h = handle_bitfield-Stable b c h
  default_peer_msg_func-Stable fs (request b) c h = handle_request-Stable fs b c h
  default_peer_msg_func-Stable fs (piece b) c h = handle_piece-Stable fs b c h
