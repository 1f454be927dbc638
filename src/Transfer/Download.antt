-- ===== src/Transfer/Download.antt =====
-- From the pieces that `NewFileInfo` makes on two clients to the finished file of the one that had nothing
-- (fileinfo.go, piece.go, peermsg.go, peermsghandlers.go, peerconn.go, blockrequester.go).
use totorrent.Base.{
  ℕ, suc, ◌*◌, ◌%◌, ◌^◌, ◌≤◌, ◌≡◌, ◌≢◌, sym, ◌∙◌, ap, subst, true, false, List, [], Bytes, some,
  none, map, arith, ok,
}
use totorrent.Piece.Safe.{total_undone_pieces_left}
use totorrent.Wire.Msg.{bitfield}
use totorrent.Wire.Bitfields.{build_peer_bitfield_msg}
use totorrent.FileInfo.{new_pieces}
use totorrent.FileInfo.Assemble.{file_of, assemble_blocks}
use totorrent.FileInfo.Assemble.Whole.{blocks_of, assemble_blocks_whole}
use totorrent.Conn.State.{Conn, SavedBlock}
use totorrent.Conn.Handlers.{Files, default_peer_msg_func}
use totorrent.Transfer.{exchange}
use totorrent.Transfer.Answers.{IsRegular}
use totorrent.Transfer.Serve.{Reads}
use totorrent.Transfer.Start.{new_pieces-IsNew, IsNew-HasBlocks, whole_bitfield, starts}
use totorrent.Transfer.Round.{Writes}
use totorrent.Transfer.Whole.{exchange-whole}
use mathlib.Core.List.Permᴰ
use mathlib.Core.List.{Permᴰ, append-nil, reverse_aux}
use native.Mathlib.Nat.{zero-mul}

-- The new connection of a client that has nothing.
pub record IsFresh (c : Conn) : Type 0 where
  pub no_queue : c.pieces_to_download_queue ≡ []
  pub no_outbox : c.outbox ≡ []
  pub no_blocks : c.saved_blocks ≡ []

module _ (content : Bytes) (last m l : ℕ) (r : IsRegular content (suc last) m l)
    (fits : suc last * m ≤ 10 ^ 10) where
  saved_whole :
      (saved : List SavedBlock)
      → saved ≡ reverse_aux (blocks_of content m l 0 (suc last * m)) []
      → assemble_blocks false (record {
        blocks = some (map file_of saved);
        finished_file = none;
        has_working_directory = true;
        can_create = true;
      })
        ≡ ok (record { finished = some content; left = []; error = none })
  saved_whole saved e =
      let bs = blocks_of content m l 0 (suc last * m) in
      let p : Permᴰ bs saved =
        subst (λ x. Permᴰ bs x) (sym e)
          (subst (λ x. Permᴰ x (reverse_aux bs [])) (append-nil bs)
            (Permᴰ.symm (Permᴰ.reverse_aux bs []))) in
      assemble_blocks_whole content m l (suc last * m) (map file_of saved) r.blocks_pos fits
        (omega (arith, r.whole)) (Permᴰ.map file_of p)

  -- A file of whole blocks in pieces of equal length, of at most 10 ^ 10 blocks and with numbers
  -- that fit the messages, where the last index is no multiple of 8: a client that seeds it and one
  -- that has nothing make their pieces by `NewFileInfo`. The seed builds its BITFIELD message, and
  -- the handler of the other client takes it. Where the seed can read the file and the client can
  -- write and assemble its blocks, and no message is lost, as many rounds of requests and answers
  -- as there are pieces end without an error: the client seeds, no piece is left, and
  -- `assembleBlocks` makes the whole file of the blocks that it has saved.
  pub download_whole :
      (fs gs : Files) (c s : Conn)
      → Writes fs
      → Reads content gs
      → new_pieces last (suc last * (m * l)) (m * l) l false ≡ ok c.pieces
      → new_pieces last (suc last * (m * l)) (m * l) l true ≡ ok s.pieces
      → last % 8 ≢ 0
      → IsFresh c
      → s.is_seeding ≡ true
      → (p : Bytes) × (b d u : Conn) × (build_peer_bitfield_msg (some s.pieces) ≡ ok (bitfield p))
        × (default_peer_msg_func fs (bitfield p) c ≡ ok (b, none))
        × (exchange (suc last) fs gs b s ≡ ok (d, u, []))
        × (d.is_seeding ≡ true)
        × (total_undone_pieces_left d.pieces ≡ 0)
        × (assemble_blocks false (record {
          blocks = some (map file_of d.saved_blocks);
          finished_file = none;
          has_working_directory = true;
          can_create = true;
        })
            ≡ ok (record { finished = some content; left = []; error = none }))
  download_whole fs gs c s writes reads tc ts odd fresh seeding =
      let nc = new_pieces-IsNew content last m l r false c.pieces tc in
      let ns = new_pieces-IsNew content last m l r true s.pieces ts in
      let (p, built, read) = whole_bitfield content last m l r s.pieces ns odd in
      let (b, handled, same, h) =
        starts content last m l r fs p c nc fresh.no_queue fresh.no_outbox read in
      let (d, u, e, seeds, all_done, saved) =
        exchange-whole content (suc last) m l r fs gs writes reads last 0 b s (omega arith) h
          (record {
            seeding = seeding;
            has_all = IsNew-HasBlocks content last m l r true s.pieces ns;
          }) in
      (
        p,
        b,
        d,
        u,
        built,
        handled,
        e,
        seeds,
        all_done,
        saved_whole d.saved_blocks (
            saved
            ∙ ap (λ j. reverse_aux (blocks_of content m l j (suc last * m)) b.saved_blocks)
                (zero-mul m)
            ∙ ap (reverse_aux (blocks_of content m l 0 (suc last * m))) (same ∙ fresh.no_blocks)),
      )
