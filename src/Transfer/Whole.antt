-- ===== src/Transfer/Whole.antt =====
-- A whole torrent goes from one client to another, block by block (peermsghandlers.go, peerconn.go,
-- blockrequester.go, piece.go, fileinfo.go).
use totorrent.Base.{
  ℕ, zero, suc, ◌+◌, ◌*◌, ◌/◌, ◌%◌, ◌≤◌, ◌<◌, ◌≡◌, refl, sym, ◌∙◌, ap, true, List, [], ◌∷◌, Bytes,
  arith, ok,
}
use totorrent.Piece.Block.{new_block}
use totorrent.Piece.Safe.{total_undone_pieces_left}
use totorrent.FileInfo.{save_block}
use totorrent.FileInfo.Assemble.Whole.{block_of, blocks_of}
use totorrent.Conn.State.{Conn, SavedBlock}
use totorrent.Conn.Handlers.{Files}
use totorrent.Conn.Handlers.Arriving.{saved_all}
use totorrent.Transfer.{exchange, sent_off}
use totorrent.Transfer.Answers.{IsRegular, answered}
use totorrent.Transfer.Serve.{IsSeed, Reads}
use totorrent.Transfer.Asked.{all_answered}
use totorrent.Transfer.Between.{IsDownloading}
use totorrent.Transfer.Round.{Writes, round}
use native.Mathlib.Nat.{div-eq_of_lt-le, div-add-mod', zero-add, add-zero, suc-add}
use mathlib.Core.List.{reverse_aux}

next_piece : (k m : ℕ) → suc k * m ≡ k * m + m
next_piece k m = omega arith

one_more : (k m : ℕ) → m + k * m ≡ suc k * m
one_more k m = omega arith

blocks_of-add :
    (content : Bytes) (n l j a b : ℕ) (saved : List SavedBlock)
    → reverse_aux (blocks_of content n l j (a + b)) saved
      ≡ reverse_aux
          (blocks_of content n l (j + a) b)
          (reverse_aux (blocks_of content n l j a) saved)
blocks_of-add content n l j zero b saved = rw (zero-add b, add-zero j) refl
blocks_of-add content n l j (suc a) b saved =
    ap (λ x. reverse_aux (blocks_of content n l j x) saved) (suc-add a b)
    ∙ blocks_of-add content n l (suc j) a b (block_of content n l j ∷ saved)
    ∙ ap
        (λ x.
          reverse_aux (blocks_of content n l x b)
            (reverse_aux (blocks_of content n l j (suc a)) saved))
        (shift j a)
  where
    shift : (j a : ℕ) → suc j + a ≡ j + suc a
    shift j a = omega arith

module _ (content : Bytes) (pieces m l : ℕ) (r : IsRegular content pieces m l) where
  piece_of_block : (k i : ℕ) → i < m → (k * m + i) / m ≡ k
  piece_of_block k i h = div-eq_of_lt-le m (omega arith) (grind arith)

  place_of_block : (k i : ℕ) → i < m → (k * m + i) % m ≡ i
  place_of_block k i h =
      omega (arith, div-add-mod' (k * m + i) m, ap (λ q. q * m) (piece_of_block k i h))

  -- The file of a block that was answered.
  save_block-answered :
      (k i : ℕ) (saved : List SavedBlock)
      → i < m
      → save_block (answered content m l k i) saved ≡ block_of content m l (k * m + i) ∷ saved
  unfolding save_block new_block
  save_block-answered k i saved h = rw (piece_of_block k i h, place_of_block k i h) refl

  saved_all-blocks_of :
      (k i count : ℕ) (saved : List SavedBlock)
      → i + count ≤ m
      → saved_all (all_answered content pieces m l r k i count) saved
        ≡ reverse_aux (blocks_of content m l (k * m + i) count) saved
  saved_all-blocks_of k i zero saved h = refl
  saved_all-blocks_of k i (suc count) saved h =
      ap (saved_all (all_answered content pieces m l r k (suc i) count))
        (save_block-answered k i saved (omega arith))
      ∙ saved_all-blocks_of k (suc i) count (block_of content m l (k * m + i) ∷ saved) (omega arith)
      ∙ ap
          (λ j.
            reverse_aux (blocks_of content m l j count) (block_of content m l (k * m + i) ∷ saved))
          (omega arith)

  one_piece :
      (k : ℕ) (saved : List SavedBlock)
      → saved_all (all_answered content pieces m l r k 0 m) saved
        ≡ reverse_aux (blocks_of content m l (k * m) m) saved
  one_piece k saved =
      saved_all-blocks_of k 0 m saved (omega arith)
      ∙ ap (λ j. reverse_aux (blocks_of content m l j m) saved) (add-zero (k * m))

  one_m : m ≡ 1 * m
  one_m = omega arith

  module _ (fs gs : Files) (w : Writes fs) (reads : Reads content gs) where
    pub exchange-whole :
        (rest k : ℕ) (c s : Conn)
        → k + suc rest ≡ pieces
        → IsDownloading k rest m l c
        → IsSeed content pieces m l s
        → (d : Conn) × (u : Conn) × (exchange (suc rest) fs gs c s ≡ ok (d, u, []))
          × (d.is_seeding ≡ true)
          × (total_undone_pieces_left d.pieces ≡ 0)
          × (d.saved_blocks
              ≡ reverse_aux (blocks_of content m l (k * m) (suc rest * m)) c.saved_blocks)
    unfolding exchange
    exchange-whole zero k c s all h seed =
        let (u, e, seed', d, e', same, behind) =
          round content pieces m l r fs gs w reads k 0 c s (omega arith) h seed in
        (
          d,
          sent_off u,
          rw (e, e') refl,
          behind.0,
          behind.1,
          same
              ∙ one_piece k c.saved_blocks
              ∙ ap (λ n. reverse_aux (blocks_of content m l (k * m) n) c.saved_blocks) one_m,
        )
    exchange-whole (suc rest) k c s all h seed =
        let (u, e, seed', d, e', same, behind) =
          round content pieces m l r fs gs w reads k (suc rest) c s (omega arith) h seed in
        let (d', u', e'', seeding, all_done, saved) =
          exchange-whole rest (suc k) d (sent_off u) (omega arith) behind
            (record { seeding = seed'.seeding; has_all = seed'.has_all }) in
        (
          d',
          u',
          rw (e, e', e'') refl,
          seeding,
          all_done,
          saved
              ∙ ap (reverse_aux (blocks_of content m l (suc k * m) (suc rest * m)))
                  (same ∙ one_piece k c.saved_blocks)
              ∙ ap
                  (λ j.
                    reverse_aux (blocks_of content m l j (suc rest * m))
                      (reverse_aux (blocks_of content m l (k * m) m) c.saved_blocks))
                  (next_piece k m)
              ∙ sym (blocks_of-add content m l (k * m) m (suc rest * m) c.saved_blocks)
              ∙ ap (λ n. reverse_aux (blocks_of content m l (k * m) n) c.saved_blocks)
                  (one_more (suc rest) m),
        )
