-- ===== src/Conn/Handlers/Arriving.antt =====
-- PIECE messages with requested blocks of one piece, and what one of them does to the requester (peermsghandlers.go,
-- blockrequester.go).
use totorrent.Base.{
  ℕ, ◌≡◌, refl, ◌∙◌, ap, true, false, Bool-cases, inl, inr, List, [], ◌∷◌, Bytes, some, All, arith,
  ok,
}
use totorrent.Piece.Block.{ℤ, pos, negsuc, Block}
use totorrent.FileInfo.{save_block}
use totorrent.Wire.Fields.{piece_get_block}
use totorrent.Conn.State.{
  Conn, BlockRequester, SavedBlock, Channel, open_channel, closed_channel, int_eq, channel_of,
  set_channel, decrement,
}
use totorrent.Conn.Requester.{on_block_receive}

-- The payloads carry the blocks, which belong to piece `k`, have different numbers, and were requested.
abbrev pub Arriving : ℕ → List (ℤ × Channel) → List Bytes → List Block → Type 0
Arriving k channels [] [] = Unit {0}
Arriving k channels [] (b ∷ bs) = ⊥
Arriving k channels (p ∷ ps) [] = ⊥
Arriving k channels (p ∷ ps) (b ∷ bs) =
    (piece_get_block p ≡ ok b)
    × (b.piece_idx ≡ k)
    × (channel_of b.idx channels ≡ some open_channel)
    × All (λ d. int_eq b.idx d.idx ≡ false) bs
    × Arriving k channels ps bs

-- The files of the blocks, the last one first.
abbrev pub saved_all : List Block → List SavedBlock → List SavedBlock
saved_all [] saved = saved
saved_all (b ∷ bs) saved = saved_all bs (save_block b saved)

pub int_eq→eq : (i j : ℤ) → int_eq i j ≡ true → i ≡ j
int_eq→eq (pos i) (pos j) h = ground arith
int_eq→eq (pos i) (negsuc j) h = cc
int_eq→eq (negsuc i) (pos j) h = cc
int_eq→eq (negsuc i) (negsuc j) h = ground arith

pub channel_of-set_channel_ne :
    (i j : ℤ) (ch : Channel) (m : List (ℤ × Channel))
    → int_eq i j ≡ false
    → channel_of j (set_channel i ch m) ≡ channel_of j m
unfolding channel_of set_channel
channel_of-set_channel_ne i j ch [] h = rw h refl
channel_of-set_channel_ne i j ch ((n, old) ∷ m) h = elim (Bool-cases (int_eq n i)) [
  | inl e ↦ rw (e, channel_of, h, ap (λ x. int_eq x j) (int_eq→eq n i e), h) refl
  | inr e ↦ elim (Bool-cases (int_eq n j)) [
    | inl d ↦ rw (e, channel_of, d) refl
    | inr d ↦ rw (e, channel_of, d) (channel_of-set_channel_ne i j ch m h)
  ]
]

pub Arriving-close :
    (k : ℕ) (i : ℤ) (channels : List (ℤ × Channel)) (ps : List Bytes) (bs : List Block)
    → All (λ d. int_eq i d.idx ≡ false) bs
    → Arriving k channels ps bs
    → Arriving k (set_channel i closed_channel channels) ps bs
Arriving-close k i channels [] [] h a = tt
Arriving-close k i channels [] (b ∷ bs) h a = a
Arriving-close k i channels (p ∷ ps) [] h a = a
Arriving-close k i channels (p ∷ ps) (b ∷ bs) (h, hs) (g, n, ch, ne, a) = (
  g,
  n,
  channel_of-set_channel_ne i b.idx closed_channel channels h ∙ ch,
  ne,
  Arriving-close k i channels ps bs hs a,
)

-- The requester behind the arrival of `b`, and the connection with it.
abbrev pub took_block : Block → BlockRequester → BlockRequester
took_block b r = record r {
  channels = set_channel b.idx closed_channel r.channels;
  blocks_left = decrement r.blocks_left;
}

abbrev pub stored : Block → BlockRequester → Conn → Conn
stored b r c = record c {
  block_requester = some (took_block b r);
  saved_blocks = save_block b c.saved_blocks;
}

pub received_block :
    (b : Block) (r : BlockRequester)
    → channel_of b.idx r.channels ≡ some open_channel
    → on_block_receive b r ≡ ok (took_block b r)
unfolding on_block_receive
received_block b r h = rw (h, on_block_receive) refl
