-- ===== src/Transfer/Answers.antt =====
-- The requests for the blocks of a regular torrent, and the answers to them, as messages (peermsg.go).
use totorrent.Base.{
  ℕ, zero, suc, ◌+◌, ◌*◌, ◌^◌, ◌≤◌, ◌<◌, ◌≡◌, refl, ◌∙◌, ap, false, List, [], ◌∷◌, ◌++◌, Bytes,
  length, take, drop, ◌==◌, arith, ok,
}
use totorrent.Base.Words.{put_uint32}
use totorrent.Piece.Block.{Block, pos, new_block}
use totorrent.Wire.Msg.{request, get_payload}
use totorrent.Wire.Build.{build_peer_piece_msg, build_peer_request_msg}
use totorrent.Wire.Fields.{request_get_block, piece_get_block}
use totorrent.Wire.Blocks.{FitsWire, carried, request_get_block-build, piece_get_block-build}
use totorrent.FileInfo.Seek.{IsAt}
use totorrent.Conn.Requester.Sends.{request_of}
use native.Mathlib.Nat.{mul-div_cancel}

-- The bytes of block `i` of piece `k`, in a file of pieces of `m` blocks.
abbrev pub part : Bytes → ℕ → ℕ → ℕ → ℕ → Bytes
part content m l k i = take l (drop ((k * m + i) * l) content)

-- The payload of its PIECE message, and the block that is read from it.
abbrev pub answer : Bytes → ℕ → ℕ → ℕ → ℕ → Bytes
answer content m l k i = put_uint32 k ++ (put_uint32 (i * l) ++ part content m l k i)

abbrev pub answers : Bytes → ℕ → ℕ → ℕ → ℕ → ℕ → List Bytes
answers content m l k i zero = []
answers content m l k i (suc count) = answer content m l k i ∷ answers content m l k (suc i) count

abbrev pub answered : Bytes → ℕ → ℕ → ℕ → ℕ → Block
answered content m l k i = new_block (pos i) k (i * l) l (part content m l k i)

-- A file of `pieces` pieces of `m` blocks of `l` bytes, with numbers that fit the messages.
pub record IsRegular (content : Bytes) (pieces m l : ℕ) : Type 0 where
  pub length_pos : 0 < l
  pub blocks_pos : 0 < m
  pub pieces_fit : pieces < 2 ^ 32
  pub piece_fits : m * l + l ≤ 2 ^ 32
  pub whole : length content ≡ pieces * m * l

length-take-drop :
    (l place : ℕ) (xs : Bytes) → place + l ≤ length xs → length (take l (drop place xs)) ≡ l
length-take-drop zero place xs h = refl
length-take-drop (suc l) zero [] h = absurd (omega arith)
length-take-drop (suc l) zero (x ∷ xs) h = ap suc (length-take-drop l 0 xs (omega arith))
length-take-drop (suc l) (suc place) [] h = absurd (omega arith)
length-take-drop (suc l) (suc place) (x ∷ xs) h = length-take-drop (suc l) place xs (omega arith)

carried_part :
    (buff : Bytes) (k i l : ℕ)
    → 0 < l
    → length buff ≡ l
    → carried (new_block (pos i) k (i * l) l buff) ≡ ok (new_block (pos i) k (i * l) l buff)
unfolding new_block
carried_part [] k i l l_pos e = absurd (omega arith)
carried_part (x ∷ s) k i l l_pos e = rw (e, mul-div_cancel i l_pos) refl

module _ (content : Bytes) (pieces m l : ℕ) (r : IsRegular content pieces m l) where
  offset_fits : (i : ℕ) → i < m → i * l + l ≤ m * l
  offset_fits i h = grind arith

  pub blocks_fit : m < 2 ^ 32
  blocks_fit = grind (arith, r.piece_fits, r.length_pos)

  length_fits : l < 2 ^ 32
  length_fits = grind (arith, r.piece_fits, r.blocks_pos)

  pub inside : (k i : ℕ) → k < pieces → i < m → (k * m + i) * l + l ≤ length content
  inside k i hk hi =
      let block : suc (k * m + i) ≤ pieces * m = grind arith in
      omega (arith, r.whole, ap (λ x. x * l) r.whole, in_blocks (k * m + i) (pieces * m) l block)
    where
      in_blocks : (a b l : ℕ) → suc a ≤ b → a * l + l ≤ b * l
      in_blocks a b l h = grind arith

  asked_for : (k i : ℕ) → k < pieces → i < m → FitsWire (new_block (pos i) k (i * l) l [])
  unfolding new_block
  asked_for k i hk hi = record {
    piece_idx_fits = omega (arith, r.pieces_fit);
    begin_fits = omega (arith, offset_fits i hi, r.piece_fits);
    length_fits = length_fits;
  }

  pub request_read :
      (k i : ℕ) (b : Block)
      → k < pieces
      → i < m
      → IsAt k i l b
      → (p : Bytes) × (request_of b ≡ request p)
        × (request_get_block p ≡ ok (new_block (pos i) k (i * l) l []))
  unfolding build_peer_request_msg new_block
  request_read k i b hk hi at =
      let (p, e, got) =
        request_get_block-build (new_block (pos i) k (i * l) l []) (asked_for k i hk hi) in
      let nonzero : (l == 0) ≡ false = ground (arith, r.length_pos) in
      (p, rw (at.1, at.2, at.3) (cc e), got ∙ rw (nonzero, mul-div_cancel i r.length_pos) refl)

  length-part : (k i : ℕ) → k < pieces → i < m → length (part content m l k i) ≡ l
  length-part k i hk hi = length-take-drop l ((k * m + i) * l) content (inside k i hk hi)

  -- What is read from an answer.
  pub read_answer :
      (k i : ℕ)
      → k < pieces
      → i < m
      → piece_get_block (answer content m l k i) ≡ ok (answered content m l k i)
  unfolding build_peer_piece_msg get_payload new_block
  read_answer k i hk hi =
      piece_get_block-build (answered content m l k i) (record {
        piece_idx_fits = omega (arith, r.pieces_fit);
        begin_fits = omega (arith, offset_fits i hi, r.piece_fits);
        length_fits = length_fits;
      })
      ∙ carried_part (part content m l k i) k i l r.length_pos (length-part k i hk hi)
