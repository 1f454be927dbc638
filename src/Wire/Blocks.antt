-- ===== src/Wire/Blocks.antt =====
-- REQUEST and PIECE messages of peermsg.go: the block that is written and the block that is read.
use totorrent.Base.{ℕ, ◌/◌, ◌≡◌, refl, ◌<◌, ◌^◌, [], ◌∷◌, ◌++◌, Bytes, some, arith, sym}
use totorrent.Base.{length, length-append, take-all, ◌==◌, if◌then◌else◌}
use totorrent.Base.{Outcome, ok, err, panic, err_requestpeermsg, err_peermsg_func}
use totorrent.Base.Words.{
  put_uint32, read_at, read_at_of_eq, be_uint32-put_uint32, length-put_uint32,
}
use totorrent.Piece.Block.{Block, new_block, pos}
use totorrent.Wire.Msg.{get_payload, request}
use totorrent.Wire.Build.{build_peer_request_msg, build_peer_piece_msg}
use totorrent.Wire.Fields.{uint32_at, request_get_block, piece_get_block, piece_get_block_buff}
use mathlib.Core.List.{append-nil, append_assoc}

-- A field that was written is read.
uint32_at-put_uint32 :
    (front rest s : Bytes) (n off : ℕ)
    → s ≡ front ++ (put_uint32 n ++ rest)
    → length front ≡ off
    → n < 2 ^ 32
    → uint32_at s off ≡ ok n
unfolding uint32_at
uint32_at-put_uint32 front rest s n off e ho h =
    rw (read_at_of_eq s front (put_uint32 n) rest 4 off e (length-put_uint32 n) ho (omega arith))
      (rw (← append-nil (put_uint32 n)) (be_uint32-put_uint32 n [] h))

-- The fields that go over the wire fit 32 bits.
pub record FitsWire (b : Block) : Type 0 where
  pub piece_idx_fits : b.piece_idx < 2 ^ 32
  pub begin_fits : b.begin < 2 ^ 32
  pub length_fits : b.block_length < 2 ^ 32

-- The block that a REQUEST for `b` asks for; a length of 0 makes the reader divide by 0.
abbrev pub requested : Block → Outcome Block
requested b =
    if b.block_length == 0
    then panic
    else ok (new_block (pos (b.begin / b.block_length)) b.piece_idx b.begin b.block_length [])

module _ (a b : ℕ) (c : Bytes) (ha : a < 2 ^ 32) (hb : b < 2 ^ 32) where
  abbrev two_words : Bytes
  two_words = put_uint32 a ++ (put_uint32 b ++ c)

  first_word : uint32_at two_words 0 ≡ ok a
  first_word = uint32_at-put_uint32 [] (put_uint32 b ++ c) _ a 0 refl refl ha

  second_word : uint32_at two_words 4 ≡ ok b
  second_word = uint32_at-put_uint32 (put_uint32 a) c _ b 4 refl (length-put_uint32 a) hb

third_word :
    (a b c : ℕ) → c < 2 ^ 32 → uint32_at (put_uint32 a ++ (put_uint32 b ++ put_uint32 c)) 8 ≡ ok c
third_word a b c h =
    uint32_at-put_uint32 (put_uint32 a ++ put_uint32 b) [] _ c 8
      (rw append-nil (sym (append_assoc (put_uint32 a) (put_uint32 b) (put_uint32 c))))
      (omega (
        arith,
        length-append (put_uint32 a) (put_uint32 b),
        length-put_uint32 a,
        length-put_uint32 b,
      ))
      h

-- For a block of which the numbers fit in 32 bits, `BuildPeerRequestMsg` succeeds, and `GetBlock`
-- reads from its REQUEST the piece, offset and length of that block, or panics where the length is
-- 0.
pub request_get_block-build :
    (b : Block)
    → FitsWire b
    → (p : Bytes) × (build_peer_request_msg (some b) ≡ ok (request p))
      × (request_get_block p ≡ requested b)
unfolding build_peer_request_msg request_get_block
request_get_block-build b f = (
  _,
  refl,
  ground (
    arith,
    first_word b.piece_idx b.begin (put_uint32 b.block_length),
    second_word b.piece_idx b.begin (put_uint32 b.block_length),
    third_word b.piece_idx b.begin b.block_length,
  ),
)

-- The block that a PIECE message for `b` carries; one with no bytes is refused.
abbrev pub carried : Block → Outcome Block
carried b = elim b.buff [
  | [] ↦ err err_requestpeermsg
  | x ∷ s ↦
      ok (new_block (pos (b.begin / length b.buff)) b.piece_idx b.begin (length b.buff) b.buff)
]

block_buff_built :
    (a b : ℕ) (c : Bytes)
    → 0 < length c
    → piece_get_block_buff (put_uint32 a ++ (put_uint32 b ++ c)) ≡ ok c
unfolding piece_get_block_buff read_at put_uint32
block_buff_built a b c h = ground (arith, take-all c (length c))

no_block_buff :
    (a b : ℕ) → piece_get_block_buff (put_uint32 a ++ (put_uint32 b ++ [])) ≡ err err_peermsg_func
unfolding piece_get_block_buff read_at put_uint32
no_block_buff a b = refl

piece_block-build :
    (buff : Bytes) (b : Block)
    → b.buff ≡ buff
    → FitsWire b
    → piece_get_block (put_uint32 b.piece_idx ++ (put_uint32 b.begin ++ buff))
      ≡ carried (record b { buff = buff })
piece_block-build [] b e f =
    unfold piece_get_block piece_get_block_buff in
    ground (
      arith,
      first_word b.piece_idx b.begin [],
      second_word b.piece_idx b.begin [],
      no_block_buff b.piece_idx b.begin,
    )
piece_block-build (x ∷ s) b e f =
    unfold piece_get_block in
    ground (
      arith,
      first_word b.piece_idx b.begin (x ∷ s),
      second_word b.piece_idx b.begin (x ∷ s),
      block_buff_built b.piece_idx b.begin (x ∷ s),
    )

-- For a block of which the numbers fit in 32 bits, `GetBlock` reads from its PIECE message the
-- piece, offset and bytes of that block, and fails where it has no bytes.
pub piece_get_block-build :
    (b : Block) → FitsWire b → piece_get_block (get_payload (build_peer_piece_msg b)) ≡ carried b
unfolding get_payload build_peer_piece_msg
piece_get_block-build b f = piece_block-build b.buff b refl f
