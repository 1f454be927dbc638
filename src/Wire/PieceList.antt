-- ===== src/Wire/PieceList.antt =====
-- The BITFIELD message of a table of pieces, written and read (peermsg.go).
use totorrent.Base.{
  ℕ, suc, ◌/◌, ◌%◌, ◌≤◌, ◌<◌, ◌≡◌, ◌≢◌, refl, ◌∙◌, true, false, List, [], ◌∷◌, Bytes, some, length,
  arith, if◌then◌else◌, dec_lt, ok, panic, inl, inr, Bool-cases,
}
use mathlib.Core.Bool.{false≢true}
use totorrent.Util.Bitfield.{
  Bitfield, new_bitfield, new_bitfield_from_bytes, set_bit, as_int_slice, has,
}
use totorrent.Util.Bitfield.Laws.{
  IsBytes, WritesBit, set_bit_lem, set_bit-panic, new_bitfield-has, length-new_bitfield,
  new_bitfield-IsBytes, indices_where, as_int_slice-where,
}
use totorrent.Piece.Impl.{Piece, downloaded}
use totorrent.Piece.Safe.{SafePieces, max_piece_idx}
use totorrent.Piece.Safe.Indices.{IsKeyed, is_downloaded, IdxBelow, max_piece_idx-IdxBelow}
use totorrent.Wire.Msg.{bitfield}
use totorrent.Wire.Bitfields.{set_downloaded, build_peer_bitfield_msg, get_piece_indices}

-- A bitfield after the bits of the downloaded pieces are set.
record Marks (t : SafePieces) (f g : Bitfield) : Type 0 where
  same_length : length g.bytes ≡ length f.bytes
  still_bytes : IsBytes g
  reads : (j : ℕ) → has g j ≡ (if is_downloaded t j then ok true else has f j)

abbrev Marked : SafePieces → Bitfield → Type 0
Marked t f = (g : Bitfield) × (set_downloaded t f ≡ ok g) × Marks t f g

set_downloaded-set :
    (k : ℕ) (p : Piece) (t : SafePieces) (f g : Bitfield)
    → downloaded p ≡ true
    → set_bit f p.idx ≡ ok g
    → WritesBit f g p.idx
    → Marked t g
    → Marked ((k, p) ∷ t) f
unfolding set_downloaded
set_downloaded-set k p t f g d e w (h, eh, m) = (
  h,
  rw (d, e) eh,
  record {
    same_length = m.same_length ∙ w.same_length;
    still_bytes = m.still_bytes;
    reads = λ j. ground (arith, d, m.reads j, w.reads j);
  },
)

set_downloaded-skip :
    (k : ℕ) (p : Piece) (t : SafePieces) (f : Bitfield)
    → downloaded p ≡ false
    → Marked t f
    → Marked ((k, p) ∷ t) f
unfolding set_downloaded
set_downloaded-skip k p t f d (h, eh, m) = (
  h,
  rw d eh,
  record {
    same_length = m.same_length;
    still_bytes = m.still_bytes;
    reads = λ j. ground (arith, d, m.reads j);
  },
)

set_downloaded-Marked :
    (n : ℕ) (t : SafePieces) (f : Bitfield)
    → IdxBelow n t
    → n / 8 < length f.bytes
    → IsBytes f
    → Marked t f
set_downloaded-Marked n [] f b h a = (
  f,
  unfold set_downloaded in refl,
  record { same_length = refl; still_bytes = a; reads = λ j. refl },
)
set_downloaded-Marked n ((k, p) ∷ t) f b h a = elim (Bool-cases (downloaded p)) [
  | inl d ↦
      let (g, e, w) = set_bit_lem f p.idx a (omega arith) in
      set_downloaded-set k p t f g d e w
        (set_downloaded-Marked n t g b.1 (omega (arith, w.same_length)) w.still_bytes)
  | inr d ↦ set_downloaded-skip k p t f d (set_downloaded-Marked n t f b.1 h a)
]

-- The pieces that are downloaded, in order.
abbrev pub downloaded_list : SafePieces → List ℕ
downloaded_list t = indices_where (is_downloaded t) 0 (suc (max_piece_idx t))

has-from_bytes : (f : Bitfield) (j : ℕ) → has (new_bitfield_from_bytes f.bytes) j ≡ has f j
unfolding has new_bitfield_from_bytes
has-from_bytes f j = refl

Marks-reads :
    (t : SafePieces) (n : ℕ) (g : Bitfield)
    → n % 8 ≢ 0
    → Marks t (new_bitfield n) g
    → (j : ℕ) → j ≤ n
    → has (new_bitfield_from_bytes g.bytes) j ≡ ok (is_downloaded t j)
Marks-reads t n g h m j hj =
    has-from_bytes g j
    ∙ ground (arith, m.reads j, new_bitfield-has n j, Bool-cases (is_downloaded t j))

get_piece_indices-Marks :
    (t : SafePieces) (n : ℕ) (g : Bitfield)
    → n % 8 ≢ 0
    → Marks t (new_bitfield n) g
    → get_piece_indices g.bytes n ≡ ok (indices_where (is_downloaded t) 0 (suc n))
unfolding get_piece_indices new_bitfield_from_bytes
get_piece_indices-Marks t n g h m =
    let all : as_int_slice (new_bitfield_from_bytes g.bytes) n
        ≡ ok (indices_where (is_downloaded t) 0 (suc n)) =
      as_int_slice-where _ (is_downloaded t) n (Marks-reads t n g h m) in
    ground (arith, all, m.same_length, length-new_bitfield n)

-- Where the table has a piece, each under its own index, and the last index is no multiple of 8:
-- the BITFIELD message is built, and the peer that knows the same last index reads from it the
-- downloaded pieces, in order.
pub get_piece_indices-build :
    (t : SafePieces)
    → 0 < length t
    → IsKeyed t
    → max_piece_idx t % 8 ≢ 0
    → (p : Bytes) × (build_peer_bitfield_msg (some t) ≡ ok (bitfield p))
      × (get_piece_indices p (max_piece_idx t) ≡ ok (downloaded_list t))
unfolding build_peer_bitfield_msg
get_piece_indices-build t h k odd =
    let n = max_piece_idx t in
    let (g, e, m) =
      set_downloaded-Marked n t (new_bitfield n) (max_piece_idx-IdxBelow t k)
        (omega (arith, length-new_bitfield n)) (new_bitfield-IsBytes n) in
    (g.bytes, ground (arith, e), get_piece_indices-Marks t n g odd m)

set_downloaded-panic :
    (m : ℕ) (t : SafePieces) (f : Bitfield)
    → is_downloaded t m ≡ true
    → IsBytes f
    → length f.bytes ≤ m / 8
    → set_downloaded t f ≡ panic
unfolding set_downloaded
set_downloaded-panic m [] f d a h = absurd (false≢true d)
set_downloaded-panic m ((k, p) ∷ t) f d a h = elim (Bool-cases (downloaded p)) [
  | inr e ↦ rw e (set_downloaded-panic m t f (rw e at d) a h)
  | inl e ↦ elim (dec_lt (p.idx / 8) (length f.bytes)) [
    | no out ↦ rw (e, set_bit-panic f p.idx (omega arith))
    | yes inside ↦
        let (g, eg, w) = set_bit_lem f p.idx a inside in
        rw (e, eg)
          (set_downloaded-panic m t g (ground (arith, e)) w.still_bytes
            (omega (arith, w.same_length)))
  ]
]

-- Where the last index is a multiple of 8, the bitfield has no bit for the last piece: with that
-- piece downloaded, building the message panics.
pub build_peer_bitfield_msg-panic :
    (t : SafePieces)
    → 0 < length t
    → max_piece_idx t % 8 ≡ 0
    → is_downloaded t (max_piece_idx t) ≡ true
    → build_peer_bitfield_msg (some t) ≡ panic
unfolding build_peer_bitfield_msg
build_peer_bitfield_msg-panic t h m d =
    let n = max_piece_idx t in
    ground (
      arith,
      set_downloaded-panic n t (new_bitfield n) d (new_bitfield-IsBytes n)
          (omega (arith, length-new_bitfield n)),
    )
