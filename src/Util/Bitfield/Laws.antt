-- ===== src/Util/Bitfield/Laws.antt =====
-- Reading and writing of bits in bitfield.go.
use Prim.Native.Nat.{bit_or}
use totorrent.Base.{
  ℕ, zero, suc, ◌+◌, ◌/◌, ◌%◌, ◌^◌, ◌≤◌, ◌<◌, ◌≡◌, refl, ◌∙◌, ap, ◌≢◌, Bool, true, false, List, [],
  ◌∷◌, Bytes, ℕ_discrete, none, some, length, get_elem?, set, replicate, All, IsByte, arith, ◌==◌,
  if◌then◌else◌, ok, panic, length-set, length-replicate, Option-cases, inl, inr,
}
use totorrent.Util.Bitfield.{Bitfield, new_bitfield, set_bit, has, indices_from, as_int_slice}
use totorrent.Util.Bitfield.Bits.{bit_of, bit_of-bit_or, bit_or-lt, bit_of-zero}

-- The byte of a bitfield at an index.
abbrev HasByte : Bytes → ℕ → Type 0
HasByte s k = (b : ℕ) × (get_elem? s k ≡ some b) × IsByte b

byte_at : (s : Bytes) (k : ℕ) → All IsByte s → k < length s → HasByte s k
byte_at [] k a h = absurd (omega arith)
byte_at (x ∷ s) zero a h = (x, refl, a.0)
byte_at (x ∷ s) (suc k) a h = byte_at s k a.1 (omega arith)

get_elem?-outside : (s : Bytes) (k : ℕ) → length s ≤ k → get_elem? s k ≡ none
get_elem?-outside [] k h = refl
get_elem?-outside (x ∷ s) zero h = absurd (omega arith)
get_elem?-outside (x ∷ s) (suc k) h = get_elem?-outside s k (omega arith)

get_elem?-set_self : (s : Bytes) (k v : ℕ) → k < length s → get_elem? (set s k v) k ≡ some v
get_elem?-set_self [] k v h = absurd (omega arith)
get_elem?-set_self (x ∷ s) zero v h = refl
get_elem?-set_self (x ∷ s) (suc k) v h = get_elem?-set_self s k v (omega arith)

get_elem?-set_ne : (s : Bytes) (k l v : ℕ) → k ≢ l → get_elem? (set s k v) l ≡ get_elem? s l
get_elem?-set_ne [] k l v h = refl
get_elem?-set_ne (x ∷ s) zero zero v h = absurd (h refl)
get_elem?-set_ne (x ∷ s) zero (suc l) v h = refl
get_elem?-set_ne (x ∷ s) (suc k) zero v h = refl
get_elem?-set_ne (x ∷ s) (suc k) (suc l) v h = get_elem?-set_ne s k l v (λ e. h (ap suc e))

All-set : (s : Bytes) (k v : ℕ) → All IsByte s → IsByte v → All IsByte (set s k v)
All-set [] k v a h = tt
All-set (x ∷ s) zero v a h = (h, a.1)
All-set (x ∷ s) (suc k) v a h = (a.0, All-set s k v a.1 h)

All-replicate : (n : ℕ) → All IsByte (replicate n 0)
All-replicate zero = tt
All-replicate (suc n) = (omega arith, All-replicate n)

-- `Has` panics exactly behind the last byte.
pub has-panic : (f : Bitfield) (i : ℕ) → length f.bytes ≤ i / 8 → has f i ≡ panic
unfolding has
has-panic f i h = rw (get_elem?-outside f.bytes (i / 8) h, has)

pub set_bit-panic : (f : Bitfield) (i : ℕ) → length f.bytes ≤ i / 8 → set_bit f i ≡ panic
unfolding set_bit
set_bit-panic f i h = rw (get_elem?-outside f.bytes (i / 8) h, set_bit)

-- The bitfields of which every byte is one.
abbrev pub IsBytes : Bitfield → Type 0
IsBytes f = All IsByte f.bytes

-- What holds of the bitfield that `Set` of bit `i` leaves.
pub record WritesBit (f g : Bitfield) (i : ℕ) : Type 0 where
  pub same_length : length g.bytes ≡ length f.bytes
  pub same_num_of_bits : g.num_of_bits ≡ f.num_of_bits
  pub still_bytes : IsBytes g
  pub reads : (j : ℕ) → has g j ≡ (if i == j then ok true else has f j)

-- Where the byte is there, `Has` reads its bit.
has_lem :
    (f : Bitfield) (i b : ℕ) → get_elem? f.bytes (i / 8) ≡ some b → has f i ≡ ok (bit_of b (i % 8))
unfolding has
has_lem f i b e = rw (e, has)

has-unchanged :
    (f g : Bitfield) (j : ℕ)
    → get_elem? g.bytes (j / 8) ≡ get_elem? f.bytes (j / 8)
    → has g j ≡ has f j
unfolding has
has-unchanged f g j e = elim (Option-cases (get_elem? f.bytes (j / 8))) [
  | inl n ↦ rw (e ∙ n, has) (rw (n, has))
  | inr (b, n) ↦ rw (e ∙ n, has) (rw (n, has))
]

same_index : (i j : ℕ) → i / 8 ≡ j / 8 → (i % 8 == j % 8) ≡ (i == j)
same_index i j e = ground arith

module _ (f : Bitfield) (i b : ℕ) (hb : IsByte b) (h : i / 8 < length f.bytes) where
  abbrev written : Bitfield
  written = record f { bytes = set f.bytes (i / 8) (bit_or b (2 ^ (i % 8))) }

  -- The bits of the byte that was written.
  has-written_same :
      (j : ℕ)
      → get_elem? f.bytes (i / 8) ≡ some b
      → i / 8 ≡ j / 8
      → has written j ≡ (if i == j then ok true else has f j)
  has-written_same j e p =
      let old = has_lem f j b (rw (← p) e) in
      let new =
        has_lem written j (bit_or b (2 ^ (i % 8)))
          (rw (← p) (get_elem?-set_self f.bytes (i / 8) _ h)) in
      ground (arith, old, new, same_index i j p, bit_of-bit_or b (i % 8) (j % 8))

  has-written :
      (j : ℕ)
      → get_elem? f.bytes (i / 8) ≡ some b
      → has written j ≡ (if i == j then ok true else has f j)
  has-written j e = elim (ℕ_discrete (i / 8) (j / 8)) [
    | yes p ↦ has-written_same j e p
    | no q ↦
        let rest = has-unchanged f written j (get_elem?-set_ne f.bytes (i / 8) (j / 8) _ q) in
        ground (arith, rest)
  ]

-- `Set` inside the bytes succeeds, sets the bit, and leaves the size and every other bit.
pub set_bit_lem :
    (f : Bitfield) (i : ℕ)
    → IsBytes f
    → i / 8 < length f.bytes
    → (g : Bitfield) × (set_bit f i ≡ ok g) × WritesBit f g i
set_bit_lem f i a h =
    let (b, e, hb) = byte_at f.bytes (i / 8) a h in
    (
      written f i b hb h,
      unfold set_bit in rw (e, set_bit),
      record {
        same_length = length-set f.bytes (i / 8) _;
        same_num_of_bits = refl;
        still_bytes = All-set f.bytes (i / 8) _ a (bit_or-lt b (i % 8) hb (omega arith));
        reads = λ j. has-written f i b hb h j e;
      },
    )

get_elem?-replicate : (n k : ℕ) → k < n → get_elem? (replicate {A = ℕ} n 0) k ≡ some 0
get_elem?-replicate zero k h = absurd (omega arith)
get_elem?-replicate (suc n) zero h = refl
get_elem?-replicate (suc n) (suc k) h = get_elem?-replicate n k (omega arith)

-- A new bitfield has room for `n` bits, all of them 0.
pub new_bitfield-has : (n i : ℕ) → i / 8 < (n + 7) / 8 → has (new_bitfield n) i ≡ ok false
unfolding new_bitfield
new_bitfield-has n i h =
    has_lem (record { bytes = replicate ((n + 7) / 8) 0; num_of_bits = n }) i 0
      (get_elem?-replicate ((n + 7) / 8) (i / 8) h)
    ∙ ap ok (bit_of-zero (i % 8) (omega arith))

pub length-new_bitfield : (n : ℕ) → length (new_bitfield n).bytes ≡ (n + 7) / 8
unfolding new_bitfield
length-new_bitfield n = length-replicate ((n + 7) / 8) 0

pub new_bitfield-IsBytes : (n : ℕ) → IsBytes (new_bitfield n)
unfolding new_bitfield
new_bitfield-IsBytes n = All-replicate ((n + 7) / 8)

-- The numbers `i`, `i + 1`, … among `count` that pass a test.
abbrev pub indices_where : (ℕ → Bool) → ℕ → ℕ → List ℕ
indices_where p i zero = []
indices_where p i (suc count) =
    let rest = indices_where p (suc i) count in if p i then i ∷ rest else rest

indices_from-where :
    (f : Bitfield) (p : ℕ → Bool) (i count : ℕ)
    → ((j : ℕ) → i ≤ j → j < i + count → has f j ≡ ok (p j))
    → indices_from f i count ≡ ok (indices_where p i count)
unfolding indices_from
indices_from-where f p i zero h = refl
indices_from-where f p i (suc count) h = ground (
  arith,
  h i (omega arith) (omega arith),
  indices_from-where f p (suc i) count (λ j a b. h j (omega arith) (omega arith)),
)

indices_from-panic :
    (f : Bitfield) (i count k : ℕ)
    → IsBytes f
    → length f.bytes ≤ k / 8
    → i ≤ k
    → k < i + count
    → indices_from f i count ≡ panic
unfolding indices_from
indices_from-panic f i zero k a h lo hi = absurd (omega arith)
indices_from-panic f i (suc count) k a h lo hi = elim (ℕ_discrete i k) [
  | yes e ↦ rw (has-panic f i (rw e h))
  | no ne ↦
      let rest = indices_from-panic f (suc i) count k a h (omega arith) (omega arith) in
      elim (Option-cases (get_elem? f.bytes (i / 8))) [
        | inl n ↦ unfold has in rw (n, has)
        | inr (b, n) ↦ rw (has_lem f i b n, rest)
      ]
]

-- Where `Has` answers for every bit up to and with `max`, `AsIntSlice` lists the bits that are set,
-- in order.
pub as_int_slice-where :
    (f : Bitfield) (p : ℕ → Bool) (max : ℕ)
    → ((j : ℕ) → j ≤ max → has f j ≡ ok (p j))
    → as_int_slice f max ≡ ok (indices_where p 0 (suc max))
unfolding as_int_slice
as_int_slice-where f p max h = indices_from-where f p 0 (suc max) (λ j a b. h j (omega arith))

-- It panics if they do not reach `max`.
pub as_int_slice-panic :
    (f : Bitfield) (max : ℕ) → IsBytes f → length f.bytes ≤ max / 8 → as_int_slice f max ≡ panic
unfolding as_int_slice
as_int_slice-panic f max a h = indices_from-panic f 0 (suc max) max a h (omega arith) (omega arith)
