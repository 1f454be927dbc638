-- ===== src/Util/Bitfield/Bits.antt =====
-- One byte of a bitfield: what writing one bit does to each bit, by a table.
use Prim.Native.Nat.{bit_and, bit_or}
use totorrent.Base.{
  ℕ, zero, suc, ◌^◌, ◌<◌, ◌≡◌, refl, Bool, true, false, not, ◌&&◌, arith, ltb, ltb→lt, ◌==◌,
  if◌then◌else◌,
}

all_below : ℕ → (ℕ → Bool) → Bool
all_below zero p = true
all_below (suc n) p = p n && all_below n p

all_below→at : (n : ℕ) (p : ℕ → Bool) (x : ℕ) → all_below n p ≡ true → x < n → p x ≡ true
unfolding all_below
all_below→at zero p x h lt = absurd (omega arith)
all_below→at (suc n) p x h lt = ground (arith, all_below→at n p x)

abbrev pub bit_of : ℕ → ℕ → Bool
bit_of b j = not (bit_and b (2 ^ j) == 0)

abbrev same : Bool → Bool → Bool
same true y = y
same false y = not y

same→eq : (x y : Bool) → same x y ≡ true → x ≡ y
same→eq true y h = ground arith
same→eq false y h = ground arith

abbrev write_is_right : ℕ → ℕ → ℕ → Bool
write_is_right b i j = same (bit_of (bit_or b (2 ^ i)) j) (if i == j then true else bit_of b j)

write_table : all_below 8 (λ i. all_below 8 (λ j. all_below 256 (λ b. write_is_right b i j))) ≡ true
unfolding all_below
write_table = refl

byte_table : all_below 8 (λ i. all_below 256 (λ b. ltb (bit_or b (2 ^ i)) 256)) ≡ true
unfolding all_below
byte_table = refl

-- Writing bit `i` sets it and leaves the others.
pub bit_of-bit_or :
    (b i j : ℕ)
    → b < 256
    → i < 8
    → j < 8
    → bit_of (bit_or b (2 ^ i)) j ≡ (if i == j then true else bit_of b j)
bit_of-bit_or b i j hb hi hj = same→eq _ _ (
    all_below→at 256 (λ b. write_is_right b i j) b
      (all_below→at 8 (λ j. all_below 256 (λ b. write_is_right b i j)) j
        (all_below→at 8 (λ i. all_below 8 (λ j. all_below 256 (λ b. write_is_right b i j))) i
          write_table hi)
        hj)
      hb)

pub bit_or-lt : (b i : ℕ) → b < 256 → i < 8 → bit_or b (2 ^ i) < 256
bit_or-lt b i hb hi = ltb→lt _ _ (
    all_below→at 256 (λ b. ltb (bit_or b (2 ^ i)) 256) b
      (all_below→at 8 (λ i. all_below 256 (λ b. ltb (bit_or b (2 ^ i)) 256)) i byte_table hi) hb)

zero_table : all_below 8 (λ j. not (bit_of 0 j)) ≡ true
unfolding all_below
zero_table = refl

pub bit_of-zero : (j : ℕ) → j < 8 → bit_of 0 j ≡ false
bit_of-zero j h = ground (arith, all_below→at 8 (λ j. not (bit_of 0 j)) j zero_table h)
