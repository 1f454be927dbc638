-- ===== src/Util/Bitfield.antt =====
-- util/bitfield.go. `Set` writes into the shared slice; it returns the bitfield with the new bytes.
pub mod Bits
pub mod Laws
use Prim.Native.Nat.{bit_and, bit_or}
use totorrent.Base.{
  ℕ, zero, suc, ◌+◌, ◌*◌, ◌/◌, ◌%◌, ◌^◌, Bool, true, false, not, List, [], ◌∷◌, ◌++◌, Bytes, Option,
  none, some, length, get_elem?, set, replicate, ◌==◌, if◌then◌else◌, Outcome, ok, panic, ◌>>=◌,
}

pub record Bitfield : Type 0 where
  pub bytes : Bytes
  pub num_of_bits : ℕ

-- `int(math.Ceil(float64(n)/8.0))` is exact for every n below 2 ^ 53.
unfoldable pub new_bitfield : ℕ → Bitfield
new_bitfield n = record { bytes = replicate ((n + 7) / 8) 0; num_of_bits = n }

unfoldable pub new_bitfield_from_bytes : Bytes → Bitfield
new_bitfield_from_bytes buff = record { bytes = buff; num_of_bits = length buff * 8 }

-- An index behind the bytes panics.
unfoldable pub set_bit : Bitfield → ℕ → Outcome Bitfield
set_bit f i = elim (get_elem? f.bytes (i / 8)) [
  | none ↦ panic
  | some b ↦ ok (record f { bytes = set f.bytes (i / 8) (bit_or b (2 ^ (i % 8))) })
]

unfoldable pub has : Bitfield → ℕ → Outcome Bool
has f i = elim (get_elem? f.bytes (i / 8)) [
  | none ↦ panic
  | some b ↦ ok (not (bit_and b (2 ^ (i % 8)) == 0))
]

-- The characters for the bits `n - 1` down to 0.
unfoldable pub bitstring : Bitfield → ℕ → Outcome Bytes
bitstring f zero = ok []
bitstring f (suc i) = do b ← has f i; rest ← bitstring f i; ok ((if b then b'1' else b'0') ∷ rest)

unfoldable pub dump_as_bitstring : Bitfield → Outcome Bytes
unfolding bitstring
dump_as_bitstring f = bitstring f f.num_of_bits

-- `count` rounds of the loop, from index `i` on.
unfoldable pub indices_from : Bitfield → ℕ → ℕ → Outcome (List ℕ)
indices_from f i zero = ok []
indices_from f i (suc count) = do
  b ← has f i
  rest ← indices_from f (suc i) count
  ok (if b then i ∷ rest else rest)

-- The loop includes `max`.
unfoldable pub as_int_slice : Bitfield → ℕ → Outcome (List ℕ)
unfolding indices_from
as_int_slice f max = indices_from f 0 (suc max)
