-- ===== src/Base/Words.antt =====
-- `encoding/binary` and `bytes.Reader` of the standard library, as the program uses them.
use Prim.Native.Nat.{ℕ, ◌+◌, ◌-◌, ◌*◌, ◌/◌, ◌%◌, ◌^◌, ◌<◌}
use mathlib.Core.Path.{◌≡◌, refl}
use mathlib.Core.Bool.{◌&&◌}
use mathlib.Core.Option.{Option, none, some}
use mathlib.Core.List.{List, [], ◌∷◌, ◌++◌, append-nil}
use native.Mathlib.Omega.{arith}
use totorrent.Base.Tests.{ltb, leb, if◌then◌else◌}
use totorrent.Base.Lists.{length, take, drop, replicate}
use totorrent.Base.Lists.{take-append_length, drop-append_length, length-append, take-all}
use totorrent.Base.Errors.{Outcome, ok, panic}

-- binary.BigEndian.PutUint32 of `uint32(n)`.
unfoldable pub put_uint32 : ℕ → List ℕ
put_uint32 n = (n / 2 ^ 24 % 256) ∷ (n / 2 ^ 16 % 256) ∷ (n / 2 ^ 8 % 256) ∷ (n % 256) ∷ []

-- binary.BigEndian.Uint32, which panics on fewer than four bytes.
unfoldable pub be_uint32 : List ℕ → Outcome ℕ
be_uint32 (a ∷ b ∷ c ∷ d ∷ _) = ok (a * 2 ^ 24 + b * 2 ^ 16 + c * 2 ^ 8 + d)
be_uint32 _ = panic

-- `ReadAt` of `n` bytes at `off`: a short read is an error.
unfoldable pub read_at : List ℕ → ℕ → ℕ → Option (List ℕ)
read_at s n off =
    if ltb off (length s) && leb (off + n) (length s) then some (take n (drop off s)) else none

-- `Read` of a fresh reader into a zeroed buffer of `n` bytes: a short read leaves zeros behind, and
-- only an empty source is an error.
unfoldable pub read_fresh : List ℕ → ℕ → Option (List ℕ)
read_fresh [] n = none
read_fresh (x ∷ s) n = some (take n (x ∷ s) ++ replicate (n - length (x ∷ s)) 0)

pub length-put_uint32 : (n : ℕ) → length (put_uint32 n) ≡ 4
unfolding put_uint32
length-put_uint32 n = refl

pub be_uint32-put_uint32 :
    (n : ℕ) (rest : List ℕ) → n < 2 ^ 32 → be_uint32 (put_uint32 n ++ rest) ≡ ok n
unfolding put_uint32 be_uint32
be_uint32-put_uint32 n rest h = ground arith

-- A read that lies inside the source.
pub read_at-inside :
    (front mid rest : List ℕ)
    → 0 < length mid
    → read_at (front ++ (mid ++ rest)) (length mid) (length front) ≡ some mid
unfolding read_at
read_at-inside front mid rest h = ground (
  arith,
  length-append front (mid ++ rest),
  length-append mid rest,
  drop-append_length front (mid ++ rest),
  take-append_length mid rest,
)

pub read_fresh-all : (s : List ℕ) → 0 < length s → read_fresh s (length s) ≡ some s
unfolding read_fresh
read_fresh-all [] h = absurd (omega arith)
read_fresh-all (x ∷ s) h = ground (arith, take-all s (length s), append-nil s)

pub read_at_of_eq :
    (s front mid rest : List ℕ) (n off : ℕ)
    → s ≡ front ++ (mid ++ rest)
    → length mid ≡ n
    → length front ≡ off
    → 0 < n
    → read_at s n off ≡ some mid
read_at_of_eq s front mid rest n off e hn ho h =
    rw (e, ← hn, ← ho) (read_at-inside front mid rest (omega arith))
