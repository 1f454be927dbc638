-- ===== src/FileInfo/Names/Order.antt =====
-- The order of the names of blocks is that of their numbers (fileinfo.go).
use totorrent.Base.{
  ℕ, zero, suc, ◌+◌, ◌*◌, ◌/◌, ◌%◌, ◌^◌, ◌<◌, ◌≤◌, ◌≡◌, refl, ◌∙◌, ap, Bool, true, false, [], ◌∷◌,
  ◌++◌, Bytes, ltb, ◌==◌, ==_refl, if◌then◌else◌, arith,
}
use totorrent.Piece.Block.{pos}
use totorrent.FileInfo.Names.{digits, block_name, bytes_ltb}
use mathlib.Core.List.{append-nil}
use native.Mathlib.Nat.{div-add-mod, mod-lt, mul-le-mul_right, one-le-pow, pow-zero}

pub bytes_ltb_irrefl : (xs : Bytes) → bytes_ltb xs xs ≡ false
unfolding bytes_ltb
bytes_ltb_irrefl [] = refl
bytes_ltb_irrefl (x ∷ xs) = rw (==_refl x) (bytes_ltb_irrefl xs)

pub bytes_ltb_asym : (xs ys : Bytes) → bytes_ltb xs ys ≡ true → bytes_ltb ys xs ≡ false
unfolding bytes_ltb
bytes_ltb_asym [] [] h = refl
bytes_ltb_asym [] (y ∷ ys) h = refl
bytes_ltb_asym (x ∷ xs) [] h = cc h
bytes_ltb_asym (x ∷ xs) (y ∷ ys) h = ground (arith, bytes_ltb_asym xs ys)

pub bytes_ltb_trans :
    (xs ys zs : Bytes) → bytes_ltb xs ys ≡ true → bytes_ltb ys zs ≡ true → bytes_ltb xs zs ≡ true
unfolding bytes_ltb
bytes_ltb_trans [] [] zs h k = cc
bytes_ltb_trans (x ∷ xs) [] zs h k = cc
bytes_ltb_trans [] (y ∷ ys) [] h k = cc k
bytes_ltb_trans [] (y ∷ ys) (z ∷ zs) h k = refl
bytes_ltb_trans (x ∷ xs) (y ∷ ys) [] h k = cc k
bytes_ltb_trans (x ∷ xs) (y ∷ ys) (z ∷ zs) h k = ground (arith, bytes_ltb_trans xs ys zs)

pub bytes_ltb_total : (xs ys : Bytes) → bytes_ltb xs ys ≡ false → bytes_ltb ys xs ≡ false → xs ≡ ys
unfolding bytes_ltb
bytes_ltb_total [] [] h k = refl
bytes_ltb_total [] (y ∷ ys) h k = cc h
bytes_ltb_total (x ∷ xs) [] h k = cc k
bytes_ltb_total (x ∷ xs) (y ∷ ys) h k = ground (arith, bytes_ltb_total xs ys)

mul_step : (p q r : ℕ) → q < r → q * p + p ≤ r * p
mul_step p q r h = ground (arith, mul-le-mul_right {m = suc q} {n = r} p)

-- Numbers compare by their quotients, and then by their remainders.
pub by_quotient :
    (p a b : ℕ)
    → 0 < p
    → (if a / p == b / p then ltb (a % p) (b % p) else ltb (a / p) (b / p)) ≡ ltb a b
by_quotient p a b h = ground (
  arith,
  div-add-mod a p,
  div-add-mod b p,
  mod-lt a {m = p} h,
  mod-lt b {m = p} h,
  mul_step p (a / p) (b / p),
  mul_step p (b / p) (a / p),
)

pow_pos : (w : ℕ) → 0 < 10 ^ w
pow_pos w = one-le-pow w 10 (omega arith)

-- Digits of one width compare as the numbers; behind equal numbers the rest decides.
pub bytes_ltb-digits :
    (w a b : ℕ) (xs ys : Bytes)
    → a < 10 ^ w
    → b < 10 ^ w
    → bytes_ltb (digits w a ++ xs) (digits w b ++ ys)
      ≡ (if a == b then bytes_ltb xs ys else ltb a b)
unfolding digits bytes_ltb
bytes_ltb-digits zero a b xs ys ha hb = ground (arith, pow-zero 10)
bytes_ltb-digits (suc w) a b xs ys ha hb = ground (
  arith,
  bytes_ltb-digits w (a % 10 ^ w) (b % 10 ^ w) xs ys (mod-lt a {m = 10 ^ w} (pow_pos w))
      (mod-lt b {m = 10 ^ w} (pow_pos w)),
  by_quotient (10 ^ w) a b (pow_pos w),
  div-add-mod a (10 ^ w),
  div-add-mod b (10 ^ w),
)

-- Block `i` of piece `k` stands before block `j` of piece `m`.
abbrev pub earlier : ℕ → ℕ → ℕ → ℕ → Bool
earlier k i m j = if k == m then ltb i j else ltb k m

pub bytes_ltb-block_name :
    (k i m j : ℕ)
    → k < 10 ^ 10
    → i < 10 ^ 10
    → m < 10 ^ 10
    → j < 10 ^ 10
    → bytes_ltb (block_name k (pos i)) (block_name m (pos j)) ≡ earlier k i m j
unfolding block_name bytes_ltb
bytes_ltb-block_name k i m j hk hi hm hj =
    bytes_ltb-digits 10 k m (b'_' ∷ digits 10 i) (b'_' ∷ digits 10 j) hk hm
    ∙ ap (λ b. if k == m then b else ltb k m) (digits_last i j hi hj)
  where
    digits_last :
        (i j : ℕ) → i < 10 ^ 10 → j < 10 ^ 10 → bytes_ltb (digits 10 i) (digits 10 j) ≡ ltb i j
    digits_last i j hi hj = ground (
      arith,
      append-nil (digits 10 i),
      append-nil (digits 10 j),
      bytes_ltb-digits 10 i j [] [] hi hj,
    )
