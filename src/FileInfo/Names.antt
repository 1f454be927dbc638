-- ===== src/FileInfo/Names.antt =====
-- The names of the files of `SaveBlock` in fileinfo.go, and the order that `sort.Strings` puts names in.
pub mod Order
use totorrent.Base.{
  ℕ, zero, suc, ◌+◌, ◌/◌, ◌%◌, ◌^◌, Bool, true, false, List, [], ◌∷◌, ◌++◌, Bytes, ltb, ◌==◌,
  if◌then◌else◌,
}
use totorrent.Piece.Block.{ℤ, pos, negsuc}

-- `w` decimal digits, for a number below 10 ^ w.
unfoldable pub digits : ℕ → ℕ → Bytes
digits zero n = []
digits (suc w) n = (48 + n / 10 ^ w) ∷ digits w (n % 10 ^ w)

-- `%010d`, for a number of at most ten digits. Every number of a PIECE message has 32 bits.
abbrev pub padded : ℤ → Bytes
padded (pos n) = digits 10 n
padded (negsuc n) = b'-' ∷ digits 9 (suc n)

abbrev pub block_prefix : Bytes
block_prefix = b'b' ∷ b'l' ∷ b'o' ∷ b'c' ∷ b'k' ∷ b'_' ∷ []

-- `fmt.Sprintf("block_%010d_%010d", PieceIdx, Idx)`
unfoldable pub block_name : ℕ → ℤ → Bytes
block_name piece_idx idx = block_prefix ++ (digits 10 piece_idx ++ b'_' ∷ padded idx)

-- The order of Go strings.
unfoldable pub bytes_ltb : Bytes → Bytes → Bool
bytes_ltb [] [] = false
bytes_ltb [] (y ∷ ys) = true
bytes_ltb (x ∷ xs) [] = false
bytes_ltb (x ∷ xs) (y ∷ ys) = if x == y then bytes_ltb xs ys else ltb x y
