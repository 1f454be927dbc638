-- ===== src/FileInfo/Assemble/Whole.antt =====
-- The finished file that `assembleBlocks` (fileinfo.go) makes of all blocks of a torrent.
use totorrent.Base.{
  ℕ, zero, suc, ◌+◌, ◌*◌, ◌/◌, ◌%◌, ◌^◌, ◌≤◌, ◌<◌, ◌≡◌, refl, sym, ◌∙◌, ap, true, false, List, [],
  ◌∷◌, ◌++◌, Bytes, Option, none, some, map, All, arith, length, take, drop, take-all, lt→ltb,
  if◌then◌else◌, bytes_eq, bytes_eq_refl, bytes_eq→eq, Bool-cases, inl, inr, ok,
}
use totorrent.Piece.Block.{pos}
use totorrent.Conn.State.{SavedBlock}
use totorrent.FileInfo.Names.{bytes_ltb}
use totorrent.FileInfo.Names.Order.{
  by_quotient, bytes_ltb-block_name, bytes_ltb_irrefl, bytes_ltb_trans,
}
use totorrent.FileInfo.Assemble.{File, file_of, copy_files, assemble_listed, assemble_blocks}
use totorrent.FileInfo.Assemble.Sorted.{
  IsOf, IsAscending, sort_files-perm, sort_files_of_IsAscending,
}
use native.Mathlib.Nat.{div-le_self, mod-le, zero-add, zero-mul, suc-add}
use mathlib.Core.List.{Permᴰ}

-- Block `j` of a torrent with `n` blocks of `l` bytes in a piece.
abbrev pub block_of : Bytes → ℕ → ℕ → ℕ → SavedBlock
block_of content n l j = record {
  piece_idx = j / n;
  block_idx = pos (j % n);
  content = take l (drop (j * l) content);
}

-- The blocks `j`, `j + 1`, …, `count` of them.
abbrev pub blocks_of : Bytes → ℕ → ℕ → ℕ → ℕ → List SavedBlock
blocks_of content n l j zero = []
blocks_of content n l j (suc count) = block_of content n l j ∷ blocks_of content n l (suc j) count

-- The content of a name in a list of files.
abbrev dir_of : List File → Bytes → Option Bytes
dir_of [] name = none
dir_of (f ∷ fs) name = if bytes_eq f.name name then f.content else dir_of fs name

abbrev IsAbove : File → File → Type 0
IsAbove f g = bytes_ltb f.name g.name ≡ true

all-IsAbove : (f : File) (fs : List File) → IsAscending (f ∷ fs) → All (IsAbove f) fs
all-IsAbove f [] h = tt
all-IsAbove f (g ∷ []) (a, h) = (a, tt)
all-IsAbove f (g ∷ h ∷ fs) (a, (b, c)) =
    (a, all-IsAbove f (h ∷ fs) (bytes_ltb_trans f.name g.name h.name a b, c))

bytes_eq_of_IsAbove : (f g : File) → IsAbove f g → bytes_eq f.name g.name ≡ false
bytes_eq_of_IsAbove f g h = elim (Bool-cases (bytes_eq f.name g.name)) [
  | inl e ↦ absurd (ground (arith, bytes_eq→eq f.name g.name e, bytes_ltb_irrefl f.name))
  | inr e ↦ e
]

All-IsOf-cons :
    (f : File) (fs gs : List File)
    → All (IsAbove f) gs
    → All (IsOf (dir_of fs)) gs
    → All (IsOf (dir_of (f ∷ fs))) gs
All-IsOf-cons f fs [] a h = tt
All-IsOf-cons f fs (g ∷ gs) (a, as') (h, hs) =
    (rw (bytes_eq_of_IsAbove f g a) h, All-IsOf-cons f fs gs as' hs)

All-IsOf : (fs : List File) → IsAscending fs → All (IsOf (dir_of fs)) fs
All-IsOf [] h = tt
All-IsOf (f ∷ []) h = (rw (bytes_eq_refl f.name) refl, tt)
All-IsOf (f ∷ g ∷ fs) (a, h) = (
  rw (bytes_eq_refl f.name) refl,
  All-IsOf-cons f (g ∷ fs) (g ∷ fs) (all-IsAbove f (g ∷ fs) (a, h)) (All-IsOf (g ∷ fs) h),
)

take-step : (a l : ℕ) (xs : Bytes) → take a xs ++ take l (drop a xs) ≡ take (a + l) xs
take-step zero l xs = ground (arith, zero-add l)
take-step (suc a) zero [] = rw (suc-add a 0) refl
take-step (suc a) (suc l) [] = rw (suc-add a (suc l)) refl
take-step (suc a) l (x ∷ xs) = rw (suc-add a l) (ap (◌∷◌ x) (take-step a l xs))

module _ (content : Bytes) (n l : ℕ) (n_pos : 0 < n) where
  abbrev files_of : ℕ → ℕ → List File
  files_of j count = map file_of (blocks_of content n l j count)

  next-IsAbove :
      (j : ℕ)
      → suc j < 10 ^ 10
      → IsAbove (file_of (block_of content n l j)) (file_of (block_of content n l (suc j)))
  unfolding file_of
  next-IsAbove j h =
      bytes_ltb-block_name (j / n) (j % n) (suc j / n) (suc j % n) (omega (arith, div-le_self j n))
        (omega (arith, mod-le j n)) (omega (arith, div-le_self (suc j) n))
        (omega (arith, mod-le (suc j) n))
      ∙ by_quotient n j (suc j) n_pos
      ∙ lt→ltb j (suc j) (omega arith)

  files_of-IsAscending : (j count : ℕ) → j + count ≤ 10 ^ 10 → IsAscending (files_of j count)
  unfolding file_of
  files_of-IsAscending j zero h = tt
  files_of-IsAscending j (suc zero) h = tt
  files_of-IsAscending j (suc (suc count)) h =
      (next-IsAbove j (omega arith), files_of-IsAscending (suc j) (suc count) (omega arith))

  next_place : (j : ℕ) → suc j * l ≡ j * l + l
  next_place j = ground arith

  shift : (j count : ℕ) → suc j + count ≡ j + suc count
  shift j count = omega arith

  copy_files-files_of :
      (j count : ℕ)
      → copy_files (files_of j count) (take (j * l) content)
        ≡ record { finished = some (take ((j + count) * l) content); left = []; error = none }
  unfolding copy_files file_of
  copy_files-files_of j zero = ground arith
  copy_files-files_of j (suc count) =
      rw
        (
          take-step (j * l) l content,
          sym (next_place j),
          copy_files-files_of (suc j) count,
          shift j count,
        )
        refl

-- The files of all blocks of a torrent of one file, with a positive number of blocks in a piece and
-- at most 10 ^ 10 blocks, in whatever order the directory lists them: where the finished file is
-- not there and can be made, `assembleBlocks` makes it of the whole content, and removes every
-- block file.
pub assemble_blocks_whole :
    (content : Bytes) (n l count : ℕ) (files : List File)
    → 0 < n
    → count ≤ 10 ^ 10
    → length content ≤ count * l
    → Permᴰ (map file_of (blocks_of content n l 0 count)) files
    → assemble_blocks false (record {
      blocks = some files;
      finished_file = none;
      has_working_directory = true;
      can_create = true;
    })
      ≡ ok (record { finished = some content; left = []; error = none })
unfolding assemble_blocks assemble_listed
assemble_blocks_whole content n l count files n_pos small covers p =
    let order = files_of-IsAscending content n l n_pos 0 count (omega arith) in
    let sorted =
      sort_files-perm (dir_of (map file_of (blocks_of content n l 0 count))) p (All-IsOf _ order) in
    let run =
      rw (zero-mul l, zero-add count, take-all content (count * l) covers) at
        (copy_files-files_of content n l n_pos 0 count) in
    rw (sym sorted, sort_files_of_IsAscending _ order) (ap ok run)
