-- ===== src/FileInfo/Assemble/Sorted.antt =====
-- Sorting the block files of `assembleBlocks` (fileinfo.go): the order of the directory has no effect.
use totorrent.Base.{
  ◌≡◌, refl, subst, sym, ◌∙◌, ap, true, Bool-cases, inl, inr, List, [], ◌∷◌, Bytes, Option, All,
  arith, if◌then◌else◌,
}
use totorrent.FileInfo.Names.{bytes_ltb}
use totorrent.FileInfo.Names.Order.{bytes_ltb_asym, bytes_ltb_trans, bytes_ltb_total}
use totorrent.FileInfo.Assemble.{File, insert_file, sort_files}
use mathlib.Core.List.{Permᴰ}

-- The content of a file depends on its name, as in a directory.
abbrev pub IsOf : (Bytes → Option Bytes) → File → Type 0
IsOf dir f = f.content ≡ dir f.name

module _ (dir : Bytes → Option Bytes) where
  same_name : (f g : File) → IsOf dir f → IsOf dir g → f.name ≡ g.name → f ≡ g
  same_name f g hf hg e = cc (hf, hg, e)

  -- Two files in front of a list, in the order of their names.
  two_in_front :
      (f g : File) (fs : List File)
      → IsOf dir f
      → IsOf dir g
      → (if bytes_ltb f.name g.name then f ∷ g ∷ fs else g ∷ f ∷ fs)
        ≡ (if bytes_ltb g.name f.name then g ∷ f ∷ fs else f ∷ g ∷ fs)
  two_in_front f g fs hf hg = elim (Bool-cases (bytes_ltb f.name g.name)) [
    | inl a ↦ rw (a, bytes_ltb_asym f.name g.name a) refl
    | inr a ↦ elim (Bool-cases (bytes_ltb g.name f.name)) [
      | inl b ↦ rw (a, b) refl
      | inr b ↦
          rw (a, b)
            (ap (λ h. g ∷ h ∷ fs) (same_name f g hf hg (bytes_ltb_total f.name g.name a b))
              ∙ ap (λ h. h ∷ g ∷ fs)
                  (sym (same_name f g hf hg (bytes_ltb_total f.name g.name a b))))
    ]
  ]

  insert_file_comm :
      (f g : File) (fs : List File)
      → IsOf dir f
      → IsOf dir g
      → insert_file f (insert_file g fs) ≡ insert_file g (insert_file f fs)
  unfolding insert_file
  insert_file_comm f g [] hf hg = two_in_front f g [] hf hg
  insert_file_comm f g (h ∷ fs) hf hg = elim (Bool-cases (bytes_ltb f.name h.name)) [
    | inl a ↦ elim (Bool-cases (bytes_ltb g.name h.name)) [
      | inl b ↦ rw (a, b, insert_file, a) (two_in_front f g (h ∷ fs) hf hg)
      | inr b ↦ ground (arith, a, b, bytes_ltb_trans g.name f.name h.name)
    ]
    | inr a ↦ elim (Bool-cases (bytes_ltb g.name h.name)) [
      | inl b ↦ ground (arith, a, b, bytes_ltb_trans f.name g.name h.name)
      | inr b ↦ ground (arith, a, b, insert_file_comm f g fs hf hg)
    ]
  ]

  perm-All : {fs gs : List File} → Permᴰ fs gs → All (IsOf dir) fs → All (IsOf dir) gs
  perm-All Permᴰ.nil h = tt
  perm-All (Permᴰ.cons e p) (h, hs) = (subst (IsOf dir) e h, perm-All p hs)
  perm-All (Permᴰ.swap e e') (h, (k, hs)) = (subst (IsOf dir) e' k, (subst (IsOf dir) e h, hs))
  perm-All (Permᴰ.trans p q) h = perm-All q (perm-All p h)

  -- The order
  pub sort_files-perm :
      {fs gs : List File} → Permᴰ fs gs → All (IsOf dir) fs → sort_files fs ≡ sort_files gs
  unfolding sort_files
  sort_files-perm Permᴰ.nil h = refl
  sort_files-perm (Permᴰ.cons e p) (h, hs) = cc (e, sort_files-perm p hs)
  sort_files-perm (Permᴰ.swap {a = f} {b = g} {l = l} e e') (h, (k, hs)) =
      cc (e, e', insert_file_comm f g (sort_files l) h k)
  sort_files-perm (Permᴰ.trans p q) h = sort_files-perm p h ∙ sort_files-perm q (perm-All p h)

-- The names ascend.
abbrev pub IsAscending : List File → Type 0
IsAscending [] = Unit {0}
IsAscending (f ∷ []) = Unit {0}
IsAscending (f ∷ g ∷ fs) = (bytes_ltb f.name g.name ≡ true) × IsAscending (g ∷ fs)

pub sort_files_of_IsAscending : (fs : List File) → IsAscending fs → sort_files fs ≡ fs
unfolding sort_files insert_file
sort_files_of_IsAscending [] h = refl
sort_files_of_IsAscending (f ∷ []) h = refl
sort_files_of_IsAscending (f ∷ g ∷ fs) (a, h) =
    rw (sort_files_of_IsAscending (g ∷ fs) h, insert_file, a) refl
