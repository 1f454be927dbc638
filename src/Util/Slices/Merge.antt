-- ===== src/Util/Slices/Merge.antt =====
-- What the merged queue of util.go holds, and in which order.
use totorrent.Base.{
  ℕ, ◌≡◌, refl, sym, ◌∙◌, true, false, ◌||◌, List, [], ◌∷◌, ◌++◌, arith, Bool-cases, inl, inr, ◌==◌,
}
use totorrent.Util.Slices.{
  int_slice_has, did_find, int_slice_append_if_unique, append_each, int_slice_unique_merge_slices,
}
use mathlib.Core.List.{append-nil, append_assoc}

-- The two membership loops agree.
pub int_slice_has-did_find : (xs : List ℕ) (x : ℕ) → int_slice_has xs x ≡ did_find xs x
unfolding int_slice_has did_find
int_slice_has-did_find [] x = refl
int_slice_has-did_find (y ∷ xs) x = ground (arith, int_slice_has-did_find xs x)

pub did_find-append :
    (xs ys : List ℕ) (x : ℕ) → did_find (xs ++ ys) x ≡ (did_find xs x || did_find ys x)
unfolding did_find
did_find-append [] ys x = refl
did_find-append (y ∷ xs) ys x = ground (arith, did_find-append xs ys x)

did_find-one : (y x : ℕ) → did_find (y ∷ []) x ≡ (y == x)
unfolding did_find
did_find-one y x = ground arith

-- No element stands twice.
abbrev pub IsDistinct : List ℕ → Type 0
IsDistinct [] = Unit {0}
IsDistinct (x ∷ xs) = (did_find xs x ≡ false) × IsDistinct xs

pub IsDistinct-append_one :
    (xs : List ℕ) (y : ℕ) → did_find xs y ≡ false → IsDistinct xs → IsDistinct (xs ++ y ∷ [])
unfolding did_find
IsDistinct-append_one [] y h d = (refl, tt)
IsDistinct-append_one (x ∷ xs) y h d = (
  ground (arith, did_find-append xs (y ∷ []) x, did_find-one y x),
  IsDistinct-append_one xs y (ground arith) d.1,
)

append_if_unique-IsDistinct :
    (xs : List ℕ) (y : ℕ) → IsDistinct xs → IsDistinct (int_slice_append_if_unique xs y)
unfolding int_slice_append_if_unique
append_if_unique-IsDistinct xs y d = elim (Bool-cases (did_find xs y)) [
  | inl e ↦ rw e d
  | inr e ↦ rw e (IsDistinct-append_one xs y e d)
]

did_find-append_if_unique :
    (xs : List ℕ) (y x : ℕ)
    → did_find (int_slice_append_if_unique xs y) x ≡ (did_find xs x || y == x)
unfolding int_slice_append_if_unique
did_find-append_if_unique xs y x = elim (Bool-cases (did_find xs y)) [
  | inl e ↦
      rw e (elim (Bool-cases (y == x)) [ inl f ↦ ground (arith, e, f) | inr f ↦ ground (arith, f) ])
  | inr e ↦ rw e (ground (arith, did_find-append xs (y ∷ []) x, did_find-one y x))
]

append_each-IsDistinct : (xs ys : List ℕ) → IsDistinct xs → IsDistinct (append_each xs ys)
unfolding append_each
append_each-IsDistinct xs [] d = d
append_each-IsDistinct xs (y ∷ ys) d =
    append_each-IsDistinct (int_slice_append_if_unique xs y) ys (append_if_unique-IsDistinct xs y d)

did_find-append_each :
    (xs ys : List ℕ) (x : ℕ) → did_find (append_each xs ys) x ≡ (did_find xs x || did_find ys x)
unfolding append_each did_find
did_find-append_each xs [] x = ground arith
did_find-append_each xs (y ∷ ys) x = ground (
  arith,
  did_find-append_each (int_slice_append_if_unique xs y) ys x,
  did_find-append_if_unique xs y x,
)

-- What stands in the first list keeps its place.
append_each-prefix : (xs ys : List ℕ) → (rest : List ℕ) × (append_each xs ys ≡ xs ++ rest)
unfolding append_each int_slice_append_if_unique
append_each-prefix xs [] = ([], sym (append-nil xs))
append_each-prefix xs (y ∷ ys) = elim (Bool-cases (did_find xs y)) [
  | inl e ↦ rw e (append_each-prefix xs ys)
  | inr e ↦
      let (rest, p) = append_each-prefix (xs ++ y ∷ []) ys in
      rw e (y ∷ rest, p ∙ append_assoc xs (y ∷ []) rest)
]

-- A list without repetitions goes through the first loop as it is.
append_each-distinct :
    (xs ys : List ℕ)
    → IsDistinct ys
    → ((x : ℕ) → did_find xs x ≡ true → did_find ys x ≡ false)
    → append_each xs ys ≡ xs ++ ys
unfolding append_each int_slice_append_if_unique did_find
append_each-distinct xs [] d apart = sym (append-nil xs)
append_each-distinct xs (y ∷ ys) d apart = elim (Bool-cases (did_find xs y)) [
  | inl e ↦ absurd (ground (arith, apart y e))
  | inr e ↦ rw e (
      append_each-distinct (xs ++ y ∷ []) ys d.1
        (λ x h. ground (arith, apart x, did_find-append xs (y ∷ []) x, did_find-one y x))
      ∙ append_assoc xs (y ∷ []) ys)
]

-- The merge of a queue without repetitions with any list has no repetitions, holds exactly the
-- elements of either, and starts with the queue as it was.
pub int_slice_unique_merge_slices_lem :
    (xs ys : List ℕ)
    → IsDistinct xs
    → IsDistinct (int_slice_unique_merge_slices xs ys)
      × ((x : ℕ)
          → did_find (int_slice_unique_merge_slices xs ys) x ≡ (did_find xs x || did_find ys x))
      × ((rest : List ℕ) × (int_slice_unique_merge_slices xs ys ≡ xs ++ rest))
unfolding int_slice_unique_merge_slices
int_slice_unique_merge_slices_lem xs ys d =
    rw (append_each-distinct [] xs d (λ x h. unfold did_find in cc))
      (append_each-IsDistinct xs ys d, did_find-append_each xs ys, append_each-prefix xs ys)
