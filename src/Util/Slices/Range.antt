-- ===== src/Util/Slices/Range.antt =====
-- Consecutive numbers that are merged into a queue (util.go).
use totorrent.Base.{ℕ, zero, suc, ◌<◌, ◌≡◌, refl, ◌∙◌, sym, false, List, [], ◌∷◌, ◌++◌, All, arith}
use totorrent.Util.Slices.{
  did_find, int_slice_append_if_unique, append_each, int_slice_unique_merge_slices,
}
use mathlib.Core.List.{append-nil, append_assoc}

-- The numbers from `k` on.
abbrev pub range : ℕ → ℕ → List ℕ
range k zero = []
range k (suc count) = k ∷ range (suc k) count

abbrev AllBelow : ℕ → List ℕ → Type 0
AllBelow k = All (λ x. x < k)

did_find-AllBelow : (k : ℕ) (xs : List ℕ) → AllBelow k xs → did_find xs k ≡ false
unfolding did_find
did_find-AllBelow k [] h = refl
did_find-AllBelow k (x ∷ xs) h = ground (arith, did_find-AllBelow k xs h.1)

AllBelow-append_one : (k : ℕ) (xs : List ℕ) → AllBelow k xs → AllBelow (suc k) (xs ++ k ∷ [])
AllBelow-append_one k [] h = (omega arith, tt)
AllBelow-append_one k (x ∷ xs) h = (omega arith, AllBelow-append_one k xs h.1)

append_each-range :
    (k count : ℕ) (xs : List ℕ)
    → AllBelow k xs
    → append_each xs (range k count) ≡ xs ++ range k count
unfolding append_each int_slice_append_if_unique
append_each-range k zero xs h = sym (append-nil xs)
append_each-range k (suc count) xs h =
    rw (append_each, did_find-AllBelow k xs h)
      (append_each-range (suc k) count (xs ++ k ∷ []) (AllBelow-append_one k xs h)
        ∙ append_assoc xs (k ∷ []) (range (suc k) count))

-- Merged into an empty queue they stay as they are.
pub int_slice_unique_merge_slices-range :
    (k count : ℕ) → int_slice_unique_merge_slices [] (range k count) ≡ range k count
unfolding int_slice_unique_merge_slices append_each
int_slice_unique_merge_slices-range k count = append_each-range k count [] tt
