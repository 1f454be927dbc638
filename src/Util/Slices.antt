-- ===== src/Util/Slices.antt =====
-- util/util.go: the helpers on integers and on slices of them.
pub mod Merge
pub mod Range
use totorrent.Base.{ℕ, Bool, true, false, ◌||◌, List, [], ◌∷◌, ◌++◌, ltb, ◌==◌, if◌then◌else◌}

unfoldable pub min : ℕ → ℕ → ℕ
min a b = if ltb a b then a else b

unfoldable pub int_slice_has : List ℕ → ℕ → Bool
int_slice_has [] needle = false
int_slice_has (k ∷ haystack) needle =
    let rest = int_slice_has haystack needle in if needle == k then true else rest

-- The loop that sets `didFind`.
unfoldable pub did_find : List ℕ → ℕ → Bool
did_find [] elem = false
did_find (v ∷ slice) elem = let rest = did_find slice elem in if v == elem then true else rest

unfoldable pub int_slice_append_if_unique : List ℕ → ℕ → List ℕ
unfolding did_find
int_slice_append_if_unique slice elem = if did_find slice elem then slice else slice ++ elem ∷ []

-- One of the two loops, which add the elements of a slice in turn.
unfoldable pub append_each : List ℕ → List ℕ → List ℕ
append_each merged [] = merged
append_each merged (v ∷ slice) = append_each (int_slice_append_if_unique merged v) slice

unfoldable pub int_slice_unique_merge_slices : List ℕ → List ℕ → List ℕ
unfolding append_each
int_slice_unique_merge_slices slice_a slice_b = append_each (append_each [] slice_a) slice_b
