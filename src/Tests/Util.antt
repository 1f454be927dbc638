-- ===== src/Tests/Util.antt =====
-- Runs of the theorems about bitfields and slices at concrete inputs.
use totorrent.Base.{
  ltb, zero, suc, ◌≤◌, ℕ, Bool, ◌/◌, ◌<◌, length, ◌||◌, List, [], ◌∷◌, ◌≡◌, refl, ok, arith,
}
use totorrent.Util.Slices.{did_find, int_slice_unique_merge_slices}
use totorrent.Util.Slices.Merge.{IsDistinct, int_slice_unique_merge_slices_lem}
use totorrent.Util.Bitfield.{Bitfield, has, as_int_slice, set_bit, new_bitfield}
use totorrent.Util.Bitfield.Laws.{as_int_slice-where, WritesBit, set_bit_lem, new_bitfield-IsBytes}

queue_IsDistinct : IsDistinct (4 ∷ 2 ∷ [])
unfolding did_find
queue_IsDistinct = (refl, (refl, tt))

int_slice_unique_merge_slices_lem_example :
    IsDistinct (int_slice_unique_merge_slices (4 ∷ 2 ∷ []) (2 ∷ 7 ∷ 7 ∷ []))
    × ((x : ℕ)
        → did_find (int_slice_unique_merge_slices (4 ∷ 2 ∷ []) (2 ∷ 7 ∷ 7 ∷ [])) x
          ≡ (did_find (4 ∷ 2 ∷ []) x || did_find (2 ∷ 7 ∷ 7 ∷ []) x))
    × ((rest : List ℕ) × (int_slice_unique_merge_slices (4 ∷ 2 ∷ []) (2 ∷ 7 ∷ 7 ∷ [])
          ≡ 4 ∷ 2 ∷ rest))
int_slice_unique_merge_slices_lem_example =
    int_slice_unique_merge_slices_lem (4 ∷ 2 ∷ []) (2 ∷ 7 ∷ 7 ∷ []) queue_IsDistinct

nine_fits : 9 / 8 < length (new_bitfield 12).bytes
unfolding new_bitfield
nine_fits = omega arith

set_bit_lem_example :
    (g : Bitfield) × (set_bit (new_bitfield 12) 9 ≡ ok g) × WritesBit (new_bitfield 12) g 9
set_bit_lem_example = set_bit_lem (new_bitfield 12) 9 (new_bitfield-IsBytes 12) nine_fits

abbrev below_three : ℕ → Bool
below_three j = ltb j 3

-- The bits 0 to 2 of the byte 7, and those behind them.
abbrev seven : Bitfield
seven = record { bytes = 7 ∷ []; num_of_bits = 8 }

has-seven : (j : ℕ) → j ≤ 4 → has seven j ≡ ok (below_three j)
unfolding has
has-seven zero h = refl
has-seven (suc zero) h = refl
has-seven (suc (suc zero)) h = refl
has-seven (suc (suc (suc zero))) h = refl
has-seven (suc (suc (suc (suc zero)))) h = refl
has-seven (suc (suc (suc (suc (suc j))))) h = absurd (omega arith)

as_int_slice-where_example : as_int_slice seven 4 ≡ ok (0 ∷ 1 ∷ 2 ∷ [])
as_int_slice-where_example = as_int_slice-where seven below_three 4 has-seven
