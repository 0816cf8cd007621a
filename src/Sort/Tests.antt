-- ===== src/Sort/Tests.antt =====
-- Runs of the insertion sort of src/pg_rest_util.c.
use pg_rest.Base.{ℕ, ◌≡◌, refl, [], ◌∷◌, List, arith, ltb, Bool}
use pg_rest.Sort.{util_sort}
use pg_rest.Sort.Order.{Ascending, IsOrder, util_sort-Ascending}
use mathlib.Core.List.{Perm}

abbrev greater : ℕ → ℕ → Bool
greater x y = ltb y x

greater-IsOrder : IsOrder greater
greater-IsOrder = record { asym = λ x y e. ground arith; trans = λ x y z e f. ground arith }

abbrev unsorted : List ℕ
unsorted = 3 ∷ 1 ∷ 2 ∷ 1 ∷ []

util_sort_run : util_sort greater unsorted ≡ 1 ∷ 1 ∷ 2 ∷ 3 ∷ []
unfolding util_sort
util_sort_run = refl

util_sort-Ascending_example :
    Ascending greater (util_sort greater unsorted) × Perm (util_sort greater unsorted) unsorted
util_sort-Ascending_example = util_sort-Ascending greater greater-IsOrder unsorted
