-- ===== src/Sort.antt =====
-- `pgrest_util_sort` of src/pg_rest_util.c: an insertion sort in place. `gt x y` is the test
-- `cmp(x, y) > 0`; the array is the list of its elements, and `p1`, `p2` are indices into it.
pub mod Insertion
pub mod Order
mod Tests
use pg_rest.Base.{
  ℕ, zero, suc, ◌+◌, ◌-◌, Bool, true, false, Option, none, some, List, [], ◌∷◌, set, get_elem?,
  length,
}

module _ {ℓ} {A : Type ℓ} (gt : A → A → Bool) where
  -- The inner loop, entered with `p2` and the saved element: elements that are greater move up by
  -- one place, and then the saved one is written. A read out of range does not happen.
  unfoldable pub sift : A → ℕ → List A → List A
  sift p zero base = set base zero p
  sift p (suc p2) base = elim (get_elem? base p2) [
    | none ↦ base
    | some x ↦ elim (gt x p) [
      | true ↦ sift p p2 (set base (suc p2) x)
      | false ↦ set base (suc p2) p
    ]
  ]

  -- The outer loop, with the number of rounds left.
  unfoldable pub rounds : ℕ → ℕ → List A → List A
  unfolding sift
  rounds zero p1 base = base
  rounds (suc left) p1 base = elim (get_elem? base p1) [
    | none ↦ base
    | some p ↦ rounds left (suc p1) (sift p p1 base)
  ]

  -- `pgrest_util_sort`
  unfoldable pub util_sort : List A → List A
  unfolding rounds
  util_sort base = rounds (length base - 1) 1 base
