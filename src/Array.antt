-- ===== src/Array.antt =====
-- The growing arrays of include/pg_rest_array.h and src/pg_rest_array.c. `elts` lists the cells of
-- the allocated block, each `elt_size` bytes wide, whatever they hold; a pointer into the block is
-- the index of its cell. The callers write the element through the pointer: `write`.
pub mod Contents
pub mod Failure
mod Tests
use pg_rest.Base.{
  ℕ, zero, suc, ◌+◌, ◌-◌, ◌*◌, ◌/◌, ◌%◌, ◌^◌, Bool, true, false, ◌&&◌, Option, none, some, List, [],
  ◌∷◌, ◌++◌, leb, ◌==◌, if◌then◌else◌, length, set, take, drop, replicate,
}

-- PostgreSQL's MaxAllocSize, the bound that `AllocSizeIsValid` tests.
abbrev pub max_alloc : ℕ
max_alloc = 2 ^ 30 - 1

abbrev pub size_mod : ℕ
size_mod = 2 ^ 64

pub record Array {ℓ} (A : Type ℓ) : Type ℓ where
  pub elts : List A
  pub elt_size : ℕ
  pub size : ℕ
  pub capacity : ℕ

module _ {ℓ} {A : Type ℓ} where
  -- `memcpy(p, array->elts, size)` with a size of `n` cells
  unfoldable pub copy_cells : ℕ → List A → List A → List A
  copy_cells n from to = take n from ++ drop n to

  -- `memmove` of the first `n` cells to one place further on.
  unfoldable pub shift_up : ℕ → List A → List A
  shift_up n [] = []
  shift_up n (x ∷ cells) = x ∷ take n (x ∷ cells) ++ drop n cells

-- `grant n` says whether the memory context has a block of `n` bytes, and `junk` is what fresh
-- memory holds.
module _ {ℓ} {A : Type ℓ} (grant : ℕ → Bool) (junk : A) where
  -- `pgrest_util_alloc_`: the cells of the new block, or NULL.
  unfoldable pub util_alloc : ℕ → ℕ → Option (List A)
  util_alloc elt_size bytes =
      if leb bytes max_alloc && grant bytes then some (replicate (bytes / elt_size) junk) else none

  -- `pgrest_array_init`
  unfoldable pub init : ℕ → ℕ → Option (Array A)
  unfolding util_alloc
  init capacity elt_size = elim (util_alloc elt_size (capacity * elt_size % size_mod)) [
    | none ↦ none
    | some cells ↦
        some (record { elts = cells; elt_size = elt_size; size = 0; capacity = capacity })
  ]

  -- `pgrest_array_create` allocates the 40 bytes of the struct first.
  unfoldable pub create : ℕ → ℕ → Option (Array A)
  unfolding util_alloc init
  create capacity elt_size = elim (util_alloc 40 40) [
    | none ↦ none
    | some _ ↦ init capacity elt_size
  ]

  -- The block to push into: the array itself, or a copy of it twice as large.
  unfoldable pub grow : Array A → Option (Array A)
  unfolding util_alloc copy_cells
  grow array =
      if array.size == array.capacity
      then elim (util_alloc array.elt_size
          (2 * (array.elt_size * array.capacity % size_mod) % size_mod)) [
            | none ↦ none
            | some p ↦ some (record array {
              elts = copy_cells array.capacity array.elts p;
              capacity = array.capacity * 2 % size_mod;
            })
          ]
      else some array

  -- `pgrest_array_push`: the cell to write to, or NULL, and the array.
  unfoldable pub push : Array A → Option ℕ × Array A
  unfolding grow
  push array = elim (grow array) [
    | none ↦ (none, array)
    | some a ↦ (some a.size, record a { size = (a.size + 1) % size_mod })
  ]

  -- `pgrest_array_push_head`: it does not test what `pgrest_array_push` returned.
  unfoldable pub push_head : Array A → Option ℕ × Array A
  unfolding shift_up
  push_head array =
      let (elt, a) = push array in
      if a.size == 1 then (elt, a) else (some 0, record a { elts = shift_up (a.size - 1) a.elts })

  -- `pgrest_array_copy`. The old block of `array_dst` is freed first, so a failure leaves it with
  -- no block, its other fields untouched.
  unfoldable pub copy : Array A → Array A → Bool × Array A
  unfolding util_alloc copy_cells
  copy array_dst array_src =
      elim (util_alloc array_src.elt_size (array_src.capacity * array_src.elt_size % size_mod)) [
        | none ↦ (false, record array_dst { elts = [] })
        | some cells ↦ (
          true,
          record {
            elts = copy_cells array_src.size array_src.elts cells;
            elt_size = array_src.elt_size;
            size = array_src.size;
            capacity = array_src.capacity;
          },
        )
      ]

-- What a caller does with the pointer that it got.
abbrev pub write {ℓ} : {A : Type ℓ} → Array A → ℕ → A → Array A
write array i x = record array { elts = set array.elts i x }

-- The elements that the array holds, in order.
abbrev pub contents {ℓ} : {A : Type ℓ} → Array A → List A
contents array = take array.size array.elts
