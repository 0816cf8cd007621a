-- ===== src/Cqueue.antt =====
-- The circular queue of include/pg_rest_cqueue.h and src/pg_rest_cqueue.c. As in the array, `elts`
-- lists the cells of the block and a pointer into it is an index; the caller of `push` writes the
-- element through the pointer, and the caller of `pop` reads it.
pub mod Rotation
pub mod Fifo
pub mod Client
mod Tests
use pg_rest.Base.{
  ℕ, ◌+◌, ◌-◌, ◌*◌, ◌/◌, ◌%◌, ◌^◌, Option, none, some, List, [], ◌∷◌, ◌==◌, if◌then◌else◌, set,
  get_elem?, replicate,
}

pub record Cqueue {ℓ} (A : Type ℓ) : Type ℓ where
  pub elts : List A
  pub elt_size : ℕ
  pub size : ℕ
  pub capacity : ℕ
  pub head : ℕ
  pub tail : ℕ

-- Arithmetic on `pgrest_uint_t`.
abbrev pub uint_mod : ℕ
uint_mod = 2 ^ 64

-- The elements that a block of `capacity * elt_size` bytes has room for; the product wraps.
unfoldable pub cells : ℕ → ℕ → ℕ
cells capacity elt_size = capacity * elt_size % uint_mod / elt_size

module _ {ℓ} {A : Type ℓ} where
  -- `pgrest_cqueue_create`; `palloc` reports failure by a long jump, so it returns a block.
  unfoldable pub create : A → ℕ → ℕ → Cqueue A
  unfolding cells
  create junk capacity elt_size = record {
    elts = replicate (cells capacity elt_size) junk;
    elt_size = elt_size;
    size = 0;
    capacity = capacity;
    head = 0;
    tail = 0;
  }

  -- `pgrest_cqueue_push`
  unfoldable pub push : Cqueue A → Option ℕ × Cqueue A
  push cq = if cq.size == cq.capacity then (none, cq) else (
    some cq.tail,
    record cq { tail = (cq.tail + 1) % uint_mod % cq.capacity; size = (cq.size + 1) % uint_mod },
  )

  -- `pgrest_cqueue_pop`; `size--` runs only where the size is not zero.
  unfoldable pub pop : Cqueue A → Option ℕ × Cqueue A
  pop cq = if cq.size == 0 then (none, cq) else (
    some cq.head,
    record cq { head = (cq.head + 1) % uint_mod % cq.capacity; size = cq.size - 1 },
  )

  -- What a caller does with the pointer from `push`.
  abbrev pub write : Cqueue A → ℕ → A → Cqueue A
  write cq i x = record cq { elts = set cq.elts i x }

  -- What a caller does with the pointer from `pop`.
  abbrev pub read : Cqueue A → ℕ → Option A
  read cq i = get_elem? cq.elts i
