-- ===== src/Cqueue/Fifo.antt =====
-- A circular queue of src/pg_rest_cqueue.c against the list of its elements, oldest first.
use native.Mathlib.Nat.{mod-add-mod, mul-div_cancel, mul-le-mul_left}
use pg_rest.Base.{
  ℕ, zero, suc, ◌+◌, ◌-◌, ◌*◌, ◌/◌, ◌%◌, ◌≤◌, ◌<◌, ◌≡◌, ◌≢◌, refl, sym, ap, ◌∙◌, Bool, true, false,
  Option, none, some, List, [], ◌∷◌, ◌++◌, arith, length, set, take, length-take, length-set,
  length-replicate, take-set, take-append_le, inl, inr, Bool-cases, if◌then◌else◌, ◌==◌,
}
use pg_rest.Cqueue.{Cqueue, uint_mod, cells, create, push, pop, write, read}
use pg_rest.Cqueue.Rotation.{rotate, length-rotate, rotate-set, rotate_next}

pub record IsValid {ℓ} {A : Type ℓ} (cq : Cqueue A) : Type 0 where
  pub block : length cq.elts ≡ cq.capacity
  pub used : cq.size ≤ cq.capacity
  pub small : cq.capacity < uint_mod
  pub head_in : cq.head < cq.capacity
  pub tail_at : cq.tail ≡ (cq.head + cq.size) % cq.capacity

-- The block of a new queue has its capacity.
cells-exact : (c e : ℕ) → 0 < e → c * e < uint_mod → cells c e ≡ c
unfolding cells
cells-exact c e p k = ap (λ n. n / e) (mod_small (c * e) k) ∙ mul-div_cancel c p
  where
    mod_small : (n : ℕ) → n < uint_mod → n % uint_mod ≡ n
    mod_small n h = omega (arith, h)

below : (c e : ℕ) → 0 < e → c * e < uint_mod → c < uint_mod
below c e p k = lt_of_le (c * e) (mul-le-mul_left c one_le) k
  where
    one_le : 1 ≤ e
    one_le = omega (arith, p)

    lt_of_le : (m : ℕ) → c * 1 ≤ m → m < uint_mod → c < uint_mod
    lt_of_le m a b = omega (arith, a, b)

module _ {ℓ} {A : Type ℓ} where
  abbrev pub contents : Cqueue A → List A
  contents cq = take cq.size (rotate cq.head cq.elts)

  pub length-contents : (cq : Cqueue A) → IsValid cq → length (contents cq) ≡ cq.size
  length-contents cq v =
      omega (arith, length-take cq.size (rotate cq.head cq.elts), length-rotate cq.head cq.elts)

  -- The pointer that `push` returned, used at once by its caller.
  put : A → Option ℕ × Cqueue A → Bool × Cqueue A
  put x (none, cq) = (false, cq)
  put x (some i, cq) = (true, write cq i x)

  unfoldable pub enqueue : Cqueue A → A → Bool × Cqueue A
  unfolding put
  enqueue cq x = put x (push cq)

  -- The pointer that `pop` returned, read at once by its caller.
  get : Option ℕ × Cqueue A → Option A × Cqueue A
  get (none, cq) = (none, cq)
  get (some i, cq) = (read cq i, cq)

  unfoldable pub dequeue : Cqueue A → Option A × Cqueue A
  unfolding get
  dequeue cq = get (pop cq)

  -- The specification: a list of at most `n` elements.
  unfoldable pub offer : ℕ → List A → A → Bool × List A
  offer n q x = if length q == n then (false, q) else (true, q ++ x ∷ [])

  unfoldable pub poll : List A → Option A × List A
  poll [] = (none, [])
  poll (x ∷ q) = (some x, q)

  pub create-IsValid :
      (junk : A) (capacity elt_size : ℕ)
      → 0 < capacity
      → 0 < elt_size
      → capacity * elt_size < uint_mod
      → IsValid (create junk capacity elt_size) × (contents (create junk capacity elt_size) ≡ [])
  unfolding create
  create-IsValid junk c e h p k = (
    record {
      block = length-replicate (cells c e) junk ∙ cells-exact c e p k;
      used = omega arith;
      small = below c e p k;
      head_in = h;
      tail_at = omega arith;
    },
    refl,
  )

  push-full : (cq : Cqueue A) → cq.size ≡ cq.capacity → push cq ≡ (none, cq)
  unfolding push
  push-full cq e = let t : (cq.size == cq.capacity) ≡ true = ground arith in rw (t, push) refl

  push-room :
      (cq : Cqueue A)
      → IsValid cq
      → cq.size ≢ cq.capacity
      → push cq
        ≡ (some cq.tail, record cq { tail = (cq.tail + 1) % cq.capacity; size = suc cq.size })
  unfolding push
  push-room cq v ne =
      let t : (cq.size == cq.capacity) ≡ false = ground arith in
      let n : (cq.size + 1) % uint_mod ≡ suc cq.size = omega arith in
      let m : (cq.tail + 1) % uint_mod ≡ cq.tail + 1 = omega arith in rw (t, push, n, m) refl

  next_tail :
      (cq : Cqueue A)
      → IsValid cq
      → (cq.tail + 1) % cq.capacity ≡ (cq.head + suc cq.size) % cq.capacity
  next_tail cq v = rw (v.tail_at, mod-add-mod) (ap (λ k. k % cq.capacity) (omega arith))

  -- The queue that a successful `push` and the write through its pointer leave.
  abbrev Grown : Cqueue A → A → Cqueue A
  Grown cq x = record cq {
    elts = set cq.elts cq.tail x;
    tail = (cq.tail + 1) % cq.capacity;
    size = suc cq.size;
  }

  grown :
      (cq : Cqueue A) (x : A)
      → IsValid cq
      → cq.size ≢ cq.capacity
      → IsValid (Grown cq x) × (contents (Grown cq x) ≡ contents cq ++ x ∷ [])
  grown cq x v ne =
      let at : rotate cq.head (set cq.elts cq.tail x) ≡ set (rotate cq.head cq.elts) cq.size x =
        ap (λ k. rotate cq.head (set cq.elts k x))
          (v.tail_at ∙ ap (λ k. (cq.head + cq.size) % k) (sym v.block))
        ∙ rotate-set cq.head cq.size cq.elts x (omega arith) (omega arith) in
      (
        record {
          block = length-set cq.elts cq.tail x ∙ v.block;
          used = omega arith;
          small = v.small;
          head_in = v.head_in;
          tail_at = next_tail cq v;
        },
        ap (take (suc cq.size)) at
            ∙ take-set cq.size (rotate cq.head cq.elts) x
                (omega (arith, length-rotate cq.head cq.elts)),
      )

  -- Putting an element into a valid queue does what the bounded list does, and leaves a valid queue
  -- of the same capacity.
  pub enqueue_refines :
      (cq : Cqueue A) (x : A)
      → IsValid cq
      → let (done, b) = enqueue cq x in
        ((done, contents b) ≡ offer cq.capacity (contents cq) x)
        × IsValid b
        × (b.capacity ≡ cq.capacity)
  unfolding enqueue offer
  enqueue_refines cq x v = elim (Bool-cases (cq.size == cq.capacity)) [
    | inl full ↦
        let t : (length (contents cq) == cq.capacity) ≡ true = rw (length-contents cq v) full in
        rw (push-full cq (ground arith), enqueue, t) (refl, v, refl)
    | inr room ↦
        let t : (length (contents cq) == cq.capacity) ≡ false = rw (length-contents cq v) room in
        let (valid, same) = grown cq x v (ground arith) in
        rw (push-room cq v (ground arith), enqueue, t) (ap (λ q. (true, q)) same, valid, refl)
  ]

  pop-room :
      (cq : Cqueue A)
      → IsValid cq
      → cq.size ≢ 0
      → pop cq
        ≡ (some cq.head, record cq { head = (cq.head + 1) % cq.capacity; size = cq.size - 1 })
  unfolding pop
  pop-room cq v ne =
      let t : (cq.size == 0) ≡ false = ground arith in
      let m : (cq.head + 1) % uint_mod ≡ cq.head + 1 = omega arith in rw (t, pop, m) refl

  abbrev Shrunk : Cqueue A → Cqueue A
  Shrunk cq = record cq { head = (cq.head + 1) % cq.capacity; size = cq.size - 1 }

  shrunk :
      (cq : Cqueue A)
      → IsValid cq
      → cq.size ≢ 0
      → IsValid (Shrunk cq)
        × (x : A) × (read cq cq.head ≡ some x)
        × (contents cq ≡ x ∷ contents (Shrunk cq))
  shrunk cq v ne =
      let (x, r, e, g, e') = rotate_next cq.head cq.elts (omega arith) in
      let n : cq.size ≡ suc (cq.size - 1) = omega arith in
      let long : suc (length r) ≡ cq.capacity =
        ap length (sym e) ∙ length-rotate cq.head cq.elts ∙ v.block in
      let rest : contents (Shrunk cq) ≡ take (cq.size - 1) r =
        ap (λ k. take (cq.size - 1) (rotate ((cq.head + 1) % k) cq.elts)) (sym v.block)
        ∙ ap (take (cq.size - 1)) e'
        ∙ take-append_le (cq.size - 1) r (x ∷ []) (omega arith) in
      (
        record {
          block = v.block;
          used = omega arith;
          small = v.small;
          head_in = omega arith;
          tail_at = v.tail_at ∙ rw mod-add-mod (ap (λ k. k % cq.capacity) (omega arith));
        },
        x,
        g,
        ap (λ k. take k (rotate cq.head cq.elts)) n
            ∙ ap (take (suc (cq.size - 1))) e
            ∙ ap (◌∷◌ x) (sym rest),
      )

  poll_zero : (n : ℕ) (q : List A) → n ≡ 0 → poll (take n q) ≡ (none, take n q)
  unfolding poll
  poll_zero zero q e = refl
  poll_zero (suc n) q e = absurd (omega arith)

  -- Taking an element from a valid queue does what the list does, and leaves a valid queue of the
  -- same capacity.
  pub dequeue_refines :
      (cq : Cqueue A)
      → IsValid cq
      → let (out, b) = dequeue cq in
        ((out, contents b) ≡ poll (contents cq)) × IsValid b × (b.capacity ≡ cq.capacity)
  unfolding dequeue poll pop
  dequeue_refines cq v = elim (Bool-cases (cq.size == 0)) [
    | inl empty ↦
        rw (empty, pop) (sym (poll_zero cq.size (rotate cq.head cq.elts) (ground arith)), v, refl)
    | inr some_left ↦
        let (valid, x, g, e) = shrunk cq v (ground arith) in
        rw (pop-room cq v (ground arith), dequeue, e)
          (ap (λ o. (o, contents (Shrunk cq))) g, valid, refl)
  ]
