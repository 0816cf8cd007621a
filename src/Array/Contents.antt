-- ===== src/Array/Contents.antt =====
-- What the operations of an array do to the elements that it holds.
use native.Mathlib.Nat.{mul-div_cancel_left}
use pg_rest.Base.{
  ℕ, suc, ◌+◌, ◌*◌, ◌/◌, ◌%◌, ◌≤◌, ◌<◌, ◌≡◌, refl, ◌∙◌, ap, Bool, true, ◌&&◌, Option, none, some,
  List, [], ◌∷◌, ◌++◌, arith, length, set, take, drop, replicate, leb, ◌==◌, length-append,
  length-take, length-drop, length-set, length-replicate, inl, inr, Bool-cases, Option-cases,
  take-take-append, take-set,
}
use pg_rest.Array.{Array, max_alloc, size_mod, grow, push, copy_cells, write, contents}

-- The block holds `capacity` cells, of a size that `pgrest_util_alloc_` grants, and `size` of them
-- are in use.
pub record IsValid {ℓ} {A : Type ℓ} (a : Array A) : Type 0 where
  pub block : length a.elts ≡ a.capacity
  pub used : a.size ≤ a.capacity
  pub room : 0 < a.capacity
  pub cell : 0 < a.elt_size
  pub granted : a.elt_size * a.capacity ≤ max_alloc

module _ {ℓ} {A : Type ℓ} where
  length-copy_cells :
      (n : ℕ) (from to : List A)
      → n ≤ length from
      → n ≤ length to
      → length (copy_cells n from to) ≡ length to
  unfolding copy_cells
  length-copy_cells n from to h k =
      omega (arith, length-append (take n from) (drop n to), length-take n from, length-drop n to)

-- The doubled block has twice as many cells.
doubled_bytes :
    (e c : ℕ) → 0 < e → e * c ≤ max_alloc → (2 * (e * c % size_mod) % size_mod) / e ≡ c * 2
doubled_bytes e c h k =
    let small : 2 * (e * c % size_mod) % size_mod ≡ e * (c * 2) = omega arith in
    rw small (mul-div_cancel_left (c * 2) h)

module _ {ℓ} {A : Type ℓ} (grant : ℕ → Bool) (junk : A) where
  -- What `grow` hands to `push`: a valid array with room, of the same elements.
  abbrev pub Roomy : Array A → Option (Array A) → Type ℓ
  Roomy a none = Unit
  Roomy a (some b) =
      IsValid b
      × (b.size < b.capacity)
      × (contents b ≡ contents a)
      × (b.size ≡ a.size)
      × (b.elt_size ≡ a.elt_size)

  grow_full : (a : Array A) → IsValid a → a.size ≡ a.capacity → Roomy a (grow grant junk a)
  unfolding grow
  grow_full a v full =
      let bytes : ℕ = 2 * (a.elt_size * a.capacity % size_mod) % size_mod in
      let cells : List A = replicate (bytes / a.elt_size) junk in
      let count : bytes / a.elt_size ≡ a.capacity * 2 =
        doubled_bytes a.elt_size a.capacity v.cell v.granted in
      let wide : length cells ≡ a.capacity * 2 =
        length-replicate (bytes / a.elt_size) junk ∙ count in
      let equal : (a.size == a.capacity) ≡ true = ground arith in
      elim (Bool-cases (leb bytes max_alloc && grant bytes)) [
        | inl e ↦
            rw (equal, grow, e)
              (
                record {
                  block =
                      length-copy_cells a.capacity a.elts cells (omega arith) (omega arith)
                      ∙ omega arith;
                  used = omega arith;
                  room = omega arith;
                  cell = v.cell;
                  granted = ground arith;
                },
                omega arith,
                take-take-append a.size a.capacity a.elts (drop a.capacity cells) (omega arith)
                    (omega arith),
                refl,
                refl,
              )
        | inr e ↦ rw (equal, grow, e) tt
      ]

  pub grow-Roomy : (a : Array A) → IsValid a → Roomy a (grow grant junk a)
  unfolding grow
  grow-Roomy a v = elim (Bool-cases (a.size == a.capacity)) [
    | inl e ↦ grow_full a v (ground arith)
    | inr e ↦ rw (e, grow) (v, ground arith, refl, refl, refl)
  ]

  pub capacity-le : (a : Array A) → IsValid a → a.capacity ≤ max_alloc
  capacity-le a v = grind arith

  -- What pushing `x` must do: on success the array holds `x` behind its elements, and else the
  -- array is unchanged.
  abbrev pub Pushed : Array A → A → Option ℕ × Array A → Type ℓ
  Pushed a x (none, b) = b ≡ a
  Pushed a x (some i, b) = IsValid (write b i x) × (contents (write b i x) ≡ contents a ++ x ∷ [])

  pub push_grown :
      (a b : Array A) (x : A)
      → Roomy a (some b)
      → Pushed a x (some b.size, record b { size = (b.size + 1) % size_mod })
  push_grown a b x (v, r, same, _, _) =
      let n : (b.size + 1) % size_mod ≡ suc b.size = omega (arith, capacity-le b v) in
      let block : length (set b.elts b.size x) ≡ b.capacity =
        length-set b.elts b.size x ∙ v.block in
      (
        record {
          block = block;
          used = omega arith;
          room = v.room;
          cell = v.cell;
          granted = v.granted;
        },
        rw n (take-set b.size b.elts x (omega arith) ∙ ap (λ s. s ++ x ∷ []) same),
      )

  -- Pushing onto a valid array either appends the element, in a valid array, or fails and leaves
  -- the array as it was.
  pub push-Pushed : (a : Array A) (x : A) → IsValid a → Pushed a x (push grant junk a)
  unfolding push
  push-Pushed a x v = elim (Option-cases (grow grant junk a)) [
    | inl e ↦ rw (e, push) refl
    | inr (b, e) ↦ rw (e, push) (push_grown a b x (rw e at (grow-Roomy a v)))
  ]
