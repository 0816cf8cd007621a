-- ===== src/Sort/Insertion.antt =====
-- The array sort of src/pg_rest_util.c against the insertion of one element after the other.
use pg_rest.Base.{
  ℕ, suc, ◌+◌, ◌≡◌, refl, sym, ap, ◌∙◌, Bool, true, false, some, List, [], ◌∷◌, set, get_elem?,
  length, arith, inl, inr, Bool-cases,
}
use pg_rest.Sort.{sift, rounds, util_sort}

module _ {ℓ} {A : Type ℓ} (gt : A → A → Bool) where
  -- The sorted elements, greatest first, with one more.
  unfoldable pub place : A → List A → List A
  place p [] = p ∷ []
  place p (x ∷ desc) = elim (gt x p) [ true ↦ x ∷ place p desc | false ↦ p ∷ x ∷ desc ]

  -- A list of elements, put down in the opposite order in front of others.
  unfoldable pub onto : List A → List A → List A
  onto [] post = post
  onto (x ∷ desc) post = onto desc (x ∷ post)

  length-onto : (desc post : List A) → length (onto desc post) ≡ length desc + length post
  unfolding onto
  length-onto [] post = omega arith
  length-onto (x ∷ desc) post = omega (arith, length-onto desc (x ∷ post))

  get_elem?-onto :
      (desc post : List A) (k i : ℕ)
      → i ≡ length desc + k
      → get_elem? (onto desc post) i ≡ get_elem? post k
  unfolding onto
  get_elem?-onto [] post k i e = ap (get_elem? post) (omega arith)
  get_elem?-onto (x ∷ desc) post k i e = get_elem?-onto desc (x ∷ post) (suc k) i (omega arith)

  set-onto :
      (desc post : List A) (k i : ℕ) (v : A)
      → i ≡ length desc + k
      → set (onto desc post) i v ≡ onto desc (set post k v)
  unfolding onto
  set-onto [] post k i v e = ap (λ j. set post j v) (omega arith)
  set-onto (x ∷ desc) post k i v e = set-onto desc (x ∷ post) (suc k) i v (omega arith)

  sift-moves :
      (p x : A) (i : ℕ) (base : List A)
      → get_elem? base i ≡ some x
      → gt x p ≡ true
      → sift gt p (suc i) base ≡ sift gt p i (set base (suc i) x)
  unfolding sift
  sift-moves p x i base g e = rw (g, sift, e) refl

  sift-stops :
      (p x : A) (i : ℕ) (base : List A)
      → get_elem? base i ≡ some x
      → gt x p ≡ false
      → sift gt p (suc i) base ≡ set base (suc i) p
  unfolding sift
  sift-stops p x i base g e = rw (g, sift, e) refl

  -- The inner loop inserts the saved element into the elements before its place.
  sift_lem :
      (p y : A) (desc post : List A)
      → sift gt p (length desc) (onto desc (y ∷ post)) ≡ onto (place p desc) post
  unfolding onto place
  sift_lem p y [] post = unfold sift in refl
  sift_lem p y (x ∷ desc) post =
      let g : get_elem? (onto desc (x ∷ y ∷ post)) (length desc) ≡ some x =
        get_elem?-onto desc (x ∷ y ∷ post) 0 (length desc) (omega arith) in
      elim (Bool-cases (gt x p)) [
        | inl e ↦
            sift-moves p x (length desc) _ g e
            ∙ ap (sift gt p (length desc))
                (set-onto desc (x ∷ y ∷ post) 1 (suc (length desc)) x (omega arith))
            ∙ sift_lem p x desc (x ∷ post)
            ∙ rw (e, place) refl
        | inr e ↦
            sift-stops p x (length desc) _ g e
            ∙ set-onto desc (x ∷ y ∷ post) 1 (suc (length desc)) p (omega arith)
            ∙ rw (e, place) refl
      ]

  -- The elements in the order in which the loop keeps them, greatest first.
  unfoldable pub descending : List A → List A → List A
  descending desc [] = desc
  descending desc (p ∷ post) = descending (place p desc) post

  length-place : (p : A) (desc : List A) → length (place p desc) ≡ suc (length desc)
  unfolding place
  length-place p [] = refl
  length-place p (x ∷ desc) = ground (arith, length-place p desc)

  rounds-step :
      (p : A) (left p1 : ℕ) (base : List A)
      → get_elem? base p1 ≡ some p
      → rounds gt (suc left) p1 base ≡ rounds gt left (suc p1) (sift gt p p1 base)
  unfolding rounds
  rounds-step p left p1 base g = rw (g, rounds) refl

  rounds_lem :
      (desc post : List A)
      → rounds gt (length post) (length desc) (onto desc post) ≡ onto (descending desc post) []
  unfolding descending
  rounds_lem desc [] = unfold rounds in refl
  rounds_lem desc (p ∷ post) =
      rounds-step p (length post) (length desc) (onto desc (p ∷ post))
        (get_elem?-onto desc (p ∷ post) 0 (length desc) (omega arith))
      ∙ ap (rounds gt (length post) (suc (length desc))) (sift_lem p p desc post)
      ∙ ap (λ k. rounds gt (length post) k (onto (place p desc) post)) (sym (length-place p desc))
      ∙ rounds_lem (place p desc) post

  -- The array sort inserts its elements one after the other.
  pub util_sort_lem : (base : List A) → util_sort gt base ≡ onto (descending [] base) []
  unfolding util_sort onto descending place
  util_sort_lem [] = refl
  util_sort_lem (x ∷ base) =
      ap (λ k. rounds gt k 1 (x ∷ base)) (omega arith) ∙ rounds_lem (x ∷ []) base
