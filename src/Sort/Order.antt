-- ===== src/Sort/Order.antt =====
-- The order and the elements of an array that `pgrest_util_sort` of src/pg_rest_util.c sorted.
use mathlib.Core.List.{Perm, perm_middle}
use mathlib.Core.List.Perm
use pg_rest.Base.{
  All, ◌≡◌, refl, ap, ◌∙◌, Bool, true, false, List, [], ◌∷◌, ◌++◌, append-nil, inl, inr, Bool-cases,
}
use pg_rest.Sort.{util_sort}
use pg_rest.Sort.Insertion.{place, onto, descending, util_sort_lem}

module _ {ℓ} {A : Type ℓ} (gt : A → A → Bool) where
  -- No element is greater than a later one.
  abbrev pub Ascending : List A → Type 0
  Ascending [] = Unit
  Ascending (x ∷ xs) = All (λ y. gt x y ≡ false) xs × Ascending xs

  abbrev Descending : List A → Type 0
  Descending [] = Unit
  Descending (x ∷ xs) = All (λ y. gt y x ≡ false) xs × Descending xs

  place-perm : (p : A) (desc : List A) → Perm (place gt p desc) (p ∷ desc)
  unfolding place
  place-perm p [] = Perm.refl _
  place-perm p (x ∷ desc) = elim (Bool-cases (gt x p)) [
    | inl e ↦ rw (e, place) (Perm.trans (Perm.cons x (place-perm p desc)) (Perm.swap p x desc))
    | inr e ↦ rw (e, place) (Perm.refl _)
  ]

  descending-perm : (desc post : List A) → Perm (descending gt desc post) (desc ++ post)
  unfolding descending
  descending-perm desc [] = rw append-nil (Perm.refl _)
  descending-perm desc (p ∷ post) = Perm.trans (descending-perm (place gt p desc) post) (
      Perm.trans (Perm.append (place-perm p desc) (Perm.refl post))
        (Perm.symm (perm_middle desc post)))

  onto-perm : (desc post : List A) → Perm (onto gt desc post) (desc ++ post)
  unfolding onto
  onto-perm [] post = Perm.refl _
  onto-perm (x ∷ desc) post = Perm.trans (onto-perm desc (x ∷ post)) (perm_middle desc post)

  -- The sorted array holds the elements of the given one, each as often.
  pub util_sort-perm : (base : List A) → Perm (util_sort gt base) base
  util_sort-perm base =
      rw (util_sort_lem gt base) (
        Perm.trans (onto-perm (descending gt [] base) []) (rw append-nil (descending-perm [] base)))

  All-place : (P : A → Type 0) (p : A) (desc : List A) → P p → All P desc → All P (place gt p desc)
  unfolding place
  All-place P p [] h t = (h, tt)
  All-place P p (x ∷ desc) h t = elim (Bool-cases (gt x p)) [
    | inl e ↦ rw (e, place) (t.0, All-place P p desc h t.1)
    | inr e ↦ rw (e, place) (h, t)
  ]

  All-map : (P Q : A → Type 0) (xs : List A) → ((x : A) → P x → Q x) → All P xs → All Q xs
  All-map P Q [] f h = tt
  All-map P Q (x ∷ xs) f h = (f x h.0, All-map P Q xs f h.1)

  onto-Ascending :
      (desc post : List A)
      → Descending desc
      → Ascending post
      → All (λ d. All (λ y. gt d y ≡ false) post) desc
      → Ascending (onto gt desc post)
  unfolding onto
  onto-Ascending [] post d a c = a
  onto-Ascending (x ∷ desc) post d a c =
      onto-Ascending desc (x ∷ post) d.1 (c.0, a) (both desc d.0 c.1)
    where
      both :
          (ds : List A)
          → All (λ y. gt y x ≡ false) ds
          → All (λ d. All (λ y. gt d y ≡ false) post) ds
          → All (λ d. All (λ y. gt d y ≡ false) (x ∷ post)) ds
      both [] h k = tt
      both (z ∷ ds) h k = ((h.0, k.0), both ds h.1 k.1)

  All-trivial : (desc : List A) → All (λ d. All (λ y. gt d y ≡ false) []) desc
  All-trivial [] = tt
  All-trivial (x ∷ desc) = (tt, All-trivial desc)

  -- `cmp` orders the elements.
  pub record IsOrder : Type ℓ where
    pub asym : (x y : A) → gt x y ≡ true → gt y x ≡ false
    pub trans : (x y z : A) → gt x y ≡ false → gt y z ≡ false → gt x z ≡ false

  place-Descending :
      IsOrder → (p : A) (desc : List A) → Descending desc → Descending (place gt p desc)
  unfolding place
  place-Descending o p [] d = (tt, tt)
  place-Descending o p (x ∷ desc) d = elim (Bool-cases (gt x p)) [
    | inl e ↦
        rw (e, place)
          (All-place (λ y. gt y x ≡ false) p desc (o.asym x p e) d.0, place-Descending o p desc d.1)
    | inr e ↦ rw (e, place) ((e, All-map _ _ desc (λ y h. o.trans y x p h e) d.0), d)
  ]

  descending-Descending :
      IsOrder → (desc post : List A) → Descending desc → Descending (descending gt desc post)
  unfolding descending
  descending-Descending o desc [] d = d
  descending-Descending o desc (p ∷ post) d =
      descending-Descending o (place gt p desc) post (place-Descending o p desc d)

  -- Where `cmp` is an order, no element of the sorted array is greater than a later one, and the
  -- array holds the elements of the given one, each as often.
  pub util_sort-Ascending :
      IsOrder → (base : List A) → Ascending (util_sort gt base) × Perm (util_sort gt base) base
  util_sort-Ascending o base = (
    rw (util_sort_lem gt base) (
        onto-Ascending (descending gt [] base) [] (descending-Descending o [] base tt) tt
          (All-trivial (descending gt [] base))),
    util_sort-perm base,
  )

  place_last :
      (p : A) (post desc : List A)
      → All (λ d. All (λ y. gt d y ≡ false) (p ∷ post)) desc
      → place gt p desc ≡ p ∷ desc
  unfolding place
  place_last p post [] c = refl
  place_last p post (x ∷ desc) c = rw (c.0.0, place) refl

  -- Inserting elements that are no smaller than all before them keeps their order.
  descending_sorted :
      (desc post : List A)
      → All (λ d. All (λ y. gt d y ≡ false) post) desc
      → Ascending post
      → descending gt desc post ≡ onto gt post desc
  unfolding descending onto
  descending_sorted desc [] c a = refl
  descending_sorted desc (p ∷ post) c a =
      ap (λ d. descending gt d post) (place_last p post desc c)
      ∙ descending_sorted (p ∷ desc) post (a.0, All-map _ _ desc (λ d h. h.1) c) a.1

  onto-onto :
      (post desc acc : List A) → onto gt (onto gt post desc) acc ≡ onto gt desc (post ++ acc)
  unfolding onto
  onto-onto [] desc acc = refl
  onto-onto (p ∷ post) desc acc = onto-onto post (p ∷ desc) acc

  -- Whatever `cmp` is, an array in ascending order is left as it is.
  pub util_sort_sorted : (base : List A) → Ascending base → util_sort gt base ≡ base
  unfolding onto
  util_sort_sorted base a =
      util_sort_lem gt base
      ∙ ap (λ d. onto gt d []) (descending_sorted [] base tt a)
      ∙ onto-onto base [] []
      ∙ append-nil base
