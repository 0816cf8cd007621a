-- ===== src/Cqueue/Rotation.antt =====
-- A block read from one of its cells on, round its end.
use pg_rest.Base.{
  ℕ, zero, suc, ◌+◌, ◌-◌, ◌%◌, ◌<◌, ◌≡◌, refl, sym, ap, ◌∙◌, some, List, [], ◌∷◌, ◌++◌, append-nil,
  append_assoc, arith, length, set, take, drop, get_elem?, length-append, length-take, length-drop,
  drop-set_after, take-set_after, drop-set_before, take-set_before, set-append_left,
  set-append_right,
}
use native.Mathlib.Nat.{mod-eq_of_lt, mod-eq-sub-mod}
use native.Mathlib.Decide.{dec_lt}

module _ {ℓ} {A : Type ℓ} where
  abbrev pub rotate : ℕ → List A → List A
  rotate h xs = drop h xs ++ take h xs

  pub length-rotate : (h : ℕ) (xs : List A) → length (rotate h xs) ≡ length xs
  length-rotate h xs =
      omega (arith, length-append (drop h xs) (take h xs), length-drop h xs, length-take h xs)

  -- A write at `k` cells behind the start, round the end, is a write to cell `k` of the rotation.
  pub rotate-set :
      (h k : ℕ) (xs : List A) (x : A)
      → h < length xs
      → k < length xs
      → rotate h (set xs ((h + k) % length xs) x) ≡ set (rotate h xs) k x
  rotate-set h k xs x hh hk = elim (dec_lt (h + k) (length xs)) [
    | yes p ↦
        rw (mod-eq_of_lt p, drop-set_after h k xs x, take-set_after h k xs x)
          (sym (set-append_left (drop h xs) (take h xs) k x (omega (arith, length-drop h xs))))
    | no p ↦
        let i : ℕ = h + k - length xs in
        let e : (h + k) % length xs ≡ i =
          mod-eq-sub-mod {n = h + k} {m = length xs} (omega arith)
          ∙ mod-eq_of_lt {n = i} {m = length xs} (omega arith) in
        let q : i < h = omega arith in
        rw (e, drop-set_before h i xs x q, take-set_before h i xs x q)
          (sym (set-append_right (drop h xs) (take h xs) k i x (omega (arith, length-drop h xs))))
  ]

  drop-cons :
      (h : ℕ) (xs : List A)
      → h < length xs
      → (x : A) × (drop h xs ≡ x ∷ drop (suc h) xs)
        × (get_elem? xs h ≡ some x)
        × (take (suc h) xs ≡ take h xs ++ x ∷ [])
  drop-cons h [] p = absurd (omega arith)
  drop-cons zero (y ∷ xs) p = (y, refl, refl, refl)
  drop-cons (suc h) (y ∷ xs) p =
      let (x, d, g, t) = drop-cons h xs (omega arith) in (x, d, g, ap (◌∷◌ y) t)

  drop_all : (xs : List A) → drop (length xs) xs ≡ []
  drop_all [] = refl
  drop_all (x ∷ xs) = drop_all xs

  take_all : (xs : List A) → take (length xs) xs ≡ xs
  take_all [] = refl
  take_all (x ∷ xs) = ap (◌∷◌ x) (take_all xs)

  -- Starting one cell later moves the first element to the end.
  pub rotate_next :
      (h : ℕ) (xs : List A)
      → h < length xs
      → (x : A) × (r : List A) × (rotate h xs ≡ x ∷ r)
        × (get_elem? xs h ≡ some x)
        × (rotate ((h + 1) % length xs) xs ≡ r ++ x ∷ [])
  rotate_next h xs p =
      let (x, d, g, t) = drop-cons h xs p in
      (
        x,
        drop (suc h) xs ++ take h xs,
        rw d refl,
        g,
        elim (dec_lt (suc h) (length xs)) [
          | yes q ↦
              let e : (h + 1) % length xs ≡ suc h =
                ap (λ k. k % length xs) (omega arith)
                ∙ mod-eq_of_lt {n = suc h} {m = length xs} q in
              rw (e, t) (sym (append_assoc (drop (suc h) xs) (take h xs) (x ∷ [])))
          | no q ↦
              let n : suc h ≡ length xs = omega arith in
              let e : (h + 1) % length xs ≡ 0 = grind arith in
              rw (e, n, drop_all xs, append-nil xs) (sym (take_all xs) ∙ rw (← n) t)
        ],
      )
