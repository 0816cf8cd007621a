-- ===== src/Base/Lists.antt =====
-- Lists measured and indexed by native numbers, under the library's names.
use Prim.Native.Nat.{ℕ, zero, suc, ◌+◌, ◌-◌, ◌<◌, ◌≤◌, min}
use mathlib.Core.Path.{◌≡◌, refl, ap, ◌∙◌}
use mathlib.Core.Logic.{◌≢◌}
use mathlib.Core.List.{List, [], ◌∷◌, ◌++◌, map}
use mathlib.Core.Option.{Option, none, some}
use native.Mathlib.Omega.{arith}

module _ {ℓ} {A : Type ℓ} where
  abbrev pub length : List A → ℕ
  length [] = 0
  length (x ∷ xs) = suc (length xs)

  abbrev pub get_elem? : List A → ℕ → Option A
  get_elem? [] i = none
  get_elem? (x ∷ xs) zero = some x
  get_elem? (x ∷ xs) (suc i) = get_elem? xs i

  -- A write out of bounds changes nothing.
  abbrev pub set : List A → ℕ → A → List A
  set [] i v = []
  set (x ∷ xs) zero v = v ∷ xs
  set (x ∷ xs) (suc i) v = x ∷ set xs i v

  pub length-append : (xs ys : List A) → length (xs ++ ys) ≡ length xs + length ys
  length-append [] ys = omega arith
  length-append (x ∷ xs) ys = omega (arith, length-append xs ys)

module _ {ℓ} {A : Type ℓ} where
  pub length-set : (xs : List A) (i : ℕ) (v : A) → length (set xs i v) ≡ length xs
  length-set [] i v = refl
  length-set (x ∷ xs) zero v = refl
  length-set (x ∷ xs) (suc i) v = ap suc (length-set xs i v)

  pub get_elem?-set_self :
      (xs : List A) (i : ℕ) (v : A) → i < length xs → get_elem? (set xs i v) i ≡ some v
  get_elem?-set_self [] i v h = elim h [ ]
  get_elem?-set_self (x ∷ xs) zero v h = refl
  get_elem?-set_self (x ∷ xs) (suc i) v h = get_elem?-set_self xs i v (omega arith)

  pub get_elem?-set_ne :
      (xs : List A) {i j : ℕ} (v : A) → i ≢ j → get_elem? (set xs i v) j ≡ get_elem? xs j
  get_elem?-set_ne [] v h = refl
  get_elem?-set_ne (x ∷ xs) {i = zero} {j = zero} v h = absurd (h refl)
  get_elem?-set_ne (x ∷ xs) {i = zero} {j = suc j} v h = refl
  get_elem?-set_ne (x ∷ xs) {i = suc i} {j = zero} v h = refl
  get_elem?-set_ne (x ∷ xs) {i = suc i} {j = suc j} v h = get_elem?-set_ne xs v (λ e. h (ap suc e))

module _ {ℓ} {A : Type ℓ} where
  abbrev pub get_or : List A → ℕ → A → A
  get_or [] i d = d
  get_or (x ∷ xs) zero d = x
  get_or (x ∷ xs) (suc i) d = get_or xs i d

  abbrev pub take : ℕ → List A → List A
  take zero xs = []
  take (suc n) [] = []
  take (suc n) (x ∷ xs) = x ∷ take n xs

  abbrev pub drop : ℕ → List A → List A
  drop zero xs = xs
  drop (suc n) [] = []
  drop (suc n) (x ∷ xs) = drop n xs

  abbrev pub replicate : ℕ → A → List A
  replicate zero a = []
  replicate (suc n) a = a ∷ replicate n a

  pub take-append-drop : (n : ℕ) (xs : List A) → take n xs ++ drop n xs ≡ xs
  take-append-drop zero xs = refl
  take-append-drop (suc n) [] = refl
  take-append-drop (suc n) (x ∷ xs) = rw (take-append-drop n xs)

  pub length-take : (n : ℕ) (xs : List A) → length (take n xs) ≡ min n (length xs)
  length-take zero xs = omega arith
  length-take (suc n) [] = omega arith
  length-take (suc n) (x ∷ xs) = omega (arith, length-take n xs)

  pub length-drop : (n : ℕ) (xs : List A) → length (drop n xs) ≡ length xs - n
  length-drop zero xs = omega arith
  length-drop (suc n) [] = omega arith
  length-drop (suc n) (x ∷ xs) = omega (arith, length-drop n xs)

  pub length-replicate : (n : ℕ) (a : A) → length (replicate n a) ≡ n
  length-replicate zero a = refl
  length-replicate (suc n) a = ap suc (length-replicate n a)

  pub length-map {κ} : {B : Type κ} (xs : List A) (f : A → B) → length (map f xs) ≡ length xs
  length-map [] f = refl
  length-map (x ∷ xs) f = ap suc (length-map xs f)

-- Writes, prefixes and suffixes.
module _ {ℓ} {A : Type ℓ} where
  pub take-take-append :
      (n m : ℕ) (xs ys : List A) → n ≤ m → m ≤ length xs → take n (take m xs ++ ys) ≡ take n xs
  take-take-append zero m xs ys h k = refl
  take-take-append (suc n) m [] ys h k = absurd (omega arith)
  take-take-append (suc n) zero (x ∷ xs) ys h k = absurd (omega arith)
  take-take-append (suc n) (suc m) (x ∷ xs) ys h k =
      ap (◌∷◌ x) (take-take-append n m xs ys (omega arith) (omega arith))

  pub take-set :
      (n : ℕ) (xs : List A) (x : A)
      → n < length xs
      → take (suc n) (set xs n x) ≡ take n xs ++ x ∷ []
  take-set n [] x h = absurd (omega arith)
  take-set zero (y ∷ xs) x h = refl
  take-set (suc n) (y ∷ xs) x h = ap (◌∷◌ y) (take-set n xs x (omega arith))

  pub take-append_self : (n : ℕ) (xs ys : List A) → length xs ≡ n → take n (xs ++ ys) ≡ xs
  take-append_self zero [] ys h = refl
  take-append_self zero (x ∷ xs) ys h = absurd (omega arith)
  take-append_self (suc n) [] ys h = absurd (omega arith)
  take-append_self (suc n) (x ∷ xs) ys h = ap (◌∷◌ x) (take-append_self n xs ys (omega arith))

  pub take_full : (n : ℕ) (xs : List A) → length xs ≤ n → take n xs ≡ xs
  take_full zero [] h = refl
  take_full zero (x ∷ xs) h = absurd (omega arith)
  take_full (suc n) [] h = refl
  take_full (suc n) (x ∷ xs) h = ap (◌∷◌ x) (take_full n xs (omega arith))

  pub take-append_le : (n : ℕ) (xs ys : List A) → n ≤ length xs → take n (xs ++ ys) ≡ take n xs
  take-append_le zero xs ys h = refl
  take-append_le (suc n) [] ys h = absurd (omega arith)
  take-append_le (suc n) (x ∷ xs) ys h = ap (◌∷◌ x) (take-append_le n xs ys (omega arith))

  pub drop-append_self : (n : ℕ) (xs ys : List A) → length xs ≡ n → drop n (xs ++ ys) ≡ ys
  drop-append_self zero [] ys h = refl
  drop-append_self zero (x ∷ xs) ys h = absurd (omega arith)
  drop-append_self (suc n) [] ys h = absurd (omega arith)
  drop-append_self (suc n) (x ∷ xs) ys h = drop-append_self n xs ys (omega arith)

  pub drop-set_after :
      (h k : ℕ) (xs : List A) (x : A) → drop h (set xs (h + k) x) ≡ set (drop h xs) k x
  drop-set_after zero k xs x = ap (λ i. set xs i x) (omega arith)
  drop-set_after (suc h) k [] x = refl
  drop-set_after (suc h) k (y ∷ xs) x =
      ap (λ i. drop (suc h) (set (y ∷ xs) i x)) (next h k) ∙ drop-set_after h k xs x
    where
      next : (a b : ℕ) → suc a + b ≡ suc (a + b)
      next a b = omega arith

  pub take-set_after : (h k : ℕ) (xs : List A) (x : A) → take h (set xs (h + k) x) ≡ take h xs
  take-set_after zero k xs x = refl
  take-set_after (suc h) k [] x = refl
  take-set_after (suc h) k (y ∷ xs) x =
      ap (λ i. take (suc h) (set (y ∷ xs) i x)) (next h k) ∙ ap (◌∷◌ y) (take-set_after h k xs x)
    where
      next : (a b : ℕ) → suc a + b ≡ suc (a + b)
      next a b = omega arith

  pub drop-set_before : (h i : ℕ) (xs : List A) (x : A) → i < h → drop h (set xs i x) ≡ drop h xs
  drop-set_before zero i xs x p = absurd (omega arith)
  drop-set_before (suc h) i [] x p = refl
  drop-set_before (suc h) zero (y ∷ xs) x p = refl
  drop-set_before (suc h) (suc i) (y ∷ xs) x p = drop-set_before h i xs x (omega arith)

  pub take-set_before :
      (h i : ℕ) (xs : List A) (x : A) → i < h → take h (set xs i x) ≡ set (take h xs) i x
  take-set_before zero i xs x p = absurd (omega arith)
  take-set_before (suc h) i [] x p = refl
  take-set_before (suc h) zero (y ∷ xs) x p = refl
  take-set_before (suc h) (suc i) (y ∷ xs) x p = ap (◌∷◌ y) (take-set_before h i xs x (omega arith))

  pub set-append_left :
      (xs ys : List A) (i : ℕ) (x : A) → i < length xs → set (xs ++ ys) i x ≡ set xs i x ++ ys
  set-append_left [] ys i x p = absurd (omega arith)
  set-append_left (y ∷ xs) ys zero x p = refl
  set-append_left (y ∷ xs) ys (suc i) x p = ap (◌∷◌ y) (set-append_left xs ys i x (omega arith))

  pub set-append_right :
      (xs ys : List A) (i j : ℕ) (x : A) → i ≡ length xs + j → set (xs ++ ys) i x ≡ xs ++ set ys j x
  set-append_right [] ys i j x e = ap (λ k. set ys k x) (omega arith)
  set-append_right (y ∷ xs) ys zero j x e = absurd (omega arith)
  set-append_right (y ∷ xs) ys (suc i) j x e =
      ap (◌∷◌ y) (set-append_right xs ys i j x (omega arith))

  pub get_elem?-append_right :
      (xs ys : List A) (i j : ℕ) → i ≡ length xs + j → get_elem? (xs ++ ys) i ≡ get_elem? ys j
  get_elem?-append_right [] ys i j e = ap (get_elem? ys) (omega arith)
  get_elem?-append_right (y ∷ xs) ys zero j e = absurd (omega arith)
  get_elem?-append_right (y ∷ xs) ys (suc i) j e = get_elem?-append_right xs ys i j (omega arith)

-- `P` holds of every element.
abbrev pub All {ℓ κ} : {A : Type ℓ} → (A → Type κ) → List A → Type κ
All P [] = Unit
All P (x ∷ xs) = P x × All P xs
