-- ===== src/Array/Failure.antt =====
-- `pgrest_array_push_head`: what it does when the push inside it succeeds, and when it fails.
use pg_rest.Base.{
  ℕ, zero, suc, ◌+◌, ◌-◌, ◌%◌, ◌<◌, ◌≡◌, ◌≢◌, refl, ◌∙◌, ap, subst, Bool, Option, none, some, List,
  [], ◌∷◌, ◌++◌, arith, length, set, take, drop, ◌==◌, length-append, length-take, length-drop,
  length-set, take-take-append, inl, inr, Bool-cases, Option-cases,
}
use pg_rest.Array.{Array, size_mod, grow, push, push_head, shift_up, write, contents}
use pg_rest.Array.Contents.{IsValid, Roomy, grow-Roomy, capacity-le, push_grown}

module _ {ℓ} {A : Type ℓ} where
  length-shift_up : (n : ℕ) (xs : List A) → n < length xs → length (shift_up n xs) ≡ length xs
  unfolding shift_up
  length-shift_up n [] h = absurd (omega arith)
  length-shift_up n (y ∷ ys) h =
      omega (
        arith,
        length-append (take n (y ∷ ys)) (drop n ys),
        length-take n (y ∷ ys),
        length-drop n ys,
      )

  take-set-shift_up :
      (n : ℕ) (xs : List A) (x : A)
      → n < length xs
      → take (suc n) (set (shift_up n xs) 0 x) ≡ x ∷ take n xs
  unfolding shift_up
  take-set-shift_up n [] x h = absurd (omega arith)
  take-set-shift_up n (y ∷ ys) x h =
      ap (◌∷◌ x) (take-take-append n n (y ∷ ys) (drop n ys) (omega arith) (omega arith))

  take_zero : (n : ℕ) (xs : List A) → n ≡ 0 → take n xs ≡ []
  take_zero zero xs e = refl
  take_zero (suc n) xs e = absurd (omega arith)

module _ {ℓ} {A : Type ℓ} (grant : ℕ → Bool) (junk : A) where
  push-eq_none : (a : Array A) → grow grant junk a ≡ none → push grant junk a ≡ (none, a)
  unfolding push
  push-eq_none a e = rw (e, push) refl

  push-eq_some :
      (a b : Array A)
      → grow grant junk a ≡ some b
      → push grant junk a ≡ (some b.size, record b { size = (b.size + 1) % size_mod })
  unfolding push
  push-eq_some a b e = rw (e, push) refl

  -- The result of pushing `x` in front: the first cell, and an array whose elements are `x` and
  -- then the old ones once `x` is written there.
  abbrev pub PushedHead : Array A → A → Option ℕ × Array A → Type ℓ
  PushedHead a x r =
      (r.0 ≡ some 0) × IsValid (write r.1 0 x) × (contents (write r.1 0 x) ≡ x ∷ contents a)

  shifted :
      (a b : Array A) (x : A)
      → IsValid b
      → b.size < b.capacity
      → contents b ≡ contents a
      → let c = record b {
        elts = shift_up ((b.size + 1) % size_mod - 1) b.elts;
        size = (b.size + 1) % size_mod;
      } in
        IsValid (write c 0 x) × (contents (write c 0 x) ≡ x ∷ contents a)
  shifted a b x v r same =
      let n : (b.size + 1) % size_mod ≡ suc b.size = omega (arith, capacity-le grant junk b v) in
      let m : (b.size + 1) % size_mod - 1 ≡ b.size = omega (arith, n) in
      (
        record {
          block =
              length-set (shift_up _ b.elts) 0 x
              ∙ length-shift_up _ b.elts (omega (arith, v.block, m))
              ∙ v.block;
          used = omega arith;
          room = v.room;
          cell = v.cell;
          granted = v.granted;
        },
        rw (m, n) (take-set-shift_up b.size b.elts x (omega (arith, v.block)) ∙ ap (◌∷◌ x) same),
      )

  -- The push into an empty array.
  first :
      (a b : Array A) (x : A)
      → Roomy grant junk a (some b)
      → b.size ≡ 0
      → PushedHead a x (some b.size, record b { size = (b.size + 1) % size_mod })
  first a b x room e =
      let (v, c) = push_grown grant junk a b x room in
      let empty : contents a ++ x ∷ [] ≡ x ∷ contents a =
        rw (take_zero a.size a.elts (omega (arith, room.3))) refl in
      (
        ap some e,
        subst (λ k. IsValid (write (record b { size = (b.size + 1) % size_mod }) k x)) e v,
        subst
            (λ k.
              contents (write (record b { size = (b.size + 1) % size_mod }) k x) ≡ x ∷ contents a)
            e (c ∙ empty),
      )

  push_head_grown :
      (a b : Array A) (x : A)
      → Roomy grant junk a (some b)
      → grow grant junk a ≡ some b
      → PushedHead a x (push_head grant junk a)
  unfolding push_head
  push_head_grown a b x room e =
      let n : (b.size + 1) % size_mod ≡ suc b.size =
        omega (arith, capacity-le grant junk b room.0, room.1, room.0.used) in
      let (v, c) = shifted a b x room.0 room.1 room.2 in
      elim (Bool-cases ((b.size + 1) % size_mod == 1)) [
        | inl one ↦ rw (push-eq_some a b e, push_head, one) (first a b x room (ground arith))
        | inr more ↦ rw (push-eq_some a b e, push_head, more) (refl, v, c)
      ]

  -- Where the push inside it succeeds, `pgrest_array_push_head` returns the first cell of a valid
  -- array, in which the element stands in front of the others.
  pub push_head-PushedHead :
      (a : Array A) (x : A)
      → IsValid a
      → (push grant junk a).0 ≢ none
      → PushedHead a x (push_head grant junk a)
  push_head-PushedHead a x v ok = elim (Option-cases (grow grant junk a)) [
    | inl e ↦ absurd (ok (rw (push-eq_none a e) refl))
    | inr (b, e) ↦ push_head_grown a b x (rw e at (grow-Roomy grant junk a v)) e
  ]
