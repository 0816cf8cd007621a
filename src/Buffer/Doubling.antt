-- ===== src/Buffer/Doubling.antt =====
-- The loop of `pgrest_buffer_reserve` of src/pg_rest_memory.c that doubles the capacity.
use pg_rest.Base.{
  ℕ, true, false, zero, suc, ◌+◌, ◌-◌, ◌*◌, ◌%◌, ◌^◌, ◌≤◌, ◌<◌, ◌≡◌, refl, ap, sym, ◌∙◌, subst,
  some, arith, ltb, inl, inr, Bool-cases,
}
use native.Mathlib.Nat.{pow-suc, mul_assoc, mul_comm}
use pg_rest.Array.{size_mod}
use pg_rest.Buffer.{double_until}

-- The capacity is the first of those above `capacity` by doubling that has room.
pub double_until-Roomy :
    (fuel capacity used size : ℕ)
    → 0 < capacity
    → capacity < 2 ^ 63
    → used ≤ capacity
    → used + size ≤ 2 ^ 63
    → used + size ≤ capacity * 2 ^ fuel
    → 0 < fuel
    → (c : ℕ) × (double_until fuel capacity used size ≡ some c)
      × (used + size ≤ c)
      × (capacity ≤ c)
      × (c < 2 ^ 64)
unfolding double_until
double_until-Roomy zero capacity used size p b u n f g = absurd (omega (arith, g))
double_until-Roomy (suc fuel) capacity used size p b u n f g =
    elim (Bool-cases (ltb ((capacity * 2 % size_mod + (size_mod - used)) % size_mod) size)) [
      | inl e ↦
          rw (e, double_until, next_eq)
            (widen (
              double_until-Roomy fuel (capacity * 2) used size (omega (arith, p)) (below (less e))
                (omega (arith, u)) n more (again fuel f (less e))))
      | inr e ↦
          rw (e, double_until, next_eq)
            (capacity * 2, refl, enough e, omega arith, omega (arith, b))
    ]
  where
    next_eq : capacity * 2 % size_mod ≡ capacity * 2
    next_eq = omega (arith, b)

    room_eq : (capacity * 2 % size_mod + (size_mod - used)) % size_mod ≡ capacity * 2 - used
    room_eq = omega (arith, b, u)

    less :
        ltb ((capacity * 2 % size_mod + (size_mod - used)) % size_mod) size ≡ true
        → capacity * 2 < used + size
    less e = ground (arith, room_eq)

    enough :
        ltb ((capacity * 2 % size_mod + (size_mod - used)) % size_mod) size ≡ false
        → used + size ≤ capacity * 2
    enough e = ground (arith, room_eq)

    below : capacity * 2 < used + size → capacity * 2 < 2 ^ 63
    below l = omega (arith, n, l)

    more : used + size ≤ capacity * 2 * 2 ^ fuel
    more =
        subst (λ z. used + size ≤ z)
          (ap (λ z. capacity * z) (pow-suc 2 fuel ∙ mul_comm (2 ^ fuel) 2)
            ∙ sym (mul_assoc capacity 2 (2 ^ fuel)))
          f

    again :
        (fuel : ℕ) → used + size ≤ capacity * 2 ^ suc fuel → capacity * 2 < used + size → 0 < fuel
    again zero f l = absurd (omega (arith, f, l))
    again (suc fuel) f l = omega arith

    widen :
        (c : ℕ) × (double_until fuel (capacity * 2) used size ≡ some c)
          × (used + size ≤ c)
          × (capacity * 2 ≤ c)
          × (c < 2 ^ 64)
        → (c : ℕ) × (double_until fuel (capacity * 2) used size ≡ some c)
          × (used + size ≤ c)
          × (capacity ≤ c)
          × (c < 2 ^ 64)
    widen (c, e, h, k, l) = (c, e, h, omega (arith, k), l)
