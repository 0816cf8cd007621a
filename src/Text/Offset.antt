-- ===== src/Text/Offset.antt =====
-- `pgrest_atoof` against the numbers of any size.
use pg_rest.Base.{
  ℕ, ◌+◌, ◌-◌, ◌*◌, ◌≤◌, ◌<◌, ◌≡◌, refl, Option, none, some, [], ◌∷◌, arith, leb, if◌then◌else◌,
}
use pg_rest.Text.{Bytes, is_digit, max_off, atoof, atotm, atoof_from}

-- The number that a text of digits stands for, read on top of `v`; `none` if any byte is no digit.
unfoldable pub number : ℕ → Bytes → Option ℕ
unfolding is_digit
number v [] = some v
number v (c ∷ s) = if is_digit c then number (v * 10 + (c - b'0')) s else none

-- A number that an `off_t` holds.
unfoldable pub fits : Option ℕ → Option ℕ
fits none = none
fits (some n) = if leb n max_off then some n else none

fits-number_large : (v : ℕ) (s : Bytes) → max_off < v → fits (number v s) ≡ none
unfolding fits number
fits-number_large v [] h = ground arith
fits-number_large v (c ∷ s) h = ground (arith, fits-number_large (v * 10 + (c - b'0')) s)

atoof_from-eq-number : (v : ℕ) (s : Bytes) → v ≤ max_off → atoof_from v s ≡ fits (number v s)
unfolding fits number atoof_from
atoof_from-eq-number v [] h = ground arith
atoof_from-eq-number v (c ∷ s) h =
    ground (
      arith,
      atoof_from-eq-number (v * 10 + (c - b'0')) s,
      fits-number_large (v * 10 + (c - b'0')) s,
    )

-- The number that a text spells; the empty text spells none.
unfoldable pub spelled : Bytes → Option ℕ
unfolding number
spelled [] = none
spelled (c ∷ s) = number 0 (c ∷ s)

-- `pgrest_atoof` returns the number that its text spells exactly when the text is not empty,
-- consists of digits and the number fits an `off_t`; in every other case it fails.
pub atoof-eq-spelled : (s : Bytes) → atoof s ≡ fits (spelled s)
unfolding atoof spelled fits
atoof-eq-spelled [] = refl
atoof-eq-spelled (c ∷ s) = atoof_from-eq-number 0 (c ∷ s) (omega arith)

-- `pgrest_atotm` accepts the same texts with the same values.
pub atotm-eq-spelled : (s : Bytes) → atotm s ≡ fits (spelled s)
unfolding atotm spelled fits
atotm-eq-spelled [] = refl
atotm-eq-spelled (c ∷ s) = atoof_from-eq-number 0 (c ∷ s) (omega arith)
