-- ===== src/Text/Decimal.antt =====
-- Numbers in decimal: what `sprintf` writes for `%d` of a port, and what `pgrest_atoi` reads back.
use native.Mathlib.Nat.{pow-suc}
use pg_rest.Base.{
  ℕ, zero, suc, ◌+◌, ◌-◌, ◌*◌, ◌/◌, ◌%◌, ◌^◌, ◌≤◌, ◌<◌, ◌≡◌, refl, ◌∙◌, ap, subst, sym, append-nil,
  some, [], ◌∷◌, ◌++◌, arith, ltb, if◌then◌else◌, length, inl, inr, Bool-cases,
}
use pg_rest.Base.Int.{pos}
use pg_rest.Text.{
  Bytes, leading_number, int_of_bits, saturated, max_off, c_atoi, atoi, atoof, atoof_from,
}

print_from : ℕ → ℕ → Bytes → Bytes
print_from zero n rest = rest
print_from (suc f) n rest =
    let digits = (b'0' + n % 10) ∷ rest in
    let more = print_from f (n / 10) digits in if ltb n 10 then digits else more

-- `%d` of a number that is not negative. There are fewer digits than `n + 1`.
unfoldable pub decimal : ℕ → Bytes
unfolding print_from
decimal n = print_from (suc n) n []

-- The text begins with a digit.
abbrev pub Numeric : Bytes → Type 0
Numeric [] = ⊥
Numeric (d ∷ s) = (b'0' ≤ d) × (d ≤ b'9')

print_from-Numeric : (f n : ℕ) (rest : Bytes) → n < f → Numeric (print_from f n rest)
unfolding print_from
print_from-Numeric zero n rest h = elim h [ ]
print_from-Numeric (suc f) n rest h = elim (Bool-cases (ltb n 10)) [
  | inl e ↦ rw e (omega arith)
  | inr e ↦ rw e (print_from-Numeric f (n / 10) ((b'0' + n % 10) ∷ rest) (ground arith))
]

length-print_from :
    (k f n : ℕ) (rest : Bytes) → n < 10 ^ suc k → length (print_from f n rest) ≤ suc k + length rest
unfolding print_from
length-print_from k zero n rest h = omega arith
length-print_from zero (suc f) n rest h = ground (arith, pow-suc 10 0)
length-print_from (suc k) (suc f) n rest h = ground (
  arith,
  length-print_from k f (n / 10) ((b'0' + n % 10) ∷ rest),
  pow-suc 10 (suc k),
  pow-suc 10 k,
)

-- A 32-bit number has ten digits at most.
pub length-decimal : (n : ℕ) → n < 2 ^ 32 → length (decimal n) ≤ 10
unfolding decimal
length-decimal n h = omega (arith, length-print_from 9 (suc n) n [] (omega arith))

-- Nothing but digits.
abbrev pub Digits : Bytes → Type 0
Digits [] = Unit {0}
Digits (d ∷ s) = (b'0' ≤ d) × (d ≤ b'9') × Digits s

print_from-Digits : (f n : ℕ) (rest : Bytes) → Digits rest → Digits (print_from f n rest)
unfolding print_from
print_from-Digits zero n rest h = h
print_from-Digits (suc f) n rest h = elim (Bool-cases (ltb n 10)) [
  | inl e ↦ rw e (omega arith, omega arith, h)
  | inr e ↦
      rw e (print_from-Digits f (n / 10) ((b'0' + n % 10) ∷ rest) (omega arith, omega arith, h))
]

pub decimal-Digits : (n : ℕ) → Digits (decimal n)
unfolding decimal
decimal-Digits n = print_from-Digits (suc n) n [] tt

print_from-append :
    (f n : ℕ) (s rest : Bytes) → print_from f n (s ++ rest) ≡ print_from f n s ++ rest
unfolding print_from
print_from-append zero n s rest = refl
print_from-append (suc f) n s rest = elim (Bool-cases (ltb n 10)) [
  | inl e ↦ rw e refl
  | inr e ↦ rw e (print_from-append f (n / 10) ((b'0' + n % 10) ∷ s) rest)
]

-- A reader that takes each digit on top of the number before it, up to a bound.
module _ {ℓ} {R : Type ℓ} (r : ℕ → Bytes → R) (bound : ℕ) where
  abbrev pub TakesDigits : Type ℓ
  TakesDigits =
      (v d : ℕ) (s : Bytes) → d < 10 → v * 10 + d ≤ bound → r v ((b'0' + d) ∷ s) ≡ r (v * 10 + d) s

  reads-print_from :
      TakesDigits
      → (f n : ℕ) (rest : Bytes) → n < f
      → n ≤ bound
      → r 0 (print_from f n rest) ≡ r n rest
  unfolding print_from
  reads-print_from step zero n rest h m = elim h [ ]
  reads-print_from step (suc f) n rest h m =
      let join : n / 10 * 10 + n % 10 ≡ n = omega arith in
      let next : r (n / 10) ((b'0' + n % 10) ∷ rest) ≡ r n rest =
        step (n / 10) (n % 10) rest (omega arith) (omega arith) ∙ ap (λ v. r v rest) join in
      elim (Bool-cases (ltb n 10)) [
        | inl e ↦
            let z : n / 10 ≡ 0 = ground arith in
            rw e (ap (λ v. r v ((b'0' + n % 10) ∷ rest)) (sym z) ∙ next)
        | inr e ↦ rw e (
            reads-print_from step f (n / 10) ((b'0' + n % 10) ∷ rest) (ground arith) (omega arith)
            ∙ next)
      ]

  -- It reads a number up to its bound from the number's decimal notation.
  pub reads-decimal :
      TakesDigits → (n : ℕ) (rest : Bytes) → n ≤ bound → r 0 (decimal n ++ rest) ≡ r n rest
  unfolding decimal
  reads-decimal step n rest h =
      ap (r 0) (sym (print_from-append (suc n) n [] rest))
      ∙ reads-print_from step (suc n) n rest (omega arith) h

-- Reading continues where the digits of `n` end, with `n`.
leading_number-decimal : (n : ℕ) → leading_number 0 (decimal n) ≡ n
unfolding leading_number
leading_number-decimal n =
    ap (leading_number 0) (sym (append-nil (decimal n)))
    ∙ reads-decimal leading_number n
        (λ v d s h k. ground (arith, ap (λ w. leading_number w s) (digit v d))) n [] (omega arith)
  where
    digit : (v d : ℕ) → v * 10 + (b'0' + d - b'0') ≡ v * 10 + d
    digit v d = omega arith

pub decimal-Numeric : (n : ℕ) (rest : Bytes) → Numeric (decimal n ++ rest)
unfolding decimal
decimal-Numeric n rest =
    subst Numeric (print_from-append (suc n) n [] rest)
      (print_from-Numeric (suc n) n rest (omega arith))

atoof-Numeric : (t : Bytes) → Numeric t → atoof t ≡ atoof_from 0 t
unfolding atoof
atoof-Numeric [] h = elim h [ ]
atoof-Numeric (d ∷ s) h = refl

-- `pgrest_atoof` reads back every `off_t` that is not negative from its decimal notation.
pub atoof-decimal : (n : ℕ) → n ≤ max_off → atoof (decimal n) ≡ some n
unfolding atoof_from
atoof-decimal n h =
    ap atoof (sym (append-nil (decimal n)))
    ∙ atoof-Numeric _ (decimal-Numeric n [])
    ∙ reads-decimal atoof_from max_off
        (λ v d s p q. ground (arith, ap (λ w. atoof_from w s) (digit v d))) n [] h
  where
    digit : (v d : ℕ) → v * 10 + (b'0' + d - b'0') ≡ v * 10 + d
    digit v d = omega arith

-- A text that begins with a digit is read as a number with neither space nor sign.
c_atoi-Numeric :
    (t : Bytes)
    → Numeric t
    → c_atoi t ≡ int_of_bits (saturated max_off (leading_number 0 t) % 2 ^ 32)
unfolding c_atoi
c_atoi-Numeric [] h = elim h [ ]
c_atoi-Numeric (d ∷ s) h = ground arith

int_of_bits_small : (n : ℕ) → n < 2 ^ 31 → int_of_bits (saturated max_off n % 2 ^ 32) ≡ pos n
unfolding int_of_bits saturated
int_of_bits_small n h = ground arith

c_atoi-decimal : (n : ℕ) → n < 2 ^ 31 → c_atoi (decimal n) ≡ pos n
c_atoi-decimal n h =
    ap c_atoi (sym (append-nil (decimal n)))
    ∙ c_atoi-Numeric _ (decimal-Numeric n [])
    ∙ rw (append-nil (decimal n), leading_number-decimal n) (int_of_bits_small n h)

-- `pgrest_atoi` reads back every `int` that is not negative from its decimal notation, and stays
-- inside its buffer of 32 bytes.
pub atoi-decimal : (n : ℕ) → n < 2 ^ 31 → atoi (decimal n) ≡ some (pos n)
unfolding atoi
atoi-decimal n h = ground (arith, c_atoi-decimal n h, length-decimal n)
