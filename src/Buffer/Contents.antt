-- ===== src/Buffer/Contents.antt =====
-- The bytes that a buffer of src/pg_rest_memory.c holds, and how they are consumed.
use pg_rest.Base.{
  ℕ, true, zero, suc, ◌+◌, ◌-◌, ◌%◌, ◌≤◌, ◌<◌, ◌≡◌, refl, ap, sym, ◌∙◌, [], ◌∷◌, ◌++◌, arith, ◌==◌,
  inl, inr, Bool-cases, length, take, drop, length-take, length-drop,
}
use pg_rest.Text.{Bytes}
use pg_rest.Array.{size_mod}
use pg_rest.Buffer.{Buffer, free_size, reset, consume}

-- What is used ends inside the block.
pub record IsValid (buf : Buffer) : Type 0 where
  pub inside : buf.pos + buf.size ≤ buf.capacity
  pub block : length buf.start ≡ buf.capacity
  pub in_range : buf.capacity < size_mod

abbrev pub contents : Buffer → Bytes
contents buf = take buf.size (drop buf.pos buf.start)

pub free_size-eq :
    (buf : Buffer) → IsValid buf → free_size buf ≡ buf.capacity - (buf.pos + buf.size)
unfolding free_size
free_size-eq buf valid = omega (arith, valid.inside, valid.in_range)

pub drop_nil : (k : ℕ) → drop {A = ℕ} k [] ≡ []
drop_nil zero = refl
drop_nil (suc k) = refl

take_nil : (k : ℕ) → take {A = ℕ} k [] ≡ []
take_nil zero = refl
take_nil (suc k) = refl

pub take-drop : (n k : ℕ) (xs : Bytes) → take (n - k) (drop k xs) ≡ drop k (take n xs)
take-drop n zero xs = ap (λ i. take i xs) (omega arith)
take-drop n (suc k) [] = take_nil (n - suc k) ∙ sym (ap (drop (suc k)) (take_nil n))
take-drop zero (suc k) (x ∷ xs) = ap (λ i. take i (drop k xs)) none_left
  where
    none_left : 0 - suc k ≡ 0
    none_left = omega arith
take-drop (suc n) (suc k) (x ∷ xs) = ap (λ i. take i (drop k xs)) (omega arith) ∙ take-drop n k xs

pub drop-drop : (k p : ℕ) (xs : Bytes) → drop k (drop p xs) ≡ drop (p + k) xs
drop-drop k zero xs = ap (λ i. drop i xs) (omega arith)
drop-drop k (suc p) [] = drop_nil k ∙ sym (drop_nil (suc p + k))
drop-drop k (suc p) (x ∷ xs) = drop-drop k p xs ∙ ap (λ i. drop i (x ∷ xs)) next
  where
    next : suc (p + k) ≡ suc p + k
    next = omega arith

pub drop_short : (k : ℕ) (xs : Bytes) → length xs ≤ k → drop k xs ≡ []
drop_short k [] le = drop_nil k
drop_short zero (x ∷ xs) le = absurd (omega (arith, le))
drop_short (suc k) (x ∷ xs) le = drop_short k xs (omega arith)

pub drop-append_before :
    (n : ℕ) (xs ys : Bytes) → n ≤ length xs → drop n (xs ++ ys) ≡ drop n xs ++ ys
drop-append_before zero xs ys le = refl
drop-append_before (suc n) [] ys le = absurd (omega (arith, le))
drop-append_before (suc n) (x ∷ xs) ys le = drop-append_before n xs ys (omega arith)

pub take-take_le : (n k : ℕ) (xs : Bytes) → n ≤ k → take n (take k xs) ≡ take n xs
take-take_le zero k xs le = refl
take-take_le (suc n) zero xs le = absurd (omega (arith, le))
take-take_le (suc n) (suc k) [] le = refl
take-take_le (suc n) (suc k) (x ∷ xs) le = ap (λ z. x ∷ z) (take-take_le n k xs (omega arith))

pub length-contents : (buf : Buffer) → IsValid buf → length (contents buf) ≡ buf.size
length-contents buf valid = omega (
  arith,
  length-take buf.size (drop buf.pos buf.start),
  length-drop buf.pos buf.start,
  valid.inside,
  valid.block,
)

pub shifted-contents :
    (buf : Buffer) (n : ℕ)
    → take (buf.size - n) (drop (buf.pos + n) buf.start) ≡ drop n (contents buf)
shifted-contents buf n =
    ap (take (buf.size - n)) (sym (drop-drop n buf.pos buf.start))
    ∙ take-drop buf.size n (drop buf.pos buf.start)

-- Consuming no more than the buffer holds drops those bytes from the front and leaves a valid
-- buffer.
pub consume-contents :
    (buf : Buffer) (n : ℕ)
    → IsValid buf
    → n ≤ buf.size
    → IsValid (consume buf n) × (contents (consume buf n) ≡ drop n (contents buf))
unfolding consume reset
consume-contents buf n valid le = elim (Bool-cases (buf.size == n)) [
  | inl e ↦
      rw (e, consume, reset)
        (
          record {
            inside = omega (arith, valid.inside);
            block = valid.block;
            in_range = valid.in_range;
          },
          sym (drop_short n (contents buf) (omega (arith, length-contents buf valid, e_size e))),
        )
  | inr e ↦
      rw (e, consume, reset, wrapped)
        (
          record {
            inside = omega (arith, valid.inside, le);
            block = valid.block;
            in_range = valid.in_range;
          },
          shifted-contents buf n,
        )
]
  where
    e_size : (buf.size == n) ≡ true → buf.size ≡ n
    e_size e = ground arith

    wrapped : (buf.size + (size_mod - n)) % size_mod ≡ buf.size - n
    wrapped = omega (arith, valid.inside, valid.in_range, le)
