-- ===== src/Text/Search.antt =====
-- `pgrest_strlchr`, `pgrest_strtolower` and `pgrest_count_params`.
use pg_rest.Base.{
  ℕ, suc, ◌+◌, ◌≡◌, ◌≢◌, subst, refl, ap, ap₂, Option, none, some, [], ◌∷◌, ◌++◌, arith, length,
  get_elem?, take, ◌==◌, inl, inr, Bool-cases, min,
}
use pg_rest.Text.{Bytes, strlchr, tolower, strtolower, count_params, count_wildcards}

-- `c` is none of the bytes.
abbrev pub Lacks : ℕ → Bytes → Type 0
Lacks c [] = Unit {0}
Lacks c (b ∷ s) = (b ≢ c) × Lacks c s

abbrev pub Finds : ℕ → Bytes → Option ℕ → Type 0
Finds c s none = Lacks c s
Finds c s (some i) = (get_elem? s i ≡ some c) × Lacks c (take i s)

Finds-cons :
    (c b : ℕ) (s : Bytes) (r : Option ℕ)
    → b ≢ c
    → Finds c s r
    → Finds c (b ∷ s) (elim r [ none ↦ none | some i ↦ some (suc i) ])
Finds-cons c b s none ne h = (ne, h)
Finds-cons c b s (some i) ne h = (h.0, (ne, h.1))

-- `pgrest_strlchr` points at the first place where the byte stands, and is NULL only if it stands
-- nowhere in the range.
pub strlchr-Finds : (s : Bytes) (c : ℕ) → Finds c s (strlchr s c)
unfolding strlchr
strlchr-Finds [] c = tt
strlchr-Finds (b ∷ s) c = elim (Bool-cases (b == c)) [
  | inl e ↦ rw (e, strlchr) (ground arith, tt)
  | inr e ↦ rw (e, strlchr) (Finds-cons c b s (strlchr s c) (ground arith) (strlchr-Finds s c))
]

pub strlchr-Lacks : (s : Bytes) (c : ℕ) → strlchr s c ≡ none → Lacks c s
strlchr-Lacks s c e = subst (Finds c s) e (strlchr-Finds s c)

tolower_idem : (c : ℕ) → tolower (tolower c) ≡ tolower c
unfolding tolower
tolower_idem c = ground arith

-- Lowering the case keeps the length, and a second pass changes nothing.
pub strtolower_idem :
    (s : Bytes) → (strtolower (strtolower s) ≡ strtolower s) × (length (strtolower s) ≡ length s)
unfolding strtolower
strtolower_idem [] = (refl, refl)
strtolower_idem (c ∷ s) =
    (ap₂ ◌∷◌ (tolower_idem c) (strtolower_idem s).0, ap suc (strtolower_idem s).1)

-- The wildcards of a path number those of its parts together, up to the limit of 255.
count_wildcards-append :
    (s t : Bytes) → count_wildcards (s ++ t) ≡ count_wildcards s + count_wildcards t
unfolding count_wildcards
count_wildcards-append [] t = omega arith
count_wildcards-append (c ∷ s) t = ground (arith, count_wildcards-append s t)

-- The wildcards of two texts are counted together, up to 255.
pub count_params-append :
    (s t : Bytes) → count_params (s ++ t) ≡ min 255 (count_params s + count_params t)
unfolding count_params
count_params-append s t = ground (arith, count_wildcards-append s t)
