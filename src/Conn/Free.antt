-- ===== src/Conn/Free.antt =====
-- The list of free connections of src/pg_rest_conn.c, and the connections that are open.
use pg_rest.Base.{
  ℕ, zero, suc, ◌+◌, ◌≡◌, ◌≢◌, refl, ap, sym, subst, Option, none, some, List, [], ◌∷◌, arith,
  length, get_elem?, All,
}
use mathlib.Core.Option.{some-injective}
use pg_rest.Conn.{Conn, modify, link_of}

-- The connections of the list that begins at a pointer and is linked by `data`.
abbrev pub Chain : List Conn → Option ℕ → List ℕ → Type 0
Chain conns head [] = head ≡ none
Chain conns head (i ∷ is) = (head ≡ some i) × Chain conns (link_of (get_elem? conns i)) is

-- No connection stands in the list twice.
abbrev pub Apart : List ℕ → Type 0
Apart [] = Unit {0}
Apart (i ∷ is) = All (λ j. j ≢ i) is × Apart is

abbrev pub open_flag : Option ℕ → ℕ
open_flag none = 0
open_flag (some fd) = 1

-- How many connections have a descriptor.
abbrev pub open_count : List Conn → ℕ
open_count [] = 0
open_count (c ∷ conns) = open_flag c.fd + open_count conns

pub modify-other :
    (conns : List Conn) (i j : ℕ) (f : Conn → Conn)
    → j ≢ i
    → get_elem? (modify conns i f) j ≡ get_elem? conns j
unfolding modify
modify-other [] i j f ne = refl
modify-other (c ∷ conns) zero zero f ne = absurd (ne refl)
modify-other (c ∷ conns) zero (suc j) f ne = refl
modify-other (c ∷ conns) (suc i) zero f ne = refl
modify-other (c ∷ conns) (suc i) (suc j) f ne = modify-other conns i j f (λ e. ne (ap suc e))

pub modify-same :
    (conns : List Conn) (i : ℕ) (f : Conn → Conn) (c : Conn)
    → get_elem? conns i ≡ some c
    → get_elem? (modify conns i f) i ≡ some (f c)
unfolding modify
modify-same [] i f c e = ground arith
modify-same (d ∷ conns) zero f c e = ap (λ x. some (f x)) (some-injective d c e)
modify-same (d ∷ conns) (suc i) f c e = modify-same conns i f c e

-- A field that `f` keeps.
pub modify-keeps {ℓ} :
    {A : Type ℓ} (g : Option Conn → A) (conns : List Conn) (i j : ℕ) (f : Conn → Conn)
    → ((c : Conn) → g (some (f c)) ≡ g (some c))
    → g (get_elem? (modify conns i f) j) ≡ g (get_elem? conns j)
unfolding modify
modify-keeps g [] i j f k = refl
modify-keeps g (c ∷ conns) zero zero f k = k c
modify-keeps g (c ∷ conns) zero (suc j) f k = refl
modify-keeps g (c ∷ conns) (suc i) zero f k = refl
modify-keeps g (c ∷ conns) (suc i) (suc j) f k = modify-keeps g conns i j f k

pub length-modify :
    (conns : List Conn) (i : ℕ) (f : Conn → Conn) → length (modify conns i f) ≡ length conns
unfolding modify
length-modify [] i f = refl
length-modify (c ∷ conns) zero f = refl
length-modify (c ∷ conns) (suc i) f = ap suc (length-modify conns i f)

pub open_count-modify :
    (conns : List Conn) (i : ℕ) (f : Conn → Conn) (c : Conn)
    → get_elem? conns i ≡ some c
    → open_count (modify conns i f) + open_flag c.fd ≡ open_count conns + open_flag (f c).fd
unfolding modify
open_count-modify [] i f c e = ground arith
open_count-modify (d ∷ conns) zero f c e =
    subst
      (λ x.
        open_flag (f d).fd + open_count conns + open_flag x.fd
        ≡ open_flag d.fd + open_count conns + open_flag (f x).fd)
      (some-injective d c e) (omega arith)
open_count-modify (d ∷ conns) (suc i) f c e = omega (arith, open_count-modify conns i f c e)

pub Chain-modify :
    (conns : List Conn) (i : ℕ) (f : Conn → Conn) (head : Option ℕ) (is : List ℕ)
    → All (λ j. j ≢ i) is
    → Chain conns head is
    → Chain (modify conns i f) head is
Chain-modify conns i f head [] a c = c
Chain-modify conns i f head (j ∷ is) (ne, a) (e, c) = (
  e,
  Chain-modify conns i f (link_of (get_elem? (modify conns i f) j)) is a
      (subst (λ o. Chain conns (link_of o) is) (sym (modify-other conns i j f ne)) c),
)

pub Chain-keeps :
    (conns : List Conn) (i : ℕ) (f : Conn → Conn) (head : Option ℕ) (is : List ℕ)
    → ((c : Conn) → (f c).data_link ≡ c.data_link)
    → Chain conns head is
    → Chain (modify conns i f) head is
Chain-keeps conns i f head [] k c = c
Chain-keeps conns i f head (j ∷ is) k (e, c) = (
  e,
  Chain-keeps conns i f (link_of (get_elem? (modify conns i f) j)) is k
      (subst (λ o. Chain conns o is) (sym (modify-keeps link_of conns i j f k)) c),
)

pub All-map {ℓ κ μ} :
    {A : Type ℓ} {P : A → Type κ} {Q : A → Type μ} (xs : List A)
    → ((x : A) → P x → Q x)
    → All P xs
    → All Q xs
All-map [] f a = tt
All-map (x ∷ xs) f (p, a) = (f x p, All-map xs f a)

pub All-map₂ {ℓ κ μ ν} :
    {A : Type ℓ} {P : A → Type κ} {Q : A → Type μ} {R : A → Type ν} (xs : List A)
    → ((x : A) → P x → Q x → R x)
    → All P xs
    → All Q xs
    → All R xs
All-map₂ [] f a b = tt
All-map₂ (x ∷ xs) f (p, a) (q, b) = (f x p q, All-map₂ xs f a b)

-- The descriptor of an entry of the array, where there is one.
abbrev pub status_of : Option Conn → Option (Option ℕ)
status_of none = none
status_of (some c) = some c.fd

pub status_of-some :
    (o : Option Conn) (s : Option ℕ) → status_of o ≡ some s → (c : Conn) × (o ≡ some c) × (c.fd ≡ s)
status_of-some none s e = ground arith
status_of-some (some c) s e = (c, refl, some-injective c.fd s e)

pub open_count-keeps :
    (conns : List Conn) (i : ℕ) (f : Conn → Conn)
    → ((c : Conn) → (f c).fd ≡ c.fd)
    → open_count (modify conns i f) ≡ open_count conns
unfolding modify
open_count-keeps [] i f k = refl
open_count-keeps (c ∷ conns) zero f k = ap (λ z. open_flag z + open_count conns) (k c)
open_count-keeps (c ∷ conns) (suc i) f k =
    ap (λ z. open_flag c.fd + z) (open_count-keeps conns i f k)
