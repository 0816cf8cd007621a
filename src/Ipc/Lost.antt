-- ===== src/Ipc/Lost.antt =====
-- What the handlers of src/pg_rest_ipc.c leave of a connection that failed.
use pg_rest.Base.{
  ℕ, false, zero, suc, ◌≡◌, ◌≢◌, refl, ap, Bool, Option, none, some, List, [], ◌∷◌, arith, ◌==◌,
  ==_iff, inl, inr, Bool-cases, get_elem?,
}
use mathlib.Core.Option.{some-injective, none-ne-some}
use pg_rest.Buffer.{Os}
use pg_rest.Ipc.{Ipc, notified, set_conn, fail, send_notify}

-- No two workers have the same connection.
abbrev pub Apart : List (Option ℕ) → Type 0
Apart entries =
    (i j p : ℕ) → get_elem? entries i ≡ some (some p) → get_elem? entries j ≡ some (some p) → i ≡ j

Apart-tail : (e : Option ℕ) (entries : List (Option ℕ)) → Apart (e ∷ entries) → Apart entries
Apart-tail e entries apart i j p h k = ap pred (apart (suc i) (suc j) p h k)
  where
    pred : ℕ → ℕ
    pred zero = zero
    pred (suc n) = n

set_conn-dest :
    (entries : List (Option ℕ)) (dest p : ℕ)
    → Apart entries
    → get_elem? entries dest ≡ some (some p)
    → get_elem? (set_conn p entries) dest ≡ some none
unfolding set_conn
set_conn-dest [] dest p apart e = absurd (none-ne-some (some p) e)
set_conn-dest (none ∷ entries) zero p apart e =
    absurd (none-ne-some p (some-injective none (some p) e))
set_conn-dest (none ∷ entries) (suc dest) p apart e =
    set_conn-dest entries dest p (Apart-tail none entries apart) e
set_conn-dest (some q ∷ entries) zero p apart e =
    rw ((==_iff q p).1 (some-injective q p (some-injective (some q) (some p) e)), set_conn) refl
set_conn-dest (some q ∷ entries) (suc dest) p apart e = elim (Bool-cases (q == p)) [
  | inl s ↦
      absurd (omega (arith, apart zero (suc dest) p (ap (λ z. some (some z)) ((==_iff q p).0 s)) e))
  | inr s ↦ rw (s, set_conn) (set_conn-dest entries dest p (Apart-tail (some q) entries apart) e)
]

set_conn-other :
    (entries : List (Option ℕ)) (dest p other : ℕ)
    → Apart entries
    → get_elem? entries dest ≡ some (some p)
    → other ≢ dest
    → get_elem? (set_conn p entries) other ≡ get_elem? entries other
unfolding set_conn
set_conn-other [] dest p other apart e ne = refl
set_conn-other (none ∷ entries) dest p zero apart e ne = refl
set_conn-other (none ∷ entries) zero p (suc other) apart e ne =
    absurd (none-ne-some p (some-injective none (some p) e))
set_conn-other (none ∷ entries) (suc dest) p (suc other) apart e ne =
    set_conn-other entries dest p other (Apart-tail none entries apart) e (λ q. ne (ap suc q))
set_conn-other (some q ∷ entries) dest p zero apart e ne = elim (Bool-cases (q == p)) [
  | inl s ↦ absurd (ne (apart zero dest p (ap (λ z. some (some z)) ((==_iff q p).0 s)) e))
  | inr s ↦ rw (s, set_conn) refl
]
set_conn-other (some q ∷ entries) zero p (suc other) apart e ne =
    rw ((==_iff q p).1 (some-injective q p (some-injective (some q) (some p) e)), set_conn) refl
set_conn-other (some q ∷ entries) (suc dest) p (suc other) apart e ne = elim (Bool-cases (q == p)) [
  | inl s ↦ rw (s, set_conn) refl
  | inr s ↦
      rw (s, set_conn)
        (set_conn-other entries dest p other (Apart-tail (some q) entries apart) e
          (λ r. ne (ap suc r)))
]

-- After a handler failed on the connection of a worker, where no two workers have the same, a notify
-- to that worker returns false and changes nothing, and the connection of every other worker is the
-- one it was.
pub fail-send_notify :
    (os : Os) (granted : Bool) (ipc : Ipc) (dest p command : ℕ)
    → Apart ipc.ipc_data
    → get_elem? ipc.ipc_data dest ≡ some (some p)
    → (send_notify os granted (fail p ipc) dest command ≡ notified false (fail p ipc))
      × ((other : ℕ)
          → other ≢ dest
          → get_elem? (fail p ipc).ipc_data other ≡ get_elem? ipc.ipc_data other)
unfolding send_notify fail
fail-send_notify os granted ipc dest p command apart e = (
  rw (set_conn-dest ipc.ipc_data dest p apart e, send_notify) refl,
  λ other ne. set_conn-other ipc.ipc_data dest p other apart e ne,
)
