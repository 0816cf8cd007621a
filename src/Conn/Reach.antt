-- ===== src/Conn/Reach.antt =====
-- The states of the pool of src/pg_rest_conn.c: a new pool, and what its calls make of it.
use pg_rest.Base.{
  ℕ, zero, suc, ◌≤◌, ◌≡◌, refl, ap, sym, ◌∙◌, Bool, Option, Option-cases, none, some, List, [], ◌∷◌,
  get_elem?, arith, inl, inr, true,
}
use mathlib.Core.Option.{none-ne-some}
use pg_rest.Conn.{
  Conn, Pool, conn_drain, drain_rounds, tail_node, conn_take, conn_get, conn_reusable, conn_close,
  worker_init, modify, opened,
}
use pg_rest.Conn.Free.{open_count, open_count-modify, modify-same, status_of, status_of-some}
use pg_rest.Conn.Steps.{IsValid, Sound, get-Sound, drain-Sound, close-Sound, reusable-IsValid}
use pg_rest.Conn.Init.{worker_init-Sound}

-- The states of a worker with `n` connections that gets, marks as reusable and closes connections.
pub data Reach (n : ℕ) : Pool → Type 0 where
  begins : (p : Pool) → worker_init n ≡ some p → Reach n p
  gets : (p : Pool) (fd : ℕ) → Reach n p → Reach n (conn_get fd p).1
  marks : (p : Pool) (i : ℕ) (b : Bool) → Reach n p → Reach n (conn_reusable i b p)
  closes : (p : Pool) (i : ℕ) → Reach n p → Reach n (conn_close i p)

-- In every state that a worker reaches by getting, marking and closing connections, in any order and
-- any of them more than once, the free connections form a list without repetition, linked from its
-- head and of the length counted, in which none has a descriptor, and with the connections that have
-- one they make up all that the worker has.
pub Reach-Sound : (n : ℕ) (p : Pool) → Reach n p → Sound n p
Reach-Sound n _ (begins p e) = worker_init-Sound n p e
Reach-Sound n _ (gets p fd r) = get-Sound n fd p (Reach-Sound n p r)
Reach-Sound n _ (marks p i b r) =
    let (free, v) = Reach-Sound n p r in (free, reusable-IsValid n p free i b v)
Reach-Sound n _ (closes p i r) = close-Sound n i p (Reach-Sound n p r)

-- What a call for a connection gives: one that was closed and now has the descriptor, or NULL, where
-- all the connections have one.
unfoldable pub Given : ℕ → ℕ → List Conn → Option ℕ × Pool → Type 0
Given n fd before (none, p) = open_count p.conns ≡ n
Given n fd before (some i, p) =
    (status_of (get_elem? before i) ≡ some none)
    × (status_of (get_elem? p.conns i) ≡ some (some fd))
    × (open_count p.conns ≤ n)

none_left :
    (n fd : ℕ) (before : List Conn) (p : Pool)
    → Sound n p
    → p.free_conns ≡ none
    → Given n fd before (conn_take fd p)
unfolding Given conn_take
none_left n fd before p ([], v) e = rw (e, conn_take) (omega (arith, v.conserved))
none_left n fd before p (i ∷ free, v) e = absurd (none-ne-some i (sym e ∙ v.linked.0))

first-Given :
    (n fd i : ℕ) (p : Pool)
    → Sound n p
    → p.free_conns ≡ some i
    → Given n fd p.conns (conn_take fd p)
unfolding Given conn_take
first-Given n fd i p ([], v) e = absurd (none-ne-some i (sym v.linked ∙ e))
first-Given n fd i p (j ∷ free, v) e = rw (v.linked.0, conn_take) (given j free v)
  where
    given :
        (j : ℕ) (free : List ℕ)
        → IsValid n p (j ∷ free)
        → (status_of (get_elem? p.conns j) ≡ some none)
          × (status_of (get_elem? (modify p.conns j (opened fd)) j) ≡ some (some fd))
          × (open_count (modify p.conns j (opened fd)) ≤ n)
    given j free v =
        let (c, e, o) = status_of-some (get_elem? p.conns j) none v.closed.0 in
        (
          v.closed.0,
          ap status_of (modify-same p.conns j (opened fd) c e),
          omega (arith, v.conserved, open_count-modify p.conns j (opened fd) c e),
        )

drain_rounds-free : (k : ℕ) (p : Pool) → (drain_rounds k p).free_conns ≡ p.free_conns
unfolding drain_rounds
drain_rounds-free zero p = refl
drain_rounds-free (suc k) p = elim (Option-cases (tail_node p.reuse_conns)) [
  | inl e ↦ rw (e, drain_rounds) refl
  | inr (i, e) ↦
      rw (e, drain_rounds)
        (drain_rounds-free k
          (record p { conns = modify p.conns i (λ c. record c { close = true }) }))
]

conn_drain-free : (p : Pool) → (conn_drain p).free_conns ≡ p.free_conns
unfolding conn_drain
conn_drain-free p = drain_rounds-free 32 p

-- In every state that a worker reaches, a call for a connection hands out one that had no descriptor
-- before and has the new one after; or it gives NULL, and then every connection of the worker has a
-- descriptor, so that draining the reusable ones has freed none.
pub conn_get-Given : (n fd : ℕ) (p : Pool) → Reach n p → Given n fd p.conns (conn_get fd p)
unfolding conn_get
conn_get-Given n fd p r = elim (Option-cases p.free_conns) [
  | inl e ↦
      simp (e, conn_get)
        (none_left n fd p.conns (conn_drain p) (drain-Sound n p (Reach-Sound n p r)) (drained e))
  | inr (i, e) ↦ simp (e, conn_get) (first-Given n fd i p (Reach-Sound n p r) e)
]
  where
    drained : p.free_conns ≡ none → (conn_drain p).free_conns ≡ none
    drained e = conn_drain-free p ∙ e
