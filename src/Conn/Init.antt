-- ===== src/Conn/Init.antt =====
-- The list that `pgrest_conn_worker_init` of src/pg_rest_conn.c links.
use pg_rest.Base.{
  ℕ, zero, suc, ◌+◌, ◌<◌, ◌≡◌, refl, ap, sym, ◌∙◌, subst, false, Option, none, some, List, [], ◌∷◌,
  ◌++◌, arith, length, get_elem?, All, get_elem?-append_right, append_assoc, length-append,
}
use mathlib.Core.Option.{some-injective, none-ne-some}
use pg_rest.Conn.{Conn, Pool, link_of, init_loop, worker_init}
use pg_rest.Conn.Free.{Chain, Apart, open_count, All-map, status_of}
use pg_rest.Conn.Steps.{Closed, IsValid, Sound}

-- `m` connections from index `k` on: the first of them, their indices, and the array.
abbrev first_of : ℕ → ℕ → Option ℕ
first_of k zero = none
first_of k (suc m) = some k

abbrev indices : ℕ → ℕ → List ℕ
indices k zero = []
indices k (suc m) = k ∷ indices (suc k) m

abbrev array : ℕ → ℕ → List Conn
array k zero = []
array k (suc m) =
    record { data_link = first_of (suc k) m; fd = none; reusable = false; close = false }
    ∷ array (suc k) m

init_loop-eq :
    (k m : ℕ) → init_loop k (first_of k m) (array k m) ≡ (first_of 0 (k + m), array 0 (k + m))
unfolding init_loop
init_loop-eq zero m = ap (λ z. (first_of 0 z, array 0 z)) (omega arith)
init_loop-eq (suc k) m = init_loop-eq k (suc m) ∙ ap (λ z. (first_of 0 z, array 0 z)) (omega arith)

later : (k m : ℕ) → All (λ j. k < j) (indices (suc k) m)
later k m = from k (suc k) m (omega arith)
  where
    from : (k l m : ℕ) → k < l → All (λ j. k < j) (indices l m)
    from k l zero h = tt
    from k l (suc m) h = (h, from k (suc l) m (omega (arith, h)))

indices-Apart : (k m : ℕ) → Apart (indices k m)
indices-Apart k zero = tt
indices-Apart k (suc m) = (
  All-map (indices (suc k) m) (λ j h e. absurd (omega (arith, h, e))) (later k m),
  indices-Apart (suc k) m,
)

length-indices : (k m : ℕ) → length (indices k m) ≡ m
length-indices k zero = refl
length-indices k (suc m) = ap suc (length-indices (suc k) m)

open_count-array : (k m : ℕ) → open_count (array k m) ≡ 0
open_count-array k zero = refl
open_count-array k (suc m) = omega (arith, open_count-array (suc k) m)

array-Chain :
    (pre : List Conn) (k m : ℕ)
    → length pre ≡ k
    → Chain (pre ++ array k m) (first_of k m) (indices k m)
      × All (Closed (pre ++ array k m)) (indices k m)
array-Chain pre k zero e = (refl, tt)
array-Chain pre k (suc m) e =
    let rest = tail (
      array-Chain (pre ++ conn ∷ []) (suc k) m (omega (arith, e, length-append pre (conn ∷ [])))) in
    (
      (
        refl,
        subst (λ o. Chain (pre ++ array k (suc m)) (link_of o) (indices (suc k) m)) (sym at_k)
            rest.0,
      ),
      (ap status_of at_k, rest.1),
    )
  where
    conn : Conn
    conn = record { data_link = first_of (suc k) m; fd = none; reusable = false; close = false }

    at_k : get_elem? (pre ++ array k (suc m)) k ≡ some conn
    at_k = get_elem?-append_right pre (array k (suc m)) k 0 (omega (arith, e))

    tail :
        Chain ((pre ++ conn ∷ []) ++ array (suc k) m) (first_of (suc k) m) (indices (suc k) m)
          × All (Closed ((pre ++ conn ∷ []) ++ array (suc k) m)) (indices (suc k) m)
        → Chain (pre ++ array k (suc m)) (first_of (suc k) m) (indices (suc k) m)
          × All (Closed (pre ++ array k (suc m))) (indices (suc k) m)
    tail h =
        subst
          (λ a.
            Chain a (first_of (suc k) m) (indices (suc k) m) × All (Closed a) (indices (suc k) m))
          (append_assoc pre (conn ∷ []) (array (suc k) m)) h

-- All connections of a new pool are free.
init-IsValid :
    (n : ℕ)
    → IsValid n
        (record { conns = array 0 n; free_conns = first_of 0 n; free_noconn = n; reuse_conns = [] })
        (indices 0 n)
init-IsValid n = record {
  linked = (array-Chain [] 0 n refl).0;
  once = indices-Apart 0 n;
  closed = (array-Chain [] 0 n refl).1;
  counted = sym (length-indices 0 n);
  conserved = omega (arith, length-indices 0 n, open_count-array 0 n);
}

pub worker_init-Sound : (n : ℕ) (p : Pool) → worker_init n ≡ some p → Sound n p
unfolding worker_init
worker_init-Sound zero p e = absurd (none-ne-some p e)
worker_init-Sound (suc n) p e = subst (Sound (suc n)) (some-injective start p e) (
  indices 0 (suc n),
  subst
      (λ r.
        IsValid (suc n)
          (record { conns = r.1; free_conns = r.0; free_noconn = suc n; reuse_conns = [] })
          (indices 0 (suc n)))
      (sym linked) (init-IsValid (suc n)),
)
  where
    start : Pool
    start = record {
      conns = (init_loop (suc n) none []).1;
      free_conns = (init_loop (suc n) none []).0;
      free_noconn = suc n;
      reuse_conns = [];
    }

    all_done : suc n + 0 ≡ suc n
    all_done = omega arith

    linked : init_loop (suc n) none [] ≡ (first_of 0 (suc n), array 0 (suc n))
    linked = init_loop-eq (suc n) 0 ∙ ap (λ z. (first_of 0 z, array 0 z)) all_done
