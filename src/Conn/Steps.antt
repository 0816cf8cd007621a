-- ===== src/Conn/Steps.antt =====
-- The pool of src/pg_rest_conn.c in every state that its calls lead to.
use pg_rest.Base.{
  ℕ, zero, suc, ◌+◌, ◌-◌, ◌≡◌, ◌≢◌, refl, ap, sym, ◌∙◌, subst, inl, inr, Bool, true, false, Option,
  Option-cases, none, some, List, [], ◌∷◌, arith, length, get_elem?, All,
}
use mathlib.Core.Option.{some-injective, none-ne-some}
use pg_rest.Conn.{
  Conn, Pool, modify, link_of, fd_of, opened, tail_node, drain_rounds, conn_drain, conn_take,
  conn_get, conn_reusable, conn_free, forget_fd, conn_close,
}
use pg_rest.Conn.Free.{
  Chain, Apart, open_flag, open_count, modify-other, modify-same, modify-keeps, open_count-modify,
  Chain-modify, Chain-keeps, All-map, All-map₂, status_of, status_of-some, open_count-keeps,
}

-- An entry of the array without a descriptor.
abbrev pub Closed : List Conn → ℕ → Type 0
Closed conns i = status_of (get_elem? conns i) ≡ some none

-- The free connections, `free`, are linked from `free_conns`, each once, and counted, and none has a
-- descriptor; all the others have one.
pub record IsValid (n : ℕ) (p : Pool) (free : List ℕ) : Type 0 where
  pub linked : Chain p.conns p.free_conns free
  pub once : Apart free
  pub closed : All (Closed p.conns) free
  pub counted : p.free_noconn ≡ length free
  pub conserved : length free + open_count p.conns ≡ n

-- A state with a list of free connections for which it is valid.
abbrev pub Sound : ℕ → Pool → Type 0
Sound n p = (free : List ℕ) × IsValid n p free

-- A write that keeps the links and the descriptors.
keeps-IsValid :
    (n : ℕ) (p : Pool) (free : List ℕ) (i : ℕ) (f : Conn → Conn) (reuse : List ℕ)
    → ((c : Conn) → (f c).data_link ≡ c.data_link)
    → ((c : Conn) → (f c).fd ≡ c.fd)
    → IsValid n p free
    → IsValid n (record p { conns = modify p.conns i f; reuse_conns = reuse }) free
keeps-IsValid n p free i f reuse k d v = record {
  linked = Chain-keeps p.conns i f p.free_conns free k v.linked;
  once = v.once;
  closed =
      All-map free (λ j e. modify-keeps status_of p.conns i j f (λ c. ap some (d c)) ∙ e) v.closed;
  counted = v.counted;
  conserved = ap (λ z. length free + z) (open_count-keeps p.conns i f d) ∙ v.conserved;
}

drain_rounds-Sound : (k n : ℕ) (p : Pool) → Sound n p → Sound n (drain_rounds k p)
unfolding drain_rounds
drain_rounds-Sound zero n p s = s
drain_rounds-Sound (suc k) n p (free, v) = elim (Option-cases (tail_node p.reuse_conns)) [
  | inl e ↦ rw (e, drain_rounds) (free, v)
  | inr (i, e) ↦
      rw (e, drain_rounds)
        (drain_rounds-Sound k n
          (record p { conns = modify p.conns i (λ c. record c { close = true }) })
          (
            free,
            keeps-IsValid n p free i (λ c. record c { close = true }) p.reuse_conns (λ c. refl)
                (λ c. refl) v,
          ))
]

-- The first free connection is taken from the list.
take_first :
    (n fd i : ℕ) (p : Pool) (free : List ℕ)
    → IsValid n p (i ∷ free)
    → IsValid n
        (record p {
          free_conns = link_of (get_elem? p.conns i);
          free_noconn = p.free_noconn - 1;
          conns = modify p.conns i (opened fd);
        })
        free
take_first n fd i p free v =
    let (c, e, none_fd) = status_of-some (get_elem? p.conns i) none v.closed.0 in
    let count = open_count-modify p.conns i (opened fd) c e in
    record {
      linked =
          Chain-modify p.conns i (opened fd) (link_of (get_elem? p.conns i)) free v.once.0
            v.linked.1;
      once = v.once.1;
      closed =
          All-map₂ free (λ j ne s. ap status_of (modify-other p.conns i j (opened fd) ne) ∙ s)
            v.once.0 v.closed.1;
      counted = omega (arith, v.counted);
      conserved = omega (arith, v.conserved, count, ap open_flag none_fd);
    }

take-Sound : (n fd : ℕ) (p : Pool) → Sound n p → Sound n (conn_take fd p).1
unfolding conn_take
take-Sound n fd p ([], v) = rw (v.linked, conn_take) ([], v)
take-Sound n fd p (i ∷ free, v) = rw (v.linked.0, conn_take) (free, take_first n fd i p free v)

pub drain-Sound : (n : ℕ) (p : Pool) → Sound n p → Sound n (conn_drain p)
unfolding conn_drain
drain-Sound n p s = drain_rounds-Sound 32 n p s

pub get-Sound : (n fd : ℕ) (p : Pool) → Sound n p → Sound n (conn_get fd p).1
unfolding conn_get
get-Sound n fd p s = elim (Option-cases p.free_conns) [
  | inl e ↦ simp (e, conn_get) (take-Sound n fd (conn_drain p) (drain-Sound n p s))
  | inr (i, e) ↦ simp (e, conn_get) (take-Sound n fd p s)
]

pub reusable-IsValid :
    (n : ℕ) (p : Pool) (free : List ℕ) (i : ℕ) (b : Bool)
    → IsValid n p free
    → IsValid n (conn_reusable i b p) free
unfolding conn_reusable
reusable-IsValid n p free i b v =
    keeps-IsValid n p free i (λ c. record c { reusable = b }) (conn_reusable i b p).reuse_conns
      (λ c. refl) (λ c. refl) v

-- An open connection is put in front of the list of free ones.
release :
    (n : ℕ) (p : Pool) (free : List ℕ) (i : ℕ) (c : Conn) (fd : ℕ)
    → get_elem? p.conns i ≡ some c
    → c.fd ≡ some fd
    → IsValid n p free
    → IsValid n (forget_fd i (conn_free i p)) (i ∷ free)
unfolding conn_free forget_fd
release n p free i c fd e o v = record {
  linked = (
    refl,
    subst (λ h. Chain (modify linked i forget) h free)
        (sym
          (ap link_of (modify-same linked i forget (record c { data_link = p.free_conns }) same)))
        (Chain-modify linked i forget p.free_conns free apart
          (Chain-modify p.conns i link p.free_conns free apart v.linked)),
  );
  once = (apart, v.once);
  closed = (
    ap status_of (modify-same linked i forget (record c { data_link = p.free_conns }) same),
    All-map₂ free
        (λ j ne s.
          ap status_of (modify-other linked i j forget ne ∙ modify-other p.conns i j link ne) ∙ s)
        apart v.closed,
  );
  counted = omega (arith, v.counted);
  conserved = omega (
    arith,
    v.conserved,
    open_count-modify p.conns i link c e,
    open_count-modify linked i forget (record c { data_link = p.free_conns }) same,
    ap open_flag o,
  );
}
  where
    link : Conn → Conn
    link c = record c { data_link = p.free_conns }

    forget : Conn → Conn
    forget c = record c { fd = none }

    linked : List Conn
    linked = modify p.conns i link

    same : get_elem? linked i ≡ some (record c { data_link = p.free_conns })
    same = modify-same p.conns i link c e

    two_states : Path (Option (Option ℕ)) (some none) (some (some fd)) → ⊥
    two_states q = none-ne-some fd (some-injective none (some fd) q)

    apart : All (λ j. j ≢ i) free
    apart =
        All-map free
          (λ j s q.
            two_states
              (sym s ∙ ap (λ k. status_of (get_elem? p.conns k)) q ∙ ap status_of e ∙ ap some o))
          v.closed

fd_of-some :
    (o : Option Conn) (fd : ℕ) → fd_of o ≡ some fd → (c : Conn) × (o ≡ some c) × (c.fd ≡ some fd)
fd_of-some none fd e = absurd (none-ne-some fd e)
fd_of-some (some c) fd e = (c, refl, e)

pub close-Sound : (n i : ℕ) (p : Pool) → Sound n p → Sound n (conn_close i p)
unfolding conn_close conn_reusable
close-Sound n i p (free, v) = elim (Option-cases (fd_of (get_elem? p.conns i))) [
  | inl e ↦ simp (e, conn_close) (free, v)
  | inr (fd, e) ↦ simp (e, conn_close) (closed fd (fd_of-some (get_elem? p.conns i) fd e))
]
  where
    off : Conn → Conn
    off c = record c { reusable = false }

    closed :
        (fd : ℕ)
        → (c : Conn) × (get_elem? p.conns i ≡ some c) × (c.fd ≡ some fd)
        → Sound n (forget_fd i (conn_free i (conn_reusable i false p)))
    closed fd (c, e, o) = (
      i ∷ free,
      release n (conn_reusable i false p) free i (off c) fd (modify-same p.conns i off c e) o
          (reusable-IsValid n p free i false v),
    )
