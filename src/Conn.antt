-- ===== src/Conn.antt =====
-- The pool of connections of src/pg_rest_conn.c. A pointer to a connection is its index in the array
-- `pgrest_conn_conns`. Of a connection only the fields that the pool reads are kept: `data`, which
-- links the free connections, `fd`, where -1 is `none`, and the bits `reusable` and `close`. The
-- list of reusable connections, PostgreSQL's `dlist`, is a list of indices.
pub mod Free
pub mod Steps
pub mod Init
pub mod Reach
mod Tests
use pg_rest.Base.{
  ℕ, zero, suc, ◌+◌, ◌-◌, Bool, true, false, not, Option, none, some, List, [], ◌∷◌, ◌++◌, ◌==◌,
  if◌then◌else◌, length, get_elem?,
}

-- `struct pgrest_connection_s`
pub record Conn : Type 0 where
  pub data_link : Option ℕ
  pub fd : Option ℕ
  pub reusable : Bool
  pub close : Bool

-- The static variables of the file and the array of connections.
pub record Pool : Type 0 where
  pub conns : List Conn
  pub free_conns : Option ℕ
  pub free_noconn : ℕ
  pub reuse_conns : List ℕ

-- A write through a pointer to a connection.
unfoldable pub modify : List Conn → ℕ → (Conn → Conn) → List Conn
modify [] i f = []
modify (c ∷ conns) zero f = f c ∷ conns
modify (c ∷ conns) (suc i) f = c ∷ modify conns i f

-- What `MemSet` leaves, with the descriptor.
abbrev pub opened : ℕ → Conn → Conn
opened fd c = record { data_link = none; fd = some fd; reusable = false; close = false }

-- The last entry of the list.
unfoldable pub tail_node : List ℕ → Option ℕ
tail_node [] = none
tail_node (i ∷ []) = some i
tail_node (i ∷ (j ∷ is)) = tail_node (j ∷ is)

-- `dlist_delete`
unfoldable pub dlist_delete : ℕ → List ℕ → List ℕ
dlist_delete i [] = []
dlist_delete i (j ∷ is) = if j == i then dlist_delete i is else j ∷ dlist_delete i is

-- The loop of `pgrest_conn_drain`.
unfoldable pub drain_rounds : ℕ → Pool → Pool
unfolding tail_node
drain_rounds zero p = p
drain_rounds (suc n) p = elim (tail_node p.reuse_conns) [
  | none ↦ p
  | some i ↦ drain_rounds n (record p { conns = modify p.conns i (λ c. record c { close = true }) })
]

-- `pgrest_conn_drain`
unfoldable pub conn_drain : Pool → Pool
conn_drain p = drain_rounds 32 p

abbrev pub link_of : Option Conn → Option ℕ
link_of none = none
link_of (some c) = c.data_link

-- `pgrest_conn_get`, where the list of free connections was drained if it was empty.
unfoldable pub conn_take : ℕ → Pool → Option ℕ × Pool
conn_take fd p = elim p.free_conns [
  | none ↦ (none, p)
  | some i ↦ (
    some i,
    record p {
      free_conns = link_of (get_elem? p.conns i);
      free_noconn = p.free_noconn - 1;
      conns = modify p.conns i (opened fd);
    },
  )
]

-- `pgrest_conn_get`
unfoldable pub conn_get : ℕ → Pool → Option ℕ × Pool
conn_get fd p = conn_take fd (elim p.free_conns [ none ↦ conn_drain p | some i ↦ p ])

abbrev pub is_reusable : Option Conn → Bool
is_reusable none = false
is_reusable (some c) = c.reusable

-- `pgrest_conn_reusable`
unfoldable pub conn_reusable : ℕ → Bool → Pool → Pool
unfolding dlist_delete
conn_reusable i reusable p =
    let reuse =
      if is_reusable (get_elem? p.conns i) then dlist_delete i p.reuse_conns else p.reuse_conns in
    record p {
      conns = modify p.conns i (λ c. record c { reusable = reusable });
      reuse_conns = if reusable then i ∷ reuse else reuse;
    }

-- `pgrest_conn_free`
unfoldable pub conn_free : ℕ → Pool → Pool
conn_free i p = record p {
  conns = modify p.conns i (λ c. record c { data_link = p.free_conns });
  free_conns = some i;
  free_noconn = p.free_noconn + 1;
}

abbrev pub fd_of : Option Conn → Option ℕ
fd_of none = none
fd_of (some c) = c.fd

-- `conn->fd = -1`
unfoldable pub forget_fd : ℕ → Pool → Pool
forget_fd i p = record p { conns = modify p.conns i (λ c. record c { fd = none }) }

-- `pgrest_conn_close`: its events are deleted and its socket closed by libevent and the system.
unfoldable pub conn_close : ℕ → Pool → Pool
unfolding conn_reusable conn_free forget_fd
conn_close i p = elim (fd_of (get_elem? p.conns i)) [
  | none ↦ p
  | some fd ↦ forget_fd i (conn_free i (conn_reusable i false p))
]

-- The loop of `pgrest_conn_worker_init`, from the last connection to the first: the connections
-- behind `i` are done, and `next` is the first of them.
unfoldable pub init_loop : ℕ → Option ℕ → List Conn → Option ℕ × List Conn
init_loop zero next conns = (next, conns)
init_loop (suc i) next conns =
    init_loop i (some i)
      (record { data_link = next; fd = none; reusable = false; close = false } ∷ conns)

-- `pgrest_conn_worker_init`; with no connection at all its loop writes in front of the array, and
-- `none` stands for that.
unfoldable pub worker_init : ℕ → Option Pool
unfolding init_loop
worker_init zero = none
worker_init (suc n) =
    let r = init_loop (suc n) none [] in
    some (record { conns = r.1; free_conns = r.0; free_noconn = suc n; reuse_conns = [] })
