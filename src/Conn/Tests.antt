-- ===== src/Conn/Tests.antt =====
-- Runs of the pool of connections of src/pg_rest_conn.c.
use pg_rest.Base.{◌≡◌, refl, [], ◌∷◌, some, none, false}
use pg_rest.Conn.{
  Pool, conn_get, conn_take, conn_drain, drain_rounds, conn_close, worker_init, modify,
}
use pg_rest.Conn.Steps.{Sound}
use pg_rest.Conn.Reach.{begins, gets, closes, Reach-Sound, Given, conn_get-Given}

abbrev one : Pool
one = record {
  conns = record { data_link = none; fd = none; reusable = false; close = false } ∷ [];
  free_conns = some 0;
  free_noconn = 1;
  reuse_conns = [];
}

one-worker_init : worker_init 1 ≡ some one
unfolding worker_init
one-worker_init = refl

get_twice : (conn_get 8 (conn_get 7 one).1).0 ≡ none
unfolding conn_get conn_take conn_drain drain_rounds modify
get_twice = refl

get_again : (conn_get 8 (conn_close 0 (conn_get 7 one).1)).0 ≡ some 0
unfolding conn_get conn_take conn_close modify
get_again = refl

Reach-Sound_example : Sound 1 (conn_close 0 (conn_get 7 one).1)
Reach-Sound_example =
    Reach-Sound 1 (conn_close 0 (conn_get 7 one).1)
      (closes (conn_get 7 one).1 0 (gets one 7 (begins one one-worker_init)))

conn_get-Given_example : Given 1 7 one.conns (conn_get 7 one)
conn_get-Given_example = conn_get-Given 1 7 one (begins one one-worker_init)
