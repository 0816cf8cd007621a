-- ===== src/Http/Request/NotNull.antt =====
-- The routines of src/pg_rest_http_request.c that do not read through NULL.
use pg_rest.Base.{
  ℕ, ◌+◌, ◌/◌, Bool, true, false, not, ◌||◌, Option, none, some, List, ◌==◌, inl, inr, take, drop,
  Bool-cases, Option-cases,
}
use pg_rest.Event.{own, event_add, event_del}
use pg_rest.Http.Request.{
  Conf, lingering_close_handler, Body, whole, split_off, Request, Conn, Result, live, pipelined,
  waiting, gone, null_read, used_freed, hangs, crashes, used_closed, close_request, create_request,
  free_request, World,
}
use pg_rest.Http.Request.Keepalive.{
  next_request, carry, keep_pipelined, wait_if, keep_idle, keep_left,
}
use pg_rest.Http.Request.Finalize.{
  Lingering, carry_on, linger_add, linger_del, linger_shutdown, set_lingering_close, linger_if,
}
use pg_rest.Text.{Bytes}
use pg_rest.Http.Body.Arrive.{arrive}
use pg_rest.Buffer.{Reserved, reserved, looping, null_write, buffer_reserve}
use pg_rest.Http.Request.Freed.{Sane, close_request-Sane, shutdown-Sane}

-- Nothing was read through NULL.
abbrev pub NotNull : Result → Type 0
NotNull (live c req) = Unit {0}
NotNull (pipelined c req) = Unit {0}
NotNull (waiting c) = Unit {0}
NotNull gone = Unit {0}
NotNull null_read = ⊥
NotNull used_freed = Unit {0}
NotNull hangs = Unit {0}
NotNull crashes = Unit {0}
NotNull used_closed = Unit {0}

pub Sane-NotNull : (r : Result) → Sane r → NotNull r
Sane-NotNull (live c req) s = tt
Sane-NotNull (pipelined c req) s = tt
Sane-NotNull (waiting c) s = tt
Sane-NotNull gone s = tt
Sane-NotNull null_read s = s
Sane-NotNull used_freed s = tt
Sane-NotNull hangs s = tt
Sane-NotNull crashes s = tt
Sane-NotNull used_closed s = tt

-- What a step is given is not NULL, and what it makes of it is not either.
carry_on-NotNull :
    (r : Result) (step : Conn → Request → Result)
    → Sane r
    → ((c : Conn) (req : Request) → NotNull (step c req))
    → NotNull (carry_on r step)
unfolding carry_on
carry_on-NotNull (live c req) step s n = n c req
carry_on-NotNull (pipelined c req) step s n = tt
carry_on-NotNull (waiting c) step s n = tt
carry_on-NotNull gone step s n = tt
carry_on-NotNull null_read step s n = s
carry_on-NotNull used_freed step s n = tt
carry_on-NotNull hangs step s n = tt
carry_on-NotNull crashes step s n = tt
carry_on-NotNull used_closed step s n = tt

module _ (w : World) where
  next_request-NotNull : (c : Conn) → NotNull (next_request w c)
  unfolding next_request create_request
  next_request-NotNull c = elim (Bool-cases w.created) [
    | inl e ↦ simp (e, next_request, create_request) tt
    | inr e ↦ simp (e, next_request, create_request) tt
  ]

  carry-NotNull :
      (c : Conn) (req : Request) (bytes : Bytes) (r : Reserved) → NotNull (carry w c req bytes r)
  unfolding carry
  carry-NotNull c req bytes (reserved buf v) = elim (Option-cases v.base) [
    | inl e ↦
        simp (e, carry)
          (Sane-NotNull (close_request (record c { buffer = buf }) req)
            (close_request-Sane (record c { buffer = buf }) req))
    | inr (at, e) ↦
        simp (e, carry)
          (next_request-NotNull
            (free_request (record c { buffer = arrive buf bytes; parse = true })))
  ]
  carry-NotNull c req bytes looping = tt
  carry-NotNull c req bytes null_write = tt

  keep_pipelined-NotNull :
      (c : Conn) (req : Request) (left : ℕ) (body : Option Body)
      → NotNull (keep_pipelined w c req left body)
  unfolding keep_pipelined
  keep_pipelined-NotNull c req left none =
      next_request-NotNull (free_request (record c { parse = true }))
  keep_pipelined-NotNull c req left (some whole) =
      next_request-NotNull (free_request (record c { parse = true }))
  keep_pipelined-NotNull c req left (some (split_off buf len)) =
      carry-NotNull c req (take left (drop buf.pos buf.start)) (buffer_reserve w.os c.buffer left)

  wait_if-NotNull : (b d r : Bool) (c : Conn) → NotNull (wait_if b d r c)
  unfolding wait_if
  wait_if-NotNull true true r c = tt
  wait_if-NotNull true false true c = tt
  wait_if-NotNull true false false c = tt
  wait_if-NotNull false d r c = tt

  pub keep_left-NotNull :
      (conf : Conf) (left : ℕ) (c : Conn) (req : Request)
      → NotNull (keep_left w conf (left, c, req))
  unfolding keep_left keep_idle
  keep_left-NotNull conf left c req = elim (Bool-cases (left == 0)) [
    | inl z ↦ simp (z, keep_left, keep_idle) (wait_if-NotNull _ _ _ _)
    | inr z ↦ simp (z, keep_left) (keep_pipelined-NotNull c req left req.request_body)
  ]

  module _ (answers : List Lingering) (conf : Conf) where
    linger_add-Sane : (c : Conn) (req : Request) → Sane (linger_add w conf c req)
    unfolding linger_add
    linger_add-Sane c req =
        elim (Bool-cases (event_add w.add_rev own c.rev conf.lingering_timeout).0) [
          | inl a ↦ simp (a, linger_add) tt
          | inr a ↦ simp (a, linger_add) (close_request-Sane c req)
        ]

    linger_del-Sane : (c : Conn) (req : Request) → Sane (linger_del w c req)
    unfolding linger_del
    linger_del-Sane c req = elim (Bool-cases (event_del w.del_wev own c.wev).0) [
      | inl a ↦ simp (a, linger_del) tt
      | inr a ↦ simp (a, linger_del) (close_request-Sane c req)
    ]

    pub lingering-NotNull :
        (c : Conn) (req : Request) → NotNull (set_lingering_close w answers conf c req)
    unfolding set_lingering_close
    lingering-NotNull c req =
        carry_on-NotNull (linger_add w conf starts lingers)
          (λ c req. carry_on (linger_del w c req) (linger_shutdown w answers conf))
          (linger_add-Sane starts lingers)
          (λ c req.
            carry_on-NotNull (linger_del w c req) (linger_shutdown w answers conf)
              (linger_del-Sane c req)
              (λ c req.
                Sane-NotNull (linger_shutdown w answers conf c req)
                  (shutdown-Sane w answers conf c req)))
      where
        starts : Conn
        starts = record c { rev_handler = lingering_close_handler }

        lingers : Request
        lingers = record req { lingering_time = w.now + conf.lingering_time / 1000 }

    pub linger_if-NotNull :
        (left : ℕ) (c : Conn) (req : Request)
        → NotNull (linger_if w answers conf (some (left, c, req)))
    unfolding linger_if
    linger_if-NotNull left c req = elim (Bool-cases (not (left == 0) || c.ready)) [
      | inl a ↦ simp (a, linger_if) (lingering-NotNull c req)
      | inr a ↦ simp (a, linger_if) (Sane-NotNull (close_request c req) (close_request-Sane c req))
    ]
