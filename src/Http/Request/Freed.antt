-- ===== src/Http/Request/Freed.antt =====
-- Where src/pg_rest_http_request.c uses a request that it has freed.
use pg_rest.Base.{
  ◌+◌, ◌/◌, ◌≡◌, ◌⊎◌, ◌↔◌, refl, ap, sym, ◌∙◌, subst, Bool, true, false, List, ◌==◌, inl, inr,
  Bool-cases,
}
use mathlib.Core.Bool.{false≢true}
use pg_rest.Event.{own, Event, event_add, event_del}
use pg_rest.Http.Request.{
  Conf, lingering_close_handler, Request, Conn, Result, live, pipelined, waiting, gone, null_read,
  used_freed, hangs, crashes, used_closed, close_request, drop_count, World,
}
use pg_rest.Http.Request.Finalize.{
  Lingering, linger_end, lingering_handler, carry_on, linger_add, linger_del, linger_shutdown,
  set_lingering_close,
}

-- The last reference closes.
close_request-last : (c : Conn) (req : Request) → req.count ≡ 1 → close_request c req ≡ gone
unfolding close_request drop_count
close_request-last c req one = simp (one, close_request, drop_count) refl

-- A request that did not use what was freed nor read through NULL.
abbrev pub Sane : Result → Type 0
Sane (live c req) = Unit {0}
Sane (pipelined c req) = Unit {0}
Sane (waiting c) = Unit {0}
Sane gone = Unit {0}
Sane null_read = ⊥
Sane used_freed = ⊥
Sane hangs = Unit {0}
Sane crashes = Unit {0}
Sane used_closed = Unit {0}

pub close_request-Sane : (c : Conn) (req : Request) → Sane (close_request c req)
unfolding close_request
close_request-Sane c req = elim (Bool-cases (drop_count req.count == 0)) [
  | inl e ↦ rw (e, close_request) tt
  | inr e ↦ rw (e, close_request) tt
]

linger_end-Sane :
    (b : Bool) (rev : Event) (c : Conn) (req : Request) → Sane (linger_end b rev c req)
unfolding linger_end
linger_end-Sane true rev c req = close_request-Sane c req
linger_end-Sane false rev c req = tt

module _ (w : World) (answers : List Lingering) (conf : Conf) where
  handler-Sane :
      (timeout : Bool) (c : Conn) (req : Request)
      → Sane (lingering_handler w answers timeout conf c req)
  unfolding lingering_handler
  handler-Sane timeout c req = linger_end-Sane _ _ c req

  pub shutdown-Sane : (c : Conn) (req : Request) → Sane (linger_shutdown w answers conf c req)
  unfolding linger_shutdown
  shutdown-Sane c req = elim (Bool-cases w.shutdown) [
    | inl s ↦ elim (Bool-cases c.ready) [
      | inl r ↦ simp (s, r, linger_shutdown) (handler-Sane false c req)
      | inr r ↦ simp (s, r, linger_shutdown) tt
    ]
    | inr s ↦ simp (s, linger_shutdown) (close_request-Sane c req)
  ]

module _ (w : World) (answers : List Lingering) (conf : Conf) (c : Conn) (req : Request) where
  add_fails :
      req.count ≡ 1
      → (event_add w.add_rev own c.rev conf.lingering_timeout).0 ≡ false
      → set_lingering_close w answers conf c req ≡ used_freed
  unfolding set_lingering_close linger_add carry_on
  add_fails one a =
      simp (a, set_lingering_close, linger_add)
        (ap
          (λ r.
            carry_on r (λ c req. carry_on (linger_del w c req) (linger_shutdown w answers conf)))
          (close_request-last (record c { rev_handler = lingering_close_handler })
            (record req { lingering_time = w.now + conf.lingering_time / 1000 }) one))

  started : Conn
  started = record c {
    rev_handler = lingering_close_handler;
    rev = (event_add w.add_rev own c.rev conf.lingering_timeout).1;
  }

  lingers : Request
  lingers = record req { lingering_time = w.now + conf.lingering_time / 1000 }

  del_fails :
      req.count ≡ 1
      → (event_add w.add_rev own c.rev conf.lingering_timeout).0 ≡ true
      → (event_del w.del_wev own c.wev).0 ≡ false
      → set_lingering_close w answers conf c req ≡ used_freed
  unfolding set_lingering_close linger_add linger_del carry_on started lingers
  del_fails one a d =
      simp (a, d, set_lingering_close, linger_add, linger_del, carry_on)
        (ap (λ r. carry_on r (linger_shutdown w answers conf))
          (close_request-last started lingers one))

  goes_on :
      (event_add w.add_rev own c.rev conf.lingering_timeout).0 ≡ true
      → (event_del w.del_wev own c.wev).0 ≡ true
      → Sane (set_lingering_close w answers conf c req)
  unfolding set_lingering_close linger_add linger_del carry_on started lingers
  goes_on a d =
      simp (a, d, set_lingering_close, linger_add, linger_del, carry_on)
        (shutdown-Sane w answers conf (record started { wev = (event_del w.del_wev own c.wev).1 })
          lingers)

-- With one reference, a request that begins to linger is used after it was freed exactly where
-- `event_add` or `event_del` fails: those two calls close the request and do not return.
pub set_lingering_close-freed :
    (w : World) (answers : List Lingering) (conf : Conf) (c : Conn) (req : Request)
    → req.count ≡ 1
    → (set_lingering_close w answers conf c req ≡ used_freed) ↔ (
        ((event_add w.add_rev own c.rev conf.lingering_timeout).0 ≡ false)
        ⊎ ((event_del w.del_wev own c.wev).0 ≡ false))
set_lingering_close-freed w answers conf c req one =
    elim (Bool-cases (event_add w.add_rev own c.rev conf.lingering_timeout).0) [
      | inl a ↦ elim (Bool-cases (event_del w.del_wev own c.wev).0) [
        | inl d ↦ (
          (λ e. absurd (subst Sane e (goes_on w answers conf c req a d))),
          λ r. absurd (refused a d r),
        )
        | inr d ↦ ((λ e. inr d), λ r. del_fails w answers conf c req one a d)
      ]
      | inr a ↦ ((λ e. inl a), λ r. add_fails w answers conf c req one a)
    ]
  where
    refused :
        (event_add w.add_rev own c.rev conf.lingering_timeout).0 ≡ true
        → (event_del w.del_wev own c.wev).0 ≡ true
        → ((event_add w.add_rev own c.rev conf.lingering_timeout).0 ≡ false)
          ⊎ ((event_del w.del_wev own c.wev).0 ≡ false)
        → ⊥
    refused a d (inl e) = false≢true (sym e ∙ a)
    refused a d (inr e) = false≢true (sym e ∙ d)
