-- ===== src/Http/Request/Null.antt =====
-- When src/pg_rest_http_request.c reads through NULL as it ends a request.
use pg_rest.Base.{
  ◌<◌, ◌⊎◌, ltb, not, ◌&&◌, ◌||◌, arith, ltb→lt, lt→ltb, ℕ, ◌≡◌, ◌↔◌, refl, ap, sym, ◌∙◌, subst,
  Bool, true, false, Option, none, some, List, ◌==◌, inl, inr, Bool-cases, Option-cases, ==_iff,
  if◌then◌else◌,
}
use mathlib.Core.Bool.{false≢true}
use mathlib.Core.Option.{none-ne-some}
use pg_rest.Http.Request.{
  Conf, Body, whole, split_off, Request, Conn, Result, null_read, close_request, buffer_left,
  left_body, World, lingering_on, lingering_always,
}
use pg_rest.Http.Request.Keepalive.{keep_left, set_keepalive}
use pg_rest.Http.Request.Finalize.{
  Lingering, set_lingering_close, linger_if, choose, keeps, lingers, finalize_with, finalize_conf,
  finalize_connection,
}
use pg_rest.Http.Request.Pipeline.{buffer_left-body}
use pg_rest.Http.Request.Freed.{close_request-Sane}
use pg_rest.Http.Request.NotNull.{
  NotNull, Sane-NotNull, keep_left-NotNull, lingering-NotNull, linger_if-NotNull,
}

-- Nothing is known of the body: it was not found to be missing, and none was set up.
abbrev pub Unknown : Request → Type 0
Unknown req = (req.header_only ≡ false) × (req.request_body ≡ none)

-- The end of the request counts the bytes left to keep the connection: the worker does not end, the
-- request asks to be kept, and there is a time for it.
abbrev pub IsKept : World → Conf → Request → Type 0
IsKept w conf req = (w.terminate ≡ false) × (req.keepalive ≡ true) × (0 < conf.keepalive_timeout)

-- It counts them to see whether to linger: the connection is not kept, lingering is on, and the
-- request does not ask for it itself.
abbrev pub Asks : World → Conf → Request → Type 0
Asks w conf req =
    (IsKept w conf req → ⊥) × (conf.lingering_close ≡ lingering_on) × (req.lingering_close ≡ false)

three_tests :
    (t k : Bool) (n : ℕ) → ((not t && k && ltb 0 n) ≡ true) ↔ ((t ≡ false) × (k ≡ true) × (0 < n))
three_tests true k n = ((λ e. absurd (false≢true e)), λ u. absurd (false≢true (sym u.0)))
three_tests false false n = ((λ e. absurd (false≢true e)), λ u. absurd (false≢true u.1))
three_tests false true n = ((λ e. (refl, refl, ltb→lt 0 n e)), λ u. lt→ltb 0 n u.2)

-- The tests for lingering, where the connection is not kept.
lingering_tests :
    (l : ℕ) (r : Bool)
    → (choose false
          ((l == lingering_always) || ((l == lingering_on) && r))
          (l == lingering_on)
          true
          false
          true
          false
        ≡ true)
      ↔ ((l ≡ lingering_on) × (r ≡ false))
unfolding choose
lingering_tests l r = elim (Bool-cases (l == lingering_on)) [
  | inl u ↦ rw (u, not_always l u, choose) (on_case r ((==_iff l lingering_on).0 u))
  | inr u ↦ (
    (λ e. absurd (false≢true (sym (never _) ∙ rw (u, choose) at e))),
    λ v. absurd (false≢true (sym u ∙ (==_iff l lingering_on).1 v.0)),
  )
]
  where
    not_always : (l : ℕ) → (l == lingering_on) ≡ true → (l == lingering_always) ≡ false
    not_always l u = ground arith

    never : (b : Bool) → (if b then false else false) ≡ false
    never true = refl
    never false = refl

    on_case :
        (r : Bool)
        → l ≡ lingering_on
        → ((if r then false else true) ≡ true) ↔ ((l ≡ lingering_on) × (r ≡ false))
    on_case true e = ((λ f. absurd (false≢true f)), λ v. absurd (false≢true (sym v.1)))
    on_case false e = ((λ f. (e, refl)), λ v. refl)

chosen-Asks :
    (w : World) (conf : Conf) (req : Request)
    → (choose
          (keeps w conf req)
          (lingers conf req)
          (conf.lingering_close == lingering_on)
          true
          false
          true
          false
        ≡ true)
      ↔ (IsKept w conf req ⊎ Asks w conf req)
unfolding choose
chosen-Asks w conf req =
    let kept = three_tests w.terminate req.keepalive conf.keepalive_timeout in
    let lingering = lingering_tests conf.lingering_close req.lingering_close in
    elim (Bool-cases (keeps w conf req)) [
      | inl k ↦ rw (k, choose) ((λ e. inl (kept.0 k)), λ u. refl)
      | inr k ↦
          let unkept : IsKept w conf req → ⊥ = λ u. false≢true (sym k ∙ kept.1 u) in
          rw (k, choose)
            (
              (λ e. let v = lingering.0 e in inr (unkept, v.0, v.1)),
              λ u. elim u [ inl v ↦ absurd (unkept v) | inr v ↦ lingering.1 (v.1, v.2) ],
            )
    ]

left_body-none :
    (c : Conn) (req : Request) (body : Option Body) → left_body c req body ≡ none → body ≡ none
unfolding left_body
left_body-none c req none e = refl
left_body-none c req (some whole) e = absurd (none-ne-some _ (sym e))
left_body-none c req (some (split_off buf len)) e = absurd (none-ne-some _ (sym e))

buffer_left-Unknown : (c : Conn) (req : Request) → (buffer_left c req ≡ none) ↔ Unknown req
unfolding buffer_left
buffer_left-Unknown c req = elim (Bool-cases req.header_only) [
  | inl h ↦ (
    (λ e. absurd (none-ne-some _ (sym (simp (h, buffer_left) at e)))),
    λ u. absurd (false≢true (sym u.0 ∙ h)),
  )
  | inr h ↦ (
    (λ e. (h, left_body-none c req req.request_body (simp (h, buffer_left) at e))),
    λ u. buffer_left-body c req h ∙ ap (left_body c req) u.1,
  )
]

not_null : (r : Result) → NotNull r → r ≡ null_read → ⊥
not_null r n e = subst NotNull e n

module _ (w : World) (answers : List Lingering) (conf : Conf) where
  -- The branches that ask for what is left.
  keepalive-Unknown :
      (c : Conn) (req : Request) → (set_keepalive w conf c req ≡ null_read) ↔ Unknown req
  unfolding set_keepalive
  keepalive-Unknown c req = elim (Option-cases (buffer_left (record c { prev_size = 0 }) req)) [
    | inl e ↦ (
      (λ _. (buffer_left-Unknown (record c { prev_size = 0 }) req).0 e),
      λ _. rw (e, set_keepalive) refl,
    )
    | inr ((left, d, r), e) ↦ (
      (λ n. absurd (
          not_null (keep_left_of left d r) (keep_left-NotNull w conf left d r)
            (rw (e, set_keepalive) at n))),
      λ u. absurd (
          none-ne-some (left, d, r)
            (sym ((buffer_left-Unknown (record c { prev_size = 0 }) req).1 u) ∙ e)),
    )
  ]
    where
      keep_left_of : ℕ → Conn → Request → Result
      keep_left_of left d r = keep_left w conf (left, d, r)

  linger_if-Unknown :
      (c : Conn) (req : Request)
      → (linger_if w answers conf (buffer_left c req) ≡ null_read) ↔ Unknown req
  unfolding linger_if
  linger_if-Unknown c req = elim (Option-cases (buffer_left c req)) [
    | inl e ↦ ((λ _. (buffer_left-Unknown c req).0 e), λ _. ap (linger_if w answers conf) e)
    | inr ((left, d, r), e) ↦ (
      (λ n. absurd (
          not_null _ (linger_if-NotNull w answers conf left d r)
            (sym (ap (linger_if w answers conf) e) ∙ n))),
      λ u. absurd (none-ne-some (left, d, r) (sym ((buffer_left-Unknown c req).1 u) ∙ e)),
    )
  ]

  chosen-Unknown :
      (c : Conn) (req : Request) (keep linger ask : Bool)
      → (choose keep linger ask
            (set_keepalive w conf c req)
            (set_lingering_close w answers conf c req)
            (linger_if w answers conf (buffer_left c req))
            (close_request c req)
          ≡ null_read)
        ↔ ((choose keep linger ask true false true false ≡ true) × Unknown req)
  unfolding choose
  chosen-Unknown c req true linger ask =
      ((λ e. (refl, (keepalive-Unknown c req).0 e)), λ u. (keepalive-Unknown c req).1 u.1)
  chosen-Unknown c req false true ask = (
    (λ e. absurd (
        not_null (set_lingering_close w answers conf c req) (lingering-NotNull w answers conf c req)
          e)),
    λ u. absurd (false≢true u.0),
  )
  chosen-Unknown c req false false true =
      ((λ e. (refl, (linger_if-Unknown c req).0 e)), λ u. (linger_if-Unknown c req).1 u.1)
  chosen-Unknown c req false false false = (
    (λ e. absurd (
        not_null (close_request c req)
          (Sane-NotNull (close_request c req) (close_request-Sane c req)) e)),
    λ u. absurd (false≢true u.0),
  )

-- The connection's settings are NULL, or it ends in a way that asks for the bytes left of a request
-- of whose body nothing is known.
abbrev pub Blind : World → Request → Option Conf → Type 0
Blind w req none = Unit
Blind w req (some conf) = (IsKept w conf req ⊎ Asks w conf req) × Unknown req

conf-Blind :
    (w : World) (answers : List Lingering) (o : Option Conf) (c : Conn) (req : Request)
    → (finalize_conf w answers o c req ≡ null_read) ↔ Blind w req o
unfolding finalize_conf finalize_with
conf-Blind w answers none c req = ((λ _. tt), λ _. refl)
conf-Blind w answers (some conf) c req =
    let e =
      chosen-Unknown w answers conf c req (keeps w conf req) (lingers conf req)
        (conf.lingering_close == lingering_on) in
    let a = chosen-Asks w conf req in
    ((λ n. let u = e.0 n in (a.0 (u.0), u.1)), λ u. e.1 (a.1 (u.0), u.1))

counted :
    (w : World) (answers : List Lingering) (c : Conn) (req : Request)
    → req.count ≡ 1
    → finalize_connection w answers c req ≡ finalize_conf w answers req.http_conf c req
unfolding finalize_connection
counted w answers c req one =
    ap (λ b. if b then finalize_conf w answers req.http_conf c req else close_request c req)
      ((==_iff req.count 1).1 one)

-- With one reference, on a connection that has its two events, the end of a request reads its settings
-- or its body through NULL exactly where the request has no settings, or where nothing is known of its
-- body and either the connection is kept (the worker does not end, the request asks for it and its
-- time is not zero), or it is not, lingering is on and the request does not ask to linger: then the
-- bytes left are counted, which takes the body to be there.
pub finalize_connection-null :
    (w : World) (answers : List Lingering) (c : Conn) (req : Request)
    → req.count ≡ 1
    → (finalize_connection w answers c req ≡ null_read) ↔ Blind w req req.http_conf
finalize_connection-null w answers c req one =
    subst (λ r. (r ≡ null_read) ↔ Blind w req req.http_conf) (sym (counted w answers c req one))
      (conf-Blind w answers req.http_conf c req)
