-- ===== src/Http/Request/Finalize.antt =====
-- How src/pg_rest_http_request.c ends a request: pgrest_http_set_lingering_close with its handler, and
-- pgrest_http_finalize_connection, which chooses between keeping the connection, lingering and
-- closing it.
use pg_rest.Base.{
  ℕ, ◌+◌, ◌-◌, ◌*◌, ◌/◌, ◌%◌, ◌^◌, Bool, true, false, not, ◌&&◌, ◌||◌, Option, none, some, List, [],
  ◌∷◌, ◌==◌, if◌then◌else◌, leb, ltb,
}
use pg_rest.Event.{own, Event, event_add, event_del}
use pg_rest.Http.Request.{
  Conf, lingering_on, lingering_always, Request, lingering_close_handler, Conn, Result, live,
  pipelined, waiting, gone, null_read, used_freed, hangs, crashes, used_closed, close_request,
  buffer_left, World,
}
use pg_rest.Http.Request.Keepalive.{set_keepalive}

-- What `pgrest_conn_recv` gives while the connection lingers: bytes, with `ready` after them, that it
-- would block, or the end or an error.
pub data Lingering : Type 0 where
  some_bytes : Bool → Lingering
  would_block no_more : Lingering

-- The loop of `pgrest_http_lingering_close_handler`: whether it ends with the connection open. The
-- answers are those of the system in order; where they end, it would block.
unfoldable pub linger_loop : List Lingering → Bool
linger_loop [] = true
linger_loop (some_bytes ready ∷ answers) = if ready then linger_loop answers else true
linger_loop (would_block ∷ answers) = true
linger_loop (no_more ∷ answers) = false

-- The handler closes, or waits for `rev` again.
unfoldable pub linger_end : Bool → Event → Conn → Request → Result
unfolding close_request
linger_end close rev c req =
    if close then close_request c req else live (record c { rev = rev; ready = false }) req

-- `pgrest_http_lingering_close_handler`, with EV_TIMEOUT in `events` or not.
unfoldable pub lingering_handler : World → List Lingering → Bool → Conf → Conn → Request → Result
unfolding linger_end event_add linger_loop
lingering_handler w answers timeout conf c req =
    let timer = (req.lingering_time - w.now) * 1000 % 2 ^ 64 in
    let add =
      event_add w.add_rev own c.rev
        (if ltb conf.lingering_timeout timer then conf.lingering_timeout else timer) in
    linger_end (timeout || leb req.lingering_time w.now || not (linger_loop answers) || not add.0)
      add.1 c req

-- What follows a call in `pgrest_http_set_lingering_close` that does not return when it fails: the
-- socket of a connection that was closed cannot be shut down, so the request is closed again.
unfoldable pub carry_on : Result → (Conn → Request → Result) → Result
carry_on (live c req) step = step c req
carry_on (pipelined c req) step = pipelined c req
carry_on (waiting c) step = waiting c
carry_on gone step = used_freed
carry_on null_read step = null_read
carry_on used_freed step = used_freed
carry_on hangs step = hangs
carry_on crashes step = crashes
carry_on used_closed step = used_closed

unfoldable pub linger_add : World → Conf → Conn → Request → Result
unfolding event_add close_request
linger_add w conf c req =
    let add = event_add w.add_rev own c.rev conf.lingering_timeout in
    if add.0 then live (record c { rev = add.1 }) req else close_request c req

unfoldable pub linger_del : World → Conn → Request → Result
unfolding event_del close_request
linger_del w c req =
    let del = event_del w.del_wev own c.wev in
    if del.0 then live (record c { wev = del.1 }) req else close_request c req

unfoldable pub linger_shutdown : World → List Lingering → Conf → Conn → Request → Result
unfolding lingering_handler close_request
linger_shutdown w answers conf c req =
    if w.shutdown
    then if c.ready then lingering_handler w answers false conf c req else live c req
    else close_request c req

-- `pgrest_http_set_lingering_close`
unfoldable pub set_lingering_close : World → List Lingering → Conf → Conn → Request → Result
unfolding carry_on linger_add linger_del linger_shutdown
set_lingering_close w answers conf c req =
    let started = record req { lingering_time = w.now + conf.lingering_time / 1000 } in
    carry_on (linger_add w conf (record c { rev_handler = lingering_close_handler }) started)
      (λ c req. carry_on (linger_del w c req) (linger_shutdown w answers conf))

-- The bytes that are left, or the socket that is ready, decide whether the connection lingers.
unfoldable pub linger_if : World → List Lingering → Conf → Option (ℕ × Conn × Request) → Result
unfolding set_lingering_close close_request
linger_if w answers conf none = null_read
linger_if w answers conf (some (left, c, req)) =
    if not (left == 0) || c.ready
    then set_lingering_close w answers conf c req
    else close_request c req

-- The tests of `pgrest_http_finalize_connection` in order: to keep the connection, to let it linger,
-- to let it linger if bytes are left, and the close that is left.
unfoldable pub choose {ℓ} : {A : Type ℓ} → Bool → Bool → Bool → A → A → A → A → A
choose keep linger ask kept lingering asking closing =
    if keep then kept else if linger then lingering else if ask then asking else closing

abbrev pub keeps : World → Conf → Request → Bool
keeps w conf req = not w.terminate && req.keepalive && ltb 0 conf.keepalive_timeout

abbrev pub lingers : Conf → Request → Bool
lingers conf req =
    (conf.lingering_close == lingering_always)
    || ((conf.lingering_close == lingering_on) && req.lingering_close)

-- `pgrest_http_finalize_connection`, with the settings of the request.
unfoldable pub finalize_with : World → List Lingering → Conf → Conn → Request → Result
unfolding choose set_keepalive set_lingering_close linger_if buffer_left close_request
finalize_with w answers conf c req =
    choose (keeps w conf req) (lingers conf req) (conf.lingering_close == lingering_on)
      (set_keepalive w conf c req) (set_lingering_close w answers conf c req)
      (linger_if w answers conf (buffer_left c req)) (close_request c req)

-- Every branch reads the settings.
unfoldable pub finalize_conf : World → List Lingering → Option Conf → Conn → Request → Result
unfolding finalize_with
finalize_conf w answers none c req = null_read
finalize_conf w answers (some conf) c req = finalize_with w answers conf c req

-- `pgrest_http_finalize_connection`
unfoldable pub finalize_connection : World → List Lingering → Conn → Request → Result
unfolding finalize_conf close_request
finalize_connection w answers c req =
    if req.count == 1 then finalize_conf w answers req.http_conf c req else close_request c req

-- `pgrest_http_finalize_request`: the status is not used.
unfoldable pub finalize_request : World → List Lingering → Conn → Request → ℕ → Result
unfolding finalize_connection
finalize_request w answers c req rc = finalize_connection w answers c req
