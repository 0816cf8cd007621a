-- ===== src/Http/Request/Keepalive.antt =====
-- `pgrest_http_set_keepalive` of src/pg_rest_http_request.c.
use pg_rest.Base.{ℕ, Bool, true, false, ◌&&◌, Option, none, some, ◌==◌, if◌then◌else◌, take, drop}
use pg_rest.Text.{Bytes}
use pg_rest.Buffer.{Reserved, reserved, looping, null_write, buffer_reserve}
use pg_rest.Event.{own, timer, event_add, event_del}
use pg_rest.Http.Body.Arrive.{arrive}
use pg_rest.Http.Request.{
  Conf, Body, whole, split_off, Request, header_handler, keepalive_handler, Conn, Result, pipelined,
  waiting, gone, null_read, hangs, crashes, used_closed, close_request, free_request,
  create_request, buffer_left, World,
}

-- The next request, on the bytes that are left.
unfoldable pub next_request : World → Conn → Result
unfolding create_request event_del
next_request w c = elim (create_request w.created) [
  | none ↦ gone
  | some req ↦
      pipelined
        (record c {
          sent = 0;
          destroyed = false;
          rev = (event_del w.del_rev timer c.rev).1;
          rev_handler = header_handler;
        })
        (record req { pipeline = true })
]

-- The bytes behind a split body are copied to the buffer of the connection.
unfoldable pub carry : World → Conn → Request → Bytes → Reserved → Result
unfolding arrive close_request free_request next_request
carry w c req bytes (reserved buf v) = elim v.base [
  | none ↦ close_request (record c { buffer = buf }) req
  | some _ ↦ next_request w (free_request (record c { buffer = arrive buf bytes; parse = true }))
]
carry w c req bytes looping = hangs
carry w c req bytes null_write = crashes

-- Bytes of the next request are left.
unfoldable pub keep_pipelined : World → Conn → Request → ℕ → Option Body → Result
unfolding carry next_request free_request
keep_pipelined w c req left none = next_request w (free_request (record c { parse = true }))
keep_pipelined w c req left (some whole) = next_request w (free_request (record c { parse = true }))
keep_pipelined w c req left (some (split_off buf len)) =
    carry w c req (take left (drop buf.pos buf.start)) (buffer_reserve w.os c.buffer left)

-- The connection waits. If a call before `event_add` failed it was closed; if `event_add` failed it
-- was closed too, and where `ready` is set the code goes on to make its event active.
unfoldable pub wait_if : Bool → Bool → Bool → Conn → Result
wait_if granted added ready c =
    if granted then if added then waiting c else if ready then used_closed else gone else gone

-- No bytes are left.
unfoldable pub keep_idle : World → Conf → Conn → Result
unfolding event_add event_del wait_if
keep_idle w conf c =
    let add = event_add w.add_rev own c.rev conf.keepalive_timeout in
    let del = event_del w.del_wev own c.wev in
    wait_if (del.0 && w.tcp_options) add.0 c.ready (record c {
      rev_handler = keepalive_handler;
      rev = add.1;
      wev = del.1;
      idle = true;
      reusable = true;
    })

unfoldable pub keep_left : World → Conf → ℕ × Conn × Request → Result
unfolding keep_pipelined keep_idle free_request
keep_left w conf (left, c, req) =
    if left == 0
    then keep_idle w conf (free_request (record c { parse = false }))
    else keep_pipelined w c req left req.request_body

-- `pgrest_http_set_keepalive`
unfoldable pub set_keepalive : World → Conf → Conn → Request → Result
unfolding buffer_left keep_left
set_keepalive w conf c req = elim (buffer_left (record c { prev_size = 0 }) req) [
  | none ↦ null_read
  | some left ↦ keep_left w conf left
]
