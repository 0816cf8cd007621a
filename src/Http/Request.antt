-- ===== src/Http/Request.antt =====
-- The life of a request in src/pg_rest_http_request.c. `header_in` of the request and `buffer` of
-- its connection are one buffer, and so is the buffer of a body that is not split off. A pool is
-- whether it is there, and an event handler its name. What the system, libevent and the memory
-- context answer are parameters.
pub mod Keepalive
pub mod Finalize
pub mod Following
pub mod Carry
pub mod Pipeline
pub mod Freed
pub mod NotNull
pub mod Null
pub mod Extend
mod Tests
use pg_rest.Base.{
  ℕ, ◌+◌, ◌-◌, ◌*◌, ◌/◌, ◌%◌, ◌^◌, Bool, true, false, not, ◌&&◌, ◌||◌, Option, none, some, List, [],
  ◌∷◌, ◌==◌, if◌then◌else◌, leb, ltb, take, drop,
}
use pg_rest.Text.{Bytes}
use pg_rest.Buffer.{
  Buffer, Os, Reserved, Iovec, reserved, looping, null_write, buffer_reserve, consume, reset,
}
use pg_rest.Buffer.Contents.{contents}
use pg_rest.Event.{Event, event_add, event_del}
use pg_rest.Http.Body.Arrive.{arrive}

-- The fields of `pgrest_conf_http_server_t` that the routines read.
pub record Conf : Type 0 where
  pub keepalive_timeout : ℕ
  pub lingering_close : ℕ
  pub lingering_time : ℕ
  pub lingering_timeout : ℕ

-- `PGREST_HTTP_LINGERING_ON` and `PGREST_HTTP_LINGERING_ALWAYS`
abbrev pub lingering_on : ℕ
lingering_on = 1

abbrev pub lingering_always : ℕ
lingering_always = 2

-- `pgrest_http_request_body_t`: in the buffer of the header, or split off, with `entity.len`.
pub data Body : Type 0 where
  whole : Body
  split_off : Buffer → ℕ → Body

-- `struct pgrest_http_request_s`
pub record Request : Type 0 where
  pub pool : Bool
  pub http_conf : Option Conf
  pub request_body : Option Body
  pub request_length : ℕ
  pub count : ℕ
  pub status : ℕ
  pub lingering_time : ℕ
  pub pipeline : Bool
  pub header_only : Bool
  pub keepalive : Bool
  pub lingering_close : Bool

-- The handlers of reading that a connection goes through.
pub data Stage : Type 0 where
  header_handler keepalive_handler lingering_close_handler : Stage

-- `struct pgrest_connection_s` with its `pgrest_http_connection_t`. `rev` and `wev` are the events that
-- its two pointers lead to: the model takes them not to be NULL.
pub record Conn : Type 0 where
  pub buffer : Buffer
  pub parse : Bool
  pub prev_size : ℕ
  pub rev : Event
  pub wev : Event
  pub rev_handler : Stage
  pub sent : ℕ
  pub ready : Bool
  pub destroyed : Bool
  pub idle : Bool
  pub reusable : Bool

-- What a routine leaves: the connection with its request, with the next request of a pipeline, or
-- waiting for one; a connection that was closed, with its request freed; a read of the settings
-- or the body through NULL; the
-- use of a request that was freed; a reservation that does not return; or an event made active on a
-- connection that was closed.
pub data Result : Type 0 where
  live : Conn → Request → Result
  pipelined : Conn → Request → Result
  waiting : Conn → Result
  gone : Result
  null_read : Result
  used_freed : Result
  hangs crashes : Result
  used_closed : Result

-- `count--` of a field of 16 bits.
unfoldable pub drop_count : ℕ → ℕ
drop_count count = (count + 0xffff) % 0x10000

-- `pgrest_http_close_request`: the last reference frees the request and closes the connection.
unfoldable pub close_request : Conn → Request → Result
unfolding drop_count
close_request c req =
    if drop_count req.count == 0 then gone else live c (record req { count = drop_count req.count })

-- `pgrest_http_free_request`, for the connection that stays: its request is destroyed.
unfoldable pub free_request : Conn → Conn
free_request c = record c { destroyed = true }

-- `pgrest_http_create_request`: a new request is zeroed but for these fields.
abbrev pub new_request : Request
new_request = record {
  pool = true;
  http_conf = none;
  request_body = none;
  request_length = 0;
  count = 1;
  status = 0;
  lingering_time = 0;
  pipeline = false;
  header_only = false;
  keepalive = false;
  lingering_close = false;
}

unfoldable pub create_request : Bool → Option Request
create_request granted = if granted then some new_request else none

-- The part of `pgrest_http_buffer_left` for a request whose bytes are all in one buffer.
unfoldable pub left_whole : Conn → Request → ℕ × Conn × Request
unfolding consume
left_whole c req =
    let buf = consume c.buffer req.request_length in (buf.size, record c { buffer = buf }, req)

-- The part for a body that was split off.
unfoldable pub left_split : Conn → Request → Buffer → ℕ → ℕ × Conn × Request
unfolding consume reset
left_split c req buf len =
    let rest = consume buf len in
    (
      rest.size,
      record c { buffer = reset c.buffer },
      record req { request_body = some (split_off rest len) },
    )

unfoldable pub left_body : Conn → Request → Option Body → Option (ℕ × Conn × Request)
unfolding left_whole left_split
left_body c req none = none
left_body c req (some whole) = some (left_whole c req)
left_body c req (some (split_off buf len)) = some (left_split c req buf len)

-- `pgrest_http_buffer_left`: the bytes left and what it made of the buffers; `none` is a read of
-- `request_body->buffer` where `request_body` is NULL.
unfoldable pub buffer_left : Conn → Request → Option (ℕ × Conn × Request)
unfolding left_whole left_body
buffer_left c req =
    if req.header_only then some (left_whole c req) else left_body c req req.request_body

-- What the system, libevent and the memory context answer, and `pgrest_worker_terminate`.
pub record World : Type 0 where
  pub os : Os
  pub created : Bool
  pub add_rev : Bool
  pub del_rev : Bool
  pub del_wev : Bool
  pub tcp_options : Bool
  pub shutdown : Bool
  pub now : ℕ
  pub terminate : Bool
