-- ===== src/Http/Request/Tests.antt =====
-- Runs of the end of a request of src/pg_rest_http_request.c.
use pg_rest.Base.{◌≡◌, ◌↔◌, ◌⊎◌, refl, true, false, none, some, [], ◌∷◌, arith}
use pg_rest.Text.{Bytes}
use pg_rest.Buffer.{Buffer, buffer_reserve}
use pg_rest.Buffer.Contents.{contents}
use pg_rest.Event.{own, Event, event_add, event_del}
use pg_rest.Http.Request.{
  Conf, Conn, Request, Result, World, pipelined, null_read, used_freed, header_handler, new_request,
  whole, lingering_on,
}
use pg_rest.Http.Request.Keepalive.{set_keepalive}
use pg_rest.Http.Request.Finalize.{set_lingering_close, finalize_request, finalize_connection}
use pg_rest.Http.Request.Following.{IsKind, Continues, following}
use pg_rest.Http.Request.Pipeline.{set_keepalive-Continues}
use pg_rest.Http.Request.Freed.{set_lingering_close-freed}
use pg_rest.Http.Request.Extend.{extended, extend_header_buffer}
use pg_rest.Http.Request.Extend.Room.{Extends, extend_header_buffer-Extends}
use pg_rest.Http.Request.Null.{Blind, finalize_connection-null}

abbrev kind_world : World
kind_world = record {
  os = record {
    grant = λ n. true;
    junk = 0;
    pagesize = 4096;
    mkstemp = none;
    posix_fallocate = λ fd n. true;
    mmap = λ fd n. true;
  };
  created = true;
  add_rev = true;
  del_rev = true;
  del_wev = true;
  tcp_options = true;
  shutdown = true;
  now = 0;
  terminate = false;
}

kind_world-IsKind : IsKind kind_world
kind_world-IsKind = record { created = refl; added = refl; deleted = refl; tcp_options = refl }

abbrev conf : Conf
conf = record {
  keepalive_timeout = 75000;
  lingering_close = lingering_on;
  lingering_time = 30000;
  lingering_timeout = 5000;
}

abbrev idle : Event
idle = record { pending = false; timeout = none }

-- Four bytes, of which the request has three.
abbrev two_requests : Conn
two_requests = record {
  buffer = record { capacity = 4; size = 4; pos = 0; fd = none; start = 1 ∷ 2 ∷ 3 ∷ 4 ∷ [] };
  parse = false;
  prev_size = 4;
  rev = idle;
  wev = idle;
  rev_handler = header_handler;
  sent = 0;
  ready = false;
  destroyed = false;
  idle = false;
  reusable = false;
}

abbrev first : Request
first = record new_request {
  http_conf = some conf;
  request_body = some whole;
  request_length = 3;
  keepalive = true;
}

left_over : Result → Bytes
left_over (pipelined c req) = contents c.buffer
left_over _ = []

pipeline_run : left_over (finalize_request kind_world [] two_requests first 200) ≡ 4 ∷ []
unfolding left_over finalize_request
pipeline_run = refl

set_keepalive-Continues_example :
    Continues kind_world two_requests
      (following two_requests first (some whole))
      (some whole)
      (set_keepalive kind_world conf two_requests first)
set_keepalive-Continues_example =
    set_keepalive-Continues kind_world conf two_requests first kind_world-IsKind refl
      (record { inside = omega arith; block = refl; in_range = omega arith }, omega arith)

set_lingering_close-freed_example :
    (set_lingering_close (record kind_world { add_rev = false }) [] conf two_requests first
      ≡ used_freed)
    ↔ (((event_add false own idle 5000).0 ≡ false) ⊎ ((event_del true own idle).0 ≡ false))
set_lingering_close-freed_example =
    set_lingering_close-freed (record kind_world { add_rev = false }) [] conf two_requests first
      refl

-- A request that asks to be kept and was refused before its body was known.
abbrev refused_early : Request
refused_early = record new_request { http_conf = some conf; keepalive = true }

finalize_connection-null_example :
    (finalize_connection kind_world [] two_requests refused_early ≡ null_read)
    ↔ Blind kind_world refused_early (some conf)
finalize_connection-null_example =
    finalize_connection-null kind_world [] two_requests refused_early refl

-- The second of two requests fills half of the buffer, up to its end.
abbrev half_full : Buffer
half_full = record { capacity = 4; size = 2; pos = 2; fd = none; start = 1 ∷ 2 ∷ 3 ∷ 4 ∷ [] }

half_full_run : extend_header_buffer kind_world.os 100 half_full ≡ extended half_full
unfolding extend_header_buffer buffer_reserve
half_full_run = refl

extend_header_buffer-Extends_example :
    Extends kind_world.os 100 half_full (extend_header_buffer kind_world.os 100 half_full)
extend_header_buffer-Extends_example =
    extend_header_buffer-Extends kind_world.os 100 half_full
      (record { inside = omega arith; block = refl; in_range = omega arith }) refl refl
      (omega arith) (omega arith)
