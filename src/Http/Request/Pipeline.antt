-- ===== src/Http/Request/Pipeline.antt =====
-- What `pgrest_http_set_keepalive` of src/pg_rest_http_request.c keeps of the bytes received.
use pg_rest.Base.{ℕ, ◌≡◌, refl, ap, ◌∙◌, true, false, Option, none, some, inl, inr, Bool-cases}
use pg_rest.Buffer.{Buffer}
use pg_rest.Http.Request.{
  Conf, Body, whole, split_off, Request, Conn, buffer_left, left_body, left_whole, left_split,
  World,
}
use pg_rest.Http.Request.Keepalive.{keep_pipelined, set_keepalive}
use pg_rest.Http.Request.Following.{following, IsReceived, IsKind, Continues}
use pg_rest.Http.Request.Carry.{whole-Continues, split-Continues}

-- What `buffer_left` reads, by the body.
buffer_left-none :
    (d : Conn) (req : Request)
    → req.header_only ≡ true
    → buffer_left d req ≡ some (left_whole d req)
unfolding buffer_left
buffer_left-none d req h = simp (h, buffer_left) refl

buffer_left-whole :
    (d : Conn) (req : Request)
    → req.request_body ≡ some whole
    → buffer_left d req ≡ some (left_whole d req)
unfolding buffer_left left_body
buffer_left-whole d req e = elim (Bool-cases req.header_only) [
  | inl h ↦ simp (h, buffer_left) refl
  | inr h ↦ simp (h, buffer_left) (ap (left_body d req) e)
]

pub buffer_left-body :
    (d : Conn) (req : Request)
    → req.header_only ≡ false
    → buffer_left d req ≡ left_body d req req.request_body
unfolding buffer_left
buffer_left-body d req h = simp (h, buffer_left) refl

buffer_left-split :
    (d : Conn) (req : Request) (buf : Buffer) (len : ℕ)
    → req.header_only ≡ false
    → req.request_body ≡ some (split_off buf len)
    → buffer_left d req ≡ some (left_split d req buf len)
unfolding left_body
buffer_left-split d req buf len h e = buffer_left-body d req h ∙ ap (left_body d req) e

by_body :
    (w : World) (conf : Conf) (c : Conn) (req : Request) (body : Option Body)
    → IsKind w
    → req.count ≡ 1
    → req.request_body ≡ body
    → IsReceived c req body
    → Continues w c (following c req body) body (set_keepalive w conf c req)
unfolding set_keepalive following keep_pipelined
by_body w conf c req none kind one e (h, valid, le) =
    rw (buffer_left-none (record c { prev_size = 0 }) req h, set_keepalive)
      (whole-Continues w kind conf c req none valid le
        (λ d left. ap (keep_pipelined w d req left) e))
by_body w conf c req (some whole) kind one e (valid, le) =
    rw (buffer_left-whole (record c { prev_size = 0 }) req e, set_keepalive)
      (whole-Continues w kind conf c req (some whole) valid le
        (λ d left. ap (keep_pipelined w d req left) e))
by_body w conf c req (some (split_off buf len)) kind one e got =
    rw (buffer_left-split (record c { prev_size = 0 }) req buf len got.0 e, set_keepalive)
      (split-Continues w kind conf c req buf len one got)

-- A request with one reference whose bytes were received, of a connection that nothing is refused: the
-- connection is kept with exactly the bytes that follow the request. If there are some, the next
-- request is created on them, the buffer of the connection holds them and nothing else, also where
-- they stood behind a body that was split off, and they are to be parsed before anything is read. If
-- there are none, the buffer is empty at its start, as the handler that waits requires, and the
-- event for reading is pending. The connection is lost only if there is no room for the bytes behind
-- a split body.
pub set_keepalive-Continues :
    (w : World) (conf : Conf) (c : Conn) (req : Request)
    → IsKind w
    → req.count ≡ 1
    → IsReceived c req req.request_body
    → Continues w c (following c req req.request_body) req.request_body (set_keepalive w conf c req)
set_keepalive-Continues w conf c req kind one got =
    by_body w conf c req req.request_body kind one refl got
