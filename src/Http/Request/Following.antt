-- ===== src/Http/Request/Following.antt =====
-- What a connection of src/pg_rest_http_request.c that is kept owes to the bytes received.
use pg_rest.Base.{
  ℕ, ◌+◌, ◌-◌, ◌%◌, ◌^◌, ◌≤◌, ◌<◌, ◌≡◌, ◌≢◌, refl, ap, ◌∙◌, true, false, Option, none, some, [],
  ◌∷◌, ◌==◌, arith, inl, inr, Bool-cases, length, drop,
}
use pg_rest.Text.{Bytes}
use pg_rest.Buffer.{Buffer, Iovec, reserved, buffer_reserve, consume, reset}
use pg_rest.Buffer.Contents.{IsValid, contents, length-contents}
use pg_rest.Http.Request.{
  Body, whole, split_off, Request, Conn, Result, live, pipelined, waiting, gone, null_read,
  used_freed, hangs, crashes, used_closed, new_request, World,
}

-- The bytes that follow the request: in the buffer of the connection, or in that of the body that
-- was split off.
unfoldable pub following : Conn → Request → Option Body → Bytes
following c req none = drop req.request_length (contents c.buffer)
following c req (some whole) = drop req.request_length (contents c.buffer)
following c req (some (split_off buf len)) = drop len (contents buf)

-- The request was received: what the code takes it to be long is in a valid buffer.
abbrev pub IsReceived : Conn → Request → Option Body → Type 0
IsReceived c req none =
    (req.header_only ≡ true) × IsValid c.buffer × (req.request_length ≤ c.buffer.size)
IsReceived c req (some whole) = IsValid c.buffer × (req.request_length ≤ c.buffer.size)
IsReceived c req (some (split_off buf len)) =
    (req.header_only ≡ false)
    × IsValid buf
    × (len ≤ buf.size)
    × (buf.size < 2 ^ 63)
    × IsValid c.buffer
    × (c.buffer.fd ≡ none)
    × (0 < c.buffer.capacity)
    × (c.buffer.capacity < 2 ^ 63)

-- The next request can be created, and libevent and the socket refuse nothing.
pub record IsKind (w : World) : Type 0 where
  pub created : w.created ≡ true
  pub added : w.add_rev ≡ true
  pub deleted : w.del_wev ≡ true
  pub tcp_options : w.tcp_options ≡ true

-- The reservation for the bytes of a split body gives NULL.
abbrev pub Denied : World → Conn → Option Body → Type 0
Denied w c none = ⊥
Denied w c (some whole) = ⊥
Denied w c (some (split_off buf len)) =
    (b : Buffer) × (v : Iovec) × (buffer_reserve w.os (reset c.buffer) (consume buf len).size
      ≡ reserved b v)
    × (v.base ≡ none)

unfoldable pub Continues : World → Conn → Bytes → Option Body → Result → Type 0
Continues w c rest body (pipelined d r) =
    (rest ≢ [])
    × IsValid d.buffer
    × (contents d.buffer ≡ rest)
    × (d.parse ≡ true)
    × (r ≡ record new_request { pipeline = true })
Continues w c rest body (waiting d) =
    (rest ≡ [])
    × (d.buffer.size ≡ 0)
    × (d.buffer.pos ≡ 0)
    × (d.parse ≡ false)
    × (d.rev.pending ≡ true)
Continues w c rest body gone = Denied w c body
Continues w c rest body used_closed = ⊥
Continues w c rest body crashes = (n : ℕ) × (w.os.grant n ≡ false)
Continues w c rest body (live d r) = ⊥
Continues w c rest body null_read = ⊥
Continues w c rest body used_freed = ⊥
Continues w c rest body hangs = ⊥

pub consume_all :
    (b : Buffer) (n : ℕ) → IsValid b → n ≤ b.size → (consume b n).size ≡ 0 → (consume b n).pos ≡ 0
unfolding consume reset
consume_all b n valid le z = elim (Bool-cases (b.size == n)) [
  | inl e ↦ rw (e, consume, reset) refl
  | inr e ↦ absurd (wrong e (rw (e, consume, reset) at z))
]
  where
    wrong : (b.size == n) ≡ false → (b.size + (2 ^ 64 - n)) % 2 ^ 64 ≡ 0 → ⊥
    wrong e z = ground (arith, valid.inside, valid.in_range, le)

no_bytes : (xs : Bytes) → length xs ≡ 0 → xs ≡ []
no_bytes [] e = refl
no_bytes (x ∷ xs) e = absurd (omega (arith, e))

pub some_bytes : (xs : Bytes) → length xs ≢ 0 → xs ≢ []
some_bytes xs ne e = ne (ap length e)

pub zero_size : (b : Buffer) → (b.size == 0) ≡ true → b.size ≡ 0
zero_size b z = ground arith

pub empty_contents : (b : Buffer) → IsValid b → (b.size == 0) ≡ true → contents b ≡ []
empty_contents b valid z = no_bytes (contents b) (length-contents b valid ∙ zero_size b z)

pub nonempty_contents : (b : Buffer) → IsValid b → (b.size == 0) ≡ false → contents b ≢ []
nonempty_contents b valid z = some_bytes (contents b) (λ e. ground (arith, length-contents b valid))
