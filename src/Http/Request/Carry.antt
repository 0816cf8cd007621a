-- ===== src/Http/Request/Carry.antt =====
-- How `pgrest_http_set_keepalive` of src/pg_rest_http_request.c goes on with the bytes left.
use pg_rest.Base.{
  ℕ, ◌+◌, ◌^◌, ◌≤◌, ◌<◌, ◌≡◌, ◌≢◌, refl, ap, sym, ◌∙◌, subst, true, false, Option, none, some, [],
  ◌++◌, ◌==◌, arith, inl, inr, Bool-cases, length, drop, length-drop,
}
use pg_rest.Text.{Bytes}
use pg_rest.Buffer.{Buffer, Reserved, reserved, looping, null_write, buffer_reserve, consume, reset}
use pg_rest.Buffer.Contents.{IsValid, contents, length-contents, consume-contents}
use pg_rest.Buffer.Reserve.{Kept, Room, buffer_reserve-Kept}
use pg_rest.Event.{event_add-granted, event_del-granted}
use pg_rest.Http.Body.Arrive.{arrive, arrive-contents, arrive-IsValid}
use pg_rest.Http.Request.{
  Conf, Body, split_off, Request, Conn, close_request, drop_count, create_request, free_request,
  left_whole, left_split, World,
}
use pg_rest.Http.Request.Keepalive.{
  next_request, carry, keep_pipelined, keep_idle, wait_if, keep_left,
}
use pg_rest.Http.Request.Following.{
  IsReceived, IsKind, Continues, consume_all, zero_size, empty_contents, nonempty_contents,
}

module _ (w : World) (kind : IsKind w) where
  -- Where no bytes are left the connection waits.
  keep_idle-waits :
      (conf : Conf) (c : Conn) (before : Conn) (rest : Bytes) (body : Option Body)
      → rest ≡ []
      → c.buffer.size ≡ 0
      → c.buffer.pos ≡ 0
      → c.parse ≡ false
      → Continues w before rest body (keep_idle w conf c)
  unfolding Continues keep_idle wait_if
  keep_idle-waits conf c before rest body none_left size pos parse =
      let add = event_add-granted w.add_rev c.rev conf.keepalive_timeout kind.added in
      let del = event_del-granted w.del_wev c.wev kind.deleted in
      simp (del.0, kind.tcp_options, add.0, keep_idle) (none_left, size, pos, parse, add.1)

  -- Where bytes are left the next request is made of them.
  next_request-pipelines :
      (c before : Conn) (rest : Bytes) (body : Option Body)
      → rest ≢ []
      → IsValid c.buffer
      → contents c.buffer ≡ rest
      → c.parse ≡ true
      → Continues w before rest body (next_request w c)
  unfolding Continues next_request create_request
  next_request-pipelines c before rest body some_left valid same parse =
      simp (kind.created, next_request, create_request) (some_left, valid, same, parse, refl)

  -- The bytes of a request that is in one buffer.
  pub whole-Continues :
      (conf : Conf) (c : Conn) (req : Request) (body : Option Body)
      → IsValid c.buffer
      → req.request_length ≤ c.buffer.size
      → ((d : Conn) (left : ℕ)
          → keep_pipelined w d req left req.request_body
            ≡ next_request w (free_request (record d { parse = true })))
      → Continues w c
          (drop req.request_length (contents c.buffer))
          body
          (keep_left w conf (left_whole (record c { prev_size = 0 }) req))
  unfolding keep_left left_whole free_request
  whole-Continues conf c req body valid le plain =
      elim (Bool-cases ((consume c.buffer req.request_length).size == 0)) [
        | inl z ↦
            simp (z, keep_left, left_whole)
              (keep_idle-waits conf
                (free_request (record c { buffer = rest; parse = false; prev_size = 0 })) c
                (drop req.request_length (contents c.buffer)) body
                (sym kept.1 ∙ empty_contents rest kept.0 z) (zero_size rest z)
                (consume_all c.buffer req.request_length valid le (zero_size rest z)) refl)
        | inr z ↦
            simp (z, plain, keep_left, left_whole)
              (next_request-pipelines
                (free_request (record c { buffer = rest; parse = true; prev_size = 0 })) c
                (drop req.request_length (contents c.buffer)) body
                (subst (λ xs. xs ≢ []) kept.1 (nonempty_contents rest kept.0 z)) kept.0 kept.1 refl)
      ]
    where
      rest : Buffer
      rest = consume c.buffer req.request_length

      kept : IsValid rest × (contents rest ≡ drop req.request_length (contents c.buffer))
      kept = consume-contents c.buffer req.request_length valid le

  -- The bytes behind a split body, moved to the buffer of the connection.
  carry-Continues :
      (d c : Conn) (req : Request) (buf : Buffer) (len left : ℕ) (bytes : Bytes) (r : Reserved)
      → req.count ≡ 1
      → d.buffer ≡ reset c.buffer
      → left ≡ (consume buf len).size
      → length bytes ≡ left
      → bytes ≢ []
      → c.buffer.fd ≡ none
      → buffer_reserve w.os (reset c.buffer) left ≡ r
      → Kept w.os (reset c.buffer) left r
      → Continues w c bytes (some (split_off buf len)) (carry w d req bytes r)
  unfolding Continues carry Kept close_request drop_count free_request reset
  carry-Continues d c req buf len left bytes (reserved b v) one db n l some_left fd e
        (valid, same, inl none_base) =
      simp (none_base, one, carry, close_request, drop_count)
        (b, v, subst (λ z. buffer_reserve w.os (reset c.buffer) z ≡ reserved b v) n e, none_base)
  carry-Continues d c req buf len left bytes (reserved b v) one db n l some_left fd e
        (valid, same, inr (at, long, room)) =
      simp (at, carry)
        (next_request-pipelines (free_request (record d { buffer = arrive b bytes; parse = true }))
          c bytes (some (split_off buf len)) some_left (arrive-IsValid b bytes valid fits)
          (arrive-contents b bytes valid fits ∙ ap (λ z. z ++ bytes) same) refl)
    where
      fits : b.pos + b.size + length bytes ≤ b.capacity
      fits = omega (arith, long, l, subst (λ z. Room z left v.len) fd room)
  carry-Continues d c req buf len left bytes looping one db n l some_left fd e kept = kept
  carry-Continues d c req buf len left bytes null_write one db n l some_left fd e kept = kept

  pub split-Continues :
      (conf : Conf) (c : Conn) (req : Request) (buf : Buffer) (len : ℕ)
      → req.count ≡ 1
      → IsReceived c req (some (split_off buf len))
      → Continues w c
          (drop len (contents buf))
          (some (split_off buf len))
          (keep_left w conf (left_split (record c { prev_size = 0 }) req buf len))
  unfolding keep_left left_split keep_pipelined free_request
  split-Continues conf c req buf len one (_, valid, le, small, valid_c, fd, pos, bound) =
      elim (Bool-cases (rest.size == 0)) [
        | inl z ↦
            simp (z, keep_left, left_split)
              (keep_idle-waits conf
                (free_request (record c { buffer = reset c.buffer; parse = false; prev_size = 0 }))
                c (drop len (contents buf)) (some (split_off buf len))
                (sym kept.1 ∙ empty_contents rest kept.0 z) refl refl refl)
        | inr z ↦
            simp (z, keep_left, left_split, keep_pipelined)
              (subst
                (λ xs. Continues w c xs (some (split_off buf len)) (
                  carry w (record c { buffer = reset c.buffer; prev_size = 0 })
                    (record req { request_body = some (split_off rest len) }) (contents rest)
                    (buffer_reserve w.os (reset c.buffer) rest.size)))
                kept.1
                (carry-Continues (record c { buffer = reset c.buffer; prev_size = 0 }) c
                  (record req { request_body = some (split_off rest len) }) buf len rest.size
                  (contents rest) (buffer_reserve w.os (reset c.buffer) rest.size) one refl refl
                  (length-contents rest kept.0) (nonempty_contents rest kept.0 z) fd refl
                  (buffer_reserve-Kept w.os (reset c.buffer) rest.size valid_reset pos bound
                    (omega (arith, small_rest)))))
      ]
    where
      rest : Buffer
      rest = consume buf len

      kept : IsValid rest × (contents rest ≡ drop len (contents buf))
      kept = consume-contents buf len valid le

      small_rest : rest.size < 2 ^ 63
      small_rest = omega (
        arith,
        ap (length {A = ℕ}) kept.1,
        length-contents rest kept.0,
        length-drop len (contents buf),
        length-contents buf valid,
        small,
      )

      valid_reset : IsValid (reset c.buffer)
      valid_reset = record {
        inside = omega arith;
        block = valid_c.block;
        in_range = valid_c.in_range;
      }
