-- ===== src/Http/Body/Whole.antt =====
-- A chunked body that arrives behind its head, in one buffer: `pgrest_http_body_chunked` of
-- src/pg_rest_http_v1.c where `split` is not set.
use pg_rest.Base.{
  ℕ, ◌+◌, ◌-◌, ◌%◌, ◌≤◌, ◌<◌, ◌≡◌, refl, ap, sym, ◌∙◌, subst, Bool, false, some, [], ◌++◌,
  append-nil, arith, ◌==◌, length, take, drop, length-append, length-take, length-drop,
  append_assoc, take-append_self,
}
use pg_rest.Base.Int.{pos}
use pg_rest.Text.{Bytes}
use pg_rest.Array.{size_mod}
use pg_rest.Buffer.{Buffer}
use pg_rest.Buffer.Contents.{
  IsValid, contents, drop-append_before, drop-drop, take-drop, take-take_le, length-contents,
  shifted-contents,
}
use pg_rest.Http.Body.{
  Rc, ok, Request, Decoded, complete, is_unset, size_sub, write_at, body_size, body_base,
  chunked_setup, over_limit, chunked_store, chunked_finish, chunked_result, chunked_decode,
  body_chunked,
}

-- The body is complete: what was decoded before and `out` are the entity, of the announced length,
-- and the buffer holds the head, what was decoded before, `out`, and behind it the bytes `left`.
abbrev pub Whole {ℓ} :
    {Decoder : Type ℓ}
    → Request Decoder
    → Buffer
    → Bytes
    → Bytes
    → Rc × Request Decoder × Buffer
    → Type 0
Whole req buf out left r =
    (r.0 ≡ ok)
    × (take r.1.entity_len (drop r.1.entity_base r.2.start)
        ≡ drop req.request_length (take req.decode_length (contents buf)) ++ out)
    × (r.1.content_length_n ≡ pos r.1.entity_len)
    × (r.1.request_length ≡ req.decode_length + length out)
    × (contents r.2 ≡ take req.decode_length (contents buf) ++ (out ++ left))

-- The block after the new data was stored behind `dl` bytes, from the end of a head of `rl` bytes.
stored :
    (buf : Buffer) (rl dl : ℕ) (out left tail : Bytes)
    → IsValid buf
    → rl ≤ dl
    → dl ≤ buf.size
    → take
        (dl + length out - rl)
        (drop (buf.pos + rl) (take (buf.pos + dl) buf.start ++ ((out ++ left) ++ tail)))
      ≡ drop rl (take dl (contents buf)) ++ out
stored buf rl dl out left tail v le in_use =
    ap (take (dl + length out - rl)) (
      sym (drop-drop rl buf.pos (take (buf.pos + dl) buf.start ++ ((out ++ left) ++ tail)))
      ∙ ap (drop rl) (
          drop-append_before buf.pos (take (buf.pos + dl) buf.start) ((out ++ left) ++ tail)
            (omega (arith, v.inside, v.block, length-take (buf.pos + dl) buf.start)))
      ∙ ap (λ z. drop rl (z ++ ((out ++ left) ++ tail))) front
      ∙ drop-append_before rl (take dl (contents buf)) ((out ++ left) ++ tail)
          (omega (arith, le, length_front))
      ∙ ap (λ z. drop rl (take dl (contents buf)) ++ z) (append_assoc out left tail)
      ∙ sym (append_assoc (drop rl (take dl (contents buf))) out (left ++ tail)))
    ∙ take-append_self (dl + length out - rl) (drop rl (take dl (contents buf)) ++ out)
        (left ++ tail)
        (omega (
          arith,
          le,
          length_front,
          length-append (drop rl (take dl (contents buf))) out,
          length-drop rl (take dl (contents buf)),
        ))
  where
    used : buf.pos + dl - buf.pos ≡ dl
    used = omega arith

    front : drop buf.pos (take (buf.pos + dl) buf.start) ≡ take dl (contents buf)
    front =
        sym (take-drop (buf.pos + dl) buf.pos buf.start)
        ∙ ap (λ n. take n (drop buf.pos buf.start)) used
        ∙ sym (take-take_le dl buf.size (drop buf.pos buf.start) in_use)

    length_front : length (take dl (contents buf)) ≡ dl
    length_front = omega (arith, in_use, length-take dl (contents buf), length-contents buf v)

-- The buffer then.
stored_all :
    (buf : Buffer) (dl : ℕ) (out left tail : Bytes)
    → IsValid buf
    → dl ≤ buf.size
    → take
        (dl + length out + length left)
        (drop buf.pos (take (buf.pos + dl) buf.start ++ ((out ++ left) ++ tail)))
      ≡ take dl (contents buf) ++ (out ++ left)
stored_all buf dl out left tail v in_use =
    ap
      (λ z.
        take (dl + length out + length left)
          (drop buf.pos (take (buf.pos + dl) buf.start ++ (z ++ tail))))
      (sym (append-nil (out ++ left)))
    ∙ subst
        (λ n.
          take n (drop buf.pos (take (buf.pos + dl) buf.start ++ (((out ++ left) ++ []) ++ tail)))
          ≡ take dl (contents buf) ++ (out ++ left))
        (total (length-append out left))
        (subst
          (λ q.
            take (dl + length (out ++ left) - 0)
              (drop q (take (buf.pos + dl) buf.start ++ (((out ++ left) ++ []) ++ tail)))
            ≡ take dl (contents buf) ++ (out ++ left))
          at_pos (stored buf 0 dl (out ++ left) [] tail v (omega arith) in_use))
  where
    total :
        length (out ++ left) ≡ length out + length left
        → dl + length (out ++ left) - 0 ≡ dl + length out + length left
    total e = omega (arith, e)

    at_pos : buf.pos + 0 ≡ buf.pos
    at_pos = omega arith

module _ {ℓ} {Decoder : Type ℓ} (calloc : Bool) (fresh : Decoder)
    (decode : Decoder → Bytes → Decoded Decoder) where
  finish-Whole :
      (req : Request Decoder) (buf : Buffer) (d : Decoder) (out left : Bytes)
      → IsValid buf
      → req.split ≡ false
      → req.request_length ≤ req.decode_length
      → req.decode_length + length out ≤ buf.size
      → let r = chunked_store decode req buf d out left in
        Whole req buf out left (chunked_finish decode r.0 r.1 (length left))
  unfolding chunked_finish chunked_store body_size body_base size_sub write_at
  finish-Whole req buf d out left v s le fits = simp s (
    refl,
    ap
          (λ n.
            take n
              (drop (buf.pos + req.request_length) (write_at buf req.decode_length (out ++ left))))
          len_eq
        ∙ stored buf req.request_length req.decode_length out left
            (drop (buf.pos + req.decode_length + length (out ++ left)) buf.start) v le
            (omega (arith, fits)),
    refl,
    omega (arith, len_eq, le, fits, v.inside, v.in_range),
    stored_all buf req.decode_length out left
        (drop (buf.pos + req.decode_length + length (out ++ left)) buf.start) v
        (omega (arith, fits)),
  )
    where
      len_eq :
          size_sub (req.decode_length + length out) req.request_length
          ≡ req.decode_length + length out - req.request_length
      len_eq = omega (arith, le, fits, v.inside, v.in_range)

  setup-running :
      (req : Request Decoder)
      → is_unset req.rest ≡ false
      → chunked_setup calloc fresh req ≡ some req
  unfolding chunked_setup
  setup-running req u = simp (u, chunked_setup) refl

  within_limit :
      (req : Request Decoder) (buf : Buffer) (d : Decoder) (out left : Bytes)
      → IsValid buf
      → req.split ≡ false
      → req.request_length ≤ req.decode_length
      → req.decode_length + length out ≤ buf.size
      → req.decode_length + length out < req.request_length + req.max_body_size
      → let r = chunked_store decode req buf d out left in over_limit decode r.0 r.1 ≡ false
  unfolding over_limit chunked_store size_sub
  within_limit req buf d out left v s le fits max = simp (s, len_eq) (ground arith)
    where
      len_eq :
          (req.decode_length + length out + (size_mod - req.request_length)) % size_mod
          ≡ req.decode_length + length out - req.request_length
      len_eq = omega (arith, le, fits, v.inside, v.in_range)

  result-finish :
      (req : Request Decoder) (buf : Buffer) (d : Decoder) (out left : Bytes)
      → let r = chunked_store decode req buf d out left in
        over_limit decode r.0 r.1 ≡ false
        → chunked_result decode req buf (complete d out left)
          ≡ chunked_finish decode r.0 r.1 (length left)
  unfolding chunked_result
  result-finish req buf d out left o = rw (o, chunked_result) refl

  decode-result :
      (req : Request Decoder) (buf : Buffer)
      → IsValid buf
      → req.decode_length < buf.size
      → chunked_decode decode req buf
        ≡ chunked_result decode req buf (decode req.decoder (drop req.decode_length (contents buf)))
  unfolding chunked_decode size_sub
  decode-result req buf v more =
      rw (some_bytes, chunked_decode)
        (ap (λ z. chunked_result decode req buf (decode req.decoder z)) input)
    where
      new_bytes :
          (buf.size + (size_mod - req.decode_length)) % size_mod ≡ buf.size - req.decode_length
      new_bytes = omega (arith, more, v.inside, v.in_range)

      some_bytes : ((buf.size + (size_mod - req.decode_length)) % size_mod == 0) ≡ false
      some_bytes = ground (arith, new_bytes, more)

      input :
          take
            ((buf.size + (size_mod - req.decode_length)) % size_mod)
            (drop (buf.pos + req.decode_length) buf.start)
          ≡ drop req.decode_length (contents buf)
      input =
          ap (λ n. take n (drop (buf.pos + req.decode_length) buf.start)) new_bytes
          ∙ shifted-contents buf req.decode_length

  body-decode :
      (req : Request Decoder) (buf : Buffer)
      → is_unset req.rest ≡ false
      → body_chunked calloc fresh decode req buf ≡ chunked_decode decode req buf
  unfolding body_chunked
  body-decode req buf u = rw (setup-running req u, body_chunked) refl

  -- Of a chunked body whose parser is under way, in a valid buffer with the head in front and no
  -- buffer of its own: when the decoder completes it within the limit, what was decoded so far
  -- followed by the new data is the entity, its length is the content length, the request ends
  -- behind it, and the buffer holds what stood in front of the new bytes, the new data, and the
  -- bytes that the decoder left.
  pub body_chunked-Whole :
      (req : Request Decoder) (buf : Buffer) (d : Decoder) (out left : Bytes)
      → IsValid buf
      → req.split ≡ false
      → is_unset req.rest ≡ false
      → req.request_length ≤ req.decode_length
      → req.decode_length < buf.size
      → decode req.decoder (drop req.decode_length (contents buf)) ≡ complete d out left
      → req.decode_length + length out ≤ buf.size
      → req.decode_length + length out < req.request_length + req.max_body_size
      → Whole req buf out left (body_chunked calloc fresh decode req buf)
  body_chunked-Whole req buf d out left v s u le more e fits max =
      subst (Whole req buf out left) (sym run) (finish-Whole req buf d out left v s le fits)
    where
      run :
          let r = chunked_store decode req buf d out left in
          body_chunked calloc fresh decode req buf ≡ chunked_finish decode r.0 r.1 (length left)
      run =
          body-decode req buf u
          ∙ decode-result req buf v more
          ∙ ap (chunked_result decode req buf) e
          ∙ result-finish req buf d out left (within_limit req buf d out left v s le fits max)
