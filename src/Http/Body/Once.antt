-- ===== src/Http/Body/Once.antt =====
-- One call of `pgrest_http_body_length` of src/pg_rest_http_v1.c.
use pg_rest.Base.{
  ℕ, ◌+◌, ◌-◌, ◌%◌, ◌≤◌, ◌≡◌, refl, ap, ap₂, sym, ◌∙◌, ◌⊎◌, inl, inr, true, false, Bool-cases, ◌++◌,
  arith, leb, ltb, if◌then◌else◌, length, take, drop, length-take, length-drop,
}
use pg_rest.Base.Int.{pos, negsuc}
use pg_rest.Text.{Bytes}
use pg_rest.Array.{size_mod}
use pg_rest.Buffer.{Buffer}
use pg_rest.Buffer.Contents.{
  IsValid, contents, length-contents, drop-append_before, drop-drop, take-drop, take-take_le,
}
use pg_rest.Http.Body.{
  ok, again, Request, size_of, is_unset, size_sub, body_size, body_base, body_length, length_result,
}
use pg_rest.Http.Body.Arrive.{arrive, arrive-contents}

-- How many bytes stand in front of the body.
abbrev pub head_size {ℓ} : {Decoder : Type ℓ} → Request Decoder → ℕ
head_size req = if req.split then 0 else req.request_length

module _ {ℓ} {Decoder : Type ℓ} where
  -- The header announced `n` bytes, and the parser was not called yet, or asked for more.
  abbrev pub Expects : ℕ → Request Decoder → Type 0
  Expects n req = (req.content_length_n ≡ pos n) × ((req.rest ≡ negsuc 0) ⊎ (req.rest ≡ pos n))

  -- The bytes of the body that have arrived.
  abbrev pub arrived : Request Decoder → Buffer → Bytes
  arrived req buf = drop (head_size req) (contents buf)

  rest_eq :
      (n : ℕ) (req : Request Decoder)
      → Expects n req
      → (if is_unset req.rest then req.content_length_n else req.rest) ≡ pos n
  unfolding is_unset
  rest_eq n req (c, inl e) = rw (e, is_unset) c
  rest_eq n req (c, inr e) = rw (e, is_unset) refl

  pub body_size-arrived :
      (req : Request Decoder) (buf : Buffer)
      → IsValid buf
      → head_size req ≤ buf.size
      → body_size req buf ≡ length (arrived req buf)
  unfolding body_size size_sub
  body_size-arrived req buf valid le = elim (Bool-cases req.split) [
    | inl e ↦ simp (e, body_size) (sym (length-contents buf valid))
    | inr e ↦
        simp (e, body_size)
          (omega (
            arith,
            head_le e,
            valid.inside,
            valid.in_range,
            length-drop req.request_length (contents buf),
            length-contents buf valid,
          ))
  ]
    where
      head_le : req.split ≡ false → req.request_length ≤ buf.size
      head_le e = simp e at le

  pub body_length-cases :
      (n : ℕ) (req : Request Decoder) (buf : Buffer)
      → Expects n req
      → leb (body_size req buf) req.max_body_size ≡ true
      → ((ltb (body_size req buf) n ≡ true)
          × (body_length req buf ≡ (again, record req { rest = pos n }, buf)))
        ⊎ ((ltb (body_size req buf) n ≡ false)
            × (body_length req buf ≡ (
              ok,
              record req {
                rest = pos 0;
                entity_base = body_base req buf;
                entity_len = n;
                request_length = (req.request_length + n) % size_mod;
              },
              buf,
            )))
  unfolding body_length length_result size_of
  body_length-cases n req buf x le = elim (Bool-cases (ltb (body_size req buf) n)) [
    | inl l ↦ inl (l, start_eq ∙ rw (not_over, padded, l, length_result) refl)
    | inr l ↦ inr (l, start_eq ∙ rw (not_over, padded, l, length_result) refl)
  ]
    where
      not_over : ltb req.max_body_size (body_size req buf) ≡ false
      not_over = ground arith

      start_eq : body_length req buf ≡ length_result req buf (body_size req buf) (pos n) n
      start_eq =
          ap₂ (λ r k. length_result req buf (body_size req buf) r k) (rest_eq n req x)
            (ap size_of x.0)

      padded : ltb (body_size req buf + 0) (n + 0) ≡ ltb (body_size req buf) n
      padded = ap₂ ltb (omega arith) (omega arith)

  -- The bytes that the parser points at.
  pub entity_eq :
      (n : ℕ) (req : Request Decoder) (buf : Buffer)
      → n ≤ length (arrived req buf)
      → take n (drop (body_base req buf) buf.start) ≡ take n (arrived req buf)
  unfolding body_base
  entity_eq n req buf le =
      ap (λ k. take n (drop k buf.start)) base_eq
      ∙ ap (take n) (sym (drop-drop (head_size req) buf.pos buf.start))
      ∙ sym (
          take-take_le n (buf.size - head_size req) (drop (head_size req) (drop buf.pos buf.start))
            short)
      ∙ ap (take n) (take-drop buf.size (head_size req) (drop buf.pos buf.start))
    where
      base_eq : body_base req buf ≡ buf.pos + head_size req
      base_eq = elim (Bool-cases req.split) [
        | inl e ↦ simp (e, body_base) (omega arith)
        | inr e ↦ simp (e, body_base) refl
      ]

      short : n ≤ buf.size - head_size req
      short = omega (
        arith,
        le,
        length-drop (head_size req) (contents buf),
        length-take buf.size (drop buf.pos buf.start),
      )

  pub arrived_eq :
      (req : Request Decoder) (buf : Buffer) (piece : Bytes)
      → IsValid buf
      → buf.pos + buf.size + length piece ≤ buf.capacity
      → head_size req ≤ buf.size
      → arrived req (arrive buf piece) ≡ arrived req buf ++ piece
  arrived_eq req buf piece v fits h =
      ap (drop (head_size req)) (arrive-contents buf piece v fits)
      ∙ drop-append_before (head_size req) (contents buf) piece
          (omega (arith, length-contents buf v, h))
