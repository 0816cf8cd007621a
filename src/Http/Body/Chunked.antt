-- ===== src/Http/Body/Chunked.antt =====
-- A chunked body: `pgrest_http_body_chunked` of src/pg_rest_http_v1.c.
use pg_rest.Base.{
  ℕ, ◌+◌, ◌≡◌, refl, ◌⊎◌, inl, inr, Bool, true, false, Bool-cases, none, some, [], arith, ◌==◌,
  if◌then◌else◌, length, take, drop,
}
use pg_rest.Base.Int.{pos}
use pg_rest.Text.{Bytes}
use pg_rest.Buffer.{Buffer}
use pg_rest.Http.Body.{
  Rc, ok, error, again, Request, Decoded, malformed, partial, complete, is_unset, size_sub,
  body_size, fail, entity_too_large, chunked_setup, over_limit, chunked_store, chunked_finish,
  chunked_result, chunked_decode, body_chunked,
}

-- A body that is accepted is empty.
unfoldable pub EmptyIfOk {ℓ} : {Decoder : Type ℓ} → Rc × Request Decoder × Buffer → Type 0
EmptyIfOk (ok, req, buf) = req.entity_len ≡ 0
EmptyIfOk (error, req, buf) = Unit {0}
EmptyIfOk (again, req, buf) = Unit {0}

module _ {ℓ} {Decoder : Type ℓ} (calloc : Bool) (fresh : Decoder)
    (decode : Decoder → Bytes → Decoded Decoder) where
  finish-empty :
      (req : Request Decoder) (buf : Buffer) (left : ℕ)
      → req.split ≡ true
      → EmptyIfOk (
          if over_limit decode req buf
          then fail req buf entity_too_large
          else chunked_finish decode req buf left)
  unfolding EmptyIfOk fail chunked_finish over_limit body_size
  finish-empty req buf left s = elim (Bool-cases (buf.size == 0)) [
    | inl e ↦ simp (s, e, over_limit, body_size) (size_zero e)
    | inr e ↦ simp (s, e, over_limit) tt
  ]
    where
      size_zero : (buf.size == 0) ≡ true → buf.size ≡ 0
      size_zero e = ground arith

  partial-empty :
      (b : Bool) (req : Request Decoder) (buf : Buffer)
      → EmptyIfOk (if b then fail req buf entity_too_large else (again, req, buf))
  unfolding EmptyIfOk fail
  partial-empty true req buf = tt
  partial-empty false req buf = tt

  result-empty :
      (req : Request Decoder) (buf : Buffer) (r : Decoded Decoder)
      → req.split ≡ true
      → EmptyIfOk (chunked_result decode req buf r)
  unfolding chunked_result EmptyIfOk fail chunked_finish chunked_store over_limit body_size
  result-empty req buf malformed s = tt
  result-empty req buf (partial d out) s =
      let r = chunked_store decode req buf d out [] in
      partial-empty (over_limit decode r.0 r.1) r.0 r.1
  result-empty req buf (complete d out left) s =
      let r = chunked_store decode req buf d out left in finish-empty r.0 r.1 (length left) s

  decode-empty :
      (req : Request Decoder) (buf : Buffer)
      → req.split ≡ true
      → EmptyIfOk (chunked_decode decode req buf)
  unfolding chunked_decode EmptyIfOk
  decode-empty req buf s = elim (Bool-cases (size_sub buf.size req.decode_length == 0)) [
    | inl e ↦ rw (e, chunked_decode) tt
    | inr e ↦
        rw (e, chunked_decode)
          (result-empty req buf
            (decode req.decoder (
              take (size_sub buf.size req.decode_length)
                (drop (buf.pos + req.decode_length) buf.start)))
            s)
  ]

  setup-split :
      (req : Request Decoder)
      → req.split ≡ true
      → (chunked_setup calloc fresh req ≡ none)
        ⊎ ((r : Request Decoder) × (chunked_setup calloc fresh req ≡ some r) × (r.split ≡ true))
  unfolding chunked_setup
  setup-split req s = elim (Bool-cases (is_unset req.rest)) [
    | inl e ↦ elim (Bool-cases calloc) [
      | inl c ↦ inr (
        record req {
          decoder = fresh;
          rest = pos 3;
          decode_length = if req.split then 0 else req.request_length;
          content_length_n = pos 0;
        },
        rw (e, c, chunked_setup) refl,
        s,
      )
      | inr c ↦ inl (rw (e, c, chunked_setup) refl)
    ]
    | inr e ↦ inr (req, rw (e, chunked_setup) refl, s)
  ]

  -- Whatever the limit on the body's size, a chunked body that is read into a buffer of its own is
  -- accepted only if it is empty: the limit is tested as
  -- `split ? buf->size : (buf->size - request_length >= max)`.
  pub body_chunked-EmptyIfOk :
      (req : Request Decoder) (buf : Buffer)
      → req.split ≡ true
      → EmptyIfOk (body_chunked calloc fresh decode req buf)
  unfolding body_chunked chunked_decode EmptyIfOk fail
  body_chunked-EmptyIfOk req buf s = elim (setup-split req s) [
    | inl e ↦ rw (e, body_chunked) tt
    | inr (r, e, t) ↦ rw (e, body_chunked) (decode-empty r buf t)
  ]
