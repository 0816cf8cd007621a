-- ===== src/Http/Body/Length.antt =====
-- A body with a `Content-Length`: `pgrest_http_body_length` of src/pg_rest_http_v1.c, called after
-- each piece that arrives.
use pg_rest.Base.{
  ℕ, ◌+◌, ◌%◌, ◌≤◌, ◌<◌, ◌≡◌, refl, ap, sym, ◌∙◌, subst, inl, inr, true, false, List, [], ◌∷◌, ◌++◌,
  arith, leb, ltb, length, take, drop, length-append, append_assoc, append-nil, take-append_le,
}
use pg_rest.Base.Int.{pos}
use pg_rest.Text.{Bytes}
use pg_rest.Array.{size_mod}
use pg_rest.Buffer.{Buffer}
use pg_rest.Buffer.Contents.{IsValid}
use pg_rest.Http.Body.{Rc, ok, error, again, Request, body_size, body_base, body_length}
use pg_rest.Http.Body.Arrive.{arrive, arrive-IsValid}
use pg_rest.Http.Body.Once.{
  head_size, Expects, arrived, body_size-arrived, body_length-cases, entity_eq, arrived_eq,
}

module _ {ℓ} {Decoder : Type ℓ} where
  -- The parser's answer, called after each piece until it does not ask for more.
  unfoldable pub deliver : Request Decoder → Buffer → List Bytes → Rc × Request Decoder × Buffer
  deliver req buf [] = (again, req, buf)
  deliver req buf (piece ∷ pieces) =
      let r = body_length req (arrive buf piece) in
      elim r.0 [ again ↦ deliver r.1 r.2 pieces | ok ↦ r | error ↦ r ]

  deliver_step :
      (req : Request Decoder) (buf : Buffer) (piece : Bytes) (pieces : List Bytes)
      (r : Rc × Request Decoder × Buffer)
      → body_length req (arrive buf piece) ≡ r
      → deliver req buf (piece ∷ pieces) ≡ elim r.0 as (λ _. Rc × Request Decoder × Buffer) [
        | again ↦ deliver r.1 r.2 pieces
        | ok ↦ r
        | error ↦ r
      ]
  unfolding deliver
  deliver_step req buf piece pieces r e =
      ap
        (λ z. elim z.0 as (λ _. Rc × Request Decoder × Buffer) [
          | again ↦ deliver z.1 z.2 pieces
          | ok ↦ z
          | error ↦ z
        ])
        e

unfoldable pub bytes_of : List Bytes → Bytes
bytes_of [] = []
bytes_of (piece ∷ pieces) = piece ++ bytes_of pieces

module _ {ℓ} {Decoder : Type ℓ} where
  -- The body is complete and is the first `n` bytes of the stream, or the stream is too short.
  unfoldable pub Delivered : ℕ → Bytes → Rc × Request Decoder × Buffer → Type 0
  Delivered n stream (ok, req, buf) =
      (n ≤ length stream)
      × (req.entity_len ≡ n)
      × (take req.entity_len (drop req.entity_base buf.start) ≡ take n stream)
  Delivered n stream (again, req, buf) = length stream < n
  Delivered n stream (error, req, buf) = ⊥

  -- Of a body of `n` bytes announced by its `Content-Length`, delivered in any pieces to a buffer that
  -- has room for them, with no more than the limit in all: the parser asks for more as long as fewer
  -- than `n` bytes have come, and then is done, with exactly the first `n` bytes as the entity.
  pub deliver-Delivered :
      (n : ℕ) (req : Request Decoder) (buf : Buffer) (pieces : List Bytes)
      → Expects n req
      → IsValid buf
      → head_size req ≤ buf.size
      → length (arrived req buf) < n
      → buf.pos + buf.size + length (bytes_of pieces) ≤ buf.capacity
      → length (arrived req buf) + length (bytes_of pieces) ≤ req.max_body_size
      → Delivered n (arrived req buf ++ bytes_of pieces) (deliver req buf pieces)
  unfolding deliver Delivered bytes_of arrive
  deliver-Delivered n req buf [] x v h few room max =
      subst (λ z. length z < n) (sym (append-nil (arrived req buf))) few
  deliver-Delivered n req buf (piece ∷ pieces) x v h few room max =
      elim (body_length-cases n req (arrive buf piece) x within) [
        | inl (l, e) ↦
            subst (Delivered n (arrived req buf ++ (piece ++ bytes_of pieces)))
              (sym (
                deliver_step req buf piece pieces
                  (again, record req { rest = pos n }, arrive buf piece) e))
              (subst
                (λ z.
                  Delivered n z (deliver (record req { rest = pos n }) (arrive buf piece) pieces))
                (ap (λ z. z ++ bytes_of pieces) now
                  ∙ append_assoc (arrived req buf) piece (bytes_of pieces))
                (deliver-Delivered n (record req { rest = pos n }) (arrive buf piece) pieces
                  (x.0, inr refl) valid head (short l)
                  (omega (arith, room, length-append piece (bytes_of pieces)))
                  (omega (arith, max, length_now, sizes, length-append piece (bytes_of pieces)))))
        | inr (l, e) ↦
            subst (Delivered n (arrived req buf ++ (piece ++ bytes_of pieces)))
              (sym (
                deliver_step req buf piece pieces
                  (
                    ok,
                    record req {
                      rest = pos 0;
                      entity_base = body_base req (arrive buf piece);
                      entity_len = n;
                      request_length = (req.request_length + n) % size_mod;
                    },
                    arrive buf piece,
                  )
                  e))
              (
                omega (arith, long l, length_all, length_now),
                refl,
                entity_eq n req (arrive buf piece) (subst (λ z. n ≤ z) sizes (long l))
                    ∙ ap (take n) now
                    ∙ sym (
                        take-append_le n (arrived req buf ++ piece) (bytes_of pieces) (
                          omega (arith, long l, length_now, length-append (arrived req buf) piece)))
                    ∙ ap (take n) (append_assoc (arrived req buf) piece (bytes_of pieces)),
              )
      ]
    where
      fits : buf.pos + buf.size + length piece ≤ buf.capacity
      fits = omega (arith, room, length-append piece (bytes_of pieces))

      now : arrived req (arrive buf piece) ≡ arrived req buf ++ piece
      now = arrived_eq req buf piece v fits h

      valid : IsValid (arrive buf piece)
      valid = arrive-IsValid buf piece v fits

      head : head_size req ≤ (arrive buf piece).size
      head = omega (arith, h)

      sizes : body_size req (arrive buf piece) ≡ length (arrived req (arrive buf piece))
      sizes = body_size-arrived req (arrive buf piece) valid head

      length_now : body_size req (arrive buf piece) ≡ length (arrived req buf) + length piece
      length_now = sizes ∙ ap length now ∙ length-append (arrived req buf) piece

      length_all :
          length (arrived req buf ++ (piece ++ bytes_of pieces))
          ≡ length (arrived req buf) + length piece + length (bytes_of pieces)
      length_all = omega (
        arith,
        length-append (arrived req buf) (piece ++ bytes_of pieces),
        length-append piece (bytes_of pieces),
      )

      within : leb (body_size req (arrive buf piece)) req.max_body_size ≡ true
      within = ground (arith, length_now, max, length-append piece (bytes_of pieces))

      short :
          ltb (body_size req (arrive buf piece)) n ≡ true
          → length (arrived req (arrive buf piece)) < n
      short l = ground (arith, sizes)

      long : ltb (body_size req (arrive buf piece)) n ≡ false → n ≤ body_size req (arrive buf piece)
      long l = ground arith
