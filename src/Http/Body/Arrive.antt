-- ===== src/Http/Body/Arrive.antt =====
-- A piece of a body that was read to the end of its buffer, as src/pg_rest_http_v1.c reads it.
use pg_rest.Base.{
  ◌+◌, ◌-◌, ◌≤◌, ◌≡◌, ap, sym, ◌∙◌, ◌++◌, arith, length, take, drop, length-append, length-take,
  length-drop, append_assoc, take-append_self,
}
use pg_rest.Text.{Bytes}
use pg_rest.Buffer.{Buffer}
use pg_rest.Buffer.Contents.{IsValid, contents, length-contents, drop-append_before, take-drop}
use pg_rest.Http.Body.{write_at}

-- The buffer after a piece was read to its end.
unfoldable pub arrive : Buffer → Bytes → Buffer
arrive buf piece = record buf {
  size = buf.size + length piece;
  start = write_at buf buf.size piece;
}

module _ (buf : Buffer) (piece : Bytes) (valid : IsValid buf)
    (fits : buf.pos + buf.size + length piece ≤ buf.capacity) where
  behind : Bytes
  behind = drop (buf.pos + buf.size + length piece) buf.start

  front : length (take (buf.pos + buf.size) buf.start) ≡ buf.pos + buf.size
  front = omega (arith, length-take (buf.pos + buf.size) buf.start, valid.block, valid.inside)

  arrive-length : length (write_at buf buf.size piece) ≡ buf.capacity
  unfolding write_at behind
  arrive-length = omega (
    arith,
    fits,
    valid.block,
    front,
    length-append (take (buf.pos + buf.size) buf.start) (piece ++ behind),
    length-append piece behind,
    length-drop (buf.pos + buf.size + length piece) buf.start,
  )

  drop-front : drop buf.pos (take (buf.pos + buf.size) buf.start) ≡ contents buf
  drop-front =
      sym (take-drop (buf.pos + buf.size) buf.pos buf.start)
      ∙ ap (λ n. take n (drop buf.pos buf.start)) used
    where
      used : buf.pos + buf.size - buf.pos ≡ buf.size
      used = omega arith

  pub arrive-contents : contents (arrive buf piece) ≡ contents buf ++ piece
  unfolding arrive write_at behind
  arrive-contents =
      ap (take (buf.size + length piece)) (
        drop-append_before buf.pos (take (buf.pos + buf.size) buf.start) (piece ++ behind)
          (omega (arith, front))
        ∙ ap (λ z. z ++ (piece ++ behind)) drop-front
        ∙ sym (append_assoc (contents buf) piece behind))
      ∙ take-append_self (buf.size + length piece) (contents buf ++ piece) behind
          (omega (arith, length-append (contents buf) piece, length-contents buf valid))

  pub arrive-IsValid : IsValid (arrive buf piece)
  unfolding arrive
  arrive-IsValid = record {
    inside = omega (arith, fits);
    block = arrive-length;
    in_range = valid.in_range;
  }
