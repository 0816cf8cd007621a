-- ===== src/Http/Request/Extend/Room.antt =====
-- The room that `pgrest_http_extend_header_buffer` of src/pg_rest_http_request.c makes.
use pg_rest.Base.{
  ℕ, ◌+◌, ◌/◌, ◌^◌, ◌≤◌, ◌<◌, ◌≡◌, ◌≢◌, ◌⊎◌, refl, sym, subst, true, false, none, arith, inl, inr,
  Bool-cases, ltb, leb, ◌==◌, ==_iff,
}
use pg_rest.Buffer.{
  Buffer, Os, Reserved, Iovec, reserved, looping, null_write, buffer_reserve, free_size,
  reserve_done,
}
use pg_rest.Buffer.Contents.{IsValid, contents}
use pg_rest.Buffer.Reserve.{Kept, Room, buffer_reserve-Kept}
use pg_rest.Http.Request.Extend.{
  Extended, extended, declined, failed, endless, null_written, extra_size, extend_reserved,
  extend_header_buffer,
}

-- There is room for a byte, but where the buffer is half full: then it is the buffer it was.
abbrev pub Roomy : Buffer → Buffer → Type 0
Roomy buf b =
    ((buf.size ≢ buf.capacity / 2) × (b.pos + b.size < b.capacity))
    ⊎ ((buf.size ≡ buf.capacity / 2) × (b ≡ buf))

unfoldable pub Extends : Os → ℕ → Buffer → Extended → Type 0
Extends os max_size buf (extended b) =
    (buf.size ≤ max_size) × IsValid b × (contents b ≡ contents buf) × Roomy buf b
Extends os max_size buf declined = max_size < buf.size
Extends os max_size buf failed =
    (b : Buffer) × (v : Iovec) × (buffer_reserve os buf (extra_size buf) ≡ reserved b v)
    × (v.base ≡ none)
Extends os max_size buf endless = ⊥
Extends os max_size buf null_written = (n : ℕ) × (os.grant n ≡ false)

module _ (os : Os) (max_size : ℕ) (buf : Buffer) (valid : IsValid buf) (heap : buf.fd ≡ none)
    (full : buf.pos + buf.size ≡ buf.capacity) where
  extra_size-positive : buf.size ≢ buf.capacity / 2 → 1 ≤ extra_size buf
  unfolding extra_size
  extra_size-positive ne = ground arith

  extra_size-zero : buf.size ≡ buf.capacity / 2 → extra_size buf ≡ 0
  unfolding extra_size
  extra_size-zero e = ground arith

  extra_size-small : buf.capacity < 2 ^ 62 → buf.size + extra_size buf < 2 ^ 63
  unfolding extra_size
  extra_size-small lt = ground (arith, valid.inside)

  -- Nothing is asked for.
  reserve-nothing : buffer_reserve os buf 0 ≡ reserve_done buf
  unfolding buffer_reserve
  reserve-nothing = rw (enough, buffer_reserve) refl
    where
      enough : leb 0 (free_size buf) ≡ true
      enough = ground arith

  grown :
      (r : Reserved)
      → buf.size ≤ max_size
      → buf.size ≢ buf.capacity / 2
      → buffer_reserve os buf (extra_size buf) ≡ r
      → Kept os buf (extra_size buf) r
      → Extends os max_size buf (extend_reserved r)
  unfolding Extends extend_reserved Kept
  grown (reserved b v) le ne e (valid_b, same, inl n) = simp (n, extend_reserved) (b, v, e, n)
  grown (reserved b v) le ne e (valid_b, same, inr (at, long, room)) =
      simp (at, extend_reserved) (le, valid_b, same, inl (ne, fits))
    where
      fits : b.pos + b.size < b.capacity
      fits = omega (
        arith,
        long,
        extra_size-positive ne,
        subst (λ z. Room z (extra_size buf) v.len) heap room,
      )
  grown looping le ne e kept = kept
  grown null_write le ne e kept = kept

  nothing :
      buf.size ≤ max_size
      → buf.size ≡ buf.capacity / 2
      → Extends os max_size buf (extend_reserved (buffer_reserve os buf (extra_size buf)))
  unfolding Extends extend_reserved reserve_done
  nothing le e =
      subst (λ n. Extends os max_size buf (extend_reserved (buffer_reserve os buf n)))
        (sym (extra_size-zero e))
        (subst (λ r. Extends os max_size buf (extend_reserved r)) (sym reserve-nothing)
          (le, valid, refl, inr (e, refl)))

-- On a full, valid buffer of the heap of positive capacity below 2^62, whatever the memory context
-- answers: a header longer than the limit is declined, and only that. Otherwise the extended buffer
-- is valid and holds the same bytes, and has room for at least one more, except where it holds
-- exactly half of its capacity: then nothing is asked for and it stays full. It fails only if the
-- reservation gives NULL, and the reservation ends.
pub extend_header_buffer-Extends :
    (os : Os) (max_size : ℕ) (buf : Buffer)
    → IsValid buf
    → buf.fd ≡ none
    → buf.pos + buf.size ≡ buf.capacity
    → 0 < buf.capacity
    → buf.capacity < 2 ^ 62
    → Extends os max_size buf (extend_header_buffer os max_size buf)
unfolding extend_header_buffer Extends
extend_header_buffer-Extends os max_size buf valid heap full pos small =
    elim (Bool-cases (ltb max_size buf.size)) [
      | inl e ↦ simp (e, extend_header_buffer) (over e)
      | inr e ↦ elim (Bool-cases (buf.size == buf.capacity / 2)) [
        | inl h ↦
            simp (e, extend_header_buffer)
              (nothing os max_size buf valid heap full (under e)
                ((==_iff buf.size (buf.capacity / 2)).0 h))
        | inr h ↦
            simp (e, extend_header_buffer)
              (grown os max_size buf valid heap full (buffer_reserve os buf (extra_size buf))
                (under e) (other h) refl
                (buffer_reserve-Kept os buf (extra_size buf) valid pos (omega (arith, small))
                  (extra_size-small os max_size buf valid heap full small)))
      ]
    ]
  where
    over : ltb max_size buf.size ≡ true → max_size < buf.size
    over e = ground arith

    under : ltb max_size buf.size ≡ false → buf.size ≤ max_size
    under e = ground arith

    other : (buf.size == buf.capacity / 2) ≡ false → buf.size ≢ buf.capacity / 2
    other h e = ground arith
