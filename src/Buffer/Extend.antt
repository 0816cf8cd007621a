-- ===== src/Buffer/Extend.antt =====
-- `pgrest_buffer_extend` of src/pg_rest_memory.c and the block that it allocates.
use pg_rest.Base.{
  ◌^◌, take, ◌++◌, ℕ, ◌+◌, ◌-◌, ◌*◌, ◌%◌, ◌≤◌, ◌<◌, ◌≡◌, Option, none, some, arith, leb, inl, inr,
  Bool-cases, length, length-append, length-take, replicate, length-replicate, ◌&&◌,
}
use pg_rest.Array.{max_alloc, size_mod}
use pg_rest.Buffer.{Buffer, Os, buffer_extend, start_offset}
use pg_rest.Buffer.Contents.{IsValid}

-- The capacity is doubled and counts 28 bytes more than the block behind the header has.
unfoldable pub Short : Buffer → Option Buffer → Type 0
Short buf none = Unit {0}
Short buf (some b) =
    (b.capacity ≡ buf.capacity * 2) × (length b.start + start_offset ≡ b.capacity) × ¬ IsValid b

-- A valid buffer of at least 28 bytes and less than 2^63 that was extended claims 28 bytes more
-- than its block has, so it is not valid.
pub buffer_extend-Short :
    (os : Os) (buf : Buffer)
    → IsValid buf
    → start_offset ≤ buf.capacity
    → buf.capacity < 2 ^ 63
    → Short buf (buffer_extend os buf)
unfolding buffer_extend Short
buffer_extend-Short os buf valid le lt =
    elim (Bool-cases
      (leb (buf.capacity * 2 % size_mod) max_alloc && os.grant (buf.capacity * 2 % size_mod))) [
        | inl g ↦ rw (g, buffer_extend) (doubled, length_short, not_valid)
        | inr g ↦ rw (g, buffer_extend) tt
      ]
  where
    doubled : buf.capacity * 2 % size_mod ≡ buf.capacity * 2
    doubled = omega (arith, lt)

    room : ℕ
    room = buf.capacity * 2 % size_mod - start_offset

    length_short :
        length (take room (buf.start ++ replicate room os.junk)) + start_offset
        ≡ buf.capacity * 2 % size_mod
    length_short = omega (
      arith,
      doubled,
      le,
      length-take room (buf.start ++ replicate room os.junk),
      length-append buf.start (replicate room os.junk),
      length-replicate {A = ℕ} room os.junk,
    )

    not_valid : ¬ IsValid (record buf {
      capacity = buf.capacity * 2 % size_mod;
      start = take room (buf.start ++ replicate room os.junk);
    })
    not_valid v = absurd (omega (arith, v.block, length_short))
