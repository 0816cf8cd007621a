-- ===== src/Buffer/Reserve.antt =====
-- What `pgrest_buffer_reserve` of src/pg_rest_memory.c promises.
use pg_rest.Base.{
  ℕ, true, false, ◌+◌, ◌-◌, ◌*◌, ◌%◌, ◌^◌, ◌≤◌, ◌<◌, ◌≡◌, ◌⊎◌, refl, ap, sym, ◌∙◌, subst, Option,
  none, some, ◌++◌, arith, leb, inl, inr, Bool-cases, Option-cases, length, take, drop,
  length-append, replicate, length-replicate, length-drop, take-append_self, take-append_le,
}
use pg_rest.Text.{Bytes}
use pg_rest.Array.{size_mod, max_alloc}
use pg_rest.Buffer.{
  Buffer, Os, Reserved, reserved, looping, null_write, free_size, double_until, alloc, topagesize,
  temp_file, reserve_done, reserve_fail, reserve_copy, reserve_remapped, reserve_mapped,
  reserve_grown, reserve_larger, buffer_reserve, start_offset, buffer_limit_size,
}
use pg_rest.Buffer.Contents.{IsValid, contents, length-contents, free_size-eq, drop-append_before}
use pg_rest.Buffer.Doubling.{double_until-Roomy}

-- Room for `size` bytes in `len`, for a buffer on the heap.
abbrev pub Room : Option ℕ → ℕ → ℕ → Type 0
Room none size len = size ≤ len
Room (some fd) size len = Unit {0}

-- The loop ends. A buffer that is returned is valid and holds the bytes of `buf`. The vector is
-- NULL, or it is the rest of the block, with room for `size` bytes where `buf` has no file. NULL is
-- written only where the memory context gave no memory.
unfoldable pub Kept : Os → Buffer → ℕ → Reserved → Type 0
Kept os buf size (reserved b v) =
    IsValid b
    × (contents b ≡ contents buf)
    × ((v.base ≡ none)
        ⊎ ((v.base ≡ some (b.pos + b.size))
            × (b.pos + b.size + v.len ≡ b.capacity)
            × Room buf.fd size v.len))
Kept os buf size looping = ⊥
Kept os buf size null_write = (n : ℕ) × (os.grant n ≡ false)

module _ (os : Os) (buf : Buffer) (size : ℕ) (valid : IsValid buf) where
  done-Kept :
      (b : Buffer)
      → IsValid b
      → contents b ≡ contents buf
      → Room buf.fd size (b.capacity - (b.pos + b.size))
      → Kept os buf size (reserve_done b)
  unfolding Kept reserve_done
  done-Kept b v c r = (v, c, inr (refl, omega (arith, v.inside), r))

  fail-Kept : Kept os buf size (reserve_fail buf)
  unfolding Kept reserve_fail
  fail-Kept = (valid, refl, inl refl)

  moved : Bytes → Bytes
  moved to = take buf.size (drop buf.pos buf.start) ++ drop buf.size to

  length-front : length (take buf.size (drop buf.pos buf.start)) ≡ buf.size
  length-front = length-contents buf valid

  length-moved : (to : Bytes) → buf.size ≤ length to → length (moved to) ≡ length to
  unfolding moved
  length-moved to le = omega (
    arith,
    length-append (take buf.size (drop buf.pos buf.start)) (drop buf.size to),
    length-front,
    length-drop buf.size to,
    le,
  )

  take-moved : (to : Bytes) → take buf.size (moved to) ≡ contents buf
  unfolding moved
  take-moved to =
      take-append_self buf.size (take buf.size (drop buf.pos buf.start)) (drop buf.size to)
        length-front

  copy-Kept :
      (capacity : ℕ) (fd : Option ℕ) (start : Bytes)
      → length start ≡ capacity
      → buf.size + size ≤ capacity
      → capacity < 2 ^ 64
      → Kept os buf size (reserve_copy buf capacity fd (some start))
  unfolding reserve_copy moved
  copy-Kept capacity fd start l le b =
      done-Kept
        (record { capacity = capacity; size = buf.size; pos = 0; fd = fd; start = moved start })
        (record {
          inside = omega (arith, le);
          block = length-moved start (omega (arith, l, le)) ∙ l;
          in_range = b;
        })
        (take-moved start) (room buf.fd)
    where
      room : (fd : Option ℕ) → Room fd size (capacity - (0 + buf.size))
      room none = omega (arith, le)
      room (some fd) = tt

  denied-Kept :
      (n : ℕ) → os.grant n ≡ false → (c : ℕ) → Kept os buf size (reserve_copy buf c none none)
  unfolding Kept reserve_copy
  denied-Kept n g c = (n, g)

  remapped-Kept :
      (capacity fd : ℕ)
      → buf.size + size ≤ capacity
      → buf.capacity ≤ capacity
      → capacity < 2 ^ 64
      → (old : Option ℕ) → buf.fd ≡ old
      → Kept os buf size (reserve_remapped buf capacity fd old)
  unfolding reserve_remapped
  remapped-Kept capacity fd le c b none e =
      copy-Kept capacity (some fd) (replicate capacity 0) (length-replicate {A = ℕ} capacity 0) le b
  remapped-Kept capacity fd le c b (some old) e =
      done-Kept (record buf { capacity = capacity; start = longer })
        (record { inside = omega (arith, c, valid.inside); block = length_longer; in_range = b })
        (ap (take buf.size) (
            drop-append_before buf.pos buf.start (replicate (capacity - buf.capacity) 0)
              (omega (arith, valid.inside, valid.block)))
          ∙ take-append_le buf.size (drop buf.pos buf.start) (replicate (capacity - buf.capacity) 0)
              (omega (arith, valid.inside, valid.block, length-drop buf.pos buf.start)))
        (subst (λ z. Room z size (capacity - (buf.pos + buf.size))) (sym e) tt)
    where
      longer : Bytes
      longer = buf.start ++ replicate (capacity - buf.capacity) 0

      length_longer : length (buf.start ++ replicate (capacity - buf.capacity) 0) ≡ capacity
      length_longer = omega (
        arith,
        c,
        valid.block,
        length-append buf.start (replicate (capacity - buf.capacity) 0),
        length-replicate {A = ℕ} (capacity - buf.capacity) 0,
      )

  mapped-Kept :
      (capacity : ℕ)
      → buf.size + size ≤ capacity
      → buf.capacity ≤ capacity
      → capacity < 2 ^ 64
      → Kept os buf size (reserve_mapped os buf capacity)
  unfolding reserve_mapped temp_file
  mapped-Kept capacity le c b = elim (Option-cases (temp_file os buf.fd)) [
    | inl e ↦ rw (e, reserve_mapped) fail-Kept
    | inr (fd, e) ↦ elim (Bool-cases (os.posix_fallocate fd (topagesize os capacity))) [
      | inl f ↦ elim (Bool-cases (os.mmap fd (topagesize os capacity))) [
        | inl m ↦ simp (e, f, m, reserve_mapped) (remapped-Kept capacity fd le c b buf.fd refl)
        | inr m ↦ simp (e, f, m, reserve_mapped) fail-Kept
      ]
      | inr f ↦ simp (e, f, reserve_mapped) fail-Kept
    ]
  ]

  grown-Kept :
      (capacity : ℕ)
      → buf.size + size ≤ capacity
      → buf.capacity ≤ capacity
      → capacity < 2 ^ 64
      → Kept os buf size (reserve_grown os buf (some capacity))
  unfolding reserve_grown alloc
  grown-Kept capacity le c b = elim (Bool-cases (leb capacity buffer_limit_size)) [
    | inl e ↦ rw (e, reserve_grown) (from_heap (limit e))
    | inr e ↦ rw (e, reserve_grown) (mapped-Kept capacity le c b)
  ]
    where
      limit : leb capacity buffer_limit_size ≡ true → capacity ≤ buffer_limit_size
      limit e = ground arith

      in_size :
          capacity ≤ buffer_limit_size
          → (start_offset + capacity) % size_mod ≡ start_offset + capacity
      in_size l = omega (arith, l)

      small : capacity ≤ buffer_limit_size → leb (start_offset + capacity) max_alloc ≡ true
      small l = ground arith

      from_heap :
          capacity ≤ buffer_limit_size
          → Kept os buf size (reserve_copy buf capacity none (alloc os capacity))
      from_heap l = elim (Bool-cases (os.grant (start_offset + capacity))) [
        | inl g ↦
            rw (in_size l, small l, g, alloc)
              (copy-Kept capacity none (replicate capacity os.junk)
                (length-replicate {A = ℕ} capacity os.junk) le b)
        | inr g ↦
            rw (in_size l, small l, g, alloc) (denied-Kept (start_offset + capacity) g capacity)
      ]

  larger-Kept :
      0 < buf.capacity
      → buf.capacity < 2 ^ 63
      → buf.size + size ≤ 2 ^ 63
      → Kept os buf size (reserve_larger os buf size)
  unfolding reserve_larger
  larger-Kept p c n = grown (
      double_until-Roomy 64 buf.capacity buf.size size p c (omega (arith, valid.inside)) n
        (omega (arith, p, n)) (omega arith))
    where
      grown :
          (k : ℕ) × (double_until 64 buf.capacity buf.size size ≡ some k)
            × (buf.size + size ≤ k)
            × (buf.capacity ≤ k)
            × (k < 2 ^ 64)
          → Kept os buf size (reserve_grown os buf (double_until 64 buf.capacity buf.size size))
      grown (k, e, le, l, b) =
          subst (λ z. Kept os buf size (reserve_grown os buf z)) (sym e) (grown-Kept k le l b)

  pub buffer_reserve-Kept :
      0 < buf.capacity
      → buf.capacity < 2 ^ 63
      → buf.size + size < 2 ^ 63
      → Kept os buf size (buffer_reserve os buf size)
  unfolding buffer_reserve moved
  buffer_reserve-Kept p c n = elim (Bool-cases (leb size (free_size buf))) [
    | inl e ↦ rw (e, buffer_reserve) (done-Kept buf valid refl (room buf.fd buf.pos (has_room e)))
    | inr e ↦ elim (Bool-cases (leb ((buf.size + size) * 2 % size_mod) buf.capacity)) [
      | inl f ↦
          rw (e, f, buffer_reserve)
            (done-Kept (record buf { pos = 0; start = moved buf.start })
              (record {
                inside = omega (arith, valid.inside);
                block =
                    length-moved buf.start (omega (arith, valid.inside, valid.block)) ∙ valid.block;
                in_range = valid.in_range;
              })
              (take-moved buf.start) (room buf.fd 0 (half f)))
      | inr f ↦ rw (e, f, buffer_reserve) (larger-Kept p c (omega (arith, n)))
    ]
  ]
    where
      room :
          (fd : Option ℕ) (pos : ℕ)
          → size ≤ buf.capacity - (pos + buf.size)
          → Room fd size (buf.capacity - (pos + buf.size))
      room none pos le = le
      room (some fd) pos le = tt

      has_room : leb size (free_size buf) ≡ true → size ≤ buf.capacity - (buf.pos + buf.size)
      has_room e = ground (arith, free_size-eq buf valid)

      unwrapped : (buf.size + size) * 2 % size_mod ≡ (buf.size + size) * 2
      unwrapped = omega (arith, n)

      half :
          leb ((buf.size + size) * 2 % size_mod) buf.capacity ≡ true
          → size ≤ buf.capacity - (0 + buf.size)
      half f = ground (arith, unwrapped)
