-- ===== src/Ipc/Notify.antt =====
-- What `pgrest_ipc_send_notify` of src/pg_rest_ipc.c leaves in the buffer of a connection.
use pg_rest.Base.{
  ℕ, true, false, suc, ◌+◌, ◌-◌, ◌*◌, ◌%◌, ◌^◌, ◌≤◌, ◌<◌, ◌≡◌, refl, ap, ◌∙◌, subst, Bool, Option,
  none, some, [], ◌∷◌, ◌++◌, arith, leb, ltb, inl, inr, Bool-cases, take, drop, set, length-set,
  take-set, drop-set_after, length-drop,
}
use pg_rest.Text.{Bytes}
use pg_rest.Array.{size_mod}
use pg_rest.Buffer.{
  Buffer, Os, Reserved, reserved, looping, null_write, free_size, double_until, alloc, reserve_done,
  reserve_copy, reserve_grown, reserve_larger, buffer_reserve, buffer_limit_size,
}
use pg_rest.Buffer.Contents.{IsValid, contents}
use pg_rest.Buffer.Reserve.{Kept, Room, buffer_reserve-Kept}
use pg_rest.Ipc.{
  Channel, Notified, notified, hangs, crashes, put_command, notify_reserved, notify_conn,
}

-- The byte behind the contents is written and counted.
pub pushed : Buffer → ℕ → Buffer
pushed b x = record b { size = (b.size + 1) % size_mod; start = set b.start (b.pos + b.size) x }

pub pushed-contents :
    (b : Buffer) (x : ℕ)
    → IsValid b
    → b.pos + b.size < b.capacity
    → IsValid (pushed b x) × (contents (pushed b x) ≡ contents b ++ x ∷ [])
unfolding pushed
pushed-contents b x valid lt = (
  record {
    inside = omega (arith, one, lt);
    block = length-set b.start (b.pos + b.size) x ∙ valid.block;
    in_range = valid.in_range;
  },
  ap (λ n. take n (drop b.pos (set b.start (b.pos + b.size) x))) one_more
      ∙ ap (take (suc b.size)) (drop-set_after b.pos b.size b.start x)
      ∙ take-set b.size (drop b.pos b.start) x
          (omega (arith, length-drop b.pos b.start, valid.block, lt)),
)
  where
    one : (b.size + 1) % size_mod ≡ b.size + 1
    one = omega (arith, valid.in_range, lt)

    one_more : (b.size + 1) % size_mod ≡ suc b.size
    one_more = omega (arith, one)

-- A block of the memory context that is not yet at the limit.
pub record IsHeap (b : Buffer) : Type 0 where
  pub valid : IsValid b
  pub on_heap : b.fd ≡ none
  pub some_room : 0 < b.capacity
  pub limited : b.capacity ≤ buffer_limit_size

-- What a reservation keeps of such a block.
abbrev StaysHeap : Reserved → Type 0
StaysHeap (reserved b v) = (b.fd ≡ none) × (0 < b.capacity) × (b.capacity ≤ buffer_limit_size)
StaysHeap looping = Unit
StaysHeap null_write = Unit

copied :
    (buf : Buffer) (c : ℕ) (o : Option Bytes)
    → 0 < c
    → c ≤ buffer_limit_size
    → StaysHeap (reserve_copy buf c none o)
unfolding reserve_copy reserve_done
copied buf c none p l = tt
copied buf c (some start) p l = (refl, p, l)

-- One doubling makes room for a byte.
double_once :
    (fuel capacity used : ℕ)
    → used ≤ capacity
    → 0 < capacity
    → capacity ≤ buffer_limit_size
    → double_until (suc fuel) capacity used 1 ≡ some (capacity * 2)
unfolding double_until
double_once fuel capacity used le p l = rw (doubled, roomy, double_until) refl
  where
    doubled : capacity * 2 % size_mod ≡ capacity * 2
    doubled = omega (arith, l)

    room : (capacity * 2 + (size_mod - used)) % size_mod ≡ capacity * 2 - used
    room = omega (arith, l, le)

    roomy : ltb ((capacity * 2 + (size_mod - used)) % size_mod) 1 ≡ false
    roomy = ground (arith, room, le, p)

larger-StaysHeap :
    (os : Os) (buf : Buffer)
    → IsHeap buf
    → buf.size < 2 ^ 18
    → buf.capacity < (buf.size + 1) * 2
    → StaysHeap (reserve_larger os buf 1)
unfolding reserve_larger reserve_grown
larger-StaysHeap os buf heap lt half =
    rw (once, reserve_larger, below, reserve_grown)
      (copied buf (buf.capacity * 2) (alloc os (buf.capacity * 2)) (omega (arith, heap.some_room))
        (omega (arith, lt, half)))
  where
    once : double_until 64 buf.capacity buf.size 1 ≡ some (buf.capacity * 2)
    once =
        double_once 63 buf.capacity buf.size (omega (arith, heap.valid.inside)) heap.some_room
          heap.limited

    below : leb (buf.capacity * 2) buffer_limit_size ≡ true
    below = ground (arith, lt, half)

reserve-StaysHeap :
    (os : Os) (buf : Buffer) → IsHeap buf → buf.size < 2 ^ 18 → StaysHeap (buffer_reserve os buf 1)
unfolding buffer_reserve reserve_done
reserve-StaysHeap os buf heap lt = elim (Bool-cases (leb 1 (free_size buf))) [
  | inl e ↦ rw (e, buffer_reserve) (heap.on_heap, heap.some_room, heap.limited)
  | inr e ↦ elim (Bool-cases (leb ((buf.size + 1) * 2 % size_mod) buf.capacity)) [
    | inl f ↦ rw (e, f, buffer_reserve) (heap.on_heap, heap.some_room, heap.limited)
    | inr f ↦ rw (e, f, buffer_reserve) (larger-StaysHeap os buf heap lt (half f))
  ]
]
  where
    unwrapped : (buf.size + 1) * 2 % size_mod ≡ (buf.size + 1) * 2
    unwrapped = omega (arith, lt)

    half :
        leb ((buf.size + 1) * 2 % size_mod) buf.capacity ≡ false → buf.capacity < (buf.size + 1) * 2
    half f = ground (arith, unwrapped)

-- A notify that returns keeps the block on the heap; where it returns true the command stands
-- behind the bytes that waited, and where it returns false they are the same; no event for writing
-- is touched. It writes to NULL only if the memory context refuses an allocation.
unfoldable pub Queued : Os → Channel → ℕ → Notified Channel → Type 0
Queued os c x (notified b d) =
    IsHeap d.buffer
    × (contents d.buffer
        ≡ (elim b [ true ↦ contents c.buffer ++ x ∷ [] | false ↦ contents c.buffer ]))
    × (d.wev ≡ c.wev)
Queued os c x hangs = ⊥
Queued os c x crashes = (n : ℕ) × (os.grant n ≡ false)

queued :
    (os : Os) (granted : Bool) (c : Channel) (x : ℕ) (r : Reserved)
    → c.buffer.fd ≡ none
    → Kept os c.buffer 1 r
    → StaysHeap r
    → Queued os c x (notify_reserved granted c x r)
unfolding Kept Queued notify_reserved put_command pushed
queued os granted c x (reserved b v) e (valid, same, inl n) (h, p, l) =
    simp (n, notify_reserved)
      (record { valid = valid; on_heap = h; some_room = p; limited = l }, same, refl)
queued os granted c x (reserved b v) e (valid, same, inr (at, long, room)) (h, p, l) =
    simp (at, notify_reserved)
      (
        record {
          valid = (pushed-contents b x valid (fits room)).0;
          on_heap = h;
          some_room = p;
          limited = l;
        },
        (pushed-contents b x valid (fits room)).1 ∙ ap (λ z. z ++ x ∷ []) same,
        refl,
      )
  where
    fits : Room c.buffer.fd 1 v.len → b.pos + b.size < b.capacity
    fits room = omega (arith, long, subst (λ z. Room z 1 v.len) e room)
queued os granted c x looping e kept heap = kept
queued os granted c x null_write e kept heap = kept

pub notify_conn-Queued :
    (os : Os) (granted : Bool) (c : Channel) (x : ℕ)
    → IsHeap c.buffer
    → c.buffer.size < 2 ^ 18
    → Queued os c x (notify_conn os granted c x)
unfolding notify_conn
notify_conn-Queued os granted c x heap lt =
    queued os granted c x (buffer_reserve os c.buffer 1) heap.on_heap
      (buffer_reserve-Kept os c.buffer 1 heap.valid heap.some_room (omega (arith, heap.limited))
        (omega (arith, lt)))
      (reserve-StaysHeap os c.buffer heap lt)
