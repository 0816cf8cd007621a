-- ===== src/Ipc/Drain.antt =====
-- That the write handler of src/pg_rest_ipc.c empties the buffer, if it is called.
use pg_rest.Base.{
  ℕ, false, ◌-◌, ◌≤◌, ◌≡◌, ap, sym, ◌∙◌, min, Bool, List, [], ◌∷◌, ◌++◌, arith, ◌==◌, inl, inr,
  Bool-cases, length, All, take, drop,
}
use pg_rest.Text.{Bytes}
use pg_rest.Buffer.{Buffer, consume, reset}
use pg_rest.Buffer.Contents.{IsValid, contents}
use pg_rest.Ipc.{Channel, sent, Written, kept, closed, schedule, write_sent, write_handler}
use pg_rest.Ipc.Notify.{IsHeap}
use pg_rest.Ipc.Write.{Moved, write_handler-Moved}

abbrev sent_after : Bytes → Written → Written
sent_after out (kept c more) = kept c (out ++ more)
sent_after out closed = closed

unfoldable pub rounds_after : (Channel → Written) → Written → Written
rounds_after rounds (kept c out) = sent_after out (rounds c)
rounds_after rounds closed = closed

-- One call of the write handler for each number: the socket has room for so many bytes.
unfoldable pub write_rounds : Bool → List ℕ → Channel → Written
unfolding rounds_after
write_rounds granted [] c = kept c []
write_rounds granted (n ∷ rooms) c =
    rounds_after (write_rounds granted rooms) (write_handler granted c (sent (min n c.buffer.size)))

-- A call on a socket with room sends something, if there is something.
abbrev Smaller : Buffer → Written → Type 0
Smaller buf (kept d out) = d.buffer.size ≤ buf.size - 1
Smaller buf closed = ⊥

consume-size : (b : Buffer) (n : ℕ) → IsValid b → n ≤ b.size → (consume b n).size ≡ b.size - n
unfolding consume reset
consume-size b n valid le = elim (Bool-cases (b.size == n)) [
  | inl e ↦ rw (e, consume, reset) (ground arith)
  | inr e ↦ rw (e, consume, reset) (omega (arith, valid.inside, valid.in_range, le))
]

schedule-Smaller :
    (granted : Bool) (c : Channel) (buf : Buffer) (out : Bytes)
    → c.buffer.size ≤ buf.size - 1
    → Smaller buf (schedule granted c out)
unfolding schedule
schedule-Smaller granted c buf out le = elim (Bool-cases (c.buffer.size == 0)) [
  | inl z ↦ rw (z, schedule) le
  | inr z ↦ rw (z, schedule) le
]

write-Smaller :
    (granted : Bool) (c : Channel) (n : ℕ)
    → IsHeap c.buffer
    → 1 ≤ n
    → Smaller c.buffer (write_handler granted c (sent (min n c.buffer.size)))
unfolding write_handler write_sent
write-Smaller granted c n heap le = elim (Bool-cases (c.buffer.size == 0)) [
  | inl z ↦ simp (z, write_handler) (ground (arith, z))
  | inr z ↦
      simp (z, some_bytes z, write_handler, write_sent)
        (schedule-Smaller granted (record c { buffer = consume c.buffer k }) c.buffer
          (take k (drop c.buffer.pos c.buffer.start))
          (omega (arith, consume-size c.buffer k heap.valid (omega arith), le, nonzero z)))
]
  where
    k : ℕ
    k = min n c.buffer.size

    nonzero : (c.buffer.size == 0) ≡ false → 1 ≤ c.buffer.size
    nonzero z = ground arith

    some_bytes : (c.buffer.size == 0) ≡ false → (min n c.buffer.size == 0) ≡ false
    some_bytes z = ground (arith, nonzero z, le)

-- The rounds behind one that left `d`.
drain_more :
    (granted : Bool) (rooms : List ℕ) (buf : Buffer) (w : Written)
    → Smaller buf w
    → Moved buf w
    → ((d : Channel)
        → IsHeap d.buffer
        → d.buffer.size ≤ buf.size - 1
        → (e : Channel) × (write_rounds granted rooms d ≡ kept e (contents d.buffer))
          × (e.buffer.size ≡ 0))
    → (e : Channel) × (rounds_after (write_rounds granted rooms) w ≡ kept e (contents buf))
      × (e.buffer.size ≡ 0)
unfolding rounds_after
drain_more granted rooms buf (kept d out) le (heap, same) more =
    let (e, all, empty) = more d heap le in
    (e, ap (sent_after out) all ∙ ap (kept e) (sym same), empty)
drain_more granted rooms buf closed le m more = absurd le

nothing : (b : Buffer) → b.size ≡ 0 → contents b ≡ []
nothing b e = ap (λ n. take n (drop b.pos b.start)) e

-- A valid buffer is empty after as many calls of the write handler as it has bytes, on a socket that
-- has room for at least a byte at each, and the bytes sent are those that it held, in order.
pub write_rounds-drain :
    (granted : Bool) (rooms : List ℕ) (c : Channel)
    → IsHeap c.buffer
    → All (λ n. 1 ≤ n) rooms
    → c.buffer.size ≤ length rooms
    → (d : Channel) × (write_rounds granted rooms c ≡ kept d (contents c.buffer))
      × (d.buffer.size ≡ 0)
unfolding write_rounds
write_rounds-drain granted [] c heap all le = (c, ap (kept c) (sym (nothing c.buffer empty)), empty)
  where
    empty : c.buffer.size ≡ 0
    empty = omega (arith, le)
write_rounds-drain granted (n ∷ rooms) c heap (p, all) le =
    drain_more granted rooms c.buffer (write_handler granted c (sent (min n c.buffer.size)))
      (write-Smaller granted c n heap p)
      (write_handler-Moved granted c (sent (min n c.buffer.size)) heap (omega arith))
      (λ d h s. write_rounds-drain granted rooms d h all (omega (arith, le, s)))
