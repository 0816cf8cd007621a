-- ===== src/Ipc/Write.antt =====
-- What the write handler of src/pg_rest_ipc.c sends of the buffer.
use pg_rest.Base.{
  ℕ, zero, suc, ◌≤◌, ◌≡◌, refl, ap, sym, ◌∙◌, Bool, [], ◌∷◌, ◌++◌, arith, ◌==◌, inl, inr,
  Bool-cases, take, drop,
}
use pg_rest.Text.{Bytes}
use pg_rest.Buffer.{Buffer, consume, reset}
use pg_rest.Buffer.Contents.{contents, consume-contents}
use pg_rest.Ipc.{
  Channel, Sending, sent, send_again, send_error, Written, kept, closed, schedule, write_sent,
  write_handler,
}
use pg_rest.Ipc.Notify.{IsHeap}

-- `send` takes no more than it was given.
abbrev pub Within : Sending → ℕ → Type 0
Within (sent n) size = n ≤ size
Within send_again size = Unit
Within send_error size = Unit

-- What a call of the write handler leaves of the contents.
abbrev pub Moved : Buffer → Written → Type 0
Moved buf (kept d out) = IsHeap d.buffer × (contents buf ≡ out ++ contents d.buffer)
Moved buf closed = Unit

schedule-Moved :
    (granted : Bool) (c : Channel) (buf : Buffer) (out : Bytes)
    → IsHeap c.buffer
    → contents buf ≡ out ++ contents c.buffer
    → Moved buf (schedule granted c out)
unfolding schedule
schedule-Moved granted c buf out heap e = elim (Bool-cases (c.buffer.size == 0)) [
  | inl z ↦ rw (z, schedule) (heap, e)
  | inr z ↦ rw (z, schedule) (heap, e)
]

pub consume-IsHeap : (b : Buffer) (n : ℕ) → IsHeap b → n ≤ b.size → IsHeap (consume b n)
unfolding consume reset
consume-IsHeap b n heap le = elim (Bool-cases (b.size == n)) [
  | inl e ↦ record {
    valid = (consume-contents b n heap.valid le).0;
    on_heap = rw (e, consume, reset) heap.on_heap;
    some_room = rw (e, consume, reset) heap.some_room;
    limited = rw (e, consume, reset) heap.limited;
  }
  | inr e ↦ record {
    valid = (consume-contents b n heap.valid le).0;
    on_heap = rw (e, consume, reset) heap.on_heap;
    some_room = rw (e, consume, reset) heap.some_room;
    limited = rw (e, consume, reset) heap.limited;
  }
]

first_bytes : (n k : ℕ) (xs : Bytes) → n ≤ k → take n xs ++ drop n (take k xs) ≡ take k xs
first_bytes zero k xs le = refl
first_bytes (suc n) zero xs le = absurd (omega (arith, le))
first_bytes (suc n) (suc k) [] le = refl
first_bytes (suc n) (suc k) (x ∷ xs) le = ap (λ z. x ∷ z) (first_bytes n k xs (omega (arith, le)))

pub write_handler-Moved :
    (granted : Bool) (c : Channel) (answer : Sending)
    → IsHeap c.buffer
    → Within answer c.buffer.size
    → Moved c.buffer (write_handler granted c answer)
unfolding write_handler write_sent
write_handler-Moved granted c answer heap within = elim (Bool-cases (c.buffer.size == 0)) [
  | inl z ↦ simp (z, write_handler) (heap, refl)
  | inr z ↦ simp (z, write_handler) (by_answer answer within)
]
  where
    by_answer :
        (answer : Sending)
        → Within answer c.buffer.size
        → Moved c.buffer (write_sent granted c answer)
    by_answer (sent n) le = elim (Bool-cases (n == 0)) [
      | inl z ↦ rw (z, write_sent) (schedule-Moved granted c c.buffer [] heap refl)
      | inr z ↦
          rw (z, write_sent)
            (schedule-Moved granted (record c { buffer = consume c.buffer n }) c.buffer
              (take n (drop c.buffer.pos c.buffer.start)) (consume-IsHeap c.buffer n heap le)
              (sym (
                ap (λ z. take n (drop c.buffer.pos c.buffer.start) ++ z)
                  (consume-contents c.buffer n heap.valid le).1
                ∙ first_bytes n c.buffer.size (drop c.buffer.pos c.buffer.start) le)))
    ]
    by_answer send_again le = schedule-Moved granted c c.buffer [] heap refl
    by_answer send_error le = tt
