-- ===== src/Ipc/Order.antt =====
-- That the commands of src/pg_rest_ipc.c arrive in the order of the notifies.
use pg_rest.Base.{
  ℕ, true, false, ◌+◌, ◌≡◌, refl, Bool, Option, none, some, [], arith, leb, inl, inr, Bool-cases,
  length, length-replicate, ◌%◌,
}
use pg_rest.Text.{Bytes}
use pg_rest.Array.{size_mod, max_alloc}
use pg_rest.Buffer.{Os, buffer_create, alloc, start_offset}
use pg_rest.Buffer.Contents.{contents}
use pg_rest.Ipc.{Setup, ready, refused, null_event, assign_event, setup_handler, idle}
use pg_rest.Ipc.Notify.{IsHeap}

abbrev AllSome : (Bytes → Type 0) → Option Bytes → Type 0
AllSome P none = Unit
AllSome P (some x) = P x

abbrev pub Fresh : Setup → Type 0
Fresh refused = Unit
Fresh null_event = Unit
Fresh (ready c) = IsHeap c.buffer × (contents c.buffer ≡ []) × (c.wev ≡ idle)

alloc-length : (os : Os) (n : ℕ) → AllSome (λ start. length start ≡ n) (alloc os n)
unfolding alloc
alloc-length os n = elim (Bool-cases (leb ((start_offset + n) % size_mod) max_alloc)) [
  | inl e ↦ elim (Bool-cases (os.grant ((start_offset + n) % size_mod))) [
    | inl g ↦ rw (e, g, alloc) (length-replicate {A = ℕ} n os.junk)
    | inr g ↦ rw (e, g, alloc) tt
  ]
  | inr e ↦ rw (e, alloc) tt
]

created :
    (os : Os) (granted reading assigned events : Bool) (o : Option Bytes)
    → AllSome (λ start. length start ≡ 1024) o
    → alloc os 1024 ≡ o
    → Fresh (setup_handler os true true events assigned reading granted)
unfolding setup_handler buffer_create assign_event
created os granted reading assigned events none l e = rw (e, setup_handler, buffer_create) tt
created os granted reading true true (some start) l e =
    rw (e, setup_handler, buffer_create)
      (
        record {
          valid = record { inside = omega arith; block = l; in_range = omega arith };
          on_heap = refl;
          some_room = omega arith;
          limited = omega arith;
        },
        refl,
        refl,
      )
created os granted reading false true (some start) l e = rw (e, setup_handler, buffer_create) tt
created os granted reading assigned false (some start) l e = rw (e, setup_handler, buffer_create) tt

pub setup_handler-Fresh :
    (os : Os) (connected pooled events assigned reading granted : Bool)
    → Fresh (setup_handler os connected pooled events assigned reading granted)
unfolding setup_handler
setup_handler-Fresh os true true events assigned reading granted =
    created os granted reading assigned events (alloc os 1024) (alloc-length os 1024) refl
setup_handler-Fresh os true false events assigned reading granted = tt
setup_handler-Fresh os false pooled events assigned reading granted = tt
