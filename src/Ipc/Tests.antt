-- ===== src/Ipc/Tests.antt =====
-- Runs of the channel of src/pg_rest_ipc.c.
use pg_rest.Base.{
  ℕ, true, false, ◌≡◌, ◌≢◌, refl, sym, ap, some, none, [], ◌∷◌, arith, suc, zero, get_elem?,
  replicate, ◌∙◌,
}
use mathlib.Core.Option.{some-injective, none-ne-some}
use pg_rest.Buffer.{Os, buffer_create, buffer_reserve, reserve_done, alloc, free_size}
use pg_rest.Buffer.Contents.{contents}
use pg_rest.Ipc.{
  Ipc, Channel, ready, assign_event, notified, notify_conn, notify_reserved, put_command,
  setup_handler, kept, received, recv_again, waiting, read_handler, dispatch, call_first,
  called_before, fail, send_notify, idle,
}
use pg_rest.Ipc.Notify.{IsHeap}
use pg_rest.Ipc.Stream.{begins, notifies}
use pg_rest.Ipc.Idle.{Sender, Runs, IsStuck, Runs-IsStuck}
use pg_rest.Ipc.Idle
use pg_rest.Ipc.Drain.{write_rounds, write_rounds-drain}
use pg_rest.Ipc.Lost.{Apart, fail-send_notify}

abbrev system : Os
system = record {
  grant = λ n. true;
  junk = 0;
  pagesize = 4096;
  mkstemp = none;
  posix_fallocate = λ fd n. true;
  mmap = λ fd n. true;
}

abbrev new_channel : Channel
new_channel = record {
  buffer = record { capacity = 1024; size = 0; pos = 0; fd = none; start = replicate 1024 0 };
  rev = idle;
  wev = idle;
}

abbrev one_waits : Channel
one_waits = record {
  buffer = record { capacity = 1024; size = 1; pos = 0; fd = none; start = 2 ∷ replicate 1023 0 };
  rev = record { pending = true; timeout = none };
  wev = idle;
}

setup_run : setup_handler system true true true true false true ≡ ready new_channel
unfolding setup_handler buffer_create alloc assign_event
setup_run = refl

notify_run : notify_conn system true new_channel 2 ≡ notified true one_waits
unfolding notify_conn notify_reserved put_command buffer_reserve reserve_done free_size
notify_run = refl

read_run :
    read_handler
      (true ∷ false ∷ true ∷ [])
      (received (2 ∷ 1 ∷ []) ∷ received (0 ∷ []) ∷ recv_again ∷ [])
    ≡ waiting (2 ∷ 0 ∷ [])
unfolding read_handler dispatch call_first called_before
read_run = refl

Runs-IsStuck_example : IsStuck (record { channel = one_waits; accepted = 2 ∷ []; out = [] })
Runs-IsStuck_example =
    Runs-IsStuck (record { channel = one_waits; accepted = 2 ∷ []; out = [] })
      (Idle.Runs.notifies system true 2 (record { channel = new_channel; accepted = []; out = [] })
        one_waits (Idle.Runs.begins system true true true true true new_channel setup_run)
        (omega arith) notify_run)

one_waits-IsHeap : IsHeap one_waits.buffer
one_waits-IsHeap = record {
  valid = record { inside = omega arith; block = refl; in_range = omega arith };
  on_heap = refl;
  some_room = omega arith;
  limited = omega arith;
}

write_rounds-drain_example :
    (d : Channel) × (write_rounds true (7 ∷ []) one_waits ≡ kept d (contents one_waits.buffer))
    × (d.buffer.size ≡ 0)
write_rounds-drain_example =
    write_rounds-drain true (7 ∷ []) one_waits one_waits-IsHeap (omega arith) (omega arith)

abbrev workers : Ipc
workers = record { ipc_data = none ∷ some 0 ∷ some 1 ∷ []; conns = new_channel ∷ one_waits ∷ [] }

-- The connection of each worker is the one before its own number.
workers-place : (i p : ℕ) → get_elem? workers.ipc_data i ≡ some (some p) → i ≡ suc p
workers-place zero p e = absurd (none-ne-some p (some-injective none (some p) e))
workers-place (suc zero) p e = ap suc (some-injective 0 p (some-injective (some 0) (some p) e))
workers-place (suc (suc zero)) p e =
    ap suc (some-injective 1 p (some-injective (some 1) (some p) e))
workers-place (suc (suc (suc i))) p e = absurd (none-ne-some (some p) e)

workers-Apart : Apart workers.ipc_data
workers-Apart i j p h k = workers-place i p h ∙ sym (workers-place j p k)

fail-send_notify_example :
    (send_notify system true (fail 1 workers) 2 0 ≡ notified false (fail 1 workers))
    × ((other : ℕ)
        → other ≢ 2
        → get_elem? (fail 1 workers).ipc_data other ≡ get_elem? workers.ipc_data other)
fail-send_notify_example = fail-send_notify system true workers 2 1 0 workers-Apart refl
