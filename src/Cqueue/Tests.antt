-- ===== src/Cqueue/Tests.antt =====
-- Runs of the queue of src/pg_rest_cqueue.c.
use pg_rest.Base.{ℕ, true, false, ◌≡◌, refl, [], ◌∷◌, List, some, none, arith}
use pg_rest.Cqueue.{Cqueue, create, push, pop}
use pg_rest.Cqueue.Fifo.{IsValid, enqueue, dequeue}
use pg_rest.Cqueue.Client.{Call, offers, polls, run, run_list, run_refines, create_refines}

-- The element 9 stands in the last cell, and 4 in the first.
abbrev wrapped : Cqueue ℕ
wrapped = record { elts = 4 ∷ 0 ∷ 9 ∷ []; elt_size = 8; size = 2; capacity = 3; head = 2; tail = 1 }

wrapped-IsValid : IsValid wrapped
wrapped-IsValid = record {
  block = refl;
  used = omega arith;
  small = omega arith;
  head_in = omega arith;
  tail_at = omega arith;
}

abbrev some_calls : List (Call ℕ)
some_calls = offers 7 ∷ offers 8 ∷ polls ∷ polls ∷ polls ∷ polls ∷ []

wrapped_calls :
    run wrapped some_calls
    ≡ (true, none)
      ∷ (false, none)
      ∷ (true, some 9)
      ∷ (true, some 4)
      ∷ (true, some 7)
      ∷ (true, none)
      ∷ []
unfolding run enqueue dequeue push pop
wrapped_calls = refl

run_refines_example : run wrapped some_calls ≡ run_list 3 (9 ∷ 4 ∷ []) some_calls
run_refines_example = run_refines some_calls wrapped wrapped-IsValid

create_refines_example : run (create 0 2 8) some_calls ≡ run_list 2 [] some_calls
create_refines_example = create_refines 0 2 8 some_calls (omega arith) (omega arith) (omega arith)
