-- ===== src/Cqueue/Client.antt =====
-- Whole sequences of calls on a circular queue.
use pg_rest.Base.{ℕ, ◌*◌, ◌≡◌, refl, ap, ◌∙◌, Bool, true, Option, none, List, [], ◌∷◌, ◌<◌}
use pg_rest.Cqueue.{Cqueue, create, uint_mod}
use pg_rest.Cqueue.Fifo.{
  IsValid, contents, enqueue, dequeue, offer, poll, enqueue_refines, dequeue_refines,
  create-IsValid,
}

pub data Call {ℓ} (A : Type ℓ) : Type ℓ where
  offers : A → Call A
  polls : Call A

module _ {ℓ} {A : Type ℓ} where
  -- What each call returns: whether there was room, and the element taken.
  unfoldable pub run : Cqueue A → List (Call A) → List (Bool × Option A)
  run cq [] = []
  run cq (offers x ∷ calls) = let (done, b) = enqueue cq x in (done, none) ∷ run b calls
  run cq (polls ∷ calls) = let (out, b) = dequeue cq in (true, out) ∷ run b calls

  unfoldable pub run_list : ℕ → List A → List (Call A) → List (Bool × Option A)
  run_list n q [] = []
  run_list n q (offers x ∷ calls) = let (done, r) = offer n q x in (done, none) ∷ run_list n r calls
  run_list n q (polls ∷ calls) = let (out, r) = poll q in (true, out) ∷ run_list n r calls

  -- No sequence of calls tells a valid queue from the bounded list of its elements.
  pub run_refines :
      (calls : List (Call A)) (cq : Cqueue A)
      → IsValid cq
      → run cq calls ≡ run_list cq.capacity (contents cq) calls
  unfolding run run_list
  run_refines [] cq v = refl
  run_refines (offers x ∷ calls) cq v =
      let (e, w, c) = enqueue_refines cq x v in rw (run_refines calls (enqueue cq x).1 w, c, ← e)
  run_refines (polls ∷ calls) cq v =
      let (e, w, c) = dequeue_refines cq v in rw (run_refines calls (dequeue cq).1 w, c, ← e)

  -- A queue of positive capacity, with elements of some bytes whose number in all fits in 64 bits,
  -- begins as the empty list, so all that its clients see of it is the bounded list.
  pub create_refines :
      (junk : A) (capacity elt_size : ℕ) (calls : List (Call A))
      → 0 < capacity
      → 0 < elt_size
      → capacity * elt_size < uint_mod
      → run (create junk capacity elt_size) calls ≡ run_list capacity [] calls
  unfolding create
  create_refines junk n e calls h p k =
      let (v, empty) = create-IsValid junk n e h p k in
      run_refines calls (create junk n e) v ∙ ap (λ q. run_list n q calls) empty
