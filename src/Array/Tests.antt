-- ===== src/Array/Tests.antt =====
-- Runs of the arrays of src/pg_rest_array.c.
use pg_rest.Base.{ℕ, Bool, true, false, ◌≡◌, ◌≢◌, refl, [], ◌∷◌, some, none, arith}
use pg_rest.Array.{Array, push, push_head, contents}
use pg_rest.Array.Contents.{IsValid, Pushed, push-Pushed}
use pg_rest.Array.Failure.{PushedHead, push_head-PushedHead}

abbrev full : Array ℕ
full = record { elts = 5 ∷ 6 ∷ []; elt_size = 8; size = 2; capacity = 2 }

full-IsValid : IsValid full
full-IsValid = record {
  block = refl;
  used = omega arith;
  room = omega arith;
  cell = omega arith;
  granted = omega arith;
}

abbrev granting : ℕ → Bool
granting n = true

abbrev refusing : ℕ → Bool
refusing n = false

push_run : contents (push granting 0 full).1 ≡ 5 ∷ 6 ∷ 0 ∷ []
unfolding push
push_run = refl

push-Pushed_example : Pushed granting 0 full 7 (push granting 0 full)
push-Pushed_example = push-Pushed granting 0 full 7 full-IsValid

granted_push : (push granting 0 full).0 ≡ some 2
unfolding push
granted_push = refl

granted_push-some : (push granting 0 full).0 ≢ none
granted_push-some e = ground (arith, granted_push, e)

push_head-PushedHead_example : PushedHead granting 0 full 7 (push_head granting 0 full)
push_head-PushedHead_example = push_head-PushedHead granting 0 full 7 full-IsValid granted_push-some
