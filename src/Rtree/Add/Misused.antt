-- ===== src/Rtree/Add/Misused.antt =====
-- Where `pgrest_rtree_add` of src/pg_rest_rtree.c passes a block of one allocator to the other.
use pg_rest.Base.{
  ℕ, zero, suc, ◌+◌, ◌≤◌, ◌≡◌, ◌↔◌, refl, sym, ap, ◌∙◌, subst, inl, inr, Bool, true, false, ◌&&◌,
  ◌==◌, ltb, Bool-cases, Option, none, [], ◌∷◌, ◌++◌, length, drop, drop-append_self, arith,
}
use pg_rest.Text.{Bytes, count_params}
use pg_rest.Rtree.{Info, Node, node, nil, cons, root_node}
use pg_rest.Rtree.Insert.{child_insert, byte_before}
use pg_rest.Rtree.Add.{Added, added, misused, frees_libc, of_insert, raise, common}
use pg_rest.Rtree.Add.Loop.{add_loop, height, heights, add}
use pg_rest.Rtree.Add.Sound.{
  Misuses, splits_libc, splits_off, behind, Misuses-raised, IsStatic, IsSound, raise-IsSound, Adds,
}
use pg_rest.Rtree.Add.Blocks.{frees_libc_iff}
use pg_rest.Rtree.Add.Static.{raise_max-zero, child_insert-static}
use pg_rest.Rtree.Add.Outcome.{add-Adds}
use pg_rest.Rtree.Add.Split.{IsStatic-drop, height-nth, height-raise, count_params-IsStatic}
use pg_rest.Rtree.Add.MisusedRound.{
  common-prefix, off-misused, behind-misused, whole-text, not-frees,
}

loop-misused :
    (room : Bool) (rounds : ℕ) (h : Option ℕ) (n : Node) (path : Bytes) (before : Option ℕ)
    → height n ≤ rounds
    → IsSound n
    → IsStatic path
    → Misuses room n path
    → add_loop room rounds h n path 0 before ≡ misused
unfolding add_loop height
loop-misused room zero h (node i kids) path before le s st m = absurd (ground arith)
loop-misused room (suc rounds) h _ path before le s st (splits_libc _ i kids _ lt l) =
    simp ((frees_libc_iff (common path i.path) i).1 (lt, l), add_loop) refl
loop-misused room (suc rounds) h _ path before le s st (splits_off _ i kids _ c rest lt e) =
    let front = byte_before before path (common path i.path) in
    let again : Node → Bytes → ℕ → Added =
      λ n rest left. add_loop room rounds h n rest left front in
    elim (Bool-cases (frees_libc (common path i.path) i)) [
      | inl b ↦ simp (b, add_loop) refl
      | inr b ↦
          simp (b, raise_max-zero i, add_loop)
            (off-misused again room i kids path c rest front h s st lt e)
    ]
loop-misused room (suc rounds) h _ _ before le s st (behind _ i kids rest m) =
    let path = i.path ++ rest in
    let front = byte_before before path (common path i.path) in
    let again : Node → Bytes → ℕ → Added =
      λ n rest left. add_loop room rounds h n rest left front in
    let same = common-prefix i.path rest in
    let u = subst (λ k. ltb k (length i.path) ≡ false) (sym same) (whole-text (length i.path)) in
    let e =
      subst (λ k. drop k path ≡ rest) (sym same)
        (drop-append_self (length i.path) i.path rest refl) in
    simp (not-frees (common path i.path) i u, raise_max-zero i, add_loop)
      (behind-misused again room i kids path rest front h s st u e m (λ c t j n l w b.
        loop-misused room rounds h (raise n) (drop (common path i.path) path) front
          (lower n (height-nth j kids n l.1)) w (IsStatic-drop (common path i.path) path st)
          (Misuses-raised room n (drop (common path i.path) path) b)))
  where
    lower : (n : Node) → height n ≤ heights kids → height (raise n) ≤ rounds
    lower n h = subst (λ z. z ≤ rounds) (sym (height-raise n)) (ground arith)

-- The empty tree, whose first route takes another way.
abbrev pub IsEmpty : Node → Type 0
IsEmpty (node i nil) = i.path ≡ []
IsEmpty (node i (cons n ns)) = ⊥

unfoldable pub Decides : Bool → Node → Bytes → Option ℕ → Added → Type 0
unfolding Adds
Decides room n path h a =
    Adds room n path h a × ((a ≡ misused) ↔ ((IsEmpty n → ⊥) × Misuses room n path))

Adds-misused :
    (room : Bool) (n : Node) (path : Bytes) (h : Option ℕ)
    → Adds room n path h misused
    → Misuses room n path
unfolding Adds
Adds-misused room n path h d = d

-- The loop of a tree that is not empty.
loop-Decides :
    (room : Bool) (n : Node) (path : Bytes) (h : Option ℕ) (a : Added)
    → (IsEmpty n → ⊥)
    → IsSound n
    → IsStatic path
    → a ≡ add_loop room (height n + 1) h (raise n) path (count_params path) none
    → Adds room n path h a
    → Decides room n path h a
unfolding Decides
loop-Decides room n path h a filled s st e d = (
  d,
  (
    (λ m. (filled, Adds-misused room n path h (subst (Adds room n path h) m d))),
    λ u.
        e
        ∙ ap (λ k. add_loop room (height n + 1) h (raise n) path k none)
            (count_params-IsStatic path st)
        ∙ loop-misused room (height n + 1) h (raise n) path none
            (subst (λ z. z ≤ height n + 1) (sym (height-raise n)) (ground arith))
            (raise-IsSound n s) st (Misuses-raised room n path u.1),
  ),
)

IsAdded : Added → Type 0
IsAdded (added n) = Unit {0}
IsAdded misused = ⊥
IsAdded _ = Unit {0}

-- The first route.
empty-Decides :
    (room : Bool) (i : Info) (path : Bytes) (h : Option ℕ) (a : Added) (n : Node)
    → i.path ≡ []
    → a ≡ added n
    → Adds room (node i nil) path h a
    → Decides room (node i nil) path h a
unfolding Decides IsAdded
empty-Decides room i path h a n e f d =
    (d, ((λ m. absurd (subst IsAdded (sym f ∙ m) tt)), λ u. absurd (u.0 e)))

first-added :
    (i : Info) (path : Bytes) (h : Option ℕ)
    → IsStatic path
    → of_insert (child_insert (node i nil) (count_params path) path none h)
      ≡ added (node (record i { path = path; handler = h }) nil)
unfolding of_insert
first-added i path h st =
    rw (count_params-IsStatic path st, child_insert-static i nil path none h) refl

-- `pgrest_rtree_add` of a route without wildcards to a sound tree comes to an end, and reads nothing
-- that is not there. Either it adds the route, and then `pgrest_rtree_find` finds the route's handler,
-- with no parameters, whatever the greatest number of them; or it returns false, and the tree
-- blocks the route: it has a handler at the end of it, or goes on with a wildcard where the route
-- goes on with another text. Either way the tree is sound. Or the behaviour is undefined, which is so
-- exactly where the tree is not empty and, on the way of the route, a node is split whose indices
-- `realloc` made, a split gets a new child beside the old text, or a node gets a new child where its
-- indices are a block of `palloc`, its array of children is full, or `realloc` fails.
pub add-Decides :
    (room : Bool) (n : Node) (path : Bytes) (h : Option ℕ)
    → IsSound n
    → IsStatic path
    → Decides room n path h (add room n path h)
unfolding add
add-Decides room (node i nil) path h s st = elim (Bool-cases (length i.path == 0)) [
  | inl u ↦
      empty-Decides room i path h (add room (node i nil) path h)
        (node (record i { path = path; type = root_node; priority = i.priority + 1; handler = h })
          nil)
        (no_text i.path u)
        (simp (u, add)
          (first-added (record i { type = root_node; priority = i.priority + 1 }) path h st))
        (add-Adds room (node i nil) path h s st)
  | inr u ↦
      loop-Decides room (node i nil) path h (add room (node i nil) path h) (some_text i.path u) s st
        (simp (u, add) refl) (add-Adds room (node i nil) path h s st)
]
  where
    no_text : (t : Bytes) → (length t == 0) ≡ true → t ≡ []
    no_text [] e = refl
    no_text (x ∷ t) e = ground arith

    some_text : (t : Bytes) → (length t == 0) ≡ false → t ≡ [] → ⊥
    some_text t e f = ground arith
add-Decides room (node i (cons n ns)) path h s st =
    loop-Decides room (node i (cons n ns)) path h (add room (node i (cons n ns)) path h) (λ e. e) s
      st (simp (and_false (length i.path == 0), add) refl)
      (add-Adds room (node i (cons n ns)) path h s st)
  where
    and_false : (p : Bool) → (p && false) ≡ false
    and_false true = refl
    and_false false = refl
