-- ===== src/Rtree/Add/Outcome.antt =====
-- `pgrest_rtree_add` of src/pg_rest_rtree.c on a route without wildcards.
use pg_rest.Base.{
  ℕ, zero, suc, ◌+◌, ◌≤◌, ◌≡◌, refl, sym, ap, ◌∙◌, subst, inl, inr, Bool, true, false, ◌&&◌, ◌==◌,
  ltb, Bool-cases, Option, none, [], ◌∷◌, ◌++◌, length, drop, take_full, ltb→lt, arith,
}
use mathlib.Core.Option.{none-ne-some}
use pg_rest.Text.{Bytes, count_params}
use pg_rest.Rtree.{Info, Node, node, Nodes, nil, cons, root_node}
use pg_rest.Rtree.Insert.{child_insert, byte_before}
use pg_rest.Rtree.Add.{
  Added, added, denied, overran, out_of_rounds, misused, frees_libc, of_insert, raise, common,
  head_info, tail_info, split_node,
}
use pg_rest.Rtree.Add.Moves.{Leads}
use pg_rest.Rtree.Add.Loop.{add_rest, add_loop, height, heights, add}
use pg_rest.Rtree.Add.Sound.{
  Misuses, MisusesRest, Misuses-raise, splits_libc, splits_off, appends, leads, IsStatic, IsSound,
  Adds, AddsRest, raise-IsSound, IsBlocked-raise,
}
use pg_rest.Rtree.Add.Blocks.{frees_libc_iff}
use pg_rest.Rtree.Add.Static.{raise_max-zero, child_insert-static, find-end}
use pg_rest.Rtree.Add.Rest.{add_rest-end, add_rest-on}
use pg_rest.Rtree.Add.Split.{
  take-common, common-differs, IsStatic-drop, height-nth, height-raise, Stops-head, split-IsSound,
  count_params-IsStatic,
}
use pg_rest.Rtree.Add.Ends.{AddsRest-Adds, split-Adds}

AddsRest-round :
    (again : Node → Bytes → ℕ → Added) (room : Bool) (i : Info) (kids : Nodes) (rest : Bytes)
    (before h : Option ℕ)
    → IsSound (node i kids)
    → IsStatic rest
    → ((c : ℕ) (s : Bytes) (j : ℕ) (n : Node)
        → rest ≡ c ∷ s
        → Leads c (j, kids, i.indices) n
        → IsSound (raise n)
        → Adds room (raise n) rest h (again (raise n) rest 0))
    → AddsRest room i kids rest h (add_rest again room h (node i kids) rest 0 before)
AddsRest-round again room i kids [] before h s st go = add_rest-end again room i kids before h s
AddsRest-round again room i kids (c ∷ rest) before h s st go =
    add_rest-on again room i kids c rest before h s st (λ j n l t. go c rest j n refl l t)

-- A round at a node whose text the path begins with.
whole-Adds :
    (again : Node → Bytes → ℕ → Added) (room : Bool) (i : Info) (kids : Nodes) (path : Bytes)
    (before h : Option ℕ)
    → ltb (common path i.path) (length i.path) ≡ false
    → IsSound (node i kids)
    → IsStatic path
    → ((c : ℕ) (s : Bytes) (j : ℕ) (n : Node)
        → drop (common path i.path) path ≡ c ∷ s
        → Leads c (j, kids, i.indices) n
        → IsSound (raise n)
        → Adds room
            (raise n)
            (drop (common path i.path) path)
            h
            (again (raise n) (drop (common path i.path) path) 0))
    → Adds room (node i kids) path h (
        add_rest again room h
          (split_node (common path i.path) i kids)
          (drop (common path i.path) path)
          0
          before)
unfolding split_node
whole-Adds again room i kids path before h u s st go =
    simp (u, split_node)
      (AddsRest-Adds room i kids (drop (common path i.path) path) path h
        (add_rest again room h (node i kids) (drop (common path i.path) path) 0 before)
        (ap (λ z. z ++ drop (common path i.path) path)
            (sym (take_full (common path i.path) i.path (ground arith)))
          ∙ take-common path i.path)
        (AddsRest-round again room i kids (drop (common path i.path) path) before h s
          (IsStatic-drop (common path i.path) path st) go))

-- What goes wrong at the node that a split leaves.
turned :
    (room : Bool) (i : Info) (kids : Nodes) (path rest : Bytes)
    → drop (common path i.path) path ≡ rest
    → ltb (common path i.path) (length i.path) ≡ true
    → MisusesRest room
        (head_info (common path i.path) i)
        (cons (node (tail_info (common path i.path) i kids) kids) nil)
        rest
    → Misuses room (node i kids) path
turned room i kids path _ e u (appends _ _ _ c r w x m) =
    splits_off room i kids path c r (ltb→lt (common path i.path) (length i.path) u) e
turned room i kids path _ e u (leads _ _ _ c r j n w l m) =
    splits_off room i kids path c r (ltb→lt (common path i.path) (length i.path) u) e

-- A round at a node that is split.
split_round-Adds :
    (again : Node → Bytes → ℕ → Added) (room : Bool) (i : Info) (kids : Nodes) (path : Bytes)
    (before h : Option ℕ)
    → ltb (common path i.path) (length i.path) ≡ true
    → IsSound (node i kids)
    → IsStatic path
    → Adds room (node i kids) path h (
        add_rest again room h
          (split_node (common path i.path) i kids)
          (drop (common path i.path) path)
          0
          before)
unfolding split_node
split_round-Adds again room i kids path before h u s st =
    let k = common path i.path in
    let rest = drop k path in
    let tail = cons (node (tail_info k i kids) kids) nil in
    simp (u, split_node)
      (split-Adds room (node i kids) (head_info k i) tail rest path h
        (add_rest again room h (node (head_info k i) tail) rest 0 before) (take-common path i.path)
        (Stops-head i tail path rest refl) (turned room i kids path rest refl u)
        (AddsRest-round again room (head_info k i) tail rest before h
          (split-IsSound k i kids (ltb→lt k (length i.path) u) s) (IsStatic-drop k path st)
          (λ c t j n e l w.
            absurd (none-ne-some j (sym (common-differs path i.path c t e) ∙ l.0)))))

add_loop-Adds :
    (room : Bool) (rounds : ℕ) (h : Option ℕ) (n : Node) (path : Bytes) (before : Option ℕ)
    → height n ≤ rounds
    → IsSound n
    → IsStatic path
    → Adds room n path h (add_loop room rounds h n path 0 before)
unfolding add_loop height Adds
add_loop-Adds room zero h (node i kids) path before le s st = absurd (ground arith)
add_loop-Adds room (suc rounds) h (node i kids) path before le s st =
    let front = byte_before before path (common path i.path) in
    let again : Node → Bytes → ℕ → Added =
      λ n rest left. add_loop room rounds h n rest left front in
    elim (Bool-cases (frees_libc (common path i.path) i)) [
      | inl b ↦
          let f = (frees_libc_iff (common path i.path) i).0 b in
          simp (b, add_loop) (splits_libc room i kids path f.0 f.1)
      | inr b ↦ elim (Bool-cases (ltb (common path i.path) (length i.path))) [
        | inl u ↦
            simp (b, raise_max-zero i, add_loop)
              (split_round-Adds again room i kids path front h u s st)
        | inr u ↦
            simp (b, raise_max-zero i, add_loop)
              (whole-Adds again room i kids path front h u s st (λ c t j n e l w.
                add_loop-Adds room rounds h (raise n) (drop (common path i.path) path) front
                  (lower n (height-nth j kids n l.1)) w
                  (IsStatic-drop (common path i.path) path st)))
      ]
    ]
  where
    lower : (n : Node) → height n ≤ heights kids → height (raise n) ≤ rounds
    lower n h = subst (λ z. z ≤ rounds) (sym (height-raise n)) (ground arith)

Adds-raise :
    (room : Bool) (n : Node) (path : Bytes) (h : Option ℕ) (a : Added)
    → Adds room (raise n) path h a
    → Adds room n path h a
unfolding Adds
Adds-raise room n path h (added m) d = d
Adds-raise room n path h (denied m) d = (d.0, IsBlocked-raise n path d.1)
Adds-raise room n path h overran d = d
Adds-raise room n path h out_of_rounds d = d
Adds-raise room n path h misused d = Misuses-raise room n path d

loop-Adds :
    (room : Bool) (n : Node) (path : Bytes) (h : Option ℕ)
    → IsSound n
    → IsStatic path
    → Adds room n path h (add_loop room (height n + 1) h (raise n) path (count_params path) none)
loop-Adds room n path h s st = rw (count_params-IsStatic path st) (
    Adds-raise room n path h (add_loop room (height n + 1) h (raise n) path 0 none) (
      add_loop-Adds room (height n + 1) h (raise n) path none
        (subst (λ z. z ≤ height n + 1) (sym (height-raise n)) (ground arith)) (raise-IsSound n s)
        st))

empty-Adds :
    (room : Bool) (i : Info) (path : Bytes) (h : Option ℕ)
    → IsSound (node i nil)
    → IsStatic path
    → Adds room (node i nil) path h (
        of_insert (
          child_insert
            (node (record i { type = root_node; priority = i.priority + 1 }) nil)
            (count_params path)
            path
            none
            h))
unfolding Adds IsSound of_insert
empty-Adds room i path h s st =
    rw
      (
        count_params-IsStatic path st,
        child_insert-static (record i { type = root_node; priority = i.priority + 1 }) nil path none
            h,
      )
      (
        (refl, s.1),
        λ max ps.
            find-end max
              (record i { path = path; type = root_node; priority = i.priority + 1; handler = h })
              nil ps,
      )

-- The outcome is one that `Adds` describes.
pub add-Adds :
    (room : Bool) (n : Node) (path : Bytes) (h : Option ℕ)
    → IsSound n
    → IsStatic path
    → Adds room n path h (add room n path h)
unfolding add Adds
add-Adds room (node i nil) path h s st = elim (Bool-cases (length i.path == 0)) [
  | inl u ↦ simp (u, add) (empty-Adds room i path h s st)
  | inr u ↦ simp (u, add) (loop-Adds room (node i nil) path h s st)
]
add-Adds room (node i (cons n ns)) path h s st =
    simp (and_false (length i.path == 0), add) (loop-Adds room (node i (cons n ns)) path h s st)
  where
    and_false : (p : Bool) → (p && false) ≡ false
    and_false true = refl
    and_false false = refl
