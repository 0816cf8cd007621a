-- ===== src/Rtree/Add/Kept.antt =====
-- `pgrest_rtree_add` of src/pg_rest_rtree.c and the other routes of the tree.
use pg_rest.Base.{
  ℕ, zero, suc, ◌+◌, ◌≤◌, ◌≡◌, sym, ap, ◌∙◌, subst, inl, inr, Bool, true, false, ◌&&◌, not, ◌==◌,
  ltb, Bool-cases, Option, none, ◌∷◌, ◌++◌, length, drop, take_full, ltb→lt, arith,
}
use mathlib.Core.Option.{none-ne-some}
use pg_rest.Text.{Bytes, count_params}
use pg_rest.Rtree.{Info, Node, node, Nodes, nil, cons}
use pg_rest.Rtree.Insert.{has_children, byte_before}
use pg_rest.Rtree.Add.{Added, frees_libc, raise, common, head_info, tail_info, split_node}
use pg_rest.Rtree.Add.Moves.{Leads}
use pg_rest.Rtree.Add.Static.{raise_max-zero}
use pg_rest.Rtree.Add.Loop.{add_rest, add_loop, height, heights, add}
use pg_rest.Rtree.Add.Sound.{IsStatic, IsSound, raise-IsSound}
use pg_rest.Rtree.Add.Others.{Kept, Kept-raise, add_rest-KeptRest}
use pg_rest.Rtree.Add.Split.{
  take-common, common-differs, IsStatic-drop, split-IsSound, height-nth, height-raise,
  count_params-IsStatic,
}
use pg_rest.Rtree.Add.KeptSplit.{KeptRest-Kept, split-Kept}

whole-Kept :
    (again : Node → Bytes → ℕ → Added) (room : Bool) (i : Info) (kids : Nodes) (path : Bytes)
    (before h : Option ℕ)
    → ltb (common path i.path) (length i.path) ≡ false
    → IsSound (node i kids)
    → IsStatic path
    → ((c : ℕ) (s : Bytes) (j : ℕ) (n : Node)
        → drop (common path i.path) path ≡ c ∷ s
        → Leads c (j, kids, i.indices) n
        → IsSound (raise n)
        → Kept
            (raise n)
            (drop (common path i.path) path)
            (again (raise n) (drop (common path i.path) path) 0))
    → Kept (node i kids) path (
        add_rest again room h
          (split_node (common path i.path) i kids)
          (drop (common path i.path) path)
          0
          before)
unfolding split_node
whole-Kept again room i kids path before h u s st go =
    let rest = drop (common path i.path) path in
    simp (u, split_node)
      (KeptRest-Kept i kids rest path (add_rest again room h (node i kids) rest 0 before)
        (ap (λ z. z ++ rest) (sym (take_full (common path i.path) i.path (ground arith)))
          ∙ take-common path i.path)
        (add_rest-KeptRest again room i kids rest before h s
          (IsStatic-drop (common path i.path) path st) go))

split_round-Kept :
    (again : Node → Bytes → ℕ → Added) (room : Bool) (i : Info) (kids : Nodes) (path : Bytes)
    (before h : Option ℕ)
    → ltb (common path i.path) (length i.path) ≡ true
    → IsSound (node i kids)
    → IsStatic path
    → Kept (node i kids) path (
        add_rest again room h
          (split_node (common path i.path) i kids)
          (drop (common path i.path) path)
          0
          before)
unfolding split_node
split_round-Kept again room i kids path before h u s st =
    let k = common path i.path in
    let rest = drop k path in
    let tail = cons (node (tail_info k i kids) kids) nil in
    let lt = ltb→lt k (length i.path) u in
    simp (u, split_node)
      (split-Kept k i kids rest path
        (add_rest again room h (node (head_info k i) tail) rest 0 before) lt
        (take-common path i.path)
        (add_rest-KeptRest again room (head_info k i) tail rest before h
          (split-IsSound k i kids lt s) (IsStatic-drop k path st)
          (λ c t j n e l w.
            absurd (none-ne-some j (sym (common-differs path i.path c t e) ∙ l.0)))))

add_loop-Kept :
    (room : Bool) (rounds : ℕ) (h : Option ℕ) (n : Node) (path : Bytes) (before : Option ℕ)
    → height n ≤ rounds
    → IsSound n
    → IsStatic path
    → Kept n path (add_loop room rounds h n path 0 before)
unfolding add_loop height Kept
add_loop-Kept room zero h (node i kids) path before le s st = absurd (ground arith)
add_loop-Kept room (suc rounds) h (node i kids) path before le s st =
    let front = byte_before before path (common path i.path) in
    let again : Node → Bytes → ℕ → Added =
      λ n rest left. add_loop room rounds h n rest left front in
    elim (Bool-cases (frees_libc (common path i.path) i)) [
      | inl b ↦ simp (b, add_loop) tt
      | inr b ↦ elim (Bool-cases (ltb (common path i.path) (length i.path))) [
        | inl u ↦
            simp (b, raise_max-zero i, add_loop)
              (split_round-Kept again room i kids path front h u s st)
        | inr u ↦
            simp (b, raise_max-zero i, add_loop)
              (whole-Kept again room i kids path front h u s st (λ c t j n e l w.
                add_loop-Kept room rounds h (raise n) (drop (common path i.path) path) front
                  (lower n (height-nth j kids n l.1)) w
                  (IsStatic-drop (common path i.path) path st)))
      ]
    ]
  where
    lower : (n : Node) → height n ≤ heights kids → height (raise n) ≤ rounds
    lower n h = subst (λ z. z ≤ rounds) (sym (height-raise n)) (ground arith)

loop-Kept :
    (room : Bool) (n : Node) (path : Bytes) (h : Option ℕ)
    → IsSound n
    → IsStatic path
    → Kept n path (add_loop room (height n + 1) h (raise n) path (count_params path) none)
loop-Kept room n path h s st = rw (count_params-IsStatic path st) (
    Kept-raise n path (add_loop room (height n + 1) h (raise n) path 0 none) (
      add_loop-Kept room (height n + 1) h (raise n) path none
        (subst (λ z. z ≤ height n + 1) (sym (height-raise n)) (ground arith)) (raise-IsSound n s)
        st))

-- Where a route without wildcards is added, with defined behaviour, to a sound tree that is not empty, `pgrest_rtree_find` of
-- each other path without a zero byte that led to a handler leads to the same one, with the same
-- parameters. Where the route is denied, so does each path that led to a handler.
pub add-Kept :
    (room : Bool) (i : Info) (kids : Nodes) (path : Bytes) (h : Option ℕ)
    → (length i.path == 0 && not (has_children kids)) ≡ false
    → IsSound (node i kids)
    → IsStatic path
    → Kept (node i kids) path (add room (node i kids) path h)
unfolding add
add-Kept room i kids path h filled s st =
    simp (filled, add) (loop-Kept room (node i kids) path h s st)
