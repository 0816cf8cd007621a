-- ===== src/Rtree/Add/Loop.antt =====
-- The loop of `pgrest_rtree_add` of src/pg_rest_rtree.c. `before` is the byte in front of the rest of
-- the path; a number of parameters below 0 acts as 0 does, and is written 0.
use pg_rest.Base.{
  ℕ, zero, suc, ◌+◌, ◌-◌, Bool, true, false, ◌&&◌, ◌||◌, not, Option, none, some, [], ◌∷◌, ◌++◌,
  ltb, leb, ◌==◌, if◌then◌else◌, length, drop,
}
use pg_rest.Text.{Bytes, count_params}
use pg_rest.Rtree.{
  NodeType, static_node, root_node, param_node, catchall_node, Info, Node, node, Nodes, nil, cons,
  blank, strncmp_eq,
}
use pg_rest.Rtree.Find.{starts}
use pg_rest.Rtree.Insert.{is_wildcard, child_insert, byte_before, has_children}
use pg_rest.Rtree.Add.{
  Added, added, denied, overran, out_of_rounds, misused, append_misuses, grown, frees_libc,
  of_insert, wrap, raise, raise_max, common, split_node, index_of, nth, set_nth, append_child,
  count_kids, child_priority, Moved,
}

abbrev pub is_param : NodeType → Bool
is_param param_node = true
is_param static_node = false
is_param root_node = false
is_param catchall_node = false

abbrev pub has_one_child : Nodes → Bool
has_one_child nil = false
has_one_child (cons n ns) = not (has_children ns)

-- The node with its children in their new order, and `n` in the place of the one that moved.
unfoldable pub settle : Info → Moved → Node → Node
unfolding set_nth
settle i (j, kids, indices) n = node (record i { indices = indices }) (set_nth j n kids)

-- Whether the rest of the path goes on at the wildcard child.
unfoldable pub fits_wild : Info → Bytes → Bool
unfolding strncmp_eq starts
fits_wild w path =
    let size = length w.path in
    leb size (length path)
    && strncmp_eq size w.path path
    && (leb (length path) size || starts b'/' (drop size path))

-- The place of a new child among the children. It changes when the new child is the one that
-- `pgrest_rtree_child_priority` moves, that is the one with the number of the last index byte.
unfoldable pub new_place : Nodes → Bytes → Moved → ℕ
unfolding count_kids
new_place kids indices moved =
    if count_kids kids == length indices then moved.0 else count_kids kids

-- What a round does behind the common prefix; `again` is the next round, at a child.
module _ (again : Node → Bytes → ℕ → Added) (room : Bool) (handler : Option ℕ) where
  -- At a node with a wildcard child.
  unfoldable pub add_wild : Info → Nodes → Bytes → ℕ → Added
  unfolding raise raise_max fits_wild wrap
  add_wild i nil path num = overran
  add_wild i (cons (node w kids) ns) path num =
      let child = raise (node (raise_max num w) kids) in
      elim (fits_wild w path) [
        | true ↦ wrap (λ n. node i (cons n ns)) (again child path (num - 1))
        | false ↦ denied (node i (cons child ns))
      ]

  -- At the only child of a parameter.
  unfoldable pub add_first : Info → Nodes → Bytes → ℕ → Added
  unfolding raise wrap
  add_first i nil path num = overran
  add_first i (cons n ns) path num = wrap (λ m. node i (cons m ns)) (again (raise n) path num)

  -- At the child with the index `j`.
  unfoldable pub add_at : Info → Nodes → ℕ → Bytes → ℕ → Added
  unfolding nth child_priority raise wrap settle
  add_at i kids j path num = elim (nth j kids) [
    | none ↦ overran
    | some n ↦ wrap (settle i (child_priority j kids i.indices)) (again (raise n) path num)
  ]

  -- At a new child, with the index byte `c`.
  unfoldable pub add_new : Info → Nodes → ℕ → Bytes → ℕ → Option ℕ → Added
  unfolding nth child_priority append_child count_kids new_place grown wrap of_insert settle
      child_insert
  add_new i kids c path num before =
      let moved =
        child_priority (length i.indices)
          (append_child kids (node (record blank { max_params = num }) nil))
          (i.indices ++ c ∷ []) in
      let place = new_place kids i.indices moved in
      elim (ltb (count_kids kids) (length i.indices)) [
        | true ↦ overran
        | false ↦ elim (nth place moved.1) [
          | none ↦ overran
          | some n ↦
              wrap (settle (grown i kids) (place, moved.1, moved.2))
                (of_insert (child_insert n num path before handler))
        ]
      ]

  unfoldable pub add_rest : Node → Bytes → ℕ → Option ℕ → Added
  unfolding add_wild add_first add_at add_new append_misuses index_of is_wildcard of_insert
      child_insert
  add_rest (node i kids) [] num before = elim i.handler [
    | some h ↦ denied (node i kids)
    | none ↦ added (node (record i { handler = handler }) kids)
  ]
  add_rest (node i kids) (c ∷ path) num before = elim i.wild_child [
    | true ↦ add_wild i kids (c ∷ path) num
    | false ↦ elim (c == b'/' && has_one_child kids && is_param i.type) [
      | true ↦ add_first i kids (c ∷ path) num
      | false ↦ elim (index_of c i.indices) [
        | some j ↦ add_at i kids j (c ∷ path) num
        | none ↦ elim (is_wildcard c) [
          | true ↦ of_insert (child_insert (node i kids) num (c ∷ path) before handler)
          | false ↦ elim (append_misuses room i kids) [
            | true ↦ misused
            | false ↦ add_new i kids c (c ∷ path) num before
          ]
        ]
      ]
    ]
  ]

unfoldable pub add_loop : Bool → ℕ → Option ℕ → Node → Bytes → ℕ → Option ℕ → Added
unfolding add_rest raise_max common split_node frees_libc
add_loop room zero handler n path num before = out_of_rounds
add_loop room (suc rounds) handler (node i kids) path num before =
    let k = common path i.path in
    let front = byte_before before path k in
    elim (frees_libc k i) [
      | true ↦ misused
      | false ↦
          add_rest (λ n rest left. add_loop room rounds handler n rest left front) room handler
            (split_node k (raise_max num i) kids) (drop k path) num front
    ]

unfoldable mutual
  -- The number of nodes on the longest way down.
  pub height : Node → ℕ
  height (node i kids) = suc (heights kids)

  pub heights : Nodes → ℕ
  heights nil = 0
  heights (cons n ns) = if ltb (heights ns) (height n) then height n else heights ns

-- `pgrest_rtree_add`. A round steps down by a node, and once, when a parameter's node is split, to
-- the node that the split makes. `room` is what `realloc` answers.
unfoldable pub add : Bool → Node → Bytes → Option ℕ → Added
unfolding raise of_insert child_insert count_params add_loop height
add room (node i kids) path handler =
    let num = count_params path in
    if length i.path == 0 && not (has_children kids)
    then of_insert (
        child_insert (node (record i { type = root_node; priority = i.priority + 1 }) kids) num path
          none handler)
    else add_loop room (height (node i kids) + 1) handler (raise (node i kids)) path num none
