-- ===== src/Rtree/Insert.antt =====
-- `pgrest_rtree_child_insert` of src/pg_rest_rtree.c. The loop stands at the byte `i` of `path`, with
-- the bytes `rest` from there on; `offset` is where the text of the current node begins. Children
-- that the loop makes are built behind the node that holds them. A node without children has no
-- indices of `realloc`, which come with a child.
pub mod Bounds
use pg_rest.Base.{
  ℕ, zero, suc, ◌+◌, ◌-◌, Bool, true, false, ◌&&◌, ◌||◌, not, Option, none, some, List, [], ◌∷◌,
  ltb, leb, ◌==◌, if◌then◌else◌, length, take, drop, get_elem?,
}
use pg_rest.Text.{Bytes}
use pg_rest.Rtree.{
  NodeType, static_node, param_node, catchall_node, Info, Node, node, Nodes, nil, cons, blank,
  palloc_block,
}

-- `return true` and `return false`, with the node as it is left, or a read outside the text.
pub data Inserted : Type 0 where
  inserted : Node → Inserted
  refused : Node → Inserted
  overrun : Inserted

unfoldable pub is_wildcard : ℕ → Bool
is_wildcard c = c == b':' || c == b'*'

-- The bytes before a slash or the end, if no wildcard stands among them: the inner loop.
unfoldable pub name_length : Bytes → Option ℕ
unfolding is_wildcard
name_length [] = some 0
name_length (c ∷ s) =
    let rest = name_length s in
    if c == b'/'
    then some 0
    else if is_wildcard c
    then none
    else elim rest [ none ↦ none | some n ↦ some (suc n) ]

abbrev pub slice : Bytes → ℕ → ℕ → Bytes
slice path from to = take (to - from) (drop from path)

abbrev pub has_children : Nodes → Bool
has_children nil = false
has_children (cons n ns) = true

-- A node around the child that the loop made.
unfoldable pub around : Info → Inserted → Inserted
around i (inserted n) = inserted (node i (cons n nil))
around i (refused n) = refused (node i (cons n nil))
around i overrun = overrun

-- `INIT_NODE` for a parameter, with its priority raised.
abbrev pub param_info : ℕ → Info
param_info num = record blank { type = param_node; max_params = num; priority = 1 }

-- `INIT_NODE` for the text behind a parameter.
abbrev pub static_info : ℕ → Info
static_info num = record blank { max_params = num; priority = 1 }

-- The byte in front of the byte `i`; `before` is the one in front of the path, if it is part of a
-- longer text.
abbrev pub byte_before : Option ℕ → Bytes → ℕ → Option ℕ
byte_before before path zero = before
byte_before before path (suc i) = get_elem? path i

abbrev pub ends_in_slash : Bytes → Bool
ends_in_slash [] = false
ends_in_slash (c ∷ []) = c == b'/'
ends_in_slash (c ∷ (d ∷ s)) = ends_in_slash (d ∷ s)

module _ (path : Bytes) (before : Option ℕ) (handler : Option ℕ) where
  -- Behind the loop: the rest of the path, and the handler.
  unfoldable pub insert_leaf : ℕ → Info → Nodes → Inserted
  insert_leaf offset cur kids =
      inserted (node (record cur { path = drop offset path; handler = handler }) kids)

  -- A catch-all, whose name ends at `end`. At the begin of the path the length `i - offset` is
  -- negative, and the copy of that many bytes runs out of the text.
  unfoldable pub insert_catchall : ℕ → ℕ → ℕ → ℕ → Info → Nodes → Inserted
  insert_catchall num i end offset cur kids =
      if not (end == length path) || ltb 1 num
      then refused (node cur kids)
      else if ends_in_slash cur.path
      then refused (node cur kids)
      else elim (byte_before before path i) [
        | none ↦ overrun
        | some c ↦
            if not (c == b'/')
            then refused (node cur kids)
            else if i == 0
            then overrun
            else inserted (
                node
                  (record cur {
                    path = slice path offset (i - 1);
                    indices = c ∷ [];
                    indices_from = palloc_block;
                    capacity = 2;
                  })
                  (cons
                    (node
                      (record blank {
                        wild_child = true;
                        type = catchall_node;
                        max_params = 1;
                        priority = 1;
                        capacity = 2;
                      })
                      (cons
                        (node
                          (record blank {
                            path = drop (i - 1) path;
                            type = catchall_node;
                            max_params = 1;
                            handler = handler;
                            priority = 1;
                          })
                          nil)
                        nil))
                    nil))
      ]

  -- The loop.
  unfoldable pub insert_loop : Bytes → ℕ → ℕ → ℕ → Info → Nodes → Inserted
  unfolding insert_leaf insert_catchall name_length is_wildcard around
  insert_loop [] num i offset cur kids = if num == 0 then insert_leaf offset cur kids else overrun
  insert_loop (c ∷ rest) num i offset cur kids = elim (num == 0) [
    | true ↦ insert_leaf offset cur kids
    | false ↦ elim (is_wildcard c) [
      | false ↦ insert_loop rest num (i + 1) offset cur kids
      | true ↦ elim (name_length rest) [
        | none ↦ refused (node cur kids)
        | some name ↦ elim (has_children kids || name == 0) [
          | true ↦ refused (node cur kids)
          | false ↦ elim (c == b':') [
            | false ↦ insert_catchall num i (i + 1 + name) offset cur kids
            | true ↦
                let end = i + 1 + name in
                let from = if ltb 0 i then i else offset in
                let text = if ltb 0 i then slice path offset i else cur.path in
                around (record cur { path = text; wild_child = true; capacity = 2 })
                  (elim (ltb end (length path)) [
                    | true ↦
                        around
                          (record (param_info num) { path = slice path from end; capacity = 2 })
                          (insert_loop rest (num - 1) (i + 1) end (static_info (num - 1)) nil)
                    | false ↦ insert_loop rest (num - 1) (i + 1) from (param_info num) nil
                  ])
          ]
        ]
      ]
    ]
  ]

-- `pgrest_rtree_child_insert`
unfoldable pub child_insert : Node → ℕ → Bytes → Option ℕ → Option ℕ → Inserted
unfolding insert_loop
child_insert (node cur kids) num_params path before handler =
    insert_loop path before handler path num_params 0 0 cur kids
