-- ===== src/Rtree/Find.antt =====
-- `pgrest_rtree_find` of src/pg_rest_rtree.c.
pub mod Route
pub mod Sound
use pg_rest.Base.{
  ℕ, zero, suc, ◌+◌, ◌-◌, ◌*◌, ◌≤◌, ◌<◌, ◌≡◌, Bool, true, false, ◌&&◌, ◌||◌, not, Option, none,
  some, List, [], ◌∷◌, ◌++◌, ltb, leb, ◌==◌, if◌then◌else◌, length, take, drop,
}
use pg_rest.Text.{Bytes, strlchr}
use pg_rest.Rtree.{
  NodeType, static_node, root_node, param_node, catchall_node, Info, Node, node, Nodes, nil, cons,
  strncmp_eq,
}

-- `pgrest_param_t`
pub record Param : Type 0 where
  pub key : Bytes
  pub value : Bytes

-- `return false`, `return true` with the handler and the parameters, or a read of a child that is
-- not there.
pub data Lookup : Type 0 where
  missed : Lookup
  matched : Option ℕ → List Param → Lookup
  fault : Lookup

-- The length of the first segment: the bytes before a slash, or all.
unfoldable pub segment : Bytes → ℕ
segment [] = 0
segment (c ∷ path) = if c == b'/' then 0 else suc (segment path)

abbrev pub param_of : Bytes → Bytes → Param
param_of key value = record { key = key; value = value }

-- Whether the path begins with the byte; the bytes behind a text end with a zero, which is not
-- read here, since the path is never empty.
unfoldable pub starts : ℕ → Bytes → Bool
starts x [] = false
starts x (c ∷ path) = c == x

-- The parameters found so far come first in `params`, in their order.
unfoldable mutual
  -- One round of the loop, at a node.
  pub find : ℕ → Node → Bytes → List Param → Lookup
  find max (node i kids) path params = elim (ltb (length i.path) (length path)) [
    | true ↦ elim (strncmp_eq (length i.path) path i.path) [
      | false ↦ missed
      | true ↦ elim i.wild_child [
        | false ↦ find_index max kids i.indices (drop (length i.path) path) params
        | true ↦ elim (length params == max) [
          | true ↦ missed
          | false ↦ find_wild max kids (drop (length i.path) path) params
        ]
      ]
    ]
    | false ↦
        if length path == length i.path && strncmp_eq (length path) path i.path
        then matched i.handler params
        else missed
  ]

  -- The child at the place of the first byte among the indices.
  pub find_index : ℕ → Nodes → Bytes → Bytes → List Param → Lookup
  find_index max kids [] path params = missed
  find_index max nil (x ∷ indices) path params = elim (starts x path) [
    | true ↦ fault
    | false ↦ find_index max nil indices path params
  ]
  find_index max (cons n ns) (x ∷ indices) path params = elim (starts x path) [
    | true ↦ find max n path params
    | false ↦ find_index max ns indices path params
  ]

  -- The wildcard child.
  pub find_wild : ℕ → Nodes → Bytes → List Param → Lookup
  find_wild max nil path params = fault
  find_wild max (cons (node w kids) ns) path params = elim w.type [
    | catchall_node ↦ matched w.handler (params ++ param_of (drop 2 w.path) path ∷ [])
    | param_node ↦ elim (ltb (segment path) (length path)) [
      | true ↦
          find_first max kids (drop (segment path) path)
            (params ++ param_of (drop 1 w.path) (take (segment path) path) ∷ [])
      | false ↦
          matched w.handler (params ++ param_of (drop 1 w.path) (take (segment path) path) ∷ [])
    ]
    | static_node ↦ missed
    | root_node ↦ missed
  ]

  -- The first child of a parameter's node, where it has one.
  pub find_first : ℕ → Nodes → Bytes → List Param → Lookup
  find_first max nil path params = missed
  find_first max (cons n ns) path params = find max n path params
