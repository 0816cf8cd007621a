-- ===== src/Rtree/Add.antt =====
-- `pgrest_rtree_add` of src/pg_rest_rtree.c, with pgrest_rtree_child_priority. The loop has rounds as
-- fuel, one for each node that it comes to.
pub mod Loop
pub mod Place
pub mod Moves
pub mod Sound
pub mod Blocks
pub mod Static
pub mod Rest
pub mod Split
pub mod Ends
pub mod Outcome
pub mod MisusedRound
pub mod Misused
pub mod Lead
pub mod Keep
pub mod Others
pub mod KeptSplit
pub mod Kept
mod Tests
use pg_rest.Base.{
  ℕ, zero, suc, ◌+◌, ◌-◌, ◌*◌, Bool, true, false, ◌&&◌, ◌||◌, not, Option, none, some, List, [],
  ◌∷◌, ◌++◌, ltb, leb, ◌==◌, if◌then◌else◌, length, take, drop, get_elem?,
}
use pg_rest.Text.{Bytes, count_params}
use pg_rest.Rtree.{
  NodeType, static_node, root_node, param_node, catchall_node, Info, Node, node, Nodes, nil, cons,
  palloc_block, libc_block, is_palloc, is_libc, blank, strncmp_eq, info,
}
use pg_rest.Rtree.Insert.{
  Inserted, inserted, refused, overrun, child_insert, byte_before, has_children,
}

-- `return true` and `return false`, with the tree as it is left; a read outside of a text or of the
-- children; the end of the rounds; or undefined behaviour: `realloc` or `pfree` of a block that is
-- not theirs, or a write through the NULL of a `realloc` that failed.
pub data Added : Type 0 where
  added denied : Node → Added
  overran : Added
  out_of_rounds : Added
  misused : Added

unfoldable pub of_insert : Inserted → Added
of_insert (inserted n) = added n
of_insert (refused n) = denied n
of_insert overrun = overran

-- The node around what became of its child.
unfoldable pub wrap : (Node → Node) → Added → Added
wrap f (added n) = added (f n)
wrap f (denied n) = denied (f n)
wrap f overran = overran
wrap f out_of_rounds = out_of_rounds
wrap f misused = misused

unfoldable pub raise : Node → Node
raise (node i kids) = node (record i { priority = i.priority + 1 }) kids

unfoldable pub raise_max : ℕ → Info → Info
raise_max num i = if ltb i.max_params num then record i { max_params = num } else i

-- The length of the longest common prefix.
unfoldable pub common : Bytes → Bytes → ℕ
common [] b = 0
common (x ∷ a) [] = 0
common (x ∷ a) (y ∷ b) = if x == y then suc (common a b) else 0

-- The greatest number of parameters of the children, not below `max`.
unfoldable pub kids_max : ℕ → Nodes → ℕ
kids_max max nil = max
kids_max max (cons (node i kids) ns) =
    kids_max (if ltb max i.max_params then i.max_params else max) ns

unfoldable pub count_kids : Nodes → ℕ
count_kids nil = 0
count_kids (cons n ns) = suc (count_kids ns)

-- The end of a node's text, split off into a child.
unfoldable pub tail_info : ℕ → Info → Nodes → Info
unfolding kids_max count_kids
tail_info k i kids = record {
  path = drop k i.path;
  wild_child = i.wild_child;
  type = static_node;
  max_params = kids_max 0 kids;
  indices = i.indices;
  handler = i.handler;
  priority = i.priority - 1;
  indices_from = palloc_block;
  capacity = count_kids kids;
}

-- What is left of the node.
unfoldable pub head_info : ℕ → Info → Info
head_info k i = record i {
  path = take k i.path;
  wild_child = false;
  indices = take 1 (drop k i.path);
  handler = none;
  indices_from = palloc_block;
  capacity = 2;
}

-- Whether a split passes indices of `realloc` to `pfree`.
unfoldable pub frees_libc : ℕ → Info → Bool
frees_libc k i = ltb k (length i.path) && is_libc i.indices_from

unfoldable pub split_node : ℕ → Info → Nodes → Node
unfolding tail_info head_info
split_node k i kids =
    if ltb k (length i.path)
    then node (head_info k i) (cons (node (tail_info k i kids) kids) nil)
    else node i kids

-- Whether a new child with its index byte passes a block of `palloc` to `realloc`, that of the indices
-- or that of the children when it is full, or writes through NULL: `room` is what `realloc` answers.
unfoldable pub append_misuses : Bool → Info → Nodes → Bool
unfolding count_kids
append_misuses room i kids =
    not room || is_palloc i.indices_from || (has_children kids && (count_kids kids == i.capacity))

-- The node with the blocks after that. Without children it gets an array of two.
unfoldable pub grown : Info → Nodes → Info
grown i kids = record i {
  indices_from = libc_block;
  capacity = if has_children kids then i.capacity else 2;
}

-- The place of a byte among the indices.
unfoldable pub index_of : ℕ → Bytes → Option ℕ
index_of c [] = none
index_of c (x ∷ indices) =
    let rest = index_of c indices in
    if c == x then some 0 else elim rest [ none ↦ none | some j ↦ some (suc j) ]

unfoldable pub nth : ℕ → Nodes → Option Node
nth j nil = none
nth zero (cons n ns) = some n
nth (suc j) (cons n ns) = nth j ns

unfoldable pub set_nth : ℕ → Node → Nodes → Nodes
set_nth j m nil = nil
set_nth zero m (cons n ns) = cons m ns
set_nth (suc j) m (cons n ns) = cons n (set_nth j m ns)

unfoldable pub append_child : Nodes → Node → Nodes
append_child nil m = cons m nil
append_child (cons n ns) m = cons n (append_child ns m)

-- The children at `j` and `j + 1` change places, and so do their index bytes.
unfoldable pub swap_kids : ℕ → Nodes → Nodes
swap_kids zero (cons m (cons n ns)) = cons n (cons m ns)
swap_kids (suc j) (cons n ns) = cons n (swap_kids j ns)
swap_kids j ns = ns

unfoldable pub swap_bytes : ℕ → Bytes → Bytes
swap_bytes zero (x ∷ (y ∷ s)) = y ∷ (x ∷ s)
swap_bytes (suc j) (x ∷ s) = x ∷ swap_bytes j s
swap_bytes j s = s

abbrev pub priority_of : Option Node → ℕ
priority_of none = 0
priority_of (some (node i kids)) = i.priority

-- A place, the children and the index bytes.
abbrev pub Moved : Type 0
Moved = ℕ × Nodes × Bytes

-- The loop of `pgrest_rtree_child_priority`, for the child at `pos` with `priority`: the place that
-- it moves to, the children and the indices. The code moves the index byte behind the loop, by as
-- many places.
unfoldable pub move_up : ℕ → ℕ → Nodes → Bytes → Moved
unfolding nth swap_kids swap_bytes
move_up priority zero kids indices = (0, kids, indices)
move_up priority (suc pos) kids indices =
    let moved = move_up priority pos (swap_kids pos kids) (swap_bytes pos indices) in
    if ltb (priority_of (nth pos kids)) priority then moved else (suc pos, kids, indices)

-- `pgrest_rtree_child_priority`. It is not called for a child that is not there.
unfoldable pub child_priority : ℕ → Nodes → Bytes → Moved
unfolding raise nth set_nth move_up
child_priority pos kids indices = elim (nth pos kids) [
  | none ↦ (pos, kids, indices)
  | some child ↦
      move_up (priority_of (some (raise child))) pos (set_nth pos (raise child) kids) indices
]
