-- ===== src/Rtree.antt =====
-- The URL tree of src/pg_rest_rtree.c. Children are a list, with the capacity of the array that holds
-- their pointers, a block of `palloc`. A handler, a `void *`, is a number, and NULL is `none`.
pub mod Find
pub mod Insert
pub mod Add
mod Tests
use pg_rest.Base.{
  ℕ, zero, suc, Bool, Option, none, some, List, [], ◌∷◌, ◌++◌, true, false, ◌==◌, if◌then◌else◌,
}
use pg_rest.Text.{Bytes}

-- `pgrest_rtree_nodetype_e`
pub data NodeType : Type 0 where
  static_node root_node param_node catchall_node : NodeType

-- Where a block comes from: NULL, `palloc`, or `realloc` of the C library.
pub data Origin : Type 0 where
  no_block palloc_block libc_block : Origin

abbrev pub is_palloc : Origin → Bool
is_palloc palloc_block = true
is_palloc libc_block = false
is_palloc no_block = false

abbrev pub is_libc : Origin → Bool
is_libc libc_block = true
is_libc palloc_block = false
is_libc no_block = false

-- The fields of `struct pgrest_rtree_node_s` but for its children.
pub record Info : Type 0 where
  pub path : Bytes
  pub wild_child : Bool
  pub type : NodeType
  pub max_params : ℕ
  pub indices : Bytes
  pub handler : Option ℕ
  pub priority : ℕ
  pub indices_from : Origin
  pub capacity : ℕ

mutual
  pub data Node : Type 0 where
    node : Info → Nodes → Node

  pub data Nodes : Type 0 where
    nil : Nodes
    cons : Node → Nodes → Nodes

abbrev pub info : Node → Info
info (node i kids) = i

abbrev pub children : Node → Nodes
children (node i kids) = kids

-- What `palloc0` gives for a node, and so `pgrest_rtree_create`.
abbrev pub blank : Info
blank = record {
  path = [];
  wild_child = false;
  type = static_node;
  max_params = 0;
  indices = [];
  handler = none;
  priority = 0;
  indices_from = no_block;
  capacity = 0;
}

unfoldable pub create : Node
create = node blank nil

-- `!strncmp(a, b, n)`, where both texts have `n` bytes: the comparison ends at a common zero.
unfoldable pub strncmp_eq : ℕ → Bytes → Bytes → Bool
strncmp_eq zero a b = true
strncmp_eq (suc n) (x ∷ a) (y ∷ b) =
    if x == y then (if x == 0 then true else strncmp_eq n a b) else false
strncmp_eq (suc n) _ _ = false

unfoldable mutual
  -- `pgrest_rtree_walker`: the handlers in the order of the calls of `walker`.
  pub walker : Node → List (Option ℕ)
  walker (node i kids) = walk_all kids

  pub walk_all : Nodes → List (Option ℕ)
  walk_all nil = []
  walk_all (cons (node i kids) ns) = i.handler ∷ walk_all kids ++ walk_all ns
