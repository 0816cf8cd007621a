-- ===== src/Rtree/Add/Tests.antt =====
-- Runs of `pgrest_rtree_add` of src/pg_rest_rtree.c.
use pg_rest.Base.{ℕ, ◌+◌, ◌≡◌, refl, sym, true, some, List, [], ◌∷◌}
use mathlib.Core.Bool.{false≢true}
use pg_rest.Text.{Bytes, bytes}
use pg_rest.Rtree.{
  libc_block, children, info, Node, node, nil, cons, blank, create, root_node, param_node,
}
use pg_rest.Rtree.Find.{param_of, Lookup, matched, missed, find, segment}
use pg_rest.Rtree.Insert.{is_wildcard}
use pg_rest.Rtree.Add.{Added, added, denied, overran, out_of_rounds, misused, count_kids}
use pg_rest.Rtree.Add.Loop.{add}
use pg_rest.Rtree.Add.Sound.{IsStatic, IsSound, Guarded, HasWildcard, AreSound}
use pg_rest.Rtree.Add.Misused.{Decides, add-Decides}
use pg_rest.Rtree.Add.Others.{Kept}
use pg_rest.Rtree.Add.Kept.{add-Kept}

-- Every route in turn, with its place as handler, until one is denied.
unfoldable add_all : ℕ → List Bytes → Node → Added
unfolding add
add_all k [] n = added n
add_all k (path ∷ paths) n = elim (add true n path (some k)) [
  | added m ↦ add_all (k + 1) paths m
  | denied m ↦ denied m
  | overran ↦ overran
  | out_of_rounds ↦ out_of_rounds
  | misused ↦ misused
]

unfoldable find_in : Added → Bytes → Lookup
unfolding find
find_in (added n) path = find 4 n path []
find_in (denied n) path = missed
find_in overran path = missed
find_in out_of_rounds path = missed
find_in misused path = missed

abbrev routes : List Bytes
routes = bytes "/s" ∷ bytes "/sql" ∷ bytes "/status" ∷ bytes "/sql/:db" ∷ bytes "/statuses" ∷ []

run0 : find_in (add_all 1 routes create) (bytes "/statuses") ≡ matched (some 5) []
unfolding add_all find_in create
run0 = refl

run1 :
    find_in (add_all 1 routes create) (bytes "/sql/main")
    ≡ matched (some 4) (param_of (bytes "db") (bytes "main") ∷ [])
unfolding add_all find_in create segment
run1 = refl

-- The split of the first text gives indices of `palloc`, which the new child passes to `realloc`.
run3 : add_all 1 (bytes "/sql" ∷ bytes "/status" ∷ []) create ≡ misused
unfolding add_all create
run3 = refl

-- A third child.
run4 : add_all 1 (bytes "/s" ∷ bytes "/sa" ∷ bytes "/sb" ∷ bytes "/sc" ∷ []) create ≡ misused
unfolding add_all create
run4 = refl

-- A split of a node whose indices come from `realloc`.
run5 : add_all 1 (bytes "/s" ∷ bytes "/sa" ∷ bytes "/" ∷ []) create ≡ misused
unfolding add_all create
run5 = refl

run2 : find_in (add_all 1 (bytes "/sql" ∷ bytes "/sql" ∷ []) create) (bytes "/sql") ≡ missed
unfolding add_all find_in create
run2 = refl

-- The tree of `/s`, `/sql`, `/status` and `/sql/:db`.
abbrev tree : Node
tree =
    node
      (record blank {
        path = bytes "/s";
        indices = bytes "qt";
        type = root_node;
        handler = some 1;
        priority = 4;
        max_params = 1;
        indices_from = libc_block;
        capacity = 2;
      })
      (cons
        (node
          (record blank {
            path = bytes "ql";
            indices = bytes "/";
            handler = some 2;
            priority = 2;
            max_params = 1;
            indices_from = libc_block;
            capacity = 2;
          })
          (cons
            (node
              (record blank {
                path = bytes "/";
                wild_child = true;
                max_params = 1;
                priority = 1;
                capacity = 2;
              })
              (cons
                (node
                  (record blank {
                    path = bytes ":db";
                    type = param_node;
                    max_params = 1;
                    handler = some 4;
                    priority = 1;
                  })
                  nil)
                nil))
            nil))
        (cons (node (record blank { path = bytes "tatus"; handler = some 3; priority = 1 }) nil)
          nil))

tree_lem :
    add_all 1 (bytes "/s" ∷ bytes "/sql" ∷ bytes "/status" ∷ bytes "/sql/:db" ∷ []) create
    ≡ added tree
unfolding add_all create
tree_lem = refl

tree-IsSound : IsSound tree
unfolding IsSound Guarded HasWildcard IsStatic AreSound count_kids is_wildcard
tree-IsSound = (
  refl,
  (refl, ((refl, (refl, ((refl, λ h. false≢true (sym h.1)), tt))), ((refl, (refl, tt)), tt))),
)

statuses-IsStatic : IsStatic (bytes "/statuses")
unfolding IsStatic is_wildcard
statuses-IsStatic = (
  refl,
  refl,
  (
    refl,
    refl,
    (
      refl,
      refl,
      (refl, refl, (refl, refl, (refl, refl, (refl, refl, (refl, refl, (refl, refl, tt)))))),
    ),
  ),
)

add-Decides_example :
    Decides true tree (bytes "/statuses") (some 9) (add true tree (bytes "/statuses") (some 9))
add-Decides_example =
    add-Decides true tree (bytes "/statuses") (some 9) tree-IsSound statuses-IsStatic

add-Kept_example : Kept tree (bytes "/statuses") (add true tree (bytes "/statuses") (some 9))
add-Kept_example =
    add-Kept true (info tree) (children tree) (bytes "/statuses") (some 9) refl tree-IsSound
      statuses-IsStatic
