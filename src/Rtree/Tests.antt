-- ===== src/Rtree/Tests.antt =====
-- Runs of the URL tree of src/pg_rest_rtree.c, on the tree of `/us/:n` and `/f/*p`.
use pg_rest.Base.{◌≤◌, ◌≢◌, get_elem?, arith, true, ◌≡◌, refl, [], ◌∷◌, ◌++◌, List, some, none}
use pg_rest.Text.{count_wildcards, Bytes, strlchr}
use pg_rest.Text.Search.{Lacks, strlchr-Lacks}
use pg_rest.Rtree.{Node, node, nil, cons, blank, param_node, catchall_node, walker, strncmp_eq}
use pg_rest.Rtree.Find.{Param, Lookup, param_of, matched, missed, fault, find, starts, segment}
use pg_rest.Rtree.Insert.{Inserted, inserted, refused, overrun, child_insert}
use pg_rest.Rtree.Insert.Bounds.{InBounds, child_insert-InBounds}
use pg_rest.Rtree.Find.Route.{Piece, Route, Reads}
use pg_rest.Rtree.Find.Sound.{find-matched}

abbrev user_text : Bytes
user_text = b'u' ∷ b's' ∷ b'/' ∷ []

abbrev tree : Node
tree =
    node (record blank { path = b'/' ∷ []; indices = b'u' ∷ b'f' ∷ [] })
      (cons
        (node (record blank { path = user_text; wild_child = true })
          (cons
            (node (record blank { path = b':' ∷ b'n' ∷ []; type = param_node; handler = some 1 })
              nil)
            nil))
        (cons
          (node (record blank { path = b'f' ∷ []; wild_child = true })
            (cons
              (node
                (record blank {
                  path = b'/' ∷ b'*' ∷ b'p' ∷ [];
                  type = catchall_node;
                  handler = some 2;
                })
                nil)
              nil))
          nil))

abbrev user_path : Bytes
user_path = b'/' ∷ (user_text ++ (b'b' ∷ b'o' ∷ b'b' ∷ []))

abbrev bob : Param
bob = param_of (b'n' ∷ []) (b'b' ∷ b'o' ∷ b'b' ∷ [])

find_user : find 4 tree user_path [] ≡ matched (some 1) (bob ∷ [])
unfolding find strncmp_eq starts segment
find_user = refl

find_limited : find 0 tree user_path [] ≡ missed
unfolding find strncmp_eq starts segment
find_limited = refl

walker_run : walker tree ≡ none ∷ some 1 ∷ none ∷ some 2 ∷ []
unfolding walker
walker_run = refl

user_path-Lacks : Lacks 0 user_path
unfolding strlchr
user_path-Lacks = strlchr-Lacks user_path 0 refl

find-matched_example : (r : List Piece) × Route tree r (some 1) × Reads r user_path (bob ∷ [])
find-matched_example = find-matched 4 tree user_path (some 1) (bob ∷ []) user_path-Lacks find_user

abbrev route_path : Bytes
route_path = b'/' ∷ b'u' ∷ b'/' ∷ b':' ∷ b'n' ∷ []

abbrev found_in : Inserted → Bytes → Lookup
found_in (inserted n) path = find 4 n path []
found_in (refused n) path = missed
found_in overrun path = fault

insert_find :
    found_in
      (child_insert (node blank nil) 1 route_path none (some 7))
      (b'/' ∷ b'u' ∷ b'/' ∷ b'x' ∷ [])
    ≡ matched (some 7) (param_of (b'n' ∷ []) (b'x' ∷ []) ∷ [])
unfolding child_insert find strncmp_eq starts segment
insert_find = refl

star_first : child_insert (node blank nil) 1 (b'*' ∷ b'x' ∷ []) none (some 7) ≡ overrun
unfolding child_insert
star_first = refl

route_path-plain : (1 ≤ count_wildcards route_path) × (get_elem? route_path 0 ≢ some b'*')
unfolding count_wildcards
route_path-plain = (omega arith, λ e. ground arith)

child_insert-InBounds_example : InBounds (child_insert (node blank nil) 1 route_path none (some 7))
child_insert-InBounds_example =
    child_insert-InBounds (node blank nil) 1 route_path none (some 7) route_path-plain.0
      route_path-plain.1
