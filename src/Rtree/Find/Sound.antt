-- ===== src/Rtree/Find/Sound.antt =====
-- `pgrest_rtree_find` of src/pg_rest_rtree.c against the routes of its tree.
use pg_rest.Base.{
  ℕ, ◌≤◌, ◌≡◌, ◌⊎◌, refl, sym, ◌∙◌, subst, ◌&&◌, Option, List, [], ◌∷◌, ◌++◌, ltb, ◌==◌, length,
  take, drop, arith, inl, inr, Bool-cases, append-nil, take_full,
}
use pg_rest.Text.{Bytes}
use pg_rest.Text.Search.{Lacks}
use pg_rest.Rtree.{
  NodeType, static_node, root_node, param_node, catchall_node, Node, node, Nodes, nil, cons,
  strncmp_eq,
}
use pg_rest.Rtree.Find.{
  Param, param_of, matched, segment, starts, find, find_index, find_wild, find_first,
}
use pg_rest.Rtree.Find.Route.{
  Piece, var, rest, Route, static_child, wild_child, Child, first, later, Wild, param_end, param_on,
  catchall_end, Reads, done, read_var, read_rest, Found, Found-lit, Found-var, Found-map,
  Lacks-drop, segment-Lacks, split_path, here-Found, index_nil,
}

NodeType-cases :
    (t : NodeType)
    → (t ≡ catchall_node) ⊎ ((t ≡ param_node) ⊎ ((t ≡ static_node) ⊎ (t ≡ root_node)))
NodeType-cases catchall_node = inl refl
NodeType-cases param_node = inr (inl refl)
NodeType-cases static_node = inr (inr (inl refl))
NodeType-cases root_node = inr (inr (inr refl))

whole_value :
    (key path : Bytes)
    → length path ≤ segment path
    → Reads (var key ∷ []) path (param_of key (take (segment path) path) ∷ [])
whole_value key path le =
    subst (λ z. Reads (var key ∷ []) z (param_of key (take (segment path) path) ∷ []))
      (append-nil (take (segment path) path) ∙ take_full (segment path) path le)
      (read_var key (take (segment path) path) [] [] [] (segment-Lacks path) done)

mutual
  unfolding find find_index find_wild find_first Found

  find_sound :
      (max : ℕ) (n : Node) (path : Bytes) (ps : List Param)
      → Lacks 0 path
      → Found (Route n) path ps (find max n path ps)
  find_sound max (node i kids) path ps h = elim (Bool-cases (ltb (length i.path) (length path))) [
    | inl e ↦ elim (Bool-cases (strncmp_eq (length i.path) path i.path)) [
      | inl s ↦ elim (Bool-cases i.wild_child) [
        | inl w ↦ elim (Bool-cases (length ps == max)) [
          | inl m ↦ rw (e, s, w, m, find) tt
          | inr m ↦
              rw (e, s, find)
                (simp (w, m)
                  (Found-lit (Wild kids) (Route (node i kids)) i.path (drop (length i.path) path)
                    path ps (find_wild max kids (drop (length i.path) path) ps)
                    (λ r g d. wild_child i kids r g w d) (split_path i.path path h s)
                    (wildcard_sound max kids (drop (length i.path) path) ps
                      (Lacks-drop 0 (length i.path) path h))))
        ]
        | inr w ↦
            rw (e, s, find)
              (simp w (
                Found-lit (Child kids) (Route (node i kids)) i.path (drop (length i.path) path) path
                  ps (find_index max kids i.indices (drop (length i.path) path) ps)
                  (λ r g d. static_child i kids r g w d) (split_path i.path path h s)
                  (index_sound max kids i.indices (drop (length i.path) path) ps
                    (Lacks-drop 0 (length i.path) path h))))
      ]
      | inr s ↦ rw (e, s, find) tt
    ]
    | inr e ↦
        elim (Bool-cases (length path == length i.path && strncmp_eq (length path) path i.path)) [
          | inl s ↦ rw (e, s, find) (here-Found i kids path ps h s)
          | inr s ↦ rw (e, s, find) tt
        ]
  ]

  index_sound :
      (max : ℕ) (ns : Nodes) (indices path : Bytes) (ps : List Param)
      → Lacks 0 path
      → Found (Child ns) path ps (find_index max ns indices path ps)
  index_sound max nil indices path ps h = index_nil max indices path ps
  index_sound max (cons n ns) [] path ps h = tt
  index_sound max (cons n ns) (x ∷ indices) path ps h = elim (Bool-cases (starts x path)) [
    | inl e ↦
        rw (e, find_index)
          (Found-map (Route n) (Child (cons n ns)) path ps (find max n path ps)
            (λ r g d. first n ns r g d) (find_sound max n path ps h))
    | inr e ↦
        rw (e, find_index)
          (Found-map (Child ns) (Child (cons n ns)) path ps (find_index max ns indices path ps)
            (λ r g d. later n ns r g d) (index_sound max ns indices path ps h))
  ]

  wildcard_sound :
      (max : ℕ) (ns : Nodes) (path : Bytes) (ps : List Param)
      → Lacks 0 path
      → Found (Wild ns) path ps (find_wild max ns path ps)
  wildcard_sound max nil path ps h = tt
  wildcard_sound max (cons (node w kids) ns) path ps h = elim (NodeType-cases w.type) [
    | inl e ↦
        simp (e, find_wild)
          (
            rest (drop 2 w.path) ∷ [],
            param_of (drop 2 w.path) path ∷ [],
            catchall_end w kids ns e,
            read_rest (drop 2 w.path) path,
            refl,
          )
    | inr (inl e) ↦ elim (Bool-cases (ltb (segment path) (length path))) [
      | inl l ↦
          simp (e, l, find_wild)
            (Found-var (Child kids) (Wild (cons (node w kids) ns)) (drop 1 w.path) path ps
              (find_first max kids (drop (segment path) path)
                (ps ++ param_of (drop 1 w.path) (take (segment path) path) ∷ []))
              (λ r g d. param_on w kids ns r g e d)
              (first_sound max kids (drop (segment path) path)
                (ps ++ param_of (drop 1 w.path) (take (segment path) path) ∷ [])
                (Lacks-drop 0 (segment path) path h)))
      | inr l ↦
          simp (e, l, find_wild)
            (
              var (drop 1 w.path) ∷ [],
              param_of (drop 1 w.path) (take (segment path) path) ∷ [],
              param_end w kids ns e,
              whole_value (drop 1 w.path) path (ground arith),
              refl,
            )
    ]
    | inr (inr e) ↦ elim e [ inl e ↦ simp (e, find_wild) tt | inr e ↦ simp (e, find_wild) tt ]
  ]

  first_sound :
      (max : ℕ) (ns : Nodes) (path : Bytes) (ps : List Param)
      → Lacks 0 path
      → Found (Child ns) path ps (find_first max ns path ps)
  first_sound max nil path ps h = tt
  first_sound max (cons n ns) path ps h =
      Found-map (Route n) (Child (cons n ns)) path ps (find max n path ps)
        (λ r g d. first n ns r g d) (find_sound max n path ps h)

-- If `pgrest_rtree_find` finds a handler for a path without a zero byte, then some route of the
-- tree ends at that handler and reads the whole path, and the parameters returned are those that
-- the route binds: each value of a `:key` has no slash, and a catch-all takes all that is left.
pub find-matched :
    (max : ℕ) (n : Node) (path : Bytes) (h : Option ℕ) (ps : List Param)
    → Lacks 0 path
    → find max n path [] ≡ matched h ps
    → (r : List Piece) × Route n r h × Reads r path ps
unfolding Found
find-matched max n path h ps lacks e =
    unpack (subst (λ z. Found (Route n) path [] z) e (find_sound max n path [] lacks))
  where
    unpack :
        Found (Route n) path [] (matched h ps) → (r : List Piece) × Route n r h × Reads r path ps
    unpack (r, qs, d, w, q) = (r, d, subst (λ z. Reads r path z) (sym q) w)
