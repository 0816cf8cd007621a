-- ===== src/Rtree/Add/Sound.antt =====
-- What the tree of src/pg_rest_rtree.c is like at the nodes that a route without wildcards comes to,
-- and what is said of `pgrest_rtree_add` on such a route.
use pg_rest.Base.{
  ℕ, ◌+◌, ◌≡◌, ◌<◌, ◌⊎◌, refl, sym, ◌∙◌, subst, Bool, true, false, ◌==◌, Option, none, some, List,
  length, drop, [], ◌∷◌, ◌++◌,
}
use pg_rest.Text.{Bytes}
use pg_rest.Rtree.{palloc_block, libc_block, Info, Node, node, Nodes, nil, cons}
use pg_rest.Rtree.Find.{Param, matched, find, find_index}
use pg_rest.Rtree.Insert.{is_wildcard}
use pg_rest.Rtree.Add.{
  Added, added, denied, overran, out_of_rounds, raise, set_nth, misused, count_kids, common,
  index_of,
}
use pg_rest.Rtree.Add.Place.{AllKids, count-set, nth-set, AllKids-set}
use pg_rest.Rtree.Add.Moves.{Leads, Fits, find_index-Leads}
use pg_rest.Rtree.Add.Loop.{is_param, settle}

-- No byte is a colon, a star or zero.
unfoldable pub IsStatic : Bytes → Type 0
IsStatic [] = Unit {0}
IsStatic (c ∷ s) = ((c == 0) ≡ false) × (is_wildcard c ≡ false) × IsStatic s

-- The first child has a wildcard in its text.
unfoldable pub HasWildcard : Nodes → Type 0
HasWildcard nil = ⊥
HasWildcard (cons (node w kids) ns) = IsStatic w.path → ⊥

unfoldable pub Guarded : Bool → Bytes → Nodes → Type 0 → Type 0
Guarded true indices kids Kids = HasWildcard kids
Guarded false indices kids Kids = Fits kids indices × Kids

unfoldable mutual
  -- At a node that is no parameter, either the wildcard child has a wildcard in its text, or every
  -- child has its index byte, and is such a node.
  pub IsSound : Node → Type 0
  IsSound (node i kids) =
      (is_param i.type ≡ false) × Guarded i.wild_child i.indices kids (AreSound kids)

  pub AreSound : Nodes → Type 0
  AreSound nil = Unit {0}
  AreSound (cons n ns) = IsSound n × AreSound ns

mutual
  -- The tree does not let a route in: a handler stands at its end, or it goes on at a node that has
  -- a wildcard child.
  pub data IsBlocked : Node → Bytes → Type 0 where
    at :
        (i : Info) (kids : Nodes) (rest : Bytes)
        → Stops i kids rest
        → IsBlocked (node i kids) (i.path ++ rest)

  pub data Stops : Info → Nodes → Bytes → Type 0 where
    taken : (i : Info) (kids : Nodes) (h : ℕ) → i.handler ≡ some h → Stops i kids []
    meets :
        (i : Info) (kids : Nodes) (c : ℕ) (rest : Bytes)
        → i.wild_child ≡ true
        → Stops i kids (c ∷ rest)
    deeper :
        (i : Info) (kids : Nodes) (c : ℕ) (rest : Bytes) (j : ℕ) (n : Node)
        → Leads c (j, kids, i.indices) n
        → IsBlocked n (c ∷ rest)
        → Stops i kids (c ∷ rest)

-- A new child goes through a bad `realloc`: it fails, or gets indices of `palloc`, or the array of the
-- children, which is full.
abbrev pub BadAppend : Bool → Info → Nodes → Type 0
BadAppend room i kids =
    (room ≡ false)
    ⊎ ((i.indices_from ≡ palloc_block) ⊎ ((0 < count_kids kids) × (count_kids kids ≡ i.capacity)))

mutual
  -- What makes an addition misuse a block, with the answer of `realloc`: on the way of the route a
  -- node is split whose indices come from `realloc`, or the split has a new child beside the old
  -- text, or a node gets a new child by a bad `realloc`.
  pub data Misuses : Bool → Node → Bytes → Type 0 where
    splits_libc :
        (room : Bool) (i : Info) (kids : Nodes) (path : Bytes)
        → common path i.path < length i.path
        → i.indices_from ≡ libc_block
        → Misuses room (node i kids) path
    splits_off :
        (room : Bool) (i : Info) (kids : Nodes) (path : Bytes) (c : ℕ) (rest : Bytes)
        → common path i.path < length i.path
        → drop (common path i.path) path ≡ c ∷ rest
        → Misuses room (node i kids) path
    behind :
        (room : Bool) (i : Info) (kids : Nodes) (rest : Bytes)
        → MisusesRest room i kids rest
        → Misuses room (node i kids) (i.path ++ rest)

  pub data MisusesRest : Bool → Info → Nodes → Bytes → Type 0 where
    appends :
        (room : Bool) (i : Info) (kids : Nodes) (c : ℕ) (rest : Bytes)
        → i.wild_child ≡ false
        → index_of c i.indices ≡ none
        → BadAppend room i kids
        → MisusesRest room i kids (c ∷ rest)
    leads :
        (room : Bool) (i : Info) (kids : Nodes) (c : ℕ) (rest : Bytes) (j : ℕ) (n : Node)
        → i.wild_child ≡ false
        → Leads c (j, kids, i.indices) n
        → Misuses room n (c ∷ rest)
        → MisusesRest room i kids (c ∷ rest)

-- The route was added to the tree `old` with the handler: it is found in the new tree, whatever the
-- greatest number of parameters. Or it was denied, and `old` blocks it. Either tree is sound.
-- Or it misused a block, as `old` makes it.
unfoldable pub Adds : Bool → Node → Bytes → Option ℕ → Added → Type 0
Adds room old path handler (added n) =
    IsSound n × ((max : ℕ) (ps : List Param) → find max n path ps ≡ matched handler ps)
Adds room old path handler (denied n) = IsSound n × IsBlocked old path
Adds room old path handler overran = ⊥
Adds room old path handler out_of_rounds = ⊥
Adds room old path handler misused = Misuses room old path

-- The same of the bytes `rest` behind the text of a node.
unfoldable pub Ends : Info → Nodes → Bytes → Option ℕ → Type 0
Ends i kids [] handler = i.handler ≡ handler
Ends i kids (c ∷ rest) handler =
    (i.wild_child ≡ false)
    × ((max : ℕ) (ps : List Param)
        → find_index max kids i.indices (c ∷ rest) ps ≡ matched handler ps)

unfoldable pub AddsRest : Bool → Info → Nodes → Bytes → Option ℕ → Added → Type 0
AddsRest room i kids rest handler (added (node o news)) =
    IsSound (node o news) × (o.path ≡ i.path) × Ends o news rest handler
AddsRest room i kids rest handler (denied n) = IsSound n × Stops i kids rest
AddsRest room i kids rest handler overran = ⊥
AddsRest room i kids rest handler out_of_rounds = ⊥
AddsRest room i kids rest handler misused = MisusesRest room i kids rest

pub AreSound-AllKids : (kids : Nodes) → AreSound kids → AllKids IsSound kids
unfolding AreSound AllKids
AreSound-AllKids nil h = tt
AreSound-AllKids (cons n ns) h = (h.0, AreSound-AllKids ns h.1)

pub AllKids-AreSound : (kids : Nodes) → AllKids IsSound kids → AreSound kids
unfolding AreSound AllKids
AllKids-AreSound nil h = tt
AllKids-AreSound (cons n ns) h = (h.0, AllKids-AreSound ns h.1)

pub Misuses-raised :
    (room : Bool) (n : Node) (path : Bytes) → Misuses room n path → Misuses room (raise n) path
unfolding raise
Misuses-raised room _ path (splits_libc _ i kids _ e l) =
    splits_libc room (record i { priority = i.priority + 1 }) kids path e l
Misuses-raised room _ path (splits_off _ i kids _ c r e u) =
    splits_off room (record i { priority = i.priority + 1 }) kids path c r e u
Misuses-raised room _ _ (behind _ i kids rest (appends _ _ _ c r w u m)) =
    behind room (record i { priority = i.priority + 1 }) kids rest
      (appends room (record i { priority = i.priority + 1 }) kids c r w u m)
Misuses-raised room _ _ (behind _ i kids rest (leads _ _ _ c r j n w l m)) =
    behind room (record i { priority = i.priority + 1 }) kids rest
      (leads room (record i { priority = i.priority + 1 }) kids c r j n w l m)

pub raise-IsSound : (n : Node) → IsSound n → IsSound (raise n)
unfolding IsSound raise
raise-IsSound (node i kids) h = h

-- A node without a wildcard child.
pub IsSound-open :
    (i : Info) (kids : Nodes)
    → i.wild_child ≡ false
    → is_param i.type ≡ false
    → Fits kids i.indices
    → AllKids IsSound kids
    → IsSound (node i kids)
unfolding IsSound Guarded
IsSound-open i kids e t f k =
    (t, subst (λ b. Guarded b i.indices kids (AreSound kids)) (sym e) (f, AllKids-AreSound kids k))

pub IsSound-kids :
    (i : Info) (kids : Nodes)
    → i.wild_child ≡ false
    → IsSound (node i kids)
    → Fits kids i.indices × AllKids IsSound kids
unfolding IsSound Guarded
IsSound-kids i kids e h =
    let g = subst (λ b. Guarded b i.indices kids (AreSound kids)) e h.1 in
    (g.0, AreSound-AllKids kids g.1)

pub IsBlocked-raise : (n : Node) (path : Bytes) → IsBlocked (raise n) path → IsBlocked n path
unfolding raise
IsBlocked-raise (node i kids) path (at _ _ rest (taken _ _ h e)) = at i kids rest (taken i kids h e)
IsBlocked-raise (node i kids) path (at _ _ rest (meets _ _ c s e)) =
    at i kids rest (meets i kids c s e)
IsBlocked-raise (node i kids) path (at _ _ rest (deeper _ _ c s j n l b)) =
    at i kids rest (deeper i kids c s j n l b)

pub Misuses-raise :
    (room : Bool) (n : Node) (path : Bytes) → Misuses room (raise n) path → Misuses room n path
unfolding raise
Misuses-raise room (node i kids) path (splits_libc _ _ _ _ e l) = splits_libc room i kids path e l
Misuses-raise room (node i kids) path (splits_off _ _ _ _ c r e u) =
    splits_off room i kids path c r e u
Misuses-raise room (node i kids) path (behind _ _ _ rest (appends _ _ _ c r w u m)) =
    behind room i kids rest (appends room i kids c r w u m)
Misuses-raise room (node i kids) path (behind _ _ _ rest (leads _ _ _ c r j n w l m)) =
    behind room i kids rest (leads room i kids c r j n w l m)

pub settle-IsSound :
    (i : Info) (j : ℕ) (news : Nodes) (s : Bytes) (n : Node)
    → i.wild_child ≡ false
    → is_param i.type ≡ false
    → Fits news s
    → AllKids IsSound news
    → IsSound n
    → IsSound (settle i (j, news, s) n)
unfolding settle
settle-IsSound i j news s n e t f k h =
    IsSound-open (record i { indices = s }) (set_nth j n news) e t (count-set j n news ∙ f)
      (AllKids-set IsSound j n news h k)

-- The result at the child that `c` leads to, put into its node.
pub settle-AddsRest :
    (room : Bool) (i : Info) (kids : Nodes) (c : ℕ) (rest : Bytes) (h : Option ℕ) (j : ℕ)
    (news : Nodes) (s : Bytes) (m n : Node)
    → i.wild_child ≡ false
    → is_param i.type ≡ false
    → Fits news s
    → AllKids IsSound news
    → Leads c (j, news, s) m
    → Adds room m (c ∷ rest) h (added n)
    → AddsRest room i kids (c ∷ rest) h (added (settle i (j, news, s) n))
unfolding settle Adds AddsRest Ends
settle-AddsRest room i kids c rest h j news s m n e t f k l a = (
  settle-IsSound i j news s n e t f k a.0,
  refl,
  (
    e,
    λ max ps.
        find_index-Leads max c j (set_nth j n news) s rest n ps (l.0, nth-set j news m n l.1)
        ∙ a.1 max ps,
  ),
)
