-- ===== src/Rtree/Add/Rest.antt =====
-- A round of `pgrest_rtree_add` of src/pg_rest_rtree.c behind the common prefix.
use pg_rest.Base.{
  ℕ, suc, ◌≡◌, refl, sym, ap, ◌∙◌, subst, inl, inr, Bool, true, false, ltb, Bool-cases, Option,
  Option-cases, none, some, [], ◌∷◌, ◌++◌, length, arith,
}
use pg_rest.Text.{Bytes}
use pg_rest.Rtree.{Info, Node, node, Nodes, nil, cons, blank, info, strncmp_eq}
use pg_rest.Rtree.Add.{
  Added, added, denied, overran, out_of_rounds, misused, append_misuses, grown, wrap, raise,
  raise_max, index_of, nth, append_child, count_kids, child_priority,
}
use pg_rest.Rtree.Add.Place.{
  AllKids, index_of-append, nth-append, count-append, AllKids-append, AllKids-nth,
}
use pg_rest.Rtree.Add.Moves.{Leads, Fits, child_priority-Leads, child_priority-keeps}
use pg_rest.Rtree.Add.Loop.{is_param, settle, add_wild, add_at, add_new, add_rest}
use pg_rest.Rtree.Add.Sound.{
  IsStatic, HasWildcard, Guarded, IsSound, AreSound, taken, meets, deeper, Misuses-raise, appends,
  leads, Adds, AddsRest, Ends, raise-IsSound, settle-IsSound, IsSound-open, IsSound-kids,
  IsBlocked-raise, settle-AddsRest,
}
use pg_rest.Rtree.Add.Blocks.{append_misuses_iff}
use pg_rest.Rtree.Add.Static.{
  strncmp_eq-IsStatic, raise_max-zero, find-end, index_of-nth, fits_wild-false, new_place-Fits,
  not_first, IsStatic-head,
}

at-AddsRest :
    (room : Bool) (i : Info) (kids : Nodes) (c : ℕ) (rest : Bytes) (h : Option ℕ) (j : ℕ) (m : Node)
    (a : Added)
    → i.wild_child ≡ false
    → is_param i.type ≡ false
    → Fits kids i.indices
    → AllKids IsSound kids
    → Leads c (j, kids, i.indices) m
    → Adds room (raise m) (c ∷ rest) h a
    → AddsRest room i kids (c ∷ rest) h (wrap (settle i (child_priority j kids i.indices)) a)
unfolding wrap Adds AddsRest
at-AddsRest room i kids c rest h j m (added n) e t f k l a =
    let moved = child_priority j kids i.indices in
    let keeps = child_priority-keeps IsSound j kids i.indices raise-IsSound f k in
    settle-AddsRest room i kids c rest h moved.0 moved.1 moved.2 (raise m) n e t keeps.0 keeps.1
      (child_priority-Leads j kids i.indices c m l) a
at-AddsRest room i kids c rest h j m (denied n) e t f k l a =
    let moved = child_priority j kids i.indices in
    let keeps = child_priority-keeps IsSound j kids i.indices raise-IsSound f k in
    (
      settle-IsSound i moved.0 moved.1 moved.2 n e t keeps.0 keeps.1 a.0,
      deeper i kids c rest j m l (IsBlocked-raise m (c ∷ rest) a.1),
    )
at-AddsRest room i kids c rest h j m overran e t f k l a = a
at-AddsRest room i kids c rest h j m out_of_rounds e t f k l a = a
at-AddsRest room i kids c rest h j m misused e t f k l a =
    leads room i kids c rest j m e l (Misuses-raise room m (c ∷ rest) a)

pub length-snoc : (c : ℕ) (s : Bytes) → suc (length s) ≡ length (s ++ c ∷ [])
length-snoc c [] = refl
length-snoc c (x ∷ s) = ap suc (length-snoc c s)

leaf-IsSound :
    (i : Info)
    → i.wild_child ≡ false
    → is_param i.type ≡ false
    → i.indices ≡ []
    → IsSound (node i nil)
unfolding AllKids count_kids
leaf-IsSound i e t x = IsSound-open i nil e t (sym (ap length x)) tt

pub leaf-Adds :
    (room : Bool) (old : Node) (i : Info)
    → i.wild_child ≡ false
    → is_param i.type ≡ false
    → i.indices ≡ []
    → Adds room old i.path i.handler (added (node i nil))
unfolding Adds
leaf-Adds room old i e t x = (leaf-IsSound i e t x, λ max ps. find-end max i nil ps)

new-AddsRest :
    (again : Node → Bytes → ℕ → Added) (room : Bool) (i : Info) (kids : Nodes) (c : ℕ)
    (rest : Bytes) (before h : Option ℕ)
    → i.wild_child ≡ false
    → is_param i.type ≡ false
    → Fits kids i.indices
    → AllKids IsSound kids
    → index_of c i.indices ≡ none
    → AddsRest room i kids (c ∷ rest) h (add_new again room h i kids c (c ∷ rest) 0 before)
unfolding add_new AddsRest settle grown
new-AddsRest again room i kids c rest before h e t f k u =
    let new = node blank nil in
    let news = append_child kids new in
    let pos = length i.indices in
    let moved = child_priority pos news (i.indices ++ c ∷ []) in
    let leads =
      child_priority-Leads pos news (i.indices ++ c ∷ []) c new (
        index_of-append c i.indices u,
        subst (λ z. nth z news ≡ some new) f (nth-append kids new),
      ) in
    let keeps =
      child_priority-keeps IsSound pos news (i.indices ++ c ∷ []) raise-IsSound
        (count-append kids new ∙ ap suc f ∙ length-snoc c i.indices)
        (AllKids-append IsSound kids new k (leaf-IsSound blank refl refl refl)) in
    let place = new_place-Fits kids i.indices moved f in
    let there = ap (λ z. nth z moved.1) place ∙ leads.1 in
    rw (not_less (count_kids kids) pos f, there, add_new)
      (rw place (
        settle-AddsRest room (grown i kids) kids c rest h moved.0 moved.1 moved.2 (raise new)
          (node (record (info (raise new)) { path = c ∷ rest; handler = h }) nil) e t keeps.0
          keeps.1 leads
          (leaf-Adds room (raise new) (record (info (raise new)) { path = c ∷ rest; handler = h })
            refl refl refl)))
  where
    not_less : (m n : ℕ) → m ≡ n → ltb m n ≡ false
    not_less m n h = ground arith

wild-AddsRest :
    (again : Node → Bytes → ℕ → Added) (room : Bool) (i : Info) (kids : Nodes) (c : ℕ)
    (rest : Bytes) (h : Option ℕ)
    → IsSound (node i kids)
    → i.wild_child ≡ true
    → IsStatic (c ∷ rest)
    → AddsRest room i kids (c ∷ rest) h (add_wild again room h i kids (c ∷ rest) 0)
unfolding IsSound Guarded HasWildcard add_wild raise AddsRest
wild-AddsRest again room i nil c rest h s e st =
    absurd (subst (λ b. Guarded b i.indices nil (AreSound nil)) e s.1)
wild-AddsRest again room i (cons (node w wk) ns) c rest h s e st =
    let blocks =
      subst (λ b. Guarded b i.indices (cons (node w wk) ns) (AreSound (cons (node w wk) ns))) e
        s.1 in
    elim (Bool-cases (strncmp_eq (length w.path) w.path (c ∷ rest))) [
      | inl u ↦ absurd (blocks (strncmp_eq-IsStatic w.path (c ∷ rest) st u))
      | inr u ↦
          rw (fits_wild-false w (c ∷ rest) u, add_wild)
            (
              (
                s.0,
                subst
                    (λ b.
                      Guarded b i.indices (cons (raise (node (raise_max 0 w) wk)) ns)
                        (AreSound (cons (raise (node (raise_max 0 w) wk)) ns)))
                    (sym e) (λ v. blocks (subst (λ o. IsStatic o.path) (raise_max-zero w) v)),
              ),
              meets i (cons (node w wk) ns) c rest e,
            )
    ]

found-AddsRest :
    (again : Node → Bytes → ℕ → Added) (room : Bool) (i : Info) (kids : Nodes) (c : ℕ)
    (rest : Bytes) (h : Option ℕ) (j : ℕ) (m : Node)
    → i.wild_child ≡ false
    → is_param i.type ≡ false
    → Fits kids i.indices
    → AllKids IsSound kids
    → Leads c (j, kids, i.indices) m
    → Adds room (raise m) (c ∷ rest) h (again (raise m) (c ∷ rest) 0)
    → AddsRest room i kids (c ∷ rest) h (add_at again room h i kids j (c ∷ rest) 0)
unfolding add_at
found-AddsRest again room i kids c rest h j m e t f k l a =
    rw (l.1, add_at)
      (at-AddsRest room i kids c rest h j m (again (raise m) (c ∷ rest) 0) e t f k l a)

pub IsSound-type : (i : Info) (kids : Nodes) → IsSound (node i kids) → is_param i.type ≡ false
unfolding IsSound
IsSound-type i kids h = h.0

-- The path ends at the node.
pub add_rest-end :
    (again : Node → Bytes → ℕ → Added) (room : Bool) (i : Info) (kids : Nodes) (before h : Option ℕ)
    → IsSound (node i kids)
    → AddsRest room i kids [] h (add_rest again room h (node i kids) [] 0 before)
unfolding add_rest AddsRest Ends IsSound
add_rest-end again room i kids before h s = elim (Option-cases i.handler) [
  | inl u ↦ simp (u, add_rest) (s, refl, refl)
  | inr (o, u) ↦ simp (u, add_rest) (s, taken i kids o u)
]

-- The path goes on.
pub add_rest-on :
    (again : Node → Bytes → ℕ → Added) (room : Bool) (i : Info) (kids : Nodes) (c : ℕ)
    (rest : Bytes) (before h : Option ℕ)
    → IsSound (node i kids)
    → IsStatic (c ∷ rest)
    → ((j : ℕ) (n : Node)
        → Leads c (j, kids, i.indices) n
        → IsSound (raise n)
        → Adds room (raise n) (c ∷ rest) h (again (raise n) (c ∷ rest) 0))
    → AddsRest room i kids (c ∷ rest) h (add_rest again room h (node i kids) (c ∷ rest) 0 before)
unfolding add_rest AddsRest
add_rest-on again room i kids c rest before h s st go = elim (Bool-cases i.wild_child) [
  | inl e ↦ simp (e, add_rest) (wild-AddsRest again room i kids c rest h s e st)
  | inr e ↦
      let inner = IsSound-kids i kids e s in
      let no_param = IsSound-type i kids s in
      elim (Option-cases (index_of c i.indices)) [
        | inl u ↦ elim (Bool-cases (append_misuses room i kids)) [
          | inl m ↦
              simp (e, not_first c kids i.type no_param, u, IsStatic-head c rest st, m, add_rest)
                (appends room i kids c rest e u ((append_misuses_iff room i kids).0 m))
          | inr m ↦
              simp (e, not_first c kids i.type no_param, u, IsStatic-head c rest st, m, add_rest)
                (new-AddsRest again room i kids c rest before h e no_param inner.0 inner.1 u)
        ]
        | inr (j, u) ↦
            let there = index_of-nth c j kids i.indices inner.0 u in
            simp (e, not_first c kids i.type no_param, u, add_rest)
              (found-AddsRest again room i kids c rest h j there.0 e no_param inner.0 inner.1
                (u, there.1)
                (go j there.0 (u, there.1)
                  (raise-IsSound there.0 (AllKids-nth IsSound j kids there.0 inner.1 there.1))))
      ]
]
