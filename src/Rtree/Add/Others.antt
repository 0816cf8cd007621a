-- ===== src/Rtree/Add/Others.antt =====
-- The other routes of the tree in a round of `pgrest_rtree_add` of src/pg_rest_rtree.c.
use pg_rest.Base.{
  Bool, ℕ, suc, ◌≡◌, refl, sym, ap, ◌∙◌, subst, true, false, Option, Option-cases, none, some, List,
  [], ◌∷◌, ◌++◌, ltb, ◌==◌, length, arith, inl, inr, Bool-cases,
}
use mathlib.Core.Option.{none-ne-some, some-injective}
use pg_rest.Text.{Bytes}
use pg_rest.Rtree.{Info, info, Node, node, Nodes, nil, cons, blank, strncmp_eq}
use pg_rest.Rtree.Find.{Param, matched, find, find_wild}
use pg_rest.Rtree.Add.{
  Added, added, denied, overran, out_of_rounds, misused, append_misuses, grown, wrap, raise,
  raise_max, set_nth, index_of, nth, append_child, count_kids, child_priority,
}
use pg_rest.Rtree.Add.Place.{nth-set, index_of-append, nth-append, count-append, AllKids-nth}
use pg_rest.Rtree.Add.Moves.{Leads, Fits, child_priority-Leads}
use pg_rest.Rtree.Add.Static.{
  raise_max-zero, strncmp_eq-IsStatic, fits_wild-false, new_place-Fits, not_first, IsStatic-head,
  index_of-nth,
}
use pg_rest.Rtree.Add.Rest.{length-snoc, IsSound-type}
use pg_rest.Rtree.Add.Lead.{lead, lead-Leads, lead-none, lead-set, lead-append, lead-child_priority}
use pg_rest.Rtree.Add.Keep.{find_rest, Keeps, KeepsRest, lead-KeepsRest}
use pg_rest.Rtree.Add.Loop.{settle, add_wild, add_at, add_new, add_rest}
use pg_rest.Rtree.Add.Sound.{
  IsStatic, HasWildcard, Guarded, IsSound, AreSound, IsSound-kids, raise-IsSound,
}

-- When a route was added, what the other paths led to in the tree `old`, they lead to; when it was
-- denied, what any path led to.
unfoldable pub Kept : Node → Bytes → Added → Type 0
Kept old path (added n) = Keeps (λ q. q ≡ path → ⊥) old n
Kept old path (denied n) = Keeps (λ q. Unit {0}) old n
Kept old path overran = Unit {0}
Kept old path out_of_rounds = Unit {0}
Kept old path misused = Unit {0}

-- The same of the bytes `rest` behind the text of a node.
unfoldable pub KeptRest : Info → Nodes → Bytes → Added → Type 0
KeptRest i kids rest (added (node o news)) =
    (o.path ≡ i.path) × KeepsRest (λ t. t ≡ rest → ⊥) i kids o news
KeptRest i kids rest (denied (node o news)) =
    (o.path ≡ i.path) × KeepsRest (λ t. Unit {0}) i kids o news
KeptRest i kids rest overran = Unit {0}
KeptRest i kids rest out_of_rounds = Unit {0}
KeptRest i kids rest misused = Unit {0}

-- The node with a changed child in its place.
settle-KeepsRest :
    (P : Bytes → Type 0) (i : Info) (kids : Nodes) (c j : ℕ) (news : Nodes) (s : Bytes) (m n : Node)
    → i.wild_child ≡ false
    → Leads c (j, news, s) m
    → ((d : ℕ) → (d == c) ≡ false → lead d s news ≡ lead d i.indices kids)
    → ((o : Node) → lead c i.indices kids ≡ some o → Keeps P o n)
    → KeepsRest P i kids (record i { indices = s }) (set_nth j n news)
settle-KeepsRest P i kids c j news s m n w l others keep =
    lead-KeepsRest P i kids (set_nth j n news) s c n w
      (λ d u. lead-set c d u j news s n l.0 ∙ others d u)
      (lead-Leads c j (set_nth j n news) s n (l.0, nth-set j news m n l.1)) keep

settle-Added :
    (i : Info) (kids : Nodes) (rest : Bytes) (c j : ℕ) (news : Nodes) (s : Bytes) (m : Node)
    (a : Added)
    → i.wild_child ≡ false
    → Leads c (j, news, s) m
    → ((d : ℕ) → (d == c) ≡ false → lead d s news ≡ lead d i.indices kids)
    → ((o : Node) → lead c i.indices kids ≡ some o → Kept o rest a)
    → KeptRest i kids rest (wrap (settle i (j, news, s)) a)
unfolding Kept KeptRest wrap settle
settle-Added i kids rest c j news s m (added n) w l others keep =
    (refl, settle-KeepsRest (λ t. t ≡ rest → ⊥) i kids c j news s m n w l others keep)
settle-Added i kids rest c j news s m (denied n) w l others keep =
    (refl, settle-KeepsRest (λ t. Unit {0}) i kids c j news s m n w l others keep)
settle-Added i kids rest c j news s m overran w l others keep = tt
settle-Added i kids rest c j news s m out_of_rounds w l others keep = tt
settle-Added i kids rest c j news s m misused w l others keep = tt

pub Kept-raise : (n : Node) (path : Bytes) (a : Added) → Kept (raise n) path a → Kept n path a
unfolding Kept Keeps raise find
Kept-raise (node i kids) path (added m) h = h
Kept-raise (node i kids) path (denied m) h = h
Kept-raise (node i kids) path overran h = h
Kept-raise (node i kids) path out_of_rounds h = h
Kept-raise (node i kids) path misused h = h

found-KeptRest :
    (again : Node → Bytes → ℕ → Added) (room : Bool) (i : Info) (kids : Nodes) (c : ℕ)
    (rest : Bytes) (h : Option ℕ) (j : ℕ) (m : Node)
    → i.wild_child ≡ false
    → Fits kids i.indices
    → Leads c (j, kids, i.indices) m
    → Kept (raise m) (c ∷ rest) (again (raise m) (c ∷ rest) 0)
    → KeptRest i kids (c ∷ rest) (add_at again room h i kids j (c ∷ rest) 0)
unfolding add_at
found-KeptRest again room i kids c rest h j m w f l a =
    let moved = child_priority j kids i.indices in
    let result = again (raise m) (c ∷ rest) 0 in
    rw (l.1, add_at)
      (settle-Added i kids (c ∷ rest) c moved.0 moved.1 moved.2 (raise m) result w
        (child_priority-Leads j kids i.indices c m l)
        (λ d u. lead-child_priority c d u j kids i.indices f l.0)
        (λ o e.
          subst (λ z. Kept z (c ∷ rest) result)
            (some-injective m o (sym (lead-Leads c j kids i.indices m l) ∙ e))
            (Kept-raise m (c ∷ rest) result a)))

new-KeptRest :
    (again : Node → Bytes → ℕ → Added) (room : Bool) (i : Info) (kids : Nodes) (c : ℕ)
    (rest : Bytes) (before h : Option ℕ)
    → i.wild_child ≡ false
    → Fits kids i.indices
    → index_of c i.indices ≡ none
    → KeptRest i kids (c ∷ rest) (add_new again room h i kids c (c ∷ rest) 0 before)
unfolding add_new KeptRest KeepsRest find_rest settle grown wrap
new-KeptRest again room i kids c rest before h w f u =
    let new = node blank nil in
    let news = append_child kids new in
    let pos = length i.indices in
    let s = i.indices ++ c ∷ [] in
    let moved = child_priority pos news s in
    let at_end = index_of-append c i.indices u in
    let leads =
      child_priority-Leads pos news s c new
        (at_end, subst (λ z. nth z news ≡ some new) f (nth-append kids new)) in
    let place = new_place-Fits kids i.indices moved f in
    let there = ap (λ z. nth z moved.1) place ∙ leads.1 in
    rw (not_less (count_kids kids) pos f, there, add_new)
      (rw place (
        settle-Added (grown i kids) kids (c ∷ rest) c moved.0 moved.1 moved.2 (raise new)
          (added (node (record (info (raise new)) { path = c ∷ rest; handler = h }) nil)) w leads
          (λ d v.
            lead-child_priority c d v pos news s
              (count-append kids new ∙ ap suc f ∙ length-snoc c i.indices) at_end
            ∙ lead-append c d v kids i.indices new f)
          (λ o e. absurd (none-ne-some o (sym (lead-none c i.indices kids u) ∙ e)))))
  where
    not_less : (m n : ℕ) → m ≡ n → ltb m n ≡ false
    not_less m n h = ground arith

find_rest-raise :
    (max : ℕ) (i w : Info) (wk ns : Nodes) (t : Bytes) (ps : List Param)
    → i.wild_child ≡ true
    → find_rest max i (cons (node w wk) ns) t ps
      ≡ find_rest max i (cons (raise (node w wk)) ns) t ps
unfolding find_rest raise find_wild
find_rest-raise max i w wk ns [] ps e = refl
find_rest-raise max i w wk ns (c ∷ t) ps e = simp (e, find_rest) refl

wild-KeptRest :
    (again : Node → Bytes → ℕ → Added) (room : Bool) (i : Info) (kids : Nodes) (c : ℕ)
    (rest : Bytes) (h : Option ℕ)
    → IsSound (node i kids)
    → i.wild_child ≡ true
    → IsStatic (c ∷ rest)
    → KeptRest i kids (c ∷ rest) (add_wild again room h i kids (c ∷ rest) 0)
unfolding IsSound Guarded HasWildcard add_wild raise KeptRest KeepsRest find_rest find_wild
wild-KeptRest again room i nil c rest h s e st =
    absurd (subst (λ b. Guarded b i.indices nil (AreSound nil)) e s.1)
wild-KeptRest again room i (cons (node w wk) ns) c rest h s e st =
    let blocks =
      subst (λ b. Guarded b i.indices (cons (node w wk) ns) (AreSound (cons (node w wk) ns))) e
        s.1 in
    elim (Bool-cases (strncmp_eq (length w.path) w.path (c ∷ rest))) [
      | inl u ↦ absurd (blocks (strncmp_eq-IsStatic w.path (c ∷ rest) st u))
      | inr u ↦
          rw (fits_wild-false w (c ∷ rest) u, add_wild)
            (
              refl,
              λ max t ps o qs z p g.
                  sym (find_rest-raise max i (raise_max 0 w) wk ns t ps e)
                  ∙ subst (λ v. find_rest max i (cons (node v wk) ns) t ps ≡ matched (some o) qs)
                      (sym (raise_max-zero w)) g,
            )
    ]

-- A handler at the end of the node's text leaves the longer paths as they are.
handler-keeps :
    (i : Info) (kids : Nodes) (h : Option ℕ)
    → KeepsRest (λ t. t ≡ [] → ⊥) i kids (record i { handler = h }) kids
unfolding KeepsRest find_rest
handler-keeps i kids h max [] ps k qs z p e = absurd (p refl)
handler-keeps i kids h max (c ∷ t) ps k qs z p e = e

pub add_rest-KeptRest :
    (again : Node → Bytes → ℕ → Added) (room : Bool) (i : Info) (kids : Nodes) (rest : Bytes)
    (before h : Option ℕ)
    → IsSound (node i kids)
    → IsStatic rest
    → ((c : ℕ) (s : Bytes) (j : ℕ) (n : Node)
        → rest ≡ c ∷ s
        → Leads c (j, kids, i.indices) n
        → IsSound (raise n)
        → Kept (raise n) rest (again (raise n) rest 0))
    → KeptRest i kids rest (add_rest again room h (node i kids) rest 0 before)
unfolding add_rest KeptRest KeepsRest find_rest
add_rest-KeptRest again room i kids [] before h s st go = elim (Option-cases i.handler) [
  | inl u ↦ simp (u, add_rest) (refl, handler-keeps i kids h)
  | inr (o, u) ↦ simp (u, add_rest) (refl, λ max t ps k qs z p e. e)
]
add_rest-KeptRest again room i kids (c ∷ rest) before h s st go = elim (Bool-cases i.wild_child) [
  | inl e ↦ simp (e, add_rest) (wild-KeptRest again room i kids c rest h s e st)
  | inr e ↦
      let inner = IsSound-kids i kids e s in
      let no_param = IsSound-type i kids s in
      elim (Option-cases (index_of c i.indices)) [
        | inl u ↦ elim (Bool-cases (append_misuses room i kids)) [
          | inl m ↦
              simp (e, not_first c kids i.type no_param, u, IsStatic-head c rest st, m, add_rest) tt
          | inr m ↦
              simp (e, not_first c kids i.type no_param, u, IsStatic-head c rest st, m, add_rest)
                (new-KeptRest again room i kids c rest before h e inner.0 u)
        ]
        | inr (j, u) ↦
            let there = index_of-nth c j kids i.indices inner.0 u in
            simp (e, not_first c kids i.type no_param, u, add_rest)
              (found-KeptRest again room i kids c rest h j there.0 e inner.0 (u, there.1)
                (go c rest j there.0 refl (u, there.1)
                  (raise-IsSound there.0 (AllKids-nth IsSound j kids there.0 inner.1 there.1))))
      ]
]
