-- ===== src/Rtree/Add/MisusedRound.antt =====
-- A round of `pgrest_rtree_add` of src/pg_rest_rtree.c that passes a block of one allocator to the other.
use pg_rest.Base.{
  ℕ, suc, ◌<◌, ◌≡◌, refl, sym, ap, ◌∙◌, subst, inl, inr, Bool, false, ==_iff, ltb, Option, [], ◌∷◌,
  ◌++◌, length, drop, lt→ltb, arith,
}
use mathlib.Core.Option.{none-ne-some}
use pg_rest.Text.{Bytes}
use pg_rest.Rtree.{Info, Node, node, Nodes, nil, cons}
use pg_rest.Rtree.Add.{
  Added, misused, frees_libc, wrap, raise, common, head_info, tail_info, split_node, child_priority,
}
use pg_rest.Rtree.Add.Place.{AllKids-nth}
use pg_rest.Rtree.Add.Moves.{Leads}
use pg_rest.Rtree.Add.Loop.{settle, add_at, add_rest}
use pg_rest.Rtree.Add.Sound.{
  Misuses, MisusesRest, appends, leads, IsStatic, IsSound, IsSound-kids, raise-IsSound,
}
use pg_rest.Rtree.Add.Blocks.{append_misuses_iff}
use pg_rest.Rtree.Add.Static.{not_first, IsStatic-head}
use pg_rest.Rtree.Add.Rest.{IsSound-type}
use pg_rest.Rtree.Add.Split.{common-differs, IsStatic-drop, split-IsSound}

pub rest-misused :
    (again : Node → Bytes → ℕ → Added) (room : Bool) (i : Info) (kids : Nodes) (rest : Bytes)
    (before h : Option ℕ)
    → IsSound (node i kids)
    → IsStatic rest
    → MisusesRest room i kids rest
    → ((c : ℕ) (s : Bytes) (j : ℕ) (n : Node)
        → rest ≡ c ∷ s
        → Leads c (j, kids, i.indices) n
        → IsSound (raise n)
        → Misuses room n rest
        → again (raise n) rest 0 ≡ misused)
    → add_rest again room h (node i kids) rest 0 before ≡ misused
unfolding add_rest add_at wrap
rest-misused again room i kids _ before h s st (appends _ _ _ c r w u m) go =
    simp
      (
        w,
        not_first c kids i.type (IsSound-type i kids s),
        u,
        IsStatic-head c r st,
        (append_misuses_iff room i kids).1 m,
        add_rest,
      )
      refl
rest-misused again room i kids _ before h s st (leads _ _ _ c r j n w l m) go =
    let sound = AllKids-nth IsSound j kids n (IsSound-kids i kids w s).1 l.1 in
    simp (w, not_first c kids i.type (IsSound-type i kids s), l.0, l.1, add_rest, add_at)
      (ap (wrap (settle i (child_priority j kids i.indices)))
        (go c r j n refl l (raise-IsSound n sound) m))

pub common-prefix : (t r : Bytes) → common (t ++ r) t ≡ length t
unfolding common
common-prefix [] [] = refl
common-prefix [] (x ∷ r) = refl
common-prefix (x ∷ t) r = rw ((==_iff x x).1 refl, common) (ap suc (common-prefix t r))

-- A round at a node that is split.
pub off-misused :
    (again : Node → Bytes → ℕ → Added) (room : Bool) (i : Info) (kids : Nodes) (path : Bytes)
    (c : ℕ) (rest : Bytes) (before h : Option ℕ)
    → IsSound (node i kids)
    → IsStatic path
    → common path i.path < length i.path
    → drop (common path i.path) path ≡ c ∷ rest
    → add_rest again room h
        (split_node (common path i.path) i kids)
        (drop (common path i.path) path)
        0
        before
      ≡ misused
unfolding split_node head_info
off-misused again room i kids path c rest before h s st lt e =
    let k = common path i.path in
    let tail = cons (node (tail_info k i kids) kids) nil in
    let bad =
      appends room (head_info k i) tail c rest refl (common-differs path i.path c rest e)
        (inr (inl refl)) in
    simp (lt→ltb k (length i.path) lt, split_node)
      (rest-misused again room (head_info k i) tail (drop k path) before h
        (split-IsSound k i kids lt s) (IsStatic-drop k path st)
        (subst (MisusesRest room (head_info k i) tail) (sym e) bad)
        (λ d t j n f l w m. absurd (none-ne-some j (sym (common-differs path i.path d t f) ∙ l.0))))

-- A round at a node whose text the path begins with.
pub behind-misused :
    (again : Node → Bytes → ℕ → Added) (room : Bool) (i : Info) (kids : Nodes) (path rest : Bytes)
    (before h : Option ℕ)
    → IsSound (node i kids)
    → IsStatic path
    → ltb (common path i.path) (length i.path) ≡ false
    → drop (common path i.path) path ≡ rest
    → MisusesRest room i kids rest
    → ((c : ℕ) (s : Bytes) (j : ℕ) (n : Node)
        → Leads c (j, kids, i.indices) n
        → IsSound (raise n)
        → Misuses room n (drop (common path i.path) path)
        → again (raise n) (drop (common path i.path) path) 0 ≡ misused)
    → add_rest again room h
        (split_node (common path i.path) i kids)
        (drop (common path i.path) path)
        0
        before
      ≡ misused
unfolding split_node
behind-misused again room i kids path rest before h s st u e m go =
    let k = common path i.path in
    simp (u, split_node)
      (rest-misused again room i kids (drop k path) before h s (IsStatic-drop k path st)
        (subst (MisusesRest room i kids) (sym e) m) (λ c t j n f l w b. go c t j n l w b))

pub whole-text : (m : ℕ) → ltb m m ≡ false
whole-text m = ground arith

pub not-frees : (k : ℕ) (i : Info) → ltb k (length i.path) ≡ false → frees_libc k i ≡ false
unfolding frees_libc
not-frees k i u = rw (u, frees_libc) refl
