-- ===== src/Rtree/Add/Keep.antt =====
-- What `pgrest_rtree_find` of src/pg_rest_rtree.c found before a change to the tree, it finds after.
use pg_rest.Base.{
  ℕ, ◌≡◌, refl, sym, ap, ◌∙◌, subst, true, false, Option, some, List, [], ◌∷◌, ◌++◌, ltb, ◌==◌,
  ==_iff, ◌&&◌, length, drop, arith, inl, inr, Bool-cases, append-nil, drop-append_self,
}
use pg_rest.Text.{Bytes}
use pg_rest.Text.Search.{Lacks}
use pg_rest.Rtree.{Info, Node, node, Nodes, strncmp_eq}
use pg_rest.Rtree.Find.{Param, Lookup, missed, matched, find, find_index, find_wild}
use pg_rest.Rtree.Find.Route.{split_path, Lacks-drop}
use pg_rest.Rtree.Add.Static.{longer, strncmp_eq-prefix, find-end}
use pg_rest.Rtree.Add.Lead.{missed-ne, lead, find_index-lead, find_index-found}

-- The lookup behind the text of a node.
unfoldable pub find_rest : ℕ → Info → Nodes → Bytes → List Param → Lookup
unfolding find_index find_wild
find_rest max i kids [] ps = matched i.handler ps
find_rest max i kids (c ∷ path) ps = elim i.wild_child [
  | false ↦ find_index max kids i.indices (c ∷ path) ps
  | true ↦ elim (length ps == max) [ true ↦ missed | false ↦ find_wild max kids (c ∷ path) ps ]
]

-- A handler that the first node leads to for a path that satisfies `P`, the second leads to, with the
-- same parameters.
unfoldable pub Keeps : (Bytes → Type 0) → Node → Node → Type 0
Keeps P old new =
    (max : ℕ) (path : Bytes) (ps : List Param) (h : ℕ) (qs : List Param)
    → Lacks 0 path
    → P path
    → find max old path ps ≡ matched (some h) qs
    → find max new path ps ≡ matched (some h) qs

-- The same behind the texts of two nodes.
unfoldable pub KeepsRest : (Bytes → Type 0) → Info → Nodes → Info → Nodes → Type 0
KeepsRest P i kids o news =
    (max : ℕ) (path : Bytes) (ps : List Param) (h : ℕ) (qs : List Param)
    → Lacks 0 path
    → P path
    → find_rest max i kids path ps ≡ matched (some h) qs
    → find_rest max o news path ps ≡ matched (some h) qs

pub find-find_rest :
    (max : ℕ) (i : Info) (kids : Nodes) (t : Bytes) (ps : List Param)
    → find max (node i kids) (i.path ++ t) ps ≡ find_rest max i kids t ps
unfolding find find_rest
find-find_rest max i kids [] ps =
    subst (λ z. find max (node i kids) z ps ≡ matched i.handler ps) (sym (append-nil i.path))
      (find-end max i kids ps)
find-find_rest max i kids (c ∷ t) ps =
    let long = longer i.path c t in
    let same = strncmp_eq-prefix i.path (c ∷ t) in
    let behind = drop-append_self (length i.path) i.path (c ∷ t) refl in
    elim (Bool-cases i.wild_child) [
      | inl u ↦ elim (Bool-cases (length ps == max)) [
        | inl v ↦ simp (long, same, u, v, find, find_rest) refl
        | inr v ↦ simp (long, same, u, v, behind, find, find_rest) refl
      ]
      | inr u ↦ simp (long, same, u, behind, find, find_rest) refl
    ]

-- A path for which something is found begins with the node's text.
pub find-begins :
    (max : ℕ) (i : Info) (kids : Nodes) (path : Bytes) (ps qs : List Param) (h : Option ℕ)
    → Lacks 0 path
    → find max (node i kids) path ps ≡ matched h qs
    → i.path ++ drop (length i.path) path ≡ path
unfolding find
find-begins max i kids path ps qs h z e = elim (Bool-cases (ltb (length i.path) (length path))) [
  | inl u ↦ elim (Bool-cases (strncmp_eq (length i.path) path i.path)) [
    | inl v ↦ split_path i.path path z v
    | inr v ↦ absurd (missed-ne h qs (rw (u, v, find) at e))
  ]
  | inr u ↦
      elim (Bool-cases (length path == length i.path && strncmp_eq (length path) path i.path)) [
        | inl v ↦ split_path i.path path z (whole v)
        | inr v ↦ absurd (missed-ne h qs (rw (u, v, find) at e))
      ]
]
  where
    same_length :
        (length path == length i.path && strncmp_eq (length path) path i.path) ≡ true
        → length path ≡ length i.path
    same_length v = ground arith

    whole :
        (length path == length i.path && strncmp_eq (length path) path i.path) ≡ true
        → strncmp_eq (length i.path) path i.path ≡ true
    whole v = subst (λ m. strncmp_eq m path i.path ≡ true) (same_length v) (ground arith)

-- A change behind the text of a node.
pub KeepsRest-Keeps :
    (P : Bytes → Type 0) (i o : Info) (kids news : Nodes)
    → o.path ≡ i.path
    → KeepsRest (λ t. P (i.path ++ t)) i kids o news
    → Keeps P (node i kids) (node o news)
unfolding KeepsRest Keeps
KeepsRest-Keeps P i o kids news same keep max path ps h qs z p e =
    let t = drop (length i.path) path in
    let begins = find-begins max i kids path ps qs (some h) z e in
    subst (λ q. find max (node o news) q ps ≡ matched (some h) qs) (ap (λ q. q ++ t) same ∙ begins)
      (find-find_rest max o news t ps
        ∙ keep max t ps h qs (Lacks-drop 0 (length i.path) path z) (subst P (sym begins) p) (
            sym (find-find_rest max i kids t ps)
            ∙ subst (λ q. find max (node i kids) q ps ≡ matched (some h) qs) (sym begins) e))

-- A change at the child that `c` leads to, where other bytes lead where they led.
pub lead-KeepsRest :
    (P : Bytes → Type 0) (i : Info) (kids news : Nodes) (s : Bytes) (c : ℕ) (n : Node)
    → i.wild_child ≡ false
    → ((d : ℕ) → (d == c) ≡ false → lead d s news ≡ lead d i.indices kids)
    → lead c s news ≡ some n
    → ((m : Node) → lead c i.indices kids ≡ some m → Keeps P m n)
    → KeepsRest P i kids (record i { indices = s }) news
unfolding KeepsRest find_rest Keeps
lead-KeepsRest P i kids news s c n w others there keep max [] ps h qs z p e = e
lead-KeepsRest P i kids news s c n w others there keep max (d ∷ t) ps h qs z p e =
    simp (w, find_rest)
      (let e' = simp (w, find_rest) at e in
        let old = find_index-found max d i.indices kids t ps qs (some h) e' in
        let e'' = sym (find_index-lead max d i.indices kids t old.0 ps old.1) ∙ e' in
        elim (Bool-cases (d == c)) [
          | inl u ↦
              find_index-lead max d s news t n ps
                (subst (λ x. lead x s news ≡ some n) (sym ((==_iff d c).0 u)) there)
              ∙ keep old.0
                  (subst (λ x. lead x i.indices kids ≡ some (old.0)) ((==_iff d c).0 u) old.1) max
                  (d ∷ t) ps h qs z p e''
          | inr u ↦ find_index-lead max d s news t old.0 ps (others d u ∙ old.1) ∙ e''
        ])
