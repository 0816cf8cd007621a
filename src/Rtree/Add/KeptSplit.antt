-- ===== src/Rtree/Add/KeptSplit.antt =====
-- The split of a node by `pgrest_rtree_add` of src/pg_rest_rtree.c changes nothing of what is found.
use pg_rest.Base.{
  ℕ, zero, suc, ◌<◌, ◌≡◌, refl, sym, ap, ◌∙◌, subst, ==_iff, some, List, [], ◌∷◌, ◌++◌,
  append_assoc, length, take, drop, take-append-drop, arith,
}
use pg_rest.Text.{Bytes}
use pg_rest.Rtree.{Info, Node, node, Nodes, nil, cons}
use pg_rest.Rtree.Find.{Param, matched, find, find_index}
use pg_rest.Rtree.Add.{Added, added, denied, overran, out_of_rounds, misused, head_info, tail_info}
use pg_rest.Rtree.Add.Lead.{lead, find_index-lead}
use pg_rest.Rtree.Add.Keep.{
  find_rest, find-find_rest, find-begins, Keeps, KeepsRest, KeepsRest-Keeps,
}
use pg_rest.Rtree.Add.Others.{Kept, KeptRest}

pub KeptRest-Kept :
    (i : Info) (kids : Nodes) (rest path : Bytes) (a : Added)
    → i.path ++ rest ≡ path
    → KeptRest i kids rest a
    → Kept (node i kids) path a
unfolding KeptRest Kept KeepsRest
KeptRest-Kept i kids rest path (added (node o news)) e (same, keep) =
    KeepsRest-Keeps (λ q. q ≡ path → ⊥) i o kids news same
      (λ max t ps h qs z p g. keep max t ps h qs z (λ u. p (ap (λ v. i.path ++ v) u ∙ e)) g)
KeptRest-Kept i kids rest path (denied (node o news)) e (same, keep) =
    KeepsRest-Keeps (λ q. Unit {0}) i o kids news same keep
KeptRest-Kept i kids rest path overran e d = tt
KeptRest-Kept i kids rest path out_of_rounds e d = tt
KeptRest-Kept i kids rest path misused e d = tt

pub first_behind : (k : ℕ) (s : Bytes) → k < length s → (d : ℕ) × (r : Bytes) × (drop k s ≡ d ∷ r)
first_behind k [] h = absurd (ground arith)
first_behind zero (x ∷ s) h = (x, s, refl)
first_behind (suc k) (x ∷ s) h = first_behind k s (ground arith)

pub find_rest-tail :
    (max k : ℕ) (i : Info) (kids : Nodes) (t : Bytes) (ps : List Param)
    → find_rest max (tail_info k i kids) kids t ps ≡ find_rest max i kids t ps
unfolding find_rest tail_info
find_rest-tail max k i kids [] ps = refl
find_rest-tail max k i kids (c ∷ t) ps = refl

pub lead-one : (d : ℕ) (n : Node) → lead d (d ∷ []) (cons n nil) ≡ some n
unfolding lead
lead-one d n = rw ((==_iff d d).1 refl, lead) refl

pub find-tail :
    (max k : ℕ) (i : Info) (kids : Nodes) (t : Bytes) (ps : List Param)
    → find max (node (tail_info k i kids) kids) (drop k i.path ++ t) ps ≡ find_rest max i kids t ps
unfolding tail_info
find-tail max k i kids t ps =
    find-find_rest max (tail_info k i kids) kids t ps ∙ find_rest-tail max k i kids t ps

pub find_head :
    (max k : ℕ) (i : Info) (kids : Nodes) (u : Bytes) (ps : List Param)
    → find max (node (head_info k i) kids) (take k i.path ++ u) ps
      ≡ find_rest max (head_info k i) kids u ps
unfolding head_info
find_head max k i kids u ps = find-find_rest max (head_info k i) kids u ps

pub find_rest-head :
    (max k : ℕ) (i : Info) (kids : Nodes) (d : ℕ) (u : Bytes) (ps : List Param)
    → find_rest max (head_info k i) kids (d ∷ u) ps
      ≡ find_index max kids (take 1 (drop k i.path)) (d ∷ u) ps
unfolding find_rest head_info
find_rest-head max k i kids d u ps = refl

pub find_rest-split :
    (max k : ℕ) (i : Info) (kids : Nodes) (d : ℕ) (r t : Bytes) (ps : List Param)
    → drop k i.path ≡ d ∷ r
    → find_rest max (head_info k i) (cons (node (tail_info k i kids) kids) nil) (d ∷ r ++ t) ps
      ≡ find_rest max i kids t ps
find_rest-split max k i kids d r t ps b =
    let tail = node (tail_info k i kids) kids in
    find_rest-head max k i (cons tail nil) d (r ++ t) ps
    ∙ find_index-lead max d (take 1 (drop k i.path)) (cons tail nil) (r ++ t) tail ps
        (subst (λ z. lead d (take 1 z) (cons tail nil) ≡ some tail) (sym b) (lead-one d tail))
    ∙ subst (λ z. find max tail (z ++ t) ps ≡ find_rest max i kids t ps) b
        (find-tail max k i kids t ps)

-- A split changes nothing for the paths that begin with the node's text.
pub split-find :
    (max k : ℕ) (i : Info) (kids : Nodes) (t : Bytes) (ps : List Param)
    → k < length i.path
    → find max (node (head_info k i) (cons (node (tail_info k i kids) kids) nil)) (i.path ++ t) ps
      ≡ find_rest max i kids t ps
split-find max k i kids t ps lt =
    let (d, r, b) = first_behind k i.path lt in
    let tail = cons (node (tail_info k i kids) kids) nil in
    subst (λ q. find max (node (head_info k i) tail) q ps ≡ find_rest max i kids t ps)
      (sym (append_assoc (take k i.path) (d ∷ r) t)
        ∙ ap (λ z. (take k i.path ++ z) ++ t) (sym b)
        ∙ ap (λ z. z ++ t) (take-append-drop k i.path))
      (find_head max k i tail (d ∷ r ++ t) ps ∙ find_rest-split max k i kids d r t ps b)

pub split-Keeps :
    (P : Bytes → Type 0) (k : ℕ) (i : Info) (kids : Nodes)
    → k < length i.path
    → Keeps P (node i kids) (node (head_info k i) (cons (node (tail_info k i kids) kids) nil))
unfolding Keeps
split-Keeps P k i kids lt max path ps h qs z p e =
    let t = drop (length i.path) path in
    let begins = find-begins max i kids path ps qs (some h) z e in
    subst
      (λ q.
        find max (node (head_info k i) (cons (node (tail_info k i kids) kids) nil)) q ps
        ≡ matched (some h) qs)
      begins
      (split-find max k i kids t ps lt
        ∙ sym (find-find_rest max i kids t ps)
        ∙ subst (λ q. find max (node i kids) q ps ≡ matched (some h) qs) (sym begins) e)

pub Kept-after :
    (n m : Node) (path : Bytes) (a : Added)
    → ((P : Bytes → Type 0) → Keeps P n m)
    → Kept m path a
    → Kept n path a
unfolding Kept Keeps
Kept-after n m path (added o) keep d =
    λ max q ps h qs z p e. d max q ps h qs z p (keep (λ t. Unit {0}) max q ps h qs z tt e)
Kept-after n m path (denied o) keep d =
    λ max q ps h qs z p e. d max q ps h qs z p (keep (λ t. Unit {0}) max q ps h qs z tt e)
Kept-after n m path overran keep d = d
Kept-after n m path out_of_rounds keep d = d
Kept-after n m path misused keep d = d

pub head_text :
    (k : ℕ) (i : Info) (rest : Bytes) → (head_info k i).path ++ rest ≡ take k i.path ++ rest
unfolding head_info
head_text k i rest = refl

pub split-Kept :
    (k : ℕ) (i : Info) (kids : Nodes) (rest path : Bytes) (a : Added)
    → k < length i.path
    → take k i.path ++ rest ≡ path
    → KeptRest (head_info k i) (cons (node (tail_info k i kids) kids) nil) rest a
    → Kept (node i kids) path a
split-Kept k i kids rest path a lt e d =
    Kept-after (node i kids) (node (head_info k i) (cons (node (tail_info k i kids) kids) nil)) path
      a (λ P. split-Keeps P k i kids lt)
      (KeptRest-Kept (head_info k i) (cons (node (tail_info k i kids) kids) nil) rest path a
        (head_text k i rest ∙ e) d)
