-- ===== src/Rtree/Add/Split.antt =====
-- The common prefix, the split of a node and the depth of the tree, for `pgrest_rtree_add` of src/pg_rest_rtree.c.
use pg_rest.Base.{
  ℕ, zero, suc, ◌≤◌, ◌<◌, ◌≡◌, refl, sym, ap, ap₂, ◌∙◌, subst, inl, inr, Bool, true, false, ◌&&◌,
  ◌||◌, not, ◌==◌, ==_iff, ltb, if◌then◌else◌, Bool-cases, none, some, [], ◌∷◌, ◌++◌, length, take,
  drop, arith,
}
use mathlib.Core.Option.{none-ne-some, some-injective}
use mathlib.Core.Bool.{false≢true}
use pg_rest.Text.{Bytes, count_wildcards, count_params}
use pg_rest.Rtree.{Info, Node, node, Nodes, nil, cons}
use pg_rest.Rtree.Insert.{is_wildcard}
use pg_rest.Rtree.Add.{raise, common, head_info, tail_info, index_of, nth, count_kids}
use pg_rest.Rtree.Add.Place.{zero-ne}
use pg_rest.Rtree.Add.Loop.{height, heights}
use pg_rest.Rtree.Add.Sound.{IsStatic, IsSound, AreSound, Guarded, Stops, taken, meets, deeper}

pub take-common : (a b : Bytes) → take (common a b) b ++ drop (common a b) a ≡ a
unfolding common
take-common [] [] = refl
take-common [] (y ∷ b) = refl
take-common (x ∷ a) [] = refl
take-common (x ∷ a) (y ∷ b) = elim (Bool-cases (x == y)) [
  | inl u ↦ rw (u, common) (ap₂ (λ p q. p ∷ q) (sym ((==_iff x y).0 u)) (take-common a b))
  | inr u ↦ rw (u, common) refl
]

-- Behind the common prefix the texts differ.
pub common-differs :
    (a b : Bytes) (c : ℕ) (rest : Bytes)
    → drop (common a b) a ≡ c ∷ rest
    → index_of c (take 1 (drop (common a b) b)) ≡ none
unfolding common index_of
common-differs [] b c rest e = absurd (zero-ne (length rest) (ap length e))
common-differs (x ∷ a) [] c rest e = refl
common-differs (x ∷ a) (y ∷ b) c rest e = elim (Bool-cases (x == y)) [
  | inl u ↦ rw (u, common) (common-differs a b c rest (rw (u, common) at e))
  | inr u ↦
      rw (u, common)
        (single c y (subst (λ z. (z == y) ≡ false) (∷-injective (rw (u, common) at e)) u))
]
  where
    single : (c y : ℕ) → (c == y) ≡ false → index_of c (y ∷ []) ≡ none
    single c y u = rw (u, index_of) refl

    first : Bytes → ℕ
    first [] = 0
    first (z ∷ s) = z

    ∷-injective : x ∷ a ≡ c ∷ rest → x ≡ c
    ∷-injective h = ap first h

pub IsStatic-drop : (k : ℕ) (s : Bytes) → IsStatic s → IsStatic (drop k s)
unfolding IsStatic
IsStatic-drop zero s h = h
IsStatic-drop (suc k) [] h = h
IsStatic-drop (suc k) (c ∷ s) h = IsStatic-drop k s h.2

pub left_le : (a b : ℕ) → a ≤ (if ltb b a then a else b)
left_le a b = ground arith

pub right_le : (n a b : ℕ) → n ≤ b → n ≤ (if ltb b a then a else b)
right_le n a b h = ground arith

pub height-nth : (j : ℕ) (kids : Nodes) (n : Node) → nth j kids ≡ some n → height n ≤ heights kids
unfolding nth height heights
height-nth j nil n e = absurd (none-ne-some n e)
height-nth zero (cons m ns) n e =
    subst (λ z. height z ≤ heights (cons m ns)) (some-injective m n e)
      (left_le (height m) (heights ns))
height-nth (suc j) (cons m ns) n e =
    right_le (height n) (height m) (heights ns) (height-nth j ns n e)

pub height-raise : (n : Node) → height (raise n) ≡ height n
unfolding height raise
height-raise (node i kids) = refl

-- The node that a split leaves has one child, which the route does not lead to.
pub Stops-head :
    (i : Info) (kids : Nodes) (path rest : Bytes)
    → rest ≡ drop (common path i.path) path
    → Stops (head_info (common path i.path) i) kids rest
    → ⊥
unfolding head_info
Stops-head i kids path _ e (taken _ _ h u) = none-ne-some h u
Stops-head i kids path _ e (meets _ _ c rest u) = false≢true u
Stops-head i kids path _ e (deeper _ _ c rest j n l b) =
    none-ne-some j (sym (common-differs path i.path c rest (sym e)) ∙ l.0)

pub one_byte : (k : ℕ) (s : Bytes) → k < length s → 1 ≡ length (take 1 (drop k s))
one_byte k [] h = ground arith
one_byte zero (x ∷ s) h = refl
one_byte (suc k) (x ∷ s) h = one_byte k s (ground arith)

pub split-IsSound :
    (k : ℕ) (i : Info) (kids : Nodes)
    → k < length i.path
    → IsSound (node i kids)
    → IsSound (node (head_info k i) (cons (node (tail_info k i kids) kids) nil))
unfolding IsSound head_info tail_info AreSound Guarded count_kids
split-IsSound k i kids lt h = (h.0, (one_byte k i.path lt, ((refl, h.1), tt)))

pub count_wildcards-IsStatic : (path : Bytes) → IsStatic path → count_wildcards path ≡ 0
unfolding IsStatic count_wildcards is_wildcard
count_wildcards-IsStatic [] h = refl
count_wildcards-IsStatic (c ∷ s) h =
    rw (neither (c == b':') (c == b'*') h.1, count_wildcards) (count_wildcards-IsStatic s h.2)
  where
    neither : (p q : Bool) → (p || q) ≡ false → (not p && not q) ≡ true
    neither false false e = refl
    neither false true e = sym e
    neither true q e = sym e

pub count_params-IsStatic : (path : Bytes) → IsStatic path → count_params path ≡ 0
unfolding count_params
count_params-IsStatic path st = rw (count_wildcards-IsStatic path st, count_params) refl
