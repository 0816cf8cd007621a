-- ===== src/Rtree/Add/Static.antt =====
-- The steps of `pgrest_rtree_add` of src/pg_rest_rtree.c for a text without wildcards.
use pg_rest.Base.{
  ℕ, zero, suc, ◌+◌, ◌≡◌, refl, sym, subst, inl, inr, Bool, true, false, ◌==◌, ==_iff, ◌&&◌, ◌||◌,
  leb, ltb, Bool-cases, Option, some, List, [], ◌∷◌, ◌++◌, length, length-append, drop, append-nil,
  arith,
}
use mathlib.Core.Option.{none-ne-some}
use mathlib.Core.Bool.{false≢true}
use pg_rest.Text.{Bytes}
use pg_rest.Rtree.{NodeType, Info, Node, node, Nodes, nil, cons, strncmp_eq}
use pg_rest.Rtree.Find.{Param, matched, find, starts}
use pg_rest.Rtree.Insert.{is_wildcard, child_insert, insert_loop, insert_leaf, inserted}
use pg_rest.Rtree.Add.{raise_max, index_of, nth, count_kids, Moved}
use pg_rest.Rtree.Add.Place.{zero-ne, suc_inj, index_of-suc}
use pg_rest.Rtree.Add.Moves.{Fits}
use pg_rest.Rtree.Add.Loop.{is_param, has_one_child, fits_wild, new_place}
use pg_rest.Rtree.Add.Sound.{IsStatic}

-- A text that a static path begins with is static.
pub strncmp_eq-IsStatic :
    (w path : Bytes) → IsStatic path → strncmp_eq (length w) w path ≡ true → IsStatic w
unfolding IsStatic strncmp_eq
strncmp_eq-IsStatic [] path h e = tt
strncmp_eq-IsStatic (x ∷ w) [] h e = absurd (false≢true e)
strncmp_eq-IsStatic (x ∷ w) (y ∷ path) h e = elim (Bool-cases (x == y)) [
  | inr u ↦ absurd (false≢true (rw (u, strncmp_eq) at e))
  | inl u ↦ elim (Bool-cases (x == 0)) [
    | inl v ↦ absurd (nonzero x y u h.0 v)
    | inr v ↦ (
      v,
      subst (λ z. is_wildcard z ≡ false) (sym ((==_iff x y).0 u)) h.1,
      strncmp_eq-IsStatic w path h.2 (rw (u, v, strncmp_eq) at e),
    )
  ]
]
  where
    nonzero : (x y : ℕ) → (x == y) ≡ true → (y == 0) ≡ false → (x == 0) ≡ true → ⊥
    nonzero x y u v w = ground arith

pub ltb-zero : (m : ℕ) → ltb m 0 ≡ false
ltb-zero m = ground arith

pub raise_max-zero : (i : Info) → raise_max 0 i ≡ i
unfolding raise_max
raise_max-zero i = rw (ltb-zero i.max_params, raise_max) refl

pub child_insert-static :
    (i : Info) (kids : Nodes) (path : Bytes) (before handler : Option ℕ)
    → child_insert (node i kids) 0 path before handler
      ≡ inserted (node (record i { path = path; handler = handler }) kids)
unfolding child_insert insert_loop insert_leaf
child_insert-static i kids [] before handler = refl
child_insert-static i kids (c ∷ path) before handler = refl

pub strncmp_eq-prefix : (t s : Bytes) → strncmp_eq (length t) (t ++ s) t ≡ true
unfolding strncmp_eq
strncmp_eq-prefix [] s = refl
strncmp_eq-prefix (x ∷ t) s = elim (Bool-cases (x == 0)) [
  | inl u ↦ rw ((==_iff x x).1 refl, u, strncmp_eq) refl
  | inr u ↦ rw ((==_iff x x).1 refl, u, strncmp_eq) (strncmp_eq-prefix t s)
]

-- A node whose text is the whole path.
pub find-end :
    (max : ℕ) (i : Info) (kids : Nodes) (ps : List Param)
    → find max (node i kids) i.path ps ≡ matched i.handler ps
unfolding find
find-end max i kids ps =
    rw
      (
        ltb_self (length i.path),
        (==_iff (length i.path) (length i.path)).1 refl,
        subst (λ z. strncmp_eq (length i.path) z i.path ≡ true) (append-nil i.path)
            (strncmp_eq-prefix i.path []),
        find,
      )
      refl
  where
    ltb_self : (m : ℕ) → ltb m m ≡ false
    ltb_self m = ground arith

pub index_of-nth :
    (c j : ℕ) (kids : Nodes) (s : Bytes)
    → Fits kids s
    → index_of c s ≡ some j
    → (n : Node) × (nth j kids ≡ some n)
unfolding index_of nth count_kids
index_of-nth c j kids [] f e = absurd (none-ne-some j e)
index_of-nth c j nil (x ∷ s) f e = absurd (zero-ne (length s) f)
index_of-nth c zero (cons n ns) (x ∷ s) f e = (n, refl)
index_of-nth c (suc j) (cons n ns) (x ∷ s) f e =
    index_of-nth c j ns s (suc_inj (count_kids ns) (length s) f) (index_of-suc c x s j e).1

pub new_place-Fits :
    (kids : Nodes) (s : Bytes) (moved : Moved) → Fits kids s → new_place kids s moved ≡ moved.0
unfolding new_place
new_place-Fits kids s moved f = rw ((==_iff (count_kids kids) (length s)).1 f, new_place) refl

pub fits_wild-false :
    (w : Info) (path : Bytes)
    → strncmp_eq (length w.path) w.path path ≡ false
    → fits_wild w path ≡ false
unfolding fits_wild
fits_wild-false w path u =
    rw (u, fits_wild)
      (and_false (leb (length w.path) (length path))
        (leb (length path) (length w.path) || starts b'/' (drop (length w.path) path)))
  where
    and_false : (p q : Bool) → (p && false && q) ≡ false
    and_false true q = refl
    and_false false q = refl

pub not_first :
    (c : ℕ) (kids : Nodes) (t : NodeType)
    → is_param t ≡ false
    → (c == b'/' && has_one_child kids && is_param t) ≡ false
not_first c kids t e = rw e (and_false (c == b'/') (has_one_child kids))
  where
    and_false : (p q : Bool) → (p && q && false) ≡ false
    and_false true true = refl
    and_false true false = refl
    and_false false q = refl

pub IsStatic-head : (c : ℕ) (rest : Bytes) → IsStatic (c ∷ rest) → is_wildcard c ≡ false
unfolding IsStatic
IsStatic-head c rest h = h.1

pub longer : (s : Bytes) (c : ℕ) (rest : Bytes) → ltb (length s) (length (s ++ c ∷ rest)) ≡ true
longer s c rest =
    longer_sum (length s) (length rest) (length (s ++ c ∷ rest)) (length-append s (c ∷ rest))
  where
    longer_sum : (m n k : ℕ) → k ≡ m + suc n → ltb m k ≡ true
    longer_sum m n k e = ground arith
