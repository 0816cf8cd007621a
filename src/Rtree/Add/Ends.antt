-- ===== src/Rtree/Add/Ends.antt =====
-- From the bytes behind the text of a node to the whole path, for `pgrest_rtree_add` of
-- src/pg_rest_rtree.c.
use pg_rest.Base.{
  ℕ, ◌≡◌, refl, sym, ap, ◌∙◌, subst, Bool, Option, List, [], ◌∷◌, ◌++◌, length, drop-append_self,
  append-nil,
}
use pg_rest.Text.{Bytes}
use pg_rest.Rtree.{Info, Node, node, Nodes}
use pg_rest.Rtree.Find.{Param, matched, find}
use pg_rest.Rtree.Add.{Added, added, denied, overran, out_of_rounds, misused}
use pg_rest.Rtree.Add.Sound.{
  Misuses, MisusesRest, behind, IsBlocked, at, Stops, Adds, AddsRest, Ends,
}
use pg_rest.Rtree.Add.Static.{longer, strncmp_eq-prefix, find-end}

-- A node that holds the rest of a route finds the route.
pub find-Ends :
    (max : ℕ) (i : Info) (kids : Nodes) (rest : Bytes) (h : Option ℕ) (ps : List Param)
    → Ends i kids rest h
    → find max (node i kids) (i.path ++ rest) ps ≡ matched h ps
unfolding Ends find
find-Ends max i kids [] h ps e =
    subst (λ z. find max (node i kids) z ps ≡ matched h ps) (sym (append-nil i.path))
      (find-end max i kids ps ∙ ap (λ o. matched o ps) e)
find-Ends max i kids (c ∷ rest) h ps e =
    simp
      (
        longer i.path c rest,
        strncmp_eq-prefix i.path (c ∷ rest),
        e.0,
        drop-append_self (length i.path) i.path (c ∷ rest) refl,
        find,
      )
      (e.1 max ps)

-- An unchanged node.
pub AddsRest-Adds :
    (room : Bool) (i : Info) (kids : Nodes) (rest path : Bytes) (h : Option ℕ) (a : Added)
    → i.path ++ rest ≡ path
    → AddsRest room i kids rest h a
    → Adds room (node i kids) path h a
unfolding AddsRest Adds
AddsRest-Adds room i kids rest path h (added (node o news)) e (s, p, d) = (
  s,
  λ max ps.
      subst (λ z. find max (node o news) z ps ≡ matched h ps) (ap (λ z. z ++ rest) p ∙ e)
        (find-Ends max o news rest h ps d),
)
AddsRest-Adds room i kids rest path h (denied n) e (s, d) =
    (s, subst (λ z. IsBlocked (node i kids) z) e (at i kids rest d))
AddsRest-Adds room i kids rest path h overran e d = d
AddsRest-Adds room i kids rest path h out_of_rounds e d = d
AddsRest-Adds room i kids rest path h misused e d =
    subst (λ z. Misuses room (node i kids) z) e (behind room i kids rest d)

-- A node that was split, and does not stop the route.
pub split-Adds :
    (room : Bool) (old : Node) (i : Info) (kids : Nodes) (rest path : Bytes) (h : Option ℕ)
    (a : Added)
    → i.path ++ rest ≡ path
    → (Stops i kids rest → ⊥)
    → (MisusesRest room i kids rest → Misuses room old path)
    → AddsRest room i kids rest h a
    → Adds room old path h a
unfolding AddsRest Adds
split-Adds room old i kids rest path h (added n) e never bad d =
    AddsRest-Adds room i kids rest path h (added n) e d
split-Adds room old i kids rest path h (denied n) e never bad d = absurd (never d.1)
split-Adds room old i kids rest path h overran e never bad d = d
split-Adds room old i kids rest path h out_of_rounds e never bad d = d
split-Adds room old i kids rest path h misused e never bad d = bad d
