-- ===== src/Rtree/Add/Blocks.antt =====
-- The tests of src/pg_rest_rtree.c's blocks in the terms of their owners.
use pg_rest.Base.{
  ℕ, ◌<◌, ◌≡◌, ◌↔◌, ◌⊎◌, refl, sym, ap, ap₂, ◌∙◌, inl, inr, Bool, true, false, ◌&&◌, ◌||◌, not, ltb,
  ◌==◌, ==_iff, length, lt→ltb, arith,
}
use mathlib.Core.Bool.{false≢true}
use pg_rest.Rtree.{
  Origin, no_block, palloc_block, libc_block, is_palloc, is_libc, Info, Nodes, nil, cons,
}
use pg_rest.Rtree.Insert.{has_children}
use pg_rest.Rtree.Add.{append_misuses, frees_libc, count_kids}
use pg_rest.Rtree.Add.Sound.{BadAppend}

is_palloc_iff : (o : Origin) → (is_palloc o ≡ true) ↔ (o ≡ palloc_block)
is_palloc_iff o = ((λ e. from o e), λ e. to o e)
  where
    from : (o : Origin) → is_palloc o ≡ true → o ≡ palloc_block
    from palloc_block e = refl
    from libc_block e = absurd (false≢true e)
    from no_block e = absurd (false≢true e)

    to : (o : Origin) → o ≡ palloc_block → is_palloc o ≡ true
    to o e = ap is_palloc e

is_libc_iff : (o : Origin) → (is_libc o ≡ true) ↔ (o ≡ libc_block)
is_libc_iff o = ((λ e. from o e), λ e. ap is_libc e)
  where
    from : (o : Origin) → is_libc o ≡ true → o ≡ libc_block
    from libc_block e = refl
    from palloc_block e = absurd (false≢true e)
    from no_block e = absurd (false≢true e)

has_children-count : (kids : Nodes) → has_children kids ≡ ltb 0 (count_kids kids)
unfolding count_kids
has_children-count nil = refl
has_children-count (cons n ns) = sym (lt→ltb 0 (count_kids (cons n ns)) (omega arith))

pub frees_libc_iff :
    (k : ℕ) (i : Info)
    → (frees_libc k i ≡ true) ↔ ((k < length i.path) × (i.indices_from ≡ libc_block))
unfolding frees_libc
frees_libc_iff k i = (
  (λ e. (ground arith, (is_libc_iff i.indices_from).0 (right (ltb k (length i.path)) _ e))),
  λ u. rw (lt→ltb k (length i.path) u.0, (is_libc_iff i.indices_from).1 u.1) refl,
)
  where
    right : (p q : Bool) → (p && q) ≡ true → q ≡ true
    right true q e = e
    right false q e = absurd (false≢true e)

any_of : (p q r : Bool) → (p || q || r) ≡ true → (p ≡ true) ⊎ ((q ≡ true) ⊎ (r ≡ true))
any_of true q r e = inl refl
any_of false true r e = inr (inl refl)
any_of false false r e = inr (inr e)

second : (p q r : Bool) → q ≡ true → (p || q || r) ≡ true
second true q r e = refl
second false true r e = refl
second false false r e = absurd (false≢true e)

third : (p q r : Bool) → r ≡ true → (p || q || r) ≡ true
third true q r e = refl
third false true r e = refl
third false false r e = e

pub append_misuses_iff :
    (room : Bool) (i : Info) (kids : Nodes)
    → (append_misuses room i kids ≡ true) ↔ BadAppend room i kids
unfolding append_misuses
append_misuses_iff room i kids = ((λ e. from e), λ u. to u)
  where
    full :
        (has_children kids && (count_kids kids == i.capacity)) ≡ true
        → (0 < count_kids kids) × (count_kids kids ≡ i.capacity)
    full e = let f = rw (has_children-count kids) at e in (ground (arith, f), ground (arith, f))

    from : append_misuses room i kids ≡ true → BadAppend room i kids
    from e =
        elim (any_of (not room) (is_palloc i.indices_from)
          (has_children kids && (count_kids kids == i.capacity)) e) [
            | inl a ↦ inl (not_true room a)
            | inr (inl a) ↦ inr (inl ((is_palloc_iff i.indices_from).0 a))
            | inr (inr a) ↦ inr (inr (full a))
          ]
      where
        not_true : (b : Bool) → not b ≡ true → b ≡ false
        not_true false f = refl
        not_true true f = absurd (false≢true f)

    to : BadAppend room i kids → append_misuses room i kids ≡ true
    to (inl a) = rw (a, append_misuses) refl
    to (inr (inl a)) = second (not room) _ _ ((is_palloc_iff i.indices_from).1 a)
    to (inr (inr a)) = third (not room) (is_palloc i.indices_from) _ (
        ap₂ (λ p q. p && q) (has_children-count kids ∙ lt→ltb 0 (count_kids kids) a.0)
          ((==_iff (count_kids kids) i.capacity).1 a.1))
