-- ===== src/Rtree/Add/Place.antt =====
-- Where `pgrest_rtree_child_priority` of src/pg_rest_rtree.c leaves a child and its index byte.
use pg_rest.Base.{
  ℕ, zero, suc, ◌≡◌, refl, sym, ap, ◌∙◌, subst, false, Option-cases, none, some, [], ◌∷◌, ◌++◌,
  ◌==◌, ==_iff, length, arith, inl, inr, Bool-cases,
}
use mathlib.Core.Option.{none-ne-some, some-injective}
use pg_rest.Text.{Bytes}
use pg_rest.Rtree.{Node, Nodes, nil, cons}
use pg_rest.Rtree.Add.{index_of, nth, set_nth, append_child, count_kids, swap_kids, swap_bytes}

-- Every child satisfies `P`.
unfoldable pub AllKids : (Node → Type 0) → Nodes → Type 0
AllKids P nil = Unit {0}
AllKids P (cons n ns) = P n × AllKids P ns

pub zero-ne : (j : ℕ) → 0 ≡ suc j → ⊥
zero-ne j h = ground arith

pub suc_inj : (k j : ℕ) → suc k ≡ suc j → k ≡ j
suc_inj k j h = ground arith

pub index_of-later : (c y : ℕ) (s : Bytes) → (c == y) ≡ false → index_of c (y ∷ s) ≡ some 0 → ⊥
unfolding index_of
index_of-later c y s u e = elim (Option-cases (index_of c s)) [
  | inl v ↦ none-ne-some 0 (rw (u, v, index_of) at e)
  | inr (k, v) ↦ zero-ne k (sym (some-injective (suc k) 0 (rw (u, v, index_of) at e)))
]

pub index_of-suc :
    (c x : ℕ) (s : Bytes) (j : ℕ)
    → index_of c (x ∷ s) ≡ some (suc j)
    → ((c == x) ≡ false) × (index_of c s ≡ some j)
unfolding index_of
index_of-suc c x s j e = elim (Bool-cases (c == x)) [
  | inl u ↦ absurd (zero-ne j (some-injective 0 (suc j) (rw (u, index_of) at e)))
  | inr u ↦ elim (Option-cases (index_of c s)) [
    | inl v ↦ absurd (none-ne-some (suc j) (rw (u, v, index_of) at e))
    | inr (k, v) ↦
        (u, v ∙ ap some (suc_inj k j (some-injective (suc k) (suc j) (rw (u, v, index_of) at e))))
  ]
]

pub index_of-swap :
    (c j : ℕ) (s : Bytes) → index_of c s ≡ some (suc j) → index_of c (swap_bytes j s) ≡ some j
unfolding index_of swap_bytes
index_of-swap c j [] e = absurd (none-ne-some (suc j) e)
index_of-swap c zero (x ∷ []) e = absurd (none-ne-some zero (index_of-suc c x [] zero e).1)
index_of-swap c (suc j) (x ∷ []) e = absurd (none-ne-some (suc j) (index_of-suc c x [] (suc j) e).1)
index_of-swap c zero (x ∷ (y ∷ s)) e = elim (Bool-cases (c == y)) [
  | inl u ↦ rw (u, index_of) refl
  | inr u ↦ absurd (index_of-later c y s u (index_of-suc c x (y ∷ s) zero e).1)
]
index_of-swap c (suc j) (x ∷ (y ∷ s)) e =
    let h = index_of-suc c x (y ∷ s) (suc j) e in
    rw (h.0, index_of-swap c j (y ∷ s) h.1, index_of) refl

pub index_of-append :
    (c : ℕ) (s : Bytes) → index_of c s ≡ none → index_of c (s ++ c ∷ []) ≡ some (length s)
unfolding index_of
index_of-append c [] e = rw ((==_iff c c).1 refl, index_of) refl
index_of-append c (x ∷ s) e = elim (Bool-cases (c == x)) [
  | inl u ↦ absurd (none-ne-some 0 (sym (rw (u, index_of) at e)))
  | inr u ↦ elim (Option-cases (index_of c s)) [
    | inl v ↦ rw (u, index_of-append c s v, index_of) refl
    | inr (k, v) ↦ absurd (none-ne-some (suc k) (sym (rw (u, v, index_of) at e)))
  ]
]

pub nth-swap :
    (j : ℕ) (kids : Nodes) (n : Node)
    → nth (suc j) kids ≡ some n
    → nth j (swap_kids j kids) ≡ some n
unfolding nth swap_kids
nth-swap j nil n e = absurd (none-ne-some n e)
nth-swap zero (cons m nil) n e = absurd (none-ne-some n e)
nth-swap zero (cons m (cons k ns)) n e = e
nth-swap (suc j) (cons m ns) n e = nth-swap j ns n e

pub nth-set :
    (j : ℕ) (kids : Nodes) (n m : Node) → nth j kids ≡ some n → nth j (set_nth j m kids) ≡ some m
unfolding nth set_nth
nth-set j nil n m e = absurd (none-ne-some n e)
nth-set zero (cons k ns) n m e = refl
nth-set (suc j) (cons k ns) n m e = nth-set j ns n m e

pub nth-append : (kids : Nodes) (n : Node) → nth (count_kids kids) (append_child kids n) ≡ some n
unfolding nth append_child count_kids
nth-append nil n = refl
nth-append (cons m ns) n = nth-append ns n

pub count-append :
    (kids : Nodes) (n : Node) → count_kids (append_child kids n) ≡ suc (count_kids kids)
unfolding append_child count_kids
count-append nil n = refl
count-append (cons m ns) n = ap suc (count-append ns n)

pub count-set : (j : ℕ) (n : Node) (kids : Nodes) → count_kids (set_nth j n kids) ≡ count_kids kids
unfolding set_nth count_kids
count-set j n nil = refl
count-set zero n (cons m ns) = refl
count-set (suc j) n (cons m ns) = ap suc (count-set j n ns)

pub count-swap : (j : ℕ) (kids : Nodes) → count_kids (swap_kids j kids) ≡ count_kids kids
unfolding swap_kids count_kids
count-swap zero nil = refl
count-swap zero (cons m nil) = refl
count-swap zero (cons m (cons n ns)) = refl
count-swap (suc j) nil = refl
count-swap (suc j) (cons n ns) = ap suc (count-swap j ns)

pub length-swap : (j : ℕ) (s : Bytes) → length (swap_bytes j s) ≡ length s
unfolding swap_bytes
length-swap zero [] = refl
length-swap zero (x ∷ []) = refl
length-swap zero (x ∷ (y ∷ s)) = refl
length-swap (suc j) [] = refl
length-swap (suc j) (x ∷ s) = ap suc (length-swap j s)

module _ (P : Node → Type 0) where
  pub AllKids-set :
      (j : ℕ) (n : Node) (kids : Nodes) → P n → AllKids P kids → AllKids P (set_nth j n kids)
  unfolding AllKids set_nth
  AllKids-set j n nil p h = tt
  AllKids-set zero n (cons m ns) p h = (p, h.1)
  AllKids-set (suc j) n (cons m ns) p h = (h.0, AllKids-set j n ns p h.1)

  pub AllKids-swap : (j : ℕ) (kids : Nodes) → AllKids P kids → AllKids P (swap_kids j kids)
  unfolding AllKids swap_kids
  AllKids-swap zero nil h = h
  AllKids-swap zero (cons m nil) h = h
  AllKids-swap zero (cons m (cons n ns)) h = (h.1.0, (h.0, h.1.1))
  AllKids-swap (suc j) nil h = h
  AllKids-swap (suc j) (cons n ns) h = (h.0, AllKids-swap j ns h.1)

  pub AllKids-append :
      (kids : Nodes) (n : Node) → AllKids P kids → P n → AllKids P (append_child kids n)
  unfolding AllKids append_child
  AllKids-append nil n h p = (p, tt)
  AllKids-append (cons m ns) n h p = (h.0, AllKids-append ns n h.1 p)

  pub AllKids-nth : (j : ℕ) (kids : Nodes) (n : Node) → AllKids P kids → nth j kids ≡ some n → P n
  unfolding AllKids nth
  AllKids-nth j nil n h e = absurd (none-ne-some n e)
  AllKids-nth zero (cons m ns) n h e = subst P (some-injective m n e) h.0
  AllKids-nth (suc j) (cons m ns) n h e = AllKids-nth j ns n h.1 e
