-- ===== src/Rtree/Add/Lead.antt =====
-- The child that a byte leads to in the tree of src/pg_rest_rtree.c, and that
-- `pgrest_rtree_child_priority` keeps it for every other byte.
use pg_rest.Base.{
  ℕ, zero, suc, ◌≡◌, refl, sym, ap, ◌∙◌, subst, true, false, Option, Option-cases, none, some, List,
  [], ◌∷◌, ◌++◌, ltb, ◌==◌, if◌then◌else◌, length, arith, inl, inr, Bool-cases,
}
use mathlib.Core.Option.{none-ne-some, some-injective}
use pg_rest.Text.{Bytes}
use pg_rest.Rtree.{Node, Nodes, nil, cons}
use pg_rest.Rtree.Find.{Param, Lookup, missed, matched, fault, starts, find, find_index}
use pg_rest.Rtree.Add.{
  raise, index_of, nth, set_nth, append_child, count_kids, swap_kids, swap_bytes, priority_of,
  move_up, child_priority,
}
use pg_rest.Rtree.Add.Place.{
  zero-ne, suc_inj, index_of-suc, index_of-later, index_of-swap, count-set, count-swap, length-swap,
}
use pg_rest.Rtree.Add.Moves.{Leads, Fits}

IsMatched : Lookup → Type 0
IsMatched (matched h ps) = Unit {0}
IsMatched missed = ⊥
IsMatched fault = ⊥

pub missed-ne : (h : Option ℕ) (qs : List Param) → missed ≡ matched h qs → ⊥
unfolding IsMatched
missed-ne h qs e = subst IsMatched (sym e) tt

fault-ne : (h : Option ℕ) (qs : List Param) → fault ≡ matched h qs → ⊥
unfolding IsMatched
fault-ne h qs e = subst IsMatched (sym e) tt

nil-ne :
    (max : ℕ) (s path : Bytes) (ps : List Param) (h : Option ℕ) (qs : List Param)
    → find_index max nil s path ps ≡ matched h qs
    → ⊥
unfolding find_index
nil-ne max [] path ps h qs e = missed-ne h qs e
nil-ne max (x ∷ s) path ps h qs e = elim (Bool-cases (starts x path)) [
  | inl u ↦ fault-ne h qs (rw (u, find_index) at e)
  | inr u ↦ nil-ne max s path ps h qs (rw (u, find_index) at e)
]

-- The child that `pgrest_rtree_find` goes to for the byte.
unfoldable pub lead : ℕ → Bytes → Nodes → Option Node
lead c [] kids = none
lead c (x ∷ s) nil = none
lead c (x ∷ s) (cons m ns) = let rest = lead c s ns in if c == x then some m else rest

pub lead-Leads :
    (c j : ℕ) (kids : Nodes) (s : Bytes) (n : Node)
    → Leads c (j, kids, s) n
    → lead c s kids ≡ some n
unfolding lead index_of nth
lead-Leads c j kids [] n h = absurd (none-ne-some j h.0)
lead-Leads c j nil (x ∷ s) n h = absurd (none-ne-some n h.1)
lead-Leads c zero (cons m ns) (x ∷ s) n h = elim (Bool-cases (c == x)) [
  | inl u ↦ rw (u, lead) h.1
  | inr u ↦ absurd (index_of-later c x s u h.0)
]
lead-Leads c (suc j) (cons m ns) (x ∷ s) n h =
    let t = index_of-suc c x s j h.0 in rw (t.0, lead) (lead-Leads c j ns s n (t.1, h.1))

pub lead-none : (c : ℕ) (s : Bytes) (kids : Nodes) → index_of c s ≡ none → lead c s kids ≡ none
unfolding lead index_of
lead-none c [] kids e = refl
lead-none c (x ∷ s) nil e = refl
lead-none c (x ∷ s) (cons m ns) e = elim (Bool-cases (c == x)) [
  | inl u ↦ absurd (none-ne-some 0 (sym (rw (u, index_of) at e)))
  | inr u ↦ elim (Option-cases (index_of c s)) [
    | inl v ↦ rw (u, lead) (lead-none c s ns v)
    | inr (k, v) ↦ absurd (none-ne-some (suc k) (sym (rw (u, v, index_of) at e)))
  ]
]

-- A child whose byte is `c`, and another byte `d`.
module _ (c d : ℕ) (other : (d == c) ≡ false) where
  differ : (x : ℕ) → (c == x) ≡ true → (d == x) ≡ false
  differ x u = ground arith

  pub lead-set :
      (j : ℕ) (kids : Nodes) (s : Bytes) (n : Node)
      → index_of c s ≡ some j
      → lead d s (set_nth j n kids) ≡ lead d s kids
  unfolding lead index_of set_nth
  lead-set j kids [] n e = refl
  lead-set j nil (x ∷ s) n e = refl
  lead-set zero (cons m ns) (x ∷ s) n e = elim (Bool-cases (c == x)) [
    | inl u ↦ rw (differ x u, lead) refl
    | inr u ↦ absurd (index_of-later c x s u e)
  ]
  lead-set (suc j) (cons m ns) (x ∷ s) n e = elim (Bool-cases (d == x)) [
    | inl u ↦ rw (u, lead) refl
    | inr u ↦ rw (u, lead) (lead-set j ns s n (index_of-suc c x s j e).1)
  ]

  pub lead-append :
      (kids : Nodes) (s : Bytes) (n : Node)
      → Fits kids s
      → lead d (s ++ c ∷ []) (append_child kids n) ≡ lead d s kids
  unfolding lead append_child count_kids
  lead-append nil [] n f = rw (other, lead) refl
  lead-append (cons m ns) [] n f = absurd (zero-ne (count_kids ns) (sym f))
  lead-append nil (x ∷ s) n f = absurd (zero-ne (length s) f)
  lead-append (cons m ns) (x ∷ s) n f = elim (Bool-cases (d == x)) [
    | inl u ↦ rw (u, lead) refl
    | inr u ↦ rw (u, lead) (lead-append ns s n (suc_inj (count_kids ns) (length s) f))
  ]

  lead-swap :
      (j : ℕ) (kids : Nodes) (s : Bytes)
      → Fits kids s
      → index_of c s ≡ some (suc j)
      → lead d (swap_bytes j s) (swap_kids j kids) ≡ lead d s kids
  unfolding lead index_of swap_kids swap_bytes count_kids
  lead-swap j kids [] f e = absurd (none-ne-some (suc j) e)
  lead-swap j nil (x ∷ s) f e = absurd (zero-ne (length s) f)
  lead-swap zero (cons m ns) (x ∷ []) f e = absurd (none-ne-some 0 (index_of-suc c x [] 0 e).1)
  lead-swap zero (cons m nil) (x ∷ (y ∷ s)) f e =
      absurd (zero-ne (length s) (suc_inj 0 (suc (length s)) f))
  lead-swap zero (cons m (cons n ns)) (x ∷ (y ∷ s)) f e = elim (Bool-cases (c == y)) [
    | inl u ↦ elim (Bool-cases (d == x)) [
      | inl v ↦ rw (differ y u, v, lead) refl
      | inr v ↦ rw (differ y u, v, lead) refl
    ]
    | inr u ↦ absurd (index_of-later c y s u (index_of-suc c x (y ∷ s) 0 e).1)
  ]
  lead-swap (suc j) (cons m ns) (x ∷ s) f e = elim (Bool-cases (d == x)) [
    | inl u ↦ rw (u, lead) refl
    | inr u ↦
        rw (u, lead)
          (lead-swap j ns s (suc_inj (count_kids ns) (length s) f) (index_of-suc c x s (suc j) e).1)
  ]

  lead-move_up :
      (p pos : ℕ) (kids : Nodes) (s : Bytes)
      → Fits kids s
      → index_of c s ≡ some pos
      → lead d (move_up p pos kids s).2 (move_up p pos kids s).1 ≡ lead d s kids
  unfolding move_up
  lead-move_up p zero kids s f e = refl
  lead-move_up p (suc pos) kids s f e = elim (Bool-cases (ltb (priority_of (nth pos kids)) p)) [
    | inl u ↦
        rw (u, move_up)
          (lead-move_up p pos (swap_kids pos kids) (swap_bytes pos s)
              (count-swap pos kids ∙ f ∙ sym (length-swap pos s)) (index_of-swap c pos s e)
            ∙ lead-swap pos kids s f e)
    | inr u ↦ rw (u, move_up) refl
  ]

  -- The child of another byte is the same after the child of `c` moved.
  pub lead-child_priority :
      (pos : ℕ) (kids : Nodes) (s : Bytes)
      → Fits kids s
      → index_of c s ≡ some pos
      → lead d (child_priority pos kids s).2 (child_priority pos kids s).1 ≡ lead d s kids
  unfolding child_priority
  lead-child_priority pos kids s f e = elim (Option-cases (nth pos kids)) [
    | inl u ↦ rw (u, child_priority) refl
    | inr (n, u) ↦
        rw (u, child_priority)
          (lead-move_up (priority_of (some (raise n))) pos (set_nth pos (raise n) kids) s
              (count-set pos (raise n) kids ∙ f) e
            ∙ lead-set pos kids s (raise n) e)
  ]

-- `pgrest_rtree_find` goes to the child that the first byte leads to.
pub find_index-lead :
    (max c : ℕ) (s : Bytes) (kids : Nodes) (path : Bytes) (n : Node) (ps : List Param)
    → lead c s kids ≡ some n
    → find_index max kids s (c ∷ path) ps ≡ find max n (c ∷ path) ps
unfolding lead find_index starts
find_index-lead max c [] kids path n ps e = absurd (none-ne-some n e)
find_index-lead max c (x ∷ s) nil path n ps e = absurd (none-ne-some n e)
find_index-lead max c (x ∷ s) (cons m ns) path n ps e = elim (Bool-cases (c == x)) [
  | inl u ↦
      simp (u, find_index, starts)
        (ap (λ z. find max z (c ∷ path) ps) (some-injective m n (rw (u, lead) at e)))
  | inr u ↦ rw (u, find_index, starts) (find_index-lead max c s ns path n ps (rw (u, lead) at e))
]

-- Where it finds something, the byte leads to a child.
pub find_index-found :
    (max c : ℕ) (s : Bytes) (kids : Nodes) (path : Bytes) (ps qs : List Param) (h : Option ℕ)
    → find_index max kids s (c ∷ path) ps ≡ matched h qs
    → (n : Node) × (lead c s kids ≡ some n)
unfolding lead find_index starts
find_index-found max c [] kids path ps qs h e = absurd (missed-ne h qs e)
find_index-found max c (x ∷ s) nil path ps qs h e = elim (Bool-cases (c == x)) [
  | inl u ↦ absurd (fault-ne h qs (rw (u, find_index, starts) at e))
  | inr u ↦ absurd (nil-ne max s (c ∷ path) ps h qs (rw (u, find_index, starts) at e))
]
find_index-found max c (x ∷ s) (cons m ns) path ps qs h e = elim (Bool-cases (c == x)) [
  | inl u ↦ (m, rw (u, lead) refl)
  | inr u ↦
      let later = find_index-found max c s ns path ps qs h (rw (u, find_index, starts) at e) in
      (later.0, rw (u, lead) later.1)
]
