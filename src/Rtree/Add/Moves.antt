-- ===== src/Rtree/Add/Moves.antt =====
-- What `pgrest_rtree_child_priority` of src/pg_rest_rtree.c keeps: the byte that leads to a child, the
-- numbers of children and index bytes, and what holds of each child.
use pg_rest.Base.{
  ℕ, zero, suc, ◌≡◌, sym, ap, ◌∙◌, List, Option-cases, some, [], ◌∷◌, ltb, ◌==◌, length, inl, inr,
  Bool-cases,
}
use mathlib.Core.Option.{none-ne-some, some-injective}
use pg_rest.Text.{Bytes}
use pg_rest.Rtree.{Node, Nodes, nil, cons}
use pg_rest.Rtree.Find.{Param, starts, find, find_index}
use pg_rest.Rtree.Add.{
  raise, index_of, nth, set_nth, count_kids, swap_kids, swap_bytes, priority_of, Moved, move_up,
  child_priority,
}
use pg_rest.Rtree.Add.Place.{
  AllKids, index_of-suc, index_of-later, index_of-swap, nth-swap, nth-set, count-set, count-swap,
  length-swap, AllKids-set, AllKids-swap, AllKids-nth,
}

-- The byte `c` leads to the child `n`.
abbrev pub Leads : ℕ → Moved → Node → Type 0
Leads c (j, kids, indices) n = (index_of c indices ≡ some j) × (nth j kids ≡ some n)

-- The numbers of children and of index bytes agree.
abbrev pub Fits : Nodes → Bytes → Type 0
Fits kids indices = count_kids kids ≡ length indices

move_up-Leads :
    (p pos : ℕ) (kids : Nodes) (s : Bytes) (c : ℕ) (n : Node)
    → Leads c (pos, kids, s) n
    → Leads c (move_up p pos kids s) n
unfolding move_up
move_up-Leads p zero kids s c n h = h
move_up-Leads p (suc pos) kids s c n h = elim (Bool-cases (ltb (priority_of (nth pos kids)) p)) [
  | inl u ↦
      rw (u, move_up)
        (move_up-Leads p pos (swap_kids pos kids) (swap_bytes pos s) c n
          (index_of-swap c pos s h.0, nth-swap pos kids n h.1))
  | inr u ↦ rw (u, move_up) h
]

-- Swaps keep what holds of the children and of their number.
move_up-keeps :
    (P : Node → Type 0) (p pos : ℕ) (kids : Nodes) (s : Bytes)
    → Fits kids s
    → AllKids P kids
    → Fits (move_up p pos kids s).1 (move_up p pos kids s).2 × AllKids P (move_up p pos kids s).1
unfolding move_up
move_up-keeps P p zero kids s h k = (h, k)
move_up-keeps P p (suc pos) kids s h k = elim (Bool-cases (ltb (priority_of (nth pos kids)) p)) [
  | inl u ↦
      rw (u, move_up)
        (move_up-keeps P p pos (swap_kids pos kids) (swap_bytes pos s)
          (count-swap pos kids ∙ h ∙ sym (length-swap pos s)) (AllKids-swap P pos kids k))
  | inr u ↦ rw (u, move_up) (h, k)
]

pub child_priority-Leads :
    (pos : ℕ) (kids : Nodes) (s : Bytes) (c : ℕ) (n : Node)
    → Leads c (pos, kids, s) n
    → Leads c (child_priority pos kids s) (raise n)
unfolding child_priority
child_priority-Leads pos kids s c n h =
    rw (h.1, child_priority)
      (move_up-Leads (priority_of (some (raise n))) pos (set_nth pos (raise n) kids) s c (raise n)
        (h.0, nth-set pos kids n (raise n) h.1))

pub child_priority-keeps :
    (P : Node → Type 0) (pos : ℕ) (kids : Nodes) (s : Bytes)
    → ((n : Node) → P n → P (raise n))
    → Fits kids s
    → AllKids P kids
    → Fits (child_priority pos kids s).1 (child_priority pos kids s).2
      × AllKids P (child_priority pos kids s).1
unfolding child_priority
child_priority-keeps P pos kids s up h k = elim (Option-cases (nth pos kids)) [
  | inl u ↦ rw (u, child_priority) (h, k)
  | inr (n, u) ↦
      rw (u, child_priority)
        (move_up-keeps P (priority_of (some (raise n))) pos (set_nth pos (raise n) kids) s
          (count-set pos (raise n) kids ∙ h)
          (AllKids-set P pos (raise n) kids (up n (AllKids-nth P pos kids n k u)) k))
]

-- `pgrest_rtree_find` goes to the child that the first byte leads to.
pub find_index-Leads :
    (max c j : ℕ) (kids : Nodes) (s path : Bytes) (n : Node) (ps : List Param)
    → Leads c (j, kids, s) n
    → find_index max kids s (c ∷ path) ps ≡ find max n (c ∷ path) ps
unfolding find_index starts index_of nth
find_index-Leads max c j nil s path n ps h = absurd (none-ne-some n h.1)
find_index-Leads max c j (cons m ns) [] path n ps h = absurd (none-ne-some j h.0)
find_index-Leads max c zero (cons m ns) (x ∷ s) path n ps h = elim (Bool-cases (c == x)) [
  | inl u ↦
      simp (u, find_index, starts) (ap (λ z. find max z (c ∷ path) ps) (some-injective m n h.1))
  | inr u ↦ absurd (index_of-later c x s u h.0)
]
find_index-Leads max c (suc j) (cons m ns) (x ∷ s) path n ps h =
    let t = index_of-suc c x s j h.0 in
    rw (t.0, find_index, starts) (find_index-Leads max c j ns s path n ps (t.1, h.1))
