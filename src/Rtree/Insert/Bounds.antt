-- ===== src/Rtree/Insert/Bounds.antt =====
-- The reads of `pgrest_rtree_child_insert` of src/pg_rest_rtree.c.
use pg_rest.Base.{
  ℕ, zero, suc, ◌+◌, ◌-◌, ◌≤◌, ◌<◌, ◌≡◌, ◌≢◌, refl, ap, ◌⊎◌, inl, inr, Bool, true, false, ◌||◌, not,
  Bool-cases, Option, Option-cases, some, [], ◌∷◌, arith, ltb, ◌==◌, if◌then◌else◌, length,
  get_elem?, drop,
}
use pg_rest.Text.{Bytes, count_wildcards}
use pg_rest.Rtree.{Info, Node, node, Nodes, nil}
use pg_rest.Rtree.Insert.{
  Inserted, inserted, refused, overrun, is_wildcard, name_length, has_children, around,
  ends_in_slash, insert_leaf, insert_catchall, insert_loop, child_insert, slice, param_info,
  static_info,
}

-- Nothing outside the text was read.
unfoldable pub InBounds : Inserted → Type 0
InBounds (inserted n) = Unit {0}
InBounds (refused n) = Unit {0}
InBounds overrun = ⊥

around-InBounds : (i : Info) (r : Inserted) → InBounds r → InBounds (around i r)
unfolding InBounds around
around-InBounds i (inserted n) h = tt
around-InBounds i (refused n) h = tt
around-InBounds i overrun h = elim h [ ]

inserted_lem : (n : Node) → InBounds (inserted n)
unfolding InBounds
inserted_lem n = tt

refused_lem : (n : Node) → InBounds (refused n)
unfolding InBounds
refused_lem n = tt

either : (b : Bool) (x y : Inserted) → InBounds x → InBounds y → InBounds (if b then x else y)
either true x y h k = h
either false x y h k = k

-- A star does not stand at the begin of the path.
abbrev StarInside : ℕ → Bytes → Type 0
StarInside i [] = Unit {0}
StarInside i (x ∷ rest) = (0 < i) ⊎ (x ≢ b'*')

later : (i : ℕ) (rest : Bytes) → StarInside (i + 1) rest
later i [] = tt
later i (x ∷ rest) = inl (omega arith)

get_inside : (s : Bytes) (i : ℕ) → i < length s → (c : ℕ) × (get_elem? s i ≡ some c)
get_inside [] i le = absurd (omega (arith, le))
get_inside (x ∷ s) zero le = (x, refl)
get_inside (x ∷ s) (suc i) le = get_inside s i (omega arith)

module _ (path : Bytes) (before handler : Option ℕ) where
  leaf-InBounds :
      (offset : ℕ) (cur : Info) (kids : Nodes)
      → InBounds (insert_leaf path before handler offset cur kids)
  unfolding insert_leaf
  leaf-InBounds offset cur kids =
      inserted_lem (node (record cur { path = drop offset path; handler = handler }) kids)

  catchall-InBounds :
      (num i end offset : ℕ) (cur : Info) (kids : Nodes)
      → i < length path
      → InBounds (insert_catchall path before handler num (suc i) end offset cur kids)
  unfolding insert_catchall InBounds
  catchall-InBounds num i end offset cur kids le =
      let (c, e) = get_inside path i le in
      rw (e, insert_catchall)
        (either (not (end == length path) || ltb 1 num) (refused (node cur kids)) _ tt (
          either (ends_in_slash cur.path) (refused (node cur kids)) _ tt
            (either (not (c == b'/')) (refused (node cur kids)) _ tt (rw (not_first i) tt))))
    where
      not_first : (i : ℕ) → (suc i == 0) ≡ false
      not_first i = ground arith

  loop-InBounds :
      (rest : Bytes) (num i offset : ℕ) (cur : Info) (kids : Nodes)
      → num ≤ count_wildcards rest
      → i + length rest ≤ length path
      → StarInside i rest
      → InBounds (insert_loop path before handler rest num i offset cur kids)
  unfolding insert_loop count_wildcards is_wildcard
  loop-InBounds [] num i offset cur kids n le s =
      rw (none_left n, insert_loop) (leaf-InBounds offset cur kids)
    where
      none_left : num ≤ 0 → (num == 0) ≡ true
      none_left n = ground arith
  loop-InBounds (x ∷ rest) num i offset cur kids n le s = elim (Bool-cases (num == 0)) [
    | inl e ↦ rw (e, insert_loop) (leaf-InBounds offset cur kids)
    | inr e ↦ elim (Bool-cases (x == b':' || x == b'*')) [
      | inr w ↦
          rw (e, w, insert_loop)
            (loop-InBounds rest num (i + 1) offset cur kids (fewer w) (omega (arith, le))
              (later i rest))
      | inl w ↦ elim (Option-cases (name_length rest)) [
        | inl m ↦ rw (e, w, m, insert_loop) (refused_lem (node cur kids))
        | inr (name, m) ↦ elim (Bool-cases (has_children kids || name == 0)) [
          | inl k ↦ rw (e, w, m, k, insert_loop) (refused_lem (node cur kids))
          | inr k ↦ elim (Bool-cases (x == b':')) [
            | inr q ↦ rw (e, w, m, k, q, insert_loop) (star i le (starts_inside w q) (i + 1 + name))
            | inl q ↦ elim (Bool-cases (ltb (i + 1 + name) (length path))) [
              | inl t ↦
                  rw (e, w, m, k, q, t, insert_loop)
                    (around-InBounds
                      (record cur {
                        path = if ltb 0 i then slice path offset i else cur.path;
                        wild_child = true;
                        capacity = 2;
                      })
                      _
                      (around-InBounds
                        (record (param_info num) {
                          path = slice path (if ltb 0 i then i else offset) (i + 1 + name);
                          capacity = 2;
                        })
                        _
                        (loop-InBounds rest (num - 1) (i + 1) (i + 1 + name) (static_info (num - 1))
                          nil (one_less w) (omega (arith, le)) (later i rest))))
              | inr t ↦
                  rw (e, w, m, k, q, t, insert_loop)
                    (around-InBounds
                      (record cur {
                        path = if ltb 0 i then slice path offset i else cur.path;
                        wild_child = true;
                        capacity = 2;
                      })
                      _
                      (loop-InBounds rest (num - 1) (i + 1) (if ltb 0 i then i else offset)
                        (param_info num) nil (one_less w) (omega (arith, le)) (later i rest)))
            ]
          ]
        ]
      ]
    ]
  ]
    where
      fewer : (x == b':' || x == b'*') ≡ false → num ≤ count_wildcards rest
      fewer w = ground (arith, n, w)

      one_less : (x == b':' || x == b'*') ≡ true → num - 1 ≤ count_wildcards rest
      one_less w = ground (arith, n, w)

      starts_inside : (x == b':' || x == b'*') ≡ true → (x == b':') ≡ false → 0 < i
      starts_inside w q = elim s [ inl h ↦ h | inr h ↦ absurd (h (ground arith)) ]

      star :
          (i : ℕ)
          → i + suc (length rest) ≤ length path
          → 0 < i
          → (end : ℕ) → InBounds (insert_catchall path before handler num i end offset cur kids)
      star zero le h end = absurd (omega (arith, h))
      star (suc i) le h end = catchall-InBounds num i end offset cur kids (omega (arith, le))

-- A path that does not begin with a star is inserted without a read outside of it, if the number of
-- parameters that is given is at most that of its wildcards.
pub child_insert-InBounds :
    (n : Node) (num_params : ℕ) (path : Bytes) (before handler : Option ℕ)
    → num_params ≤ count_wildcards path
    → get_elem? path 0 ≢ some b'*'
    → InBounds (child_insert n num_params path before handler)
unfolding child_insert
child_insert-InBounds (node cur kids) num_params path before handler n no_star =
    loop-InBounds path before handler path num_params 0 0 cur kids n (omega arith)
      (inside path no_star)
  where
    inside : (p : Bytes) → get_elem? p 0 ≢ some b'*' → StarInside 0 p
    inside [] h = tt
    inside (x ∷ p) h = inr (λ e. h (ap some e))
