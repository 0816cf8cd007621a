-- ===== src/Rtree/Find/Route.antt =====
-- The routes that a tree of src/pg_rest_rtree.c spells, and how a route reads a path.
use pg_rest.Base.{
  ℕ, zero, suc, ◌≡◌, refl, ap, ap₂, sym, ◌∙◌, subst, true, false, ◌&&◌, Option, List, [], ◌∷◌, ◌++◌,
  ◌==◌, length, take, drop, arith, inl, inr, Bool-cases, append_assoc, append-nil, take-append-drop,
  take_full,
}
use pg_rest.Text.{Bytes}
use pg_rest.Text.Search.{Lacks}
use pg_rest.Rtree.{param_node, catchall_node, Info, Node, node, Nodes, nil, cons, strncmp_eq}
use pg_rest.Rtree.Find.{
  Param, param_of, Lookup, missed, matched, fault, segment, starts, find_index,
}

-- A piece of a route: a text, a parameter `:key`, and a catch-all `/*key`.
pub data Piece : Type 0 where
  lit : Bytes → Piece
  var : Bytes → Piece
  rest : Bytes → Piece

-- The routes that a node spells, alone, as the child of a static node, and as the wildcard child,
-- each with the handler at its end.
mutual
  pub data Route : Node → List Piece → Option ℕ → Type 0 where
    here : (i : Info) (kids : Nodes) → Route (node i kids) (lit i.path ∷ []) i.handler
    static_child :
        (i : Info) (kids : Nodes) (r : List Piece) (h : Option ℕ)
        → i.wild_child ≡ false
        → Child kids r h
        → Route (node i kids) (lit i.path ∷ r) h
    wild_child :
        (i : Info) (kids : Nodes) (r : List Piece) (h : Option ℕ)
        → i.wild_child ≡ true
        → Wild kids r h
        → Route (node i kids) (lit i.path ∷ r) h

  pub data Child : Nodes → List Piece → Option ℕ → Type 0 where
    first :
        (n : Node) (ns : Nodes) (r : List Piece) (h : Option ℕ)
        → Route n r h
        → Child (cons n ns) r h
    later :
        (n : Node) (ns : Nodes) (r : List Piece) (h : Option ℕ)
        → Child ns r h
        → Child (cons n ns) r h

  pub data Wild : Nodes → List Piece → Option ℕ → Type 0 where
    param_end :
        (w : Info) (kids ns : Nodes)
        → w.type ≡ param_node
        → Wild (cons (node w kids) ns) (var (drop 1 w.path) ∷ []) w.handler
    param_on :
        (w : Info) (kids ns : Nodes) (r : List Piece) (h : Option ℕ)
        → w.type ≡ param_node
        → Child kids r h
        → Wild (cons (node w kids) ns) (var (drop 1 w.path) ∷ r) h
    catchall_end :
        (w : Info) (kids ns : Nodes)
        → w.type ≡ catchall_node
        → Wild (cons (node w kids) ns) (rest (drop 2 w.path) ∷ []) w.handler

-- The route reads the path, and binds the parameters: a parameter takes the bytes up to a slash or
-- the end, and a catch-all takes what is left.
pub data Reads : List Piece → Bytes → List Param → Type 0 where
  done : Reads [] [] []
  read_lit :
      (t path : Bytes) (r : List Piece) (ps : List Param)
      → Reads r path ps
      → Reads (lit t ∷ r) (t ++ path) ps
  read_var :
      (key value path : Bytes) (r : List Piece) (ps : List Param)
      → Lacks b'/' value
      → Reads r path ps
      → Reads (var key ∷ r) (value ++ path) (param_of key value ∷ ps)
  read_rest : (key path : Bytes) → Reads (rest key ∷ []) path (param_of key path ∷ [])

-- The result is a route of `R` that reads the path, and its parameters follow `params`.
unfoldable pub Found : (List Piece → Option ℕ → Type 0) → Bytes → List Param → Lookup → Type 0
Found R path params (matched h ps) =
    (r : List Piece) × (qs : List Param) × R r h × Reads r path qs × (ps ≡ params ++ qs)
Found R path params missed = Unit {0}
Found R path params fault = Unit {0}

pub strncmp_eq-take :
    (n : ℕ) (a b : Bytes) → Lacks 0 a → length b ≡ n → strncmp_eq n a b ≡ true → take n a ≡ b
unfolding strncmp_eq
strncmp_eq-take zero a [] h e t = refl
strncmp_eq-take zero a (y ∷ b) h e t = ground arith
strncmp_eq-take (suc n) (x ∷ a) (y ∷ b) h e t = elim (Bool-cases (x == y)) [
  | inl u ↦ elim (Bool-cases (x == 0)) [
    | inl v ↦ absurd (h.0 (ground arith))
    | inr v ↦
        ap₂ (λ p q. p ∷ q) (ground arith) (strncmp_eq-take n a b h.1 (ground arith) (rest_eq u v))
  ]
  | inr u ↦ ground arith
]
  where
    rest_eq : (x == y) ≡ true → (x == 0) ≡ false → strncmp_eq n a b ≡ true
    rest_eq u v = rw (u, v, strncmp_eq) at t
strncmp_eq-take (suc n) [] b h e t = ground arith
strncmp_eq-take (suc n) (x ∷ a) [] h e t = ground arith

pub Lacks-drop : (c n : ℕ) (s : Bytes) → Lacks c s → Lacks c (drop n s)
Lacks-drop c zero s h = h
Lacks-drop c (suc n) [] h = h
Lacks-drop c (suc n) (b ∷ s) h = Lacks-drop c n s h.1

pub segment-Lacks : (s : Bytes) → Lacks b'/' (take (segment s) s)
unfolding segment
segment-Lacks [] = tt
segment-Lacks (b ∷ s) = elim (Bool-cases (b == b'/')) [
  | inl e ↦ rw (e, segment) tt
  | inr e ↦ rw (e, segment) (ground arith, segment-Lacks s)
]

-- A text in front of what a child finds.
pub Found-lit :
    (R Q : List Piece → Option ℕ → Type 0) (t s path : Bytes) (ps : List Param) (res : Lookup)
    → ((r : List Piece) (h : Option ℕ) → R r h → Q (lit t ∷ r) h)
    → t ++ s ≡ path
    → Found R s ps res
    → Found Q path ps res
unfolding Found
Found-lit R Q t s path ps (matched h qs) f e (r, vs, d, w, q) =
    (lit t ∷ r, vs, f r h d, subst (λ z. Reads (lit t ∷ r) z vs) e (read_lit t s r vs w), q)
Found-lit R Q t s path ps missed f e d = tt
Found-lit R Q t s path ps fault f e d = tt

-- A parameter in front of what a child finds.
pub Found-var :
    (R Q : List Piece → Option ℕ → Type 0) (key path : Bytes) (ps : List Param) (res : Lookup)
    → ((r : List Piece) (h : Option ℕ) → R r h → Q (var key ∷ r) h)
    → Found R (drop (segment path) path) (ps ++ param_of key (take (segment path) path) ∷ []) res
    → Found Q path ps res
unfolding Found
Found-var R Q key path ps (matched h qs) f (r, vs, d, w, q) = (
  var key ∷ r,
  param_of key (take (segment path) path) ∷ vs,
  f r h d,
  subst (λ z. Reads (var key ∷ r) z (param_of key (take (segment path) path) ∷ vs))
      (take-append-drop (segment path) path)
      (read_var key (take (segment path) path) (drop (segment path) path) r vs (segment-Lacks path)
        w),
  q ∙ append_assoc ps (param_of key (take (segment path) path) ∷ []) vs,
)
Found-var R Q key path ps missed f d = tt
Found-var R Q key path ps fault f d = tt

pub Found-map :
    (R Q : List Piece → Option ℕ → Type 0) (path : Bytes) (ps : List Param) (res : Lookup)
    → ((r : List Piece) (h : Option ℕ) → R r h → Q r h)
    → Found R path ps res
    → Found Q path ps res
unfolding Found
Found-map R Q path ps (matched h qs) f (r, vs, d, w, q) = (r, vs, f r h d, w, q)
Found-map R Q path ps missed f d = tt
Found-map R Q path ps fault f d = tt

pub whole_text : (t : Bytes) → Reads (lit t ∷ []) t []
whole_text t = subst (λ z. Reads (lit t ∷ []) z []) (append-nil t) (read_lit t [] [] [] done)

pub split_path :
    (t path : Bytes)
    → Lacks 0 path
    → strncmp_eq (length t) path t ≡ true
    → t ++ drop (length t) path ≡ path
split_path t path h s =
    ap (λ z. z ++ drop (length t) path) (sym (strncmp_eq-take (length t) path t h refl s))
    ∙ take-append-drop (length t) path

pub here-Found :
    (i : Info) (kids : Nodes) (path : Bytes) (ps : List Param)
    → Lacks 0 path
    → (length path == length i.path && strncmp_eq (length path) path i.path) ≡ true
    → Found (Route (node i kids)) path ps (matched i.handler ps)
unfolding Found
here-Found i kids path ps h s = (
  lit i.path ∷ [],
  [],
  here i kids,
  subst (λ z. Reads (lit i.path ∷ []) z [])
      (sym (strncmp_eq-take (length path) path i.path h (ground arith) (ground arith))
        ∙ take_full (length path) path (ground arith))
      (whole_text i.path),
  sym (append-nil ps),
)

pub index_nil :
    (max : ℕ) (indices path : Bytes) (ps : List Param)
    → Found (Child nil) path ps (find_index max nil indices path ps)
unfolding find_index Found
index_nil max [] path ps = tt
index_nil max (x ∷ indices) path ps = elim (Bool-cases (starts x path)) [
  | inl e ↦ rw (e, find_index) tt
  | inr e ↦ rw (e, find_index) (index_nil max indices path ps)
]
