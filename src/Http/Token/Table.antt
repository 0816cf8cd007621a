-- ===== src/Http/Token/Table.antt =====
-- The search of src/pg_rest_http_header.c against the table that it searches.
use pg_rest.Base.{
  ℕ, zero, suc, ◌+◌, ==_iff, ◌-◌, ◌≡◌, ◌↔◌, refl, sym, ap, ◌∙◌, subst, Bool, true, false, ◌&&◌,
  Option, none, some, List, [], ◌∷◌, ◌++◌, ◌==◌, arith, inl, inr, Bool-cases, length, get_or,
  get_elem?, take, map,
}
use mathlib.Core.Bool.{false≢true}
use mathlib.Core.Option.{some-injective, none-ne-some}
use pg_rest.Text.{Bytes}
use pg_rest.Inet.{same_bytes}
use pg_rest.Inet.Addr.{same_bytes_iff}
use pg_rest.Http.Token.{Token, token, token_rows, header_tokens}
use pg_rest.Http.Token.Find.{match_prefix, match_last, match_length, token_cases, find_token}

-- The names of the table in order.
unfoldable pub names : List Bytes
unfolding header_tokens token token_rows
names = map (λ (t : Token ⊥). t.elem) header_tokens

same_option : Option Bytes → Bytes → Bool
same_option none name = false
same_option (some a) name = same_bytes a name

prefixes_good : ℕ → ℕ → List (Bytes × ℕ) → Bool
prefixes_good len c [] = true
prefixes_good len c ((prefix, k) ∷ cases) =
    (suc (length prefix) == len)
    && same_option (get_elem? names k) (prefix ++ c ∷ [])
    && prefixes_good len c cases

lasts_good : ℕ → List (ℕ × List (Bytes × ℕ)) → Bool
lasts_good len [] = true
lasts_good len ((c, prefixes) ∷ cases) = prefixes_good len c prefixes && lasts_good len cases

cases_good : List (ℕ × List (ℕ × List (Bytes × ℕ))) → Bool
cases_good [] = true
cases_good ((len, lasts) ∷ cases) = lasts_good len lasts && cases_good cases

token_cases-good : cases_good token_cases ≡ true
unfolding token_cases cases_good lasts_good prefixes_good same_option names header_tokens token
    token_rows same_bytes
token_cases-good = refl

same_index : Option ℕ → ℕ → Bool
same_index none k = false
same_index (some j) k = j == k

finds_from : ℕ → List Bytes → Bool
finds_from k [] = true
finds_from k (name ∷ rest) = same_index (find_token name) k && finds_from (suc k) rest

names-found : finds_from 0 names ≡ true
unfolding finds_from same_index names header_tokens token token_rows find_token token_cases
    match_length match_last match_prefix same_bytes
names-found = refl

and_left : (a b : Bool) → (a && b) ≡ true → a ≡ true
and_left true b e = refl
and_left false b e = e

and_right : (a b : Bool) → (a && b) ≡ true → b ≡ true
and_right true b e = e
and_right false b e = ground arith

last_byte :
    (n : ℕ) (name : Bytes) → length name ≡ suc n → take n name ++ get_or name n 0 ∷ [] ≡ name
last_byte n [] e = absurd (omega (arith, e))
last_byte zero (x ∷ []) e = refl
last_byte zero (x ∷ y ∷ name) e = absurd (omega (arith, e))
last_byte (suc n) (x ∷ name) e = ap (λ z. x ∷ z) (last_byte n name (omega (arith, e)))

same_option-eq : (o : Option Bytes) (a : Bytes) → same_option o a ≡ true → o ≡ some a
unfolding same_option
same_option-eq none a e = absurd (false≢true e)
same_option-eq (some b) a e = ap some ((same_bytes_iff b a).0 e)

-- The name at hand, put together from the bytes that a case compares.
case_name :
    (name prefix : Bytes) (c : ℕ)
    → length name ≡ suc (length prefix)
    → get_or name (length prefix) 0 ≡ c
    → take (length prefix) name ≡ prefix
    → prefix ++ c ∷ [] ≡ name
case_name name prefix c l last front =
    sym (ap (λ z. z ++ c ∷ []) front)
    ∙ sym (ap (λ z. take (length prefix) name ++ z ∷ []) last)
    ∙ last_byte (length prefix) name l

match_prefix_sound :
    (name : Bytes) (c k : ℕ) (cases : List (Bytes × ℕ))
    → prefixes_good (length name) c cases ≡ true
    → get_or name (length name - 1) 0 ≡ c
    → match_prefix name cases ≡ some k
    → get_elem? names k ≡ some name
unfolding match_prefix prefixes_good
match_prefix_sound name c k [] good last e = absurd (none-ne-some k e)
match_prefix_sound name c k ((prefix, j) ∷ cases) good last e =
    elim (Bool-cases (same_bytes (take (length prefix) name) prefix)) [
      | inl s ↦
          let len = len_eq (and_left _ _ (and_left _ _ good)) in
          subst (λ i. get_elem? names i ≡ some name) (some-injective j k (rw s at e))
            (same_option-eq (get_elem? names j) (prefix ++ c ∷ [])
                (and_right _ _ (and_left _ _ good))
              ∙ ap some (
                  case_name name prefix c (sym len)
                    (ap (λ i. get_or name i 0) (omega (arith, len)) ∙ last)
                    ((same_bytes_iff (take (length prefix) name) prefix).0 s)))
      | inr s ↦ match_prefix_sound name c k cases (and_right _ _ good) last (rw s at e)
    ]
  where
    len_eq : (suc (length prefix) == length name) ≡ true → suc (length prefix) ≡ length name
    len_eq h = ground arith

match_last_sound :
    (name : Bytes) (k : ℕ) (cases : List (ℕ × List (Bytes × ℕ)))
    → lasts_good (length name) cases ≡ true
    → match_last name (get_or name (length name - 1) 0) cases ≡ some k
    → get_elem? names k ≡ some name
unfolding match_last lasts_good
match_last_sound name k [] good e = absurd (none-ne-some k e)
match_last_sound name k ((c, prefixes) ∷ cases) good e =
    elim (Bool-cases (get_or name (length name - 1) 0 == c)) [
      | inl s ↦
          match_prefix_sound name c k prefixes (and_left _ _ good)
            ((==_iff (get_or name (length name - 1) 0) c).0 s) (rw s at e)
      | inr s ↦ match_last_sound name k cases (and_right _ _ good) (rw s at e)
    ]

match_length_sound :
    (name : Bytes) (k : ℕ) (cases : List (ℕ × List (ℕ × List (Bytes × ℕ))))
    → cases_good cases ≡ true
    → match_length name cases ≡ some k
    → get_elem? names k ≡ some name
unfolding match_length cases_good
match_length_sound name k [] good e = absurd (none-ne-some k e)
match_length_sound name k ((len, lasts) ∷ cases) good e = elim (Bool-cases (length name == len)) [
  | inl s ↦
      let l = sym ((==_iff (length name) len).0 s) in
      match_last_sound name k lasts (subst (λ i. lasts_good i lasts ≡ true) l (and_left _ _ good))
        (ap (λ i. match_last name (get_or name (i - 1) 0) lasts) (sym l) ∙ rw s at e)
  | inr s ↦ match_length_sound name k cases (and_right _ _ good) (rw s at e)
]

same_index-eq : (o : Option ℕ) (k : ℕ) → same_index o k ≡ true → o ≡ some k
unfolding same_index
same_index-eq none k e = absurd (false≢true e)
same_index-eq (some j) k e = ap some ((==_iff j k).0 e)

finds_from_sound :
    (rest : List Bytes) (j k : ℕ) (name : Bytes)
    → finds_from j rest ≡ true
    → get_elem? rest k ≡ some name
    → find_token name ≡ some (j + k)
unfolding finds_from
finds_from_sound [] j k name good e = absurd (none-ne-some name e)
finds_from_sound (x ∷ rest) j zero name good e =
    subst (λ z. find_token z ≡ some (j + 0)) (some-injective x name e)
      (same_index-eq (find_token x) j (and_left _ _ good) ∙ ap some (omega arith))
finds_from_sound (x ∷ rest) j (suc k) name good e =
    finds_from_sound rest (suc j) k name (and_right _ _ good) e ∙ ap some (omega arith)

-- The nested switches find a name at an index exactly when the table has that name at that index,
-- for every text: each of the 62 names is found, as itself, and nothing else is.
pub find_token-names :
    (name : Bytes) (k : ℕ) → (find_token name ≡ some k) ↔ (get_elem? names k ≡ some name)
unfolding find_token
find_token-names name k = (
  (λ e. match_length_sound name k token_cases token_cases-good e),
  (λ e. finds_from_sound names 0 k name names-found e ∙ ap some (omega arith)),
)

rows-handler :
    {Handler : Type 0} (rows : List (Bytes × ℕ × Bool × Bool × Bool)) (k : ℕ) (t : Token Handler)
    → get_elem? (map token rows) k ≡ some t
    → t.handler ≡ none
unfolding token
rows-handler [] k t e = absurd (none-ne-some t e)
rows-handler {Handler} (row ∷ rows) zero t e =
    sym (ap (λ (z : Token Handler). z.handler) (some-injective (token row) t e))
rows-handler (row ∷ rows) (suc k) t e = rows-handler rows k t e

-- No entry has a handler.
pub header_tokens-handler :
    {Handler : Type 0} (t : Token Handler) (k : ℕ)
    → get_elem? (header_tokens {Handler = Handler}) k ≡ some t
    → t.handler ≡ none
unfolding header_tokens
header_tokens-handler t k e = rows-handler token_rows k t e
