-- ===== src/Text/Tests.antt =====
-- Runs of the text functions of src/pg_rest_string.c.
use pg_rest.Base.{◌≡◌, refl, [], ◌∷◌, some, none, arith}
use pg_rest.Base.Int.{pos}
use pg_rest.Text.{Bytes, atoof, atoi}
use pg_rest.Text.Decimal.{decimal, atoof-decimal, atoi-decimal}
use pg_rest.Text.Offset.{fits, spelled, atoof-eq-spelled}

abbrev length_text : Bytes
length_text = b'4' ∷ b'0' ∷ b'9' ∷ b'6' ∷ []

abbrev bad_text : Bytes
bad_text = b'1' ∷ b'x' ∷ []

abbrev route_text : Bytes
route_text = b'/' ∷ b':' ∷ b'a' ∷ []

atoof_run : atoof length_text ≡ some 4096
unfolding atoof
atoof_run = refl

atoof_rejects : atoof bad_text ≡ none
unfolding atoof
atoof_rejects = refl

atoof-eq-spelled_example : atoof length_text ≡ fits (spelled length_text)
atoof-eq-spelled_example = atoof-eq-spelled length_text

atoof-decimal_example : atoof (decimal 8080) ≡ some 8080
atoof-decimal_example = atoof-decimal 8080 (omega arith)

atoi-decimal_example : atoi (decimal 8080) ≡ some (pos 8080)
atoi-decimal_example = atoi-decimal 8080 (omega arith)
