-- ===== src/Http/Body/Tests.antt =====
-- Runs of the body parsers of src/pg_rest_http_v1.c.
use pg_rest.Base.{ℕ, true, false, ◌≡◌, inl, refl, [], ◌∷◌, ◌++◌, List, some, none, arith}
use pg_rest.Base.Int.{pos, negsuc}
use pg_rest.Text.{Bytes}
use pg_rest.Buffer.{Buffer}
use pg_rest.Buffer.Contents.{IsValid}
use pg_rest.Http.Body.{Request, Decoded, complete, body_chunked, is_unset, entity_too_large}
use pg_rest.Http.Body.Once.{arrived}
use pg_rest.Http.Body.Length.{deliver, Delivered, bytes_of, deliver-Delivered}
use pg_rest.Http.Body.Whole.{Whole, body_chunked-Whole}
use pg_rest.Http.Body.Chunked.{EmptyIfOk, body_chunked-EmptyIfOk}

-- Two bytes of the head and one of the body have arrived, of a body of three.
abbrev partly : Buffer
partly = record {
  capacity = 8;
  size = 3;
  pos = 0;
  fd = none;
  start = 1 ∷ 2 ∷ 3 ∷ 0 ∷ 0 ∷ 0 ∷ 0 ∷ 0 ∷ [];
}

partly-IsValid : IsValid partly
partly-IsValid = record { inside = omega arith; block = refl; in_range = omega arith }

-- A decoder without state.
abbrev request : Request ℕ
request = record {
  chunked = false;
  content_length_n = pos 3;
  request_length = 2;
  rest = negsuc 0;
  split = false;
  decoder = 0;
  decode_length = 0;
  entity_base = 0;
  entity_len = 0;
  max_body_size = 100;
  finalized = none;
}

abbrev pieces : List Bytes
pieces = (4 ∷ []) ∷ (5 ∷ 6 ∷ []) ∷ []

deliver-Delivered_example :
    Delivered 3 (arrived request partly ++ bytes_of pieces) (deliver request partly pieces)
unfolding bytes_of
deliver-Delivered_example =
    deliver-Delivered 3 request partly pieces (refl, inl refl) partly-IsValid (omega arith)
      (omega arith) (omega arith) (omega arith)

-- A decoder that takes everything as the data of a complete body.
abbrev all_of_it : ℕ → Bytes → Decoded ℕ
all_of_it d bytes = complete d bytes []

abbrev split_request : Request ℕ
split_request = record request { chunked = true; split = true }

-- One byte of a body that may have a hundred.
split_run :
    (body_chunked true 0 all_of_it split_request (record partly { size = 1 })).1.finalized
    ≡ some entity_too_large
unfolding body_chunked is_unset
split_run = refl

body_chunked-EmptyIfOk_example :
    EmptyIfOk (body_chunked true 0 all_of_it split_request (record partly { size = 1 }))
body_chunked-EmptyIfOk_example =
    body_chunked-EmptyIfOk true 0 all_of_it split_request (record partly { size = 1 }) refl

-- The decoder is set up and has yet to see the one byte behind the head.
abbrev running : Request ℕ
running = record request { chunked = true; rest = pos 3; decode_length = 2 }

body_chunked-Whole_example :
    Whole running partly (3 ∷ []) [] (body_chunked true 0 all_of_it running partly)
unfolding is_unset
body_chunked-Whole_example =
    body_chunked-Whole true 0 all_of_it running partly 0 (3 ∷ []) [] partly-IsValid refl refl
      (omega arith) (omega arith) refl (omega arith) (omega arith)
