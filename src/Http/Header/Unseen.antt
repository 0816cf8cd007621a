-- ===== src/Http/Header/Unseen.antt =====
-- `pgrest_http_process_header` of src/pg_rest_http_v1.c with the table of
-- src/pg_rest_http_header.c, in which no token has a handler.
use pg_rest.Base.{ℕ, ◌≡◌, ◌⊎◌, Bool, false, Option, some}
use pg_rest.Http.Token.{Token}
use pg_rest.Http.Header.{closed, finalized, Req, test_expect, Outcome, passed, refused}

-- The fields that decide about the Host and the length are those of `req`, or memory was short.
abbrev Untouched : Req → Outcome → Type 0
Untouched req (passed r) =
    (r.host ≡ req.host)
    × (r.http_version ≡ req.http_version)
    × (r.content_length ≡ req.content_length)
    × (r.transfer_encoding ≡ req.transfer_encoding)
    × (r.content_length_n ≡ req.content_length_n)
    × (r.chunked ≡ req.chunked)
Untouched req (refused r) = r.ended ≡ some (closed 500)

-- Nothing of the headers is seen: a request that passes has the length and the encoding it began
-- with, and no interim response is sent for it.
unfoldable pub Unseen : Req → ℕ → Outcome → Type 0
Unseen req sent (passed r) =
    (r.content_length_n ≡ req.content_length_n)
    × (r.chunked ≡ req.chunked)
    × (test_expect sent r ≡ (passed r, false))
Unseen req sent (refused r) = (r.ended ≡ some (finalized 405)) ⊎ (r.ended ≡ some (closed 500))
