-- ===== src/Http/Token/Find.antt =====
-- `pgrest_http_header_find_token` of src/pg_rest_http_header.c: its nested switches.
use pg_rest.Base.{
  ℕ, Option, none, some, List, [], ◌∷◌, ◌==◌, if◌then◌else◌, length, get_or, take, ◌-◌,
}
use pg_rest.Text.{Bytes, bytes}
use pg_rest.Inet.{same_bytes}

-- The cases of one last byte: `memcmp` with the bytes before it, and the token.
unfoldable pub match_prefix : Bytes → List (Bytes × ℕ) → Option ℕ
match_prefix name [] = none
match_prefix name ((prefix, k) ∷ cases) =
    if same_bytes (take (length prefix) name) prefix then some k else match_prefix name cases

-- The cases of one length: the last byte.
unfoldable pub match_last : Bytes → ℕ → List (ℕ × List (Bytes × ℕ)) → Option ℕ
unfolding match_prefix
match_last name last [] = none
match_last name last ((c, prefixes) ∷ cases) =
    if last == c then match_prefix name prefixes else match_last name last cases

-- The outer `switch`: the length.
unfoldable pub match_length : Bytes → List (ℕ × List (ℕ × List (Bytes × ℕ))) → Option ℕ
unfolding match_last
match_length name [] = none
match_length name ((len, lasts) ∷ cases) =
    if length name == len
    then match_last name (get_or name (len - 1) 0) lasts
    else match_length name cases

-- The cases of `pgrest_http_header_find_token`, as it nests them.
unfoldable pub token_cases : List (ℕ × List (ℕ × List (Bytes × ℕ)))
token_cases =
    (2, (b'e', (bytes "t", 51) ∷ []) ∷ [])
    ∷ (3, (b'a', (bytes "vi", 56) ∷ []) ∷ (b'e', (bytes "ag", 11) ∷ []) ∷ [])
    ∷ (
      4,
      (b'e', (bytes "dat", 25) ∷ [])
          ∷ (b'g', (bytes "eta", 26) ∷ [])
          ∷ (b'k', (bytes "lin", 39) ∷ [])
          ∷ (b'm', (bytes "fro", 29) ∷ [])
          ∷ (b't', (bytes "hos", 30) ∷ [])
          ∷ (b'y', (bytes "var", 55) ∷ [])
          ∷ [],
    )
    ∷ (
      5,
      (b'e', (bytes "rang", 44) ∷ [])
          ∷ (b'h', (bytes ":pat", 2) ∷ [])
          ∷ (b'w', (bytes "allo", 12) ∷ [])
          ∷ [],
    )
    ∷ (
      6,
      (b'e', (bytes "cooki", 24) ∷ [])
          ∷ (b'r', (bytes "serve", 48) ∷ [])
          ∷ (b't', (bytes "accep", 5) ∷ (bytes "expec", 27) ∷ [])
          ∷ [],
    )
    ∷ (
      7,
      (b'd', (bytes ":metho", 1) ∷ [])
          ∷ (b'e', (bytes ":schem", 3) ∷ (bytes "upgrad", 53) ∷ [])
          ∷ (b'h', (bytes "refres", 46) ∷ [])
          ∷ (b'r', (bytes "refere", 45) ∷ [])
          ∷ (b's', (bytes ":statu", 4) ∷ (bytes "expire", 28) ∷ [])
          ∷ [],
    )
    ∷ (
      8,
      (b'e', (bytes "if-rang", 35) ∷ [])
          ∷ (b'h', (bytes "if-matc", 32) ∷ [])
          ∷ (b'n', (bytes "locatio", 40) ∷ [])
          ∷ [],
    )
    ∷ (9, (b'c', (bytes "x-traffi", 61) ∷ []) ∷ [])
    ∷ (
      10,
      (b'e', (bytes "keep-aliv", 37) ∷ (bytes "set-cooki", 49) ∷ [])
          ∷ (b'n', (bytes "connectio", 16) ∷ [])
          ∷ (b't', (bytes "user-agen", 54) ∷ [])
          ∷ (b'y', (bytes ":authorit", 0) ∷ [])
          ∷ [],
    )
    ∷ (11, (b'r', (bytes "retry-afte", 47) ∷ []) ∷ [])
    ∷ (
      12,
      (b'e', (bytes "content-typ", 23) ∷ [])
          ∷ (b's', (bytes "max-forward", 41) ∷ [])
          ∷ (b't', (bytes "cache-diges", 15) ∷ [])
          ∷ [],
    )
    ∷ (
      13,
      (b'd', (bytes "last-modifie", 38) ∷ [])
          ∷ (b'e', (bytes "content-rang", 22) ∷ [])
          ∷ (b'h', (bytes "if-none-matc", 34) ∷ [])
          ∷ (b'l', (bytes "cache-contro", 14) ∷ (bytes "x-reproxy-ur", 60) ∷ [])
          ∷ (b'n', (bytes "authorizatio", 13) ∷ [])
          ∷ (b's', (bytes "accept-range", 9) ∷ [])
          ∷ [],
    )
    ∷ (
      14,
      (b'h', (bytes "content-lengt", 20) ∷ [])
          ∷ (b's', (bytes "http2-setting", 31) ∷ [])
          ∷ (b't', (bytes "accept-charse", 6) ∷ [])
          ∷ [],
    )
    ∷ (
      15,
      (b'e', (bytes "accept-languag", 8) ∷ [])
          ∷ (b'g', (bytes "accept-encodin", 7) ∷ [])
          ∷ (b'r', (bytes "x-forwarded-fo", 59) ∷ [])
          ∷ (b't', (bytes "x-compress-hin", 58) ∷ [])
          ∷ [],
    )
    ∷ (
      16,
      (b'e', (bytes "content-languag", 19) ∷ (bytes "www-authenticat", 57) ∷ [])
          ∷ (b'g', (bytes "content-encodin", 18) ∷ [])
          ∷ (b'n', (bytes "content-locatio", 21) ∷ [])
          ∷ [],
    )
    ∷ (
      17,
      (b'e', (bytes "if-modified-sinc", 33) ∷ [])
          ∷ (b'g', (bytes "transfer-encodin", 52) ∷ [])
          ∷ [],
    )
    ∷ (18, (b'e', (bytes "proxy-authenticat", 42) ∷ []) ∷ [])
    ∷ (
      19,
      (b'e', (bytes "if-unmodified-sinc", 36) ∷ [])
          ∷ (b'n', (bytes "content-dispositio", 17) ∷ (bytes "proxy-authorizatio", 43) ∷ [])
          ∷ [],
    )
    ∷ (25, (b'y', (bytes "strict-transport-securit", 50) ∷ []) ∷ [])
    ∷ (27, (b'n', (bytes "access-control-allow-origi", 10) ∷ []) ∷ [])
    ∷ []

-- `pgrest_http_header_find_token`, as an index in the table; `none` is NULL.
unfoldable pub find_token : Bytes → Option ℕ
unfolding match_length token_cases
find_token name = match_length name token_cases
