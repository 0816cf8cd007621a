-- ===== src/Http/Token.antt =====
-- The table of header names of src/pg_rest_http_header.c.
pub mod Find
pub mod Table
mod Tests
use pg_rest.Base.{ℕ, Bool, true, false, Option, none, List, [], ◌∷◌, map}
use pg_rest.Text.{Bytes, bytes}

-- `pgrest_http_header_token_t`, without `offset`, which is 0 in every entry.
pub record Token (Handler : Type 0) : Type 0 where
  pub elem : Bytes
  pub handler : Option Handler
  pub index : ℕ
  pub drop : Bool
  pub reject : Bool
  pub copy : Bool

-- An entry of the table: each has NULL for its handler.
unfoldable pub token : {Handler : Type 0} → Bytes × ℕ × Bool × Bool × Bool → Token Handler
token (elem, index, drop, reject, copy) = record {
  elem = elem;
  handler = none;
  index = index;
  drop = drop;
  reject = reject;
  copy = copy;
}

unfoldable pub token_rows : List (Bytes × ℕ × Bool × Bool × Bool)
token_rows =
    (bytes ":authority", 1, false, false, false)
    ∷ (bytes ":method", 2, false, false, false)
    ∷ (bytes ":path", 4, false, false, false)
    ∷ (bytes ":scheme", 6, false, false, false)
    ∷ (bytes ":status", 8, false, false, false)
    ∷ (bytes "accept", 19, false, false, true)
    ∷ (bytes "accept-charset", 15, false, false, true)
    ∷ (bytes "accept-encoding", 16, false, false, true)
    ∷ (bytes "accept-language", 17, false, false, true)
    ∷ (bytes "accept-ranges", 18, false, false, false)
    ∷ (bytes "access-control-allow-origin", 20, false, false, false)
    ∷ (bytes "age", 21, false, false, false)
    ∷ (bytes "allow", 22, false, false, false)
    ∷ (bytes "authorization", 23, false, false, false)
    ∷ (bytes "cache-control", 24, false, false, false)
    ∷ (bytes "cache-digest", 0, false, false, false)
    ∷ (bytes "connection", 0, true, true, false)
    ∷ (bytes "content-disposition", 25, false, false, false)
    ∷ (bytes "content-encoding", 26, false, false, false)
    ∷ (bytes "content-language", 27, false, false, false)
    ∷ (bytes "content-length", 28, false, false, false)
    ∷ (bytes "content-location", 29, false, false, false)
    ∷ (bytes "content-range", 30, false, false, false)
    ∷ (bytes "content-type", 31, false, false, false)
    ∷ (bytes "cookie", 32, false, false, false)
    ∷ (bytes "date", 33, true, false, false)
    ∷ (bytes "etag", 34, false, false, false)
    ∷ (bytes "expect", 35, false, false, false)
    ∷ (bytes "expires", 36, false, false, false)
    ∷ (bytes "from", 37, false, false, false)
    ∷ (bytes "host", 38, false, true, false)
    ∷ (bytes "http2-settings", 0, true, true, false)
    ∷ (bytes "if-match", 39, false, false, false)
    ∷ (bytes "if-modified-since", 40, false, false, false)
    ∷ (bytes "if-none-match", 41, false, false, false)
    ∷ (bytes "if-range", 42, false, false, false)
    ∷ (bytes "if-unmodified-since", 43, false, false, false)
    ∷ (bytes "keep-alive", 0, true, false, false)
    ∷ (bytes "last-modified", 44, false, false, false)
    ∷ (bytes "link", 45, false, false, false)
    ∷ (bytes "location", 46, false, false, false)
    ∷ (bytes "max-forwards", 47, false, false, false)
    ∷ (bytes "proxy-authenticate", 48, true, false, false)
    ∷ (bytes "proxy-authorization", 49, true, false, false)
    ∷ (bytes "range", 50, false, false, false)
    ∷ (bytes "referer", 51, false, false, false)
    ∷ (bytes "refresh", 52, false, false, false)
    ∷ (bytes "retry-after", 53, false, false, false)
    ∷ (bytes "server", 54, true, false, false)
    ∷ (bytes "set-cookie", 55, false, false, false)
    ∷ (bytes "strict-transport-security", 56, false, false, false)
    ∷ (bytes "te", 0, true, true, false)
    ∷ (bytes "transfer-encoding", 57, true, true, false)
    ∷ (bytes "upgrade", 0, true, true, false)
    ∷ (bytes "user-agent", 58, false, false, true)
    ∷ (bytes "vary", 59, false, false, false)
    ∷ (bytes "via", 60, false, false, false)
    ∷ (bytes "www-authenticate", 61, false, false, false)
    ∷ (bytes "x-compress-hint", 0, false, false, false)
    ∷ (bytes "x-forwarded-for", 0, false, false, false)
    ∷ (bytes "x-reproxy-url", 0, false, false, false)
    ∷ (bytes "x-traffic", 0, false, false, false)
    ∷ []

-- `pgrest_header_tokens`
unfoldable pub header_tokens : {Handler : Type 0} → List (Token Handler)
unfolding token token_rows
header_tokens = map token token_rows
