-- ===== src/Http/Token/Tests.antt =====
-- Runs of the search for a header name, of src/pg_rest_http_header.c.
use pg_rest.Base.{◌≡◌, ◌↔◌, refl, some, get_elem?}
use pg_rest.Text.{bytes}
use pg_rest.Inet.{same_bytes}
use pg_rest.Http.Token.Find.{find_token, token_cases, match_length, match_last, match_prefix}
use pg_rest.Http.Token.Table.{names, find_token-names}

host_run : find_token (bytes "host") ≡ some 30
unfolding find_token token_cases match_length match_last match_prefix same_bytes
host_run = refl

find_token-names_example :
    (find_token (bytes "host") ≡ some 30) ↔ (get_elem? names 30 ≡ some (bytes "host"))
find_token-names_example = find_token-names (bytes "host") 30
