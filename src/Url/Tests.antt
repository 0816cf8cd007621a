-- ===== src/Url/Tests.antt =====
-- Runs of `pgrest_inet_parse_url` of src/pg_rest_inet.c. The system's resolver knows no host.
use pg_rest.Base.{
  ℕ, true, false, ◌≡◌, ◌+◌, ◌*◌, ◌^◌, ◌++◌, refl, [], ◌∷◌, List, Option, some, none, arith, map,
  replicate, take,
}
use pg_rest.Text.{Bytes, strlchr}
use pg_rest.Text.Search.{Lacks, strlchr-Lacks}
use pg_rest.Text.Decimal.{decimal}
use pg_rest.Inet.{Sockaddr, af_inet, htons, same_bytes}
use pg_rest.Inet.Addr.{dotted}
use pg_rest.Url.{Addr, Url, zero_sockaddr}
use pg_rest.Url.Resolve.{AddrInfo}
use pg_rest.Url.Parse.{parse_url}
use pg_rest.Url.Listen.{parse_url_overrun, parse_url-dotted}

abbrev no_hosts : Bytes → Option (List AddrInfo)
no_hosts host = none

abbrev no_text : ℕ → Sockaddr → ℕ → Option Bytes
no_text family sa size = none

abbrev url_of : Bytes → Url
url_of text = record {
  url = text;
  host = [];
  port_text = [];
  port = 0;
  default_port = 80;
  family = 0;
  listen = true;
  no_resolve = false;
  no_port = false;
  wildcard = false;
  socklen = 0;
  sockaddr = zero_sockaddr;
  addrs = [];
  err = none;
}

abbrev local_text : Bytes
local_text = dotted 127 0 0 1 ++ (b':' ∷ decimal 8080)

abbrev long_text : Bytes
long_text = replicate 40 b'a'

parse_url-dotted_example :
    (v : Url) × (parse_url no_hosts no_text (url_of local_text) ≡ some (true, v))
    × (v.port ≡ 8080)
    × (v.sockaddr.family ≡ af_inet)
    × (v.sockaddr.port ≡ htons 8080)
    × (v.sockaddr.addr ≡ 127 + 0 * 2 ^ 8 + 0 * 2 ^ 16 + 1 * 2 ^ 24)
    × (map (λ (r : Addr). r.name) v.addrs ≡ local_text ∷ [])
parse_url-dotted_example =
    parse_url-dotted no_hosts no_text (url_of local_text) 127 0 0 1 8080 (omega arith) (omega arith)
      (omega arith) (omega arith) (omega arith) (omega arith) (omega arith) refl

long_text-plain : Lacks b':' long_text × (same_bytes (take 1 long_text) (b'[' ∷ []) ≡ false)
unfolding strlchr same_bytes
long_text-plain = (strlchr-Lacks long_text b':' refl, refl)

parse_url_overrun_example : parse_url no_hosts no_text (url_of long_text) ≡ none
parse_url_overrun_example =
    parse_url_overrun no_hosts no_text (url_of long_text) refl long_text-plain.0 long_text-plain.1
      (omega arith)
