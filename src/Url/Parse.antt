-- ===== src/Url/Parse.antt =====
-- `pgrest_inet_parse_inet` and `pgrest_inet_parse_url` of src/pg_rest_inet.c.
use pg_rest.Base.{
  ℕ, suc, true, ◌&&◌, not, Option, none, some, List, [], ◌∷◌, map, leb, ◌==◌, if◌then◌else◌, length,
  take, drop,
}
use pg_rest.Text.{Bytes, tolower, strlchr}
use pg_rest.Inet.{Sockaddr, af_inet, htons, inaddr_none, same_bytes, inet_addr}
use pg_rest.Url.{with_port, no_host, Url, Outcome, reject, accept, name_with_port}
use pg_rest.Url.Unix.{parse_unix}
use pg_rest.Url.Bracket.{parse_inet6}
use pg_rest.Url.Resolve.{AddrInfo, resolve_host, adopt_first}

-- `getaddrinfo` belongs to the system and `evutil_inet_ntop` to libevent.
module _ (getaddrinfo : Bytes → Option (List AddrInfo))
    (evutil_inet_ntop : ℕ → Sockaddr → ℕ → Option Bytes) where
  -- The host of `pgrest_inet_parse_inet`, where the port is known.
  unfoldable pub parse_host : Bytes → Url → Outcome
  unfolding name_with_port resolve_host adopt_first
  parse_host host u =
      let named = record u { host = host } in
      let addr = inet_addr host in
      let sin = record (u.sockaddr) { addr = addr } in
      let found = record named { sockaddr = sin } in
      if length host == 0
      then reject no_host u
      else if u.listen && same_bytes host (b'*' ∷ [])
      then accept (record named { sockaddr = record (u.sockaddr) { addr = 0 }; wildcard = true })
      else if not (addr == inaddr_none)
      then accept (record found {
        wildcard = if addr == 0 then true else u.wildcard;
        addrs = record { sockaddr = sin; socklen = 16; name = name_with_port host u.port } ∷ [];
      })
      else if u.no_resolve
      then accept found
      else adopt_first (resolve_host getaddrinfo evutil_inet_ntop found)

  -- A text that may only be a port, where the URL is one to listen on.
  unfoldable pub parse_only_port : Url → Outcome
  unfolding with_port
  parse_only_port u = with_port u.url u (λ p. accept (record u {
    port = p;
    sockaddr = record (u.sockaddr) { port = htons p };
    port_text = u.url;
    wildcard = true;
  }))

  -- The part of `pgrest_inet_parse_inet` behind a colon at `i`.
  unfoldable pub parse_with_port : ℕ → Url → Outcome
  unfolding with_port parse_host
  parse_with_port i u =
      let port = drop (suc i) u.url in
      with_port port u (λ p. parse_host (take i u.url) (record u {
        port = p;
        sockaddr = record (u.sockaddr) { port = htons p };
        port_text = port;
      }))

  -- `pgrest_inet_parse_inet`
  unfoldable pub parse_inet : Url → Outcome
  unfolding parse_with_port parse_only_port parse_host
  parse_inet u =
      let v = record u {
        socklen = 16;
        sockaddr = record (u.sockaddr) { family = af_inet };
        family = af_inet;
      } in
      elim (strlchr u.url b':') [
        | some i ↦ parse_with_port i v
        | none ↦
            if u.listen
            then parse_only_port v
            else parse_host u.url (record v {
              no_port = true;
              port = u.default_port;
              sockaddr = record (v.sockaddr) { port = htons u.default_port };
            })
      ]

  -- `pgrest_inet_parse_url`
  unfoldable pub parse_url : Url → Outcome
  parse_url u =
      if leb 5 (length u.url)
        && same_bytes (map tolower (take 5 u.url)) (b'u' ∷ b'n' ∷ b'i' ∷ b'x' ∷ b':' ∷ [])
      then parse_unix u
      else if same_bytes (take 1 u.url) (b'[' ∷ [])
      then parse_inet6 u
      else parse_inet u
