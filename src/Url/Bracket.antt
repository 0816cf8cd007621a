-- ===== src/Url/Bracket.antt =====
-- `pgrest_inet_parse_inet6` of src/pg_rest_inet.c. Where the address is refused, the bytes that were
-- written to it are not modelled: no caller reads them.
use pg_rest.Base.{
  suc, true, not, none, some, [], ◌∷◌, ◌++◌, ◌==◌, if◌then◌else◌, length, take, drop, replicate,
}
use pg_rest.Text.{Bytes, strlchr}
use pg_rest.Inet.{af_inet6, htons, same_bytes}
use pg_rest.Inet.Parse6.{inet6_addr}
use pg_rest.Url.{
  with_port, invalid_host, no_host, invalid_inet6, Url, Outcome, reject, accept, name_with_port,
}

-- The rest of `pgrest_inet_parse_inet6`, where the port is known and `host` stands between brackets.
unfoldable pub parse_host6 : Bytes → Url → Outcome
unfolding name_with_port
parse_host6 host u =
    if length host == 0
    then reject no_host u
    else let named = record u { host = b'[' ∷ host ++ b']' ∷ [] } in
      elim (inet6_addr host) [
        | none ↦ reject invalid_inet6 named
        | some bytes ↦
            let sin6 = record (u.sockaddr) { addr6 = bytes } in
            accept (record named {
              sockaddr = sin6;
              wildcard = if same_bytes bytes (replicate 16 0) then true else u.wildcard;
              family = af_inet6;
              addrs =
                  record { sockaddr = sin6; socklen = 28; name = name_with_port named.host u.port }
                  ∷ [];
            })
      ]

-- The port behind the bracket of `pgrest_inet_parse_inet6`, and the rest.
unfoldable pub parse_port6 : Bytes → Bytes → Url → Outcome
unfolding with_port parse_host6
parse_port6 host [] u = parse_host6 host (record u {
  no_port = true;
  port = u.default_port;
  sockaddr = record (u.sockaddr) { port = htons u.default_port };
})
parse_port6 host (c ∷ port) u =
    if not (c == b':')
    then reject invalid_host u
    else with_port port u (λ p.
      parse_host6 host (record u {
        port = p;
        sockaddr = record (u.sockaddr) { port = htons p };
        port_text = port;
      }))

-- `pgrest_inet_parse_inet6`, entered with a bracket in front.
unfoldable pub parse_inet6 : Url → Outcome
unfolding parse_port6
parse_inet6 u =
    let v = record u { socklen = 28; sockaddr = record (u.sockaddr) { family = af_inet6 } } in
    let text = drop 1 u.url in
    elim (strlchr text b']') [
      | none ↦ reject invalid_host v
      | some i ↦ parse_port6 (take i text) (drop (suc i) text) v
    ]
