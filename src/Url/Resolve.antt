-- ===== src/Url/Resolve.antt =====
-- `pgrest_inet_resolve_host` of src/pg_rest_inet.c, as it is compiled with `getaddrinfo`, and what
-- `pgrest_inet_parse_inet` makes of its addresses.
use pg_rest.Base.{
  ℕ, ◌+◌, Bool, true, false, Option, none, some, List, [], ◌∷◌, ◌++◌, map, ◌==◌, if◌then◌else◌,
  length, replicate,
}
use pg_rest.Text.{Bytes}
use pg_rest.Inet.{
  Sockaddr, Written, null, text, unterminated, af_inet, af_inet6, htons, c_string, same_bytes,
  inet_ntop,
}
use pg_rest.Url.{Addr, host_not_found, Url, Outcome, accept}

-- An entry of the list that `getaddrinfo` returns.
pub record AddrInfo : Type 0 where
  pub ai_family : ℕ
  pub ai_addrlen : ℕ
  pub ai_addr : Sockaddr

-- The entries of a family, in order.
unfoldable pub of_family : ℕ → List AddrInfo → List AddrInfo
of_family f [] = []
of_family f (r ∷ rs) = if r.ai_family == f then r ∷ of_family f rs else of_family f rs

-- `getaddrinfo` belongs to the system and `evutil_inet_ntop` to libevent.
module _ (getaddrinfo : Bytes → Option (List AddrInfo))
    (evutil_inet_ntop : ℕ → Sockaddr → ℕ → Option Bytes) where
  -- The text that `strlen` measures; the buffers are large enough for every address.
  written_name : Written → Bytes
  written_name null = []
  written_name (text s) = s
  written_name (unterminated s) = s

  -- One entry of `u->addrs`, its name written to a buffer of `len` bytes.
  unfoldable pub resolved : ℕ → ℕ → AddrInfo → Addr
  unfolding written_name
  resolved port len rp =
      let sa = record (rp.ai_addr) { port = port } in
      record {
        sockaddr = sa;
        socklen = rp.ai_addrlen;
        name = written_name (inet_ntop evutil_inet_ntop sa rp.ai_addrlen len true);
      }

  -- `pgrest_inet_resolve_host`: the IPv4 addresses first.
  unfoldable pub resolve_host : Url → Bool × Url
  unfolding resolved
  resolve_host u =
      let failed : Bool × Url = (false, record u { err = some host_not_found }) in
      elim (getaddrinfo (c_string u.host)) [
        | none ↦ failed
        | some res ↦
            let four = of_family af_inet res in
            let six = of_family af_inet6 res in
            if length four + length six == 0 then failed else (
              true,
              record u {
                addrs =
                    map (resolved (htons u.port) 22) four ++ map (resolved (htons u.port) 54) six;
              },
            )
      ]

-- The tests for the wildcard address behind the resolution in `pgrest_inet_parse_inet`.
unfoldable pub any_addr : Sockaddr → Bool
any_addr sa = if sa.family == af_inet6 then same_bytes sa.addr6 (replicate 16 0) else sa.addr == 0

-- The end of `pgrest_inet_parse_inet`. `addrs[0]` exists where the resolution succeeds.
unfoldable pub adopt_first : Bool × Url → Outcome
unfolding any_addr
adopt_first (false, u) = some (false, u)
adopt_first (true, u) = elim (u.addrs) [
  | [] ↦ none
  | a ∷ _ ↦ accept (record u {
    family = a.sockaddr.family;
    socklen = a.socklen;
    sockaddr = a.sockaddr;
    wildcard = if any_addr a.sockaddr then true else u.wildcard;
  })
]
