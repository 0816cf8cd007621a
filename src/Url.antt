-- ===== src/Url.antt =====
-- The URL structure of include/pg_rest_inet.h, which the functions of src/pg_rest_inet.c below fill
-- in. Each returns its `bool` and the structure that it leaves; `none` stands for an access outside
-- an array: a write past the 32 bytes of the buffer of `pgrest_atoi`.
pub mod Unix
pub mod Bracket
pub mod Resolve
pub mod Parse
pub mod Port
pub mod Listen
mod Tests
use pg_rest.Base.{
  ℕ, suc, ◌+◌, ◌-◌, ◌*◌, ◌%◌, ◌^◌, Bool, true, false, ◌&&◌, ◌||◌, not, Option, none, some, List, [],
  ◌∷◌, ◌++◌, map, ltb, leb, ◌==◌, if◌then◌else◌, length, take, drop, replicate,
}
use pg_rest.Base.Int.{ℤ, pos, pos_part, ltb_ℤ}
use pg_rest.Text.{Bytes, tolower, strlchr, atoi}
use pg_rest.Text.Decimal.{decimal}
use pg_rest.Inet.{
  Sockaddr, Written, null, unterminated, af_unix, af_inet, af_inet6, htons, inaddr_none, c_string,
  same_bytes, inet_addr, inet_ntop,
}
use pg_rest.Inet.Parse6.{inet6_addr}

-- `pgrest_addr_t`; `name_len` is the length of the name.
pub record Addr : Type 0 where
  pub sockaddr : Sockaddr
  pub socklen : ℕ
  pub name : Bytes

-- The texts that `err` points at.
pub data UrlError : Type 0 where
  no_path too_long_path invalid_host invalid_port no_host invalid_inet6 host_not_found : UrlError

-- `pgrest_url_t`. A text stands for its pointer and length, and `naddrs` is the length of `addrs`.
pub record Url : Type 0 where
  pub url : Bytes
  pub host : Bytes
  pub port_text : Bytes
  pub port : ℕ
  pub default_port : ℕ
  pub family : ℕ
  pub listen : Bool
  pub no_resolve : Bool
  pub no_port : Bool
  pub wildcard : Bool
  pub socklen : ℕ
  pub sockaddr : Sockaddr
  pub addrs : List Addr
  pub err : Option UrlError

abbrev pub Outcome : Type 0
Outcome = Option (Bool × Url)

abbrev pub reject : UrlError → Url → Outcome
reject e u = some (false, record u { err = some e })

abbrev pub accept : Url → Outcome
accept u = some (true, u)

-- What `palloc0` gives for a socket address.
abbrev pub zero_sockaddr : Sockaddr
zero_sockaddr = record {
  family = 0;
  port = 0;
  addr = 0;
  addr6 = replicate 16 0;
  path = replicate 108 0;
}

-- A number that `pgrest_atoi` read, if it is a port.
unfoldable pub port_of : ℤ → Option ℕ
port_of n = if ltb_ℤ n (pos 1) || ltb_ℤ (pos 65535) n then none else some (pos_part n)

-- `sprintf(p + u->host_len, ":%d", u->port)` behind the host.
unfoldable pub name_with_port : Bytes → ℕ → Bytes
name_with_port host port = host ++ (b':' ∷ decimal port)

-- The number that `pgrest_atoi` reads from a text, handed on as a port.
unfoldable pub with_port : Bytes → Url → (ℕ → Outcome) → Outcome
unfolding port_of
with_port text u go_on = elim (atoi text) [
  | none ↦ none
  | some n ↦ elim (port_of n) [ none ↦ reject invalid_port u | some p ↦ go_on p ]
]
