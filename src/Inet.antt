-- ===== src/Inet.antt =====
-- The address routines of include/pg_rest_inet.h and src/pg_rest_inet.c, as they are compiled with
-- IPv6, Unix sockets and `getaddrinfo` on a little-endian machine.
pub mod Addr
pub mod Parse6
pub mod Addr6
pub mod Groups
mod Tests
use pg_rest.Base.{
  ℕ, zero, suc, ◌+◌, ◌-◌, ◌*◌, ◌/◌, ◌%◌, ◌^◌, Bool, true, false, ◌&&◌, ◌||◌, not, Option, none,
  some, List, [], ◌∷◌, ◌++◌, ltb, leb, ◌==◌, if◌then◌else◌, length, take,
}
use pg_rest.Text.{Bytes}
use pg_rest.Text.Decimal.{decimal}

abbrev pub af_unix : ℕ
af_unix = 1

abbrev pub af_inet : ℕ
af_inet = 2

abbrev pub af_inet6 : ℕ
af_inet6 = 10

-- `pgrest_sockaddr_t`. A value is read by the layout of its family alone, so the overlap of the
-- union's members is not modelled. The port and the IPv4 address stand in network byte order.
pub record Sockaddr : Type 0 where
  pub family : ℕ
  pub port : ℕ
  pub addr : ℕ
  pub addr6 : Bytes
  pub path : Bytes

-- `htons` and `ntohs` swap the two bytes; `htonl` and `ntohl` reverse the four.
abbrev pub htons : ℕ → ℕ
htons n = n % 2 ^ 8 * 2 ^ 8 + n / 2 ^ 8 % 2 ^ 8

abbrev pub htonl : ℕ → ℕ
htonl n =
    n % 2 ^ 8 * 2 ^ 24
    + n / 2 ^ 8 % 2 ^ 8 * 2 ^ 16
    + n / 2 ^ 16 % 2 ^ 8 * 2 ^ 8
    + n / 2 ^ 24 % 2 ^ 8

-- `memcmp(a, b, n) == 0` of two blocks of one length.
unfoldable pub same_bytes : Bytes → Bytes → Bool
same_bytes [] [] = true
same_bytes (a ∷ as') (b ∷ bs) = a == b && same_bytes as' bs
same_bytes _ _ = false

-- A C string: the bytes before the first zero.
unfoldable pub c_string : Bytes → Bytes
c_string [] = []
c_string (c ∷ s) = if c == 0 then [] else c ∷ c_string s

-- What `snprintf` leaves in a buffer of `size` bytes, without the final zero.
abbrev pub snprintf : ℕ → Bytes → Bytes
snprintf size s = take (size - 1) s

-- What `pgrest_inet_ntop` leaves in `dst`.
pub data Written : Type 0 where
  null : Written
  text : Bytes → Written
  unterminated : Bytes → Written

-- `evutil_inet_ntop` belongs to libevent: the text of an address, if it fits with its final zero.
module _ (evutil_inet_ntop : ℕ → Sockaddr → ℕ → Option Bytes) where
  ntop_inet : Sockaddr → ℕ → Bool → Written
  ntop_inet sa size port = elim (evutil_inet_ntop af_inet sa size) [
    | none ↦ null
    | some dst ↦
        if port
        then text (dst ++ snprintf (size - length dst) (b':' ∷ decimal (htons sa.port)))
        else text dst
  ]

  -- The bracket is written behind the address; `len` counts it.
  ntop_inet6 : Sockaddr → ℕ → Bool → Written
  ntop_inet6 sa size port = elim (evutil_inet_ntop af_inet6 sa size) [
    | none ↦ null
    | some dst ↦
        if port
        then (let len : ℕ = length dst + 1 in
            let rest : Bytes = snprintf (size - len) (b']' ∷ b':' ∷ decimal (htons sa.port)) in
            if len == size then unterminated (dst ++ b'[' ∷ []) else text (dst ++ b'[' ∷ rest))
        else text dst
  ]

  -- The offset of `sun_path` is 2.
  ntop_unix : Sockaddr → ℕ → ℕ → Written
  ntop_unix sa socklen size =
      if leb socklen 2
      then text (snprintf size (b'?' ∷ b'?' ∷ b'?' ∷ b'?' ∷ []))
      else text (snprintf size (c_string sa.path))

  -- `pgrest_inet_ntop`
  unfoldable pub inet_ntop : Sockaddr → ℕ → ℕ → Bool → Written
  unfolding ntop_inet ntop_inet6 ntop_unix
  inet_ntop sa socklen size port =
      if sa.family == af_inet
      then ntop_inet sa size port
      else if sa.family == af_inet6
      then ntop_inet6 sa size port
      else if sa.family == af_unix
      then ntop_unix sa socklen size
      else null

-- `pgrest_inet_cmp_sockaddr`
unfoldable pub inet_cmp_sockaddr : Sockaddr → Sockaddr → Bool → Bool
inet_cmp_sockaddr sa1 sa2 cmp_port =
    if not (sa1.family == sa2.family)
    then false
    else if sa1.family == af_inet6
    then (if cmp_port && not (sa1.port == sa2.port) then false else same_bytes sa1.addr6 sa2.addr6)
    else if sa1.family == af_unix
    then same_bytes sa1.path sa2.path
    else if cmp_port && not (sa1.port == sa2.port)
    then false
    else sa1.addr == sa2.addr

-- `pgrest_inet_get_port`
unfoldable pub inet_get_port : Sockaddr → ℕ
inet_get_port sa =
    if sa.family == af_inet6
    then htons sa.port
    else if sa.family == af_unix
    then 0
    else htons sa.port

-- `pgrest_inet_set_port`
unfoldable pub inet_set_port : Sockaddr → ℕ → Sockaddr
inet_set_port sa port =
    if sa.family == af_inet6
    then record sa { port = htons port }
    else if sa.family == af_unix
    then sa
    else record sa { port = htons port }

abbrev pub inaddr_none : ℕ
inaddr_none = 0xffff_ffff

-- The loop of `pgrest_inet_inet_addr`; the result is in network byte order.
unfoldable pub scan_addr : ℕ → ℕ → ℕ → Bytes → ℕ
scan_addr addr octet n [] = if n == 3 then htonl ((addr * 2 ^ 8 + octet) % 2 ^ 32) else inaddr_none
scan_addr addr octet n (c ∷ p) =
    let digit = scan_addr addr (octet * 10 + (c - b'0')) n p in
    let dot = scan_addr ((addr * 2 ^ 8 + octet) % 2 ^ 32) 0 (n + 1) p in
    if leb b'0' c && leb c b'9'
    then (if ltb 255 (octet * 10 + (c - b'0')) then inaddr_none else digit)
    else if c == b'.'
    then dot
    else inaddr_none

-- `pgrest_inet_inet_addr`
unfoldable pub inet_addr : Bytes → ℕ
unfolding scan_addr
inet_addr s = scan_addr 0 0 0 s
