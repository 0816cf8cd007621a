-- ===== src/Inet/Tests.antt =====
-- Runs of the address functions of src/pg_rest_inet.c.
use pg_rest.Base.{ℕ, true, ◌≡◌, ◌↔◌, ◌+◌, ◌*◌, ◌^◌, refl, [], ◌∷◌, List, some, arith}
use pg_rest.Text.{Bytes}
use pg_rest.Inet.{Sockaddr, af_inet, inet_addr, inet_cmp_sockaddr}
use pg_rest.Inet.Addr.{
  octets_from, address_of, dotted, inet_addr-eq, inet_addr-dotted, SameAddress,
  inet_cmp_sockaddr_iff,
}
use pg_rest.Inet.Parse6.{inet6_addr}
use pg_rest.Inet.Groups.{colons, network_bytes, Words, inet6_addr-colons}

abbrev loopback_text : Bytes
loopback_text = b'1' ∷ b'2' ∷ b'7' ∷ b'.' ∷ b'0' ∷ b'.' ∷ b'0' ∷ b'.' ∷ b'1' ∷ []

-- `::1`
abbrev loopback6_text : Bytes
loopback6_text = b':' ∷ b':' ∷ b'1' ∷ []

abbrev loopback6 : Bytes
loopback6 = 0 ∷ 0 ∷ 0 ∷ 0 ∷ 0 ∷ 0 ∷ 0 ∷ 0 ∷ 0 ∷ 0 ∷ 0 ∷ 0 ∷ 0 ∷ 0 ∷ 0 ∷ 1 ∷ []

abbrev local_address : Sockaddr
local_address = record { family = af_inet; port = 0; addr = 0x0100_007f; addr6 = []; path = [] }

abbrev groups : List ℕ
groups = 0 ∷ 0 ∷ 0 ∷ 0 ∷ 0 ∷ 0xff ∷ 1 ∷ []

inet_addr_run : inet_addr loopback_text ≡ 0x0100_007f
unfolding inet_addr
inet_addr_run = refl

inet6_addr_run : inet6_addr loopback6_text ≡ some loopback6
unfolding inet6_addr
inet6_addr_run = refl

inet_addr-eq_example : inet_addr loopback_text ≡ address_of 0 0 (octets_from 0 loopback_text)
inet_addr-eq_example = inet_addr-eq loopback_text

inet_addr-dotted_example : inet_addr (dotted 127 0 0 1) ≡ 127 + 0 * 2 ^ 8 + 0 * 2 ^ 16 + 1 * 2 ^ 24
inet_addr-dotted_example =
    inet_addr-dotted 127 0 0 1 (omega arith) (omega arith) (omega arith) (omega arith)

inet_cmp_sockaddr_iff_example :
    (inet_cmp_sockaddr local_address local_address true ≡ true)
    ↔ SameAddress local_address local_address true
inet_cmp_sockaddr_iff_example = inet_cmp_sockaddr_iff local_address local_address true

groups-Words : Words (0x2001 ∷ groups)
groups-Words = (
  omega arith,
  (
    omega arith,
    (omega arith, (omega arith, (omega arith, (omega arith, (omega arith, (omega arith, tt)))))),
  ),
)

inet6_addr-colons_example :
    inet6_addr (colons 0x2001 groups) ≡ some (network_bytes (0x2001 ∷ groups))
inet6_addr-colons_example = inet6_addr-colons 0x2001 groups refl groups-Words
