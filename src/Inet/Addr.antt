-- ===== src/Inet/Addr.antt =====
-- IPv4 addresses, and the operations on socket addresses.
use pg_rest.Base.{
  ℕ, ◌+◌, ◌-◌, ◌*◌, ◌%◌, ◌^◌, ◌≤◌, ◌<◌, ◌≡◌, ◌≢◌, ◌↔◌, ◌⊎◌, refl, sym, ap, ◌∙◌, Bool, true, false,
  ◌&&◌, not, Option, none, some, List, [], ◌∷◌, ◌++◌, append-nil, arith, length, ltb, leb, ◌==◌,
  if◌then◌else◌, inl, inr, Bool-cases,
}
use pg_rest.Text.{Bytes}
use pg_rest.Text.Decimal.{decimal, TakesDigits, reads-decimal}
use pg_rest.Inet.{
  Sockaddr, af_inet6, af_unix, htonl, same_bytes, inet_cmp_sockaddr, inet_get_port, inet_set_port,
  inaddr_none, scan_addr, inet_addr,
}

-- The numbers between the dots of a text, the first read on top of `octet`; an empty place stands
-- for zero. `none` if a number exceeds a byte, or if another character stands in the text.
unfoldable pub octets_from : ℕ → Bytes → Option (List ℕ)
octets_from octet [] = some (octet ∷ [])
octets_from octet (c ∷ s) =
    let digit = octets_from (octet * 10 + (c - b'0')) s in
    let dot = octets_from 0 s in
    if leb b'0' c && leb c b'9'
    then (if ltb 255 (octet * 10 + (c - b'0')) then none else digit)
    else if c == b'.'
    then elim dot [ none ↦ none | some os ↦ some (octet ∷ os) ]
    else none

unfoldable pub join_octets : ℕ → List ℕ → ℕ
join_octets addr [] = addr
join_octets addr (o ∷ os) = join_octets ((addr * 2 ^ 8 + o) % 2 ^ 32) os

-- The address in network order that `n` octets in `addr` and then others make: four in all.
unfoldable pub address_of : ℕ → ℕ → Option (List ℕ) → ℕ
address_of addr n none = inaddr_none
address_of addr n (some os) =
    if n + length os == 4 then htonl (join_octets addr os) else inaddr_none

scan_addr-eq :
    (addr octet n : ℕ) (s : Bytes)
    → scan_addr addr octet n s ≡ address_of addr n (octets_from octet s)
unfolding scan_addr address_of octets_from join_octets
scan_addr-eq addr octet n [] = ground arith
scan_addr-eq addr octet n (c ∷ s) = ground (
  arith,
  scan_addr-eq addr (octet * 10 + (c - b'0')) n s,
  scan_addr-eq ((addr * 2 ^ 8 + octet) % 2 ^ 32) 0 (n + 1) s,
)

-- `pgrest_inet_inet_addr` returns the address of the numbers between the dots of its text, if there
-- are exactly four and each fits a byte, and else INADDR_NONE.
pub inet_addr-eq : (s : Bytes) → inet_addr s ≡ address_of 0 0 (octets_from 0 s)
unfolding inet_addr
inet_addr-eq s = scan_addr-eq 0 0 0 s

abbrev pub dotted : ℕ → ℕ → ℕ → ℕ → Bytes
dotted a b c d = decimal a ++ (b'.' ∷ (decimal b ++ (b'.' ∷ (decimal c ++ (b'.' ∷ decimal d)))))

octets_from-digits : TakesDigits octets_from 255
unfolding octets_from
octets_from-digits v d s h k =
    let e : v * 10 + (b'0' + d - b'0') ≡ v * 10 + d = omega arith in
    ground (arith, ap (λ w. octets_from w s) e)

octets_from-dot :
    (o : ℕ) (s : Bytes) (os : List ℕ)
    → octets_from 0 s ≡ some os
    → octets_from o (b'.' ∷ s) ≡ some (o ∷ os)
unfolding octets_from
octets_from-dot o s os e = ground arith

octets_from-decimal :
    (n : ℕ) (s : Bytes)
    → n ≤ 255
    → octets_from 0 (decimal n ++ (b'.' ∷ s))
      ≡ elim (octets_from 0 s) [ none ↦ none | some os ↦ some (n ∷ os) ]
unfolding octets_from
octets_from-decimal n s h = reads-decimal octets_from 255 octets_from-digits n (b'.' ∷ s) h

octets_from-last : (n : ℕ) → n ≤ 255 → octets_from 0 (decimal n) ≡ some (n ∷ [])
unfolding octets_from
octets_from-last n h =
    ap (octets_from 0) {y = decimal n ++ []} (sym (append-nil (decimal n)))
    ∙ reads-decimal octets_from 255 octets_from-digits n [] h

octets_from-dotted :
    (a b c d : ℕ)
    → a ≤ 255
    → b ≤ 255
    → c ≤ 255
    → d ≤ 255
    → octets_from 0 (dotted a b c d) ≡ some (a ∷ b ∷ c ∷ d ∷ [])
octets_from-dotted a b c d ha hb hc hd = ground (
  arith,
  octets_from-decimal a (decimal b ++ (b'.' ∷ (decimal c ++ (b'.' ∷ decimal d)))) ha,
  octets_from-decimal b (decimal c ++ (b'.' ∷ decimal d)) hb,
  octets_from-decimal c (decimal d) hc,
  octets_from-last d hd,
)

-- The dotted notation of four bytes is read back as those bytes, in network order.
pub inet_addr-dotted :
    (a b c d : ℕ)
    → a ≤ 255
    → b ≤ 255
    → c ≤ 255
    → d ≤ 255
    → inet_addr (dotted a b c d) ≡ a + b * 2 ^ 8 + c * 2 ^ 16 + d * 2 ^ 24
unfolding address_of join_octets
inet_addr-dotted a b c d ha hb hc hd =
    inet_addr-eq (dotted a b c d)
    ∙ ap (address_of 0 0) (octets_from-dotted a b c d ha hb hc hd)
    ∙ omega arith

pub same_bytes_iff : (a b : Bytes) → (same_bytes a b ≡ true) ↔ (a ≡ b)
unfolding same_bytes
same_bytes_iff [] [] = ((λ _. refl), (λ _. refl))
same_bytes_iff [] (y ∷ b) = ((λ h. cc), (λ h. cc))
same_bytes_iff (x ∷ a) [] = ((λ h. cc), (λ h. cc))
same_bytes_iff (x ∷ a) (y ∷ b) =
    ((λ h. ground (arith, (same_bytes_iff a b).0)), (λ h. ground (arith, (same_bytes_iff a b).1)))

-- The ports are equal, or do not count.
abbrev pub SamePort : Sockaddr → Sockaddr → Bool → Type 0
SamePort sa1 sa2 cmp_port = (cmp_port ≡ false) ⊎ (sa1.port ≡ sa2.port)

abbrev pub SameAddress : Sockaddr → Sockaddr → Bool → Type 0
SameAddress sa1 sa2 cmp_port =
    (sa1.family ≡ sa2.family)
    × (((sa1.family ≡ af_inet6) × (sa1.addr6 ≡ sa2.addr6) × SamePort sa1 sa2 cmp_port)
        ⊎ (((sa1.family ≡ af_unix) × (sa1.path ≡ sa2.path))
            ⊎ ((sa1.family ≢ af_inet6)
                × (sa1.family ≢ af_unix)
                × (sa1.addr ≡ sa2.addr)
                × SamePort sa1 sa2 cmp_port)))

same_port :
    (sa1 sa2 : Sockaddr) (cmp_port : Bool)
    → (cmp_port && not (sa1.port == sa2.port)) ≡ false
    → SamePort sa1 sa2 cmp_port
same_port sa1 sa2 false h = inl refl
same_port sa1 sa2 true h = inr (ground arith)

-- `pgrest_inet_cmp_sockaddr` is true exactly when two socket addresses are of one family and what
-- counts for that family is equal: the path of a Unix socket, and else the address, with the port
-- if it is asked for.
pub inet_cmp_sockaddr_iff :
    (sa1 sa2 : Sockaddr) (cmp_port : Bool)
    → (inet_cmp_sockaddr sa1 sa2 cmp_port ≡ true) ↔ SameAddress sa1 sa2 cmp_port
unfolding inet_cmp_sockaddr
inet_cmp_sockaddr_iff sa1 sa2 cmp_port =
    ((λ h. same h), (λ h. ground (arith, six.1, un.1, h.0, h.1)))
  where
    six : (same_bytes sa1.addr6 sa2.addr6 ≡ true) ↔ (sa1.addr6 ≡ sa2.addr6)
    six = same_bytes_iff sa1.addr6 sa2.addr6

    un : (same_bytes sa1.path sa2.path ≡ true) ↔ (sa1.path ≡ sa2.path)
    un = same_bytes_iff sa1.path sa2.path

    same : inet_cmp_sockaddr sa1 sa2 cmp_port ≡ true → SameAddress sa1 sa2 cmp_port
    same h = (
      ground (arith, six.0, un.0),
      (elim (Bool-cases (sa1.family == af_inet6)) [
        | inl f ↦
            inl (ground arith, ground (arith, six.0), same_port sa1 sa2 cmp_port (ground arith))
        | inr f ↦ elim (Bool-cases (sa1.family == af_unix)) [
          | inl g ↦ inr (inl (ground arith, ground (arith, un.0)))
          | inr g ↦ inr (
              inr (
                ground arith,
                ground arith,
                ground arith,
                same_port sa1 sa2 cmp_port (ground arith),
              ))
        ]
      ]),
    )

-- A port of 16 bits that is set is the port that is read, except on a Unix socket, which has port 0
-- and is left alone.
pub inet_get_port-set_port :
    (sa : Sockaddr) (port : ℕ)
    → port < 2 ^ 16
    → (inet_get_port (inet_set_port sa port) ≡ (if sa.family == af_unix then 0 else port))
      × ((inet_set_port sa port ≡ sa) ⊎ (sa.family ≢ af_unix))
unfolding inet_get_port inet_set_port
inet_get_port-set_port sa port h = (ground arith, left_alone (Bool-cases (sa.family == af_unix)))
  where
    left_alone :
        ((sa.family == af_unix) ≡ true) ⊎ ((sa.family == af_unix) ≡ false)
        → (inet_set_port sa port ≡ sa) ⊎ (sa.family ≢ af_unix)
    left_alone (inl e) = inl (ground arith)
    left_alone (inr e) = inr (ground arith)
