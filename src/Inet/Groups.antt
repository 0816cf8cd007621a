-- ===== src/Inet/Groups.antt =====
-- The full notation of an IPv6 address, eight groups of four digits, and what
-- `pgrest_inet_inet6_addr` makes of it.
use Prim.Native.Nat.{bit_or}
use pg_rest.Base.{
  ℕ, suc, ◌+◌, ◌-◌, ◌*◌, ◌/◌, ◌%◌, ◌^◌, ◌≤◌, ◌<◌, ◌≡◌, ◌≢◌, refl, sym, ap, ◌∙◌, true, ◌||◌, Option,
  none, some, List, [], ◌∷◌, ◌++◌, append-nil, append_assoc, arith, length, ltb, ◌==◌,
  if◌then◌else◌, holds_below, holds_below_lem,
}
use pg_rest.Text.{Bytes}
use pg_rest.Inet.Parse6.{
  Scan, next, put_word, end_group, nibble, round, scan, finished, start, skip_colon, inet6_addr,
}

-- A digit of base 16, in lower case.
unfoldable pub hex : ℕ → ℕ
hex d = if ltb d 10 then b'0' + d else b'a' + (d - 10)

unfoldable pub group : ℕ → Bytes
unfolding hex
group w = hex (w / 2 ^ 12 % 16) ∷ hex (w / 2 ^ 8 % 16) ∷ hex (w / 2 ^ 4 % 16) ∷ hex (w % 16) ∷ []

-- Groups with colons between them.
unfoldable pub colons : ℕ → List ℕ → Bytes
unfolding group
colons w [] = group w
colons w (v ∷ ws) = group w ++ (b':' ∷ colons v ws)

unfoldable pub network_bytes : List ℕ → Bytes
network_bytes [] = []
network_bytes (w ∷ ws) = w / 2 ^ 8 % 2 ^ 8 ∷ w % 2 ^ 8 ∷ network_bytes ws

scan-round :
    (s : Scan) (c : ℕ) (p : Bytes) (t : Scan) → round s c p ≡ next t → scan s (c ∷ p) ≡ scan t p
unfolding scan
scan-round s c p t e = rw (e, scan) refl

scan-nil : (s : Scan) → scan s [] ≡ some s
unfolding scan
scan-nil s = refl

hex_table : holds_below 16 (λ d. ltb d 10 || bit_or (hex d) 0x20 == hex d) ≡ true
unfolding hex holds_below
hex_table = refl

lower_hex : (d : ℕ) → d < 16 → 10 ≤ d → bit_or (hex d) 0x20 ≡ hex d
lower_hex d h k =
    let t = holds_below_lem 16 (λ d. ltb d 10 || bit_or (hex d) 0x20 == hex d) d hex_table h in
    ground arith

nibble-hex :
    (s : Scan) (d : ℕ)
    → d < 16
    → s.nibbles < 4
    → nibble s (hex d) ≡ next (record s { nibbles = s.nibbles + 1; word = s.word * 16 + d })
unfolding nibble hex
nibble-hex s d h k = ground (arith, lower_hex d h)

round-hex :
    (s : Scan) (d : ℕ) (p : Bytes)
    → d < 16
    → s.nibbles < 4
    → round s (hex d) p ≡ next (record s { nibbles = s.nibbles + 1; word = s.word * 16 + d })
unfolding round
round-hex s d p h k =
    let other : (hex d ≢ b':') × (hex d ≢ b'.') = unfold hex in (ground arith, ground arith) in
    ground (arith, nibble-hex s d h k)

scan-hex :
    (s : Scan) (d : ℕ) (p : Bytes)
    → d < 16
    → s.nibbles < 4
    → scan s (hex d ∷ p) ≡ scan (record s { nibbles = s.nibbles + 1; word = s.word * 16 + d }) p
scan-hex s d p h k = scan-round s (hex d) p _ (round-hex s d p h k)

-- The states before and behind a group.
abbrev before : Bytes → ℕ → Option Bytes → Scan
before out n digit = record start { out = out; n = n; digit = digit }

abbrev behind : Bytes → ℕ → ℕ → Option Bytes → Scan
behind out n w digit = record start { out = out; n = n; nibbles = 4; word = w; digit = digit }

scan-group :
    (out : Bytes) (n w : ℕ) (digit : Option Bytes) (p : Bytes)
    → w < 2 ^ 16
    → scan (before out n digit) (group w ++ p) ≡ scan (behind out n w digit) p
unfolding group
scan-group out n w digit p h =
    scan-hex _ (w / 2 ^ 12 % 16) _ (omega arith) (omega arith)
    ∙ scan-hex _ (w / 2 ^ 8 % 16) _ (omega arith) (omega arith)
    ∙ scan-hex _ (w / 2 ^ 4 % 16) _ (omega arith) (omega arith)
    ∙ scan-hex _ (w % 16) _ (omega arith) (omega arith)
    ∙ ap (λ v. scan (behind out n v digit) p) (omega arith)

scan-colon :
    (out : Bytes) (n w : ℕ) (digit : Option Bytes) (p : Bytes)
    → 1 < n
    → scan (behind out n w digit) (b':' ∷ p) ≡ scan (before (put_word out w) (n - 1) (some p)) p
scan-colon out n w digit p h = scan-round _ b':' p _ (unfold round end_group in ground arith)

finished-behind :
    (out : Bytes) (w : ℕ) (digit : Option Bytes)
    → finished (some (behind out 1 w digit)) ≡ some (put_word out w)
unfolding finished
finished-behind out w digit = refl

abbrev pub Words : List ℕ → Type 0
Words [] = Unit {0}
Words (w ∷ ws) = (w < 2 ^ 16) × Words ws

scan-colons :
    (ws : List ℕ) (w : ℕ) (out : Bytes) (n : ℕ) (digit : Option Bytes)
    → n ≡ suc (length ws)
    → Words (w ∷ ws)
    → finished (scan (before out n digit) (colons w ws)) ≡ some (out ++ network_bytes (w ∷ ws))
unfolding colons network_bytes
scan-colons [] w out n digit e h =
    ap (λ p. finished (scan (before out n digit) p)) (sym (append-nil (group w)))
    ∙ ap finished (scan-group out n w digit [] h.0)
    ∙ ap finished (scan-nil (behind out n w digit))
    ∙ ap (λ k. finished (some (behind out k w digit))) e
    ∙ finished-behind out w digit
scan-colons (v ∷ ws) w out n digit e h =
    ap finished (scan-group out n w digit (b':' ∷ colons v ws) h.0)
    ∙ ap finished (scan-colon out n w digit (colons v ws) (omega arith))
    ∙ scan-colons ws v (put_word out w) (n - 1) (some (colons v ws)) (omega arith) h.1
    ∙ ap some (append_assoc out (w / 2 ^ 8 % 2 ^ 8 ∷ w % 2 ^ 8 ∷ []) (network_bytes (v ∷ ws)))

skip_colon-group : (w : ℕ) (p : Bytes) → skip_colon (group w ++ p) ≡ group w ++ p
unfolding skip_colon group hex
skip_colon-group w p = ground arith

skip_colon-colons : (w : ℕ) (ws : List ℕ) → skip_colon (colons w ws) ≡ colons w ws
unfolding colons
skip_colon-colons w [] =
    ap skip_colon (sym (append-nil (group w))) ∙ skip_colon-group w [] ∙ append-nil (group w)
skip_colon-colons w (v ∷ ws) = skip_colon-group w (b':' ∷ colons v ws)

inet6_addr_lem : (p : Bytes) → p ≢ [] → skip_colon p ≡ p → inet6_addr p ≡ finished (scan start p)
unfolding inet6_addr
inet6_addr_lem [] ne e = absurd (ne refl)
inet6_addr_lem (c ∷ p) ne e = ap (λ q. finished (scan start q)) e

colons-ne_nil : (w : ℕ) (ws : List ℕ) → colons w ws ≢ []
unfolding colons group
colons-ne_nil w [] = λ h. cc
colons-ne_nil w (v ∷ ws) = λ h. cc

-- The full notation of an address is read back as the bytes of its groups, in network order.
pub inet6_addr-colons :
    (w : ℕ) (ws : List ℕ)
    → length ws ≡ 7
    → Words (w ∷ ws)
    → inet6_addr (colons w ws) ≡ some (network_bytes (w ∷ ws))
inet6_addr-colons w ws e h =
    inet6_addr_lem (colons w ws) (colons-ne_nil w ws) (skip_colon-colons w ws)
    ∙ scan-colons ws w [] 8 none (omega arith) h
