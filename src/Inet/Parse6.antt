-- ===== src/Inet/Parse6.antt =====
-- `pgrest_inet_inet6_addr` of src/pg_rest_inet.c. The bytes written through `addr` are the list
-- `out`; `zero` is its length where the "::" stood, and `digit` is the text behind the last colon,
-- which `len4 - 1` bytes reach to the end of.
use Prim.Native.Nat.{bit_or}
use pg_rest.Base.{
  ℕ, ◌+◌, ◌-◌, ◌*◌, ◌/◌, ◌%◌, ◌^◌, Bool, ◌&&◌, not, Option, none, some, [], ◌∷◌, ◌++◌, ltb, leb,
  ◌==◌, if◌then◌else◌, length, take, drop, replicate,
}
use pg_rest.Text.{Bytes}
use pg_rest.Inet.{htonl, inaddr_none, inet_addr}

pub record Scan : Type 0 where
  pub out : Bytes
  pub n : ℕ
  pub nibbles : ℕ
  pub word : ℕ
  pub zero : Option ℕ
  pub digit : Option Bytes

-- What one round of the loop does: the next round, `return false`, or `break`.
pub data Round : Type 0 where
  next : Scan → Round
  fail : Round
  stop : Scan → Round

-- `*addr++ = (unsigned char) (word >> 8); *addr++ = (unsigned char) (word & 0xff);`
abbrev pub put_word : Bytes → ℕ → Bytes
put_word out word = out ++ word / 2 ^ 8 % 2 ^ 8 ∷ word % 2 ^ 8 ∷ []

-- A colon behind a group. `n` is never zero here.
unfoldable pub end_group : Scan → Bytes → Round
end_group s p =
    if s.n - 1 == 0
    then fail
    else next (record {
      out = put_word s.out s.word;
      n = s.n - 1;
      nibbles = 0;
      word = 0;
      zero = s.zero;
      digit = some p;
    })

-- A second colon, or the one left of a leading pair.
unfoldable pub double_colon : Scan → Bytes → Round
double_colon s p = elim s.zero [
  | none ↦ next (record s { digit = some p; zero = some (length s.out) })
  | some _ ↦ fail
]

-- An IPv4 address in the last four bytes.
unfoldable pub dotted_tail : Scan → Round
dotted_tail s = if ltb s.n 2 then fail else elim s.digit [
  | none ↦ fail
  | some p ↦
      let word = inet_addr p in
      if word == inaddr_none
      then fail
      else stop
          (record s { out = put_word s.out (htonl word / 2 ^ 16); n = s.n - 1; word = htonl word })
]

unfoldable pub nibble : Scan → ℕ → Round
nibble s c =
    if ltb 4 (s.nibbles + 1)
    then fail
    else if leb b'0' c && leb c b'9'
    then next (record s { nibbles = s.nibbles + 1; word = s.word * 16 + (c - b'0') })
    else (let lower = bit_or c 0x20 in
        if leb b'a' lower && leb lower b'f'
        then next (record s { nibbles = s.nibbles + 1; word = s.word * 16 + (lower - b'a') + 10 })
        else fail)

-- One round on the byte `c`, with the bytes `p` behind it.
unfoldable pub round : Scan → ℕ → Bytes → Round
round s c p =
    if c == b':'
    then (if not (s.nibbles == 0) then end_group s p else double_colon s p)
    else if c == b'.' && not (s.nibbles == 0)
    then dotted_tail s
    else nibble s c

-- The loop; `none` is `return false`.
unfoldable pub scan : Scan → Bytes → Option Scan
unfolding round end_group double_colon dotted_tail nibble
scan s [] = some s
scan s (c ∷ p) = elim (round s c p) [ next t ↦ scan t p | fail ↦ none | stop t ↦ some t ]

-- What follows the loop. The bytes behind the "::" move to the end of the address, and zeros take
-- their place.
unfoldable pub finish : Scan → Option Bytes
finish s =
    let out = put_word s.out s.word in
    let n = s.n - 1 in
    let none_yet : Bool = elim s.zero [ none ↦ s.nibbles == 0 | some _ ↦ 0 == 1 ] in
    if none_yet
    then none
    else if n == 0
    then elim s.zero [ none ↦ some out | some _ ↦ none ]
    else elim s.zero [
      | none ↦ none
      | some z ↦ some (take z out ++ replicate (n * 2) 0 ++ drop z out)
    ]

unfoldable pub finished : Option Scan → Option Bytes
unfolding finish
finished none = none
finished (some s) = finish s

abbrev pub start : Scan
start = record { out = []; n = 8; nibbles = 0; word = 0; zero = none; digit = none }

-- A colon in front is skipped.
unfoldable pub skip_colon : Bytes → Bytes
skip_colon [] = []
skip_colon (c ∷ p) = if c == b':' then p else c ∷ p

-- `pgrest_inet_inet6_addr`: the sixteen bytes of the address, or `none` for `false`.
unfoldable pub inet6_addr : Bytes → Option Bytes
unfolding skip_colon scan finished
inet6_addr [] = none
inet6_addr (c ∷ p) = finished (scan start (skip_colon (c ∷ p)))
