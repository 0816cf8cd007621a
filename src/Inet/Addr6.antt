-- ===== src/Inet/Addr6.antt =====
-- The length of what `pgrest_inet_inet6_addr` of src/pg_rest_inet.c writes.
use pg_rest.Base.{
  ℕ, ◌+◌, ◌-◌, ◌*◌, ◌/◌, ◌%◌, ◌^◌, ◌<◌, ◌≡◌, Option, none, some, [], ◌∷◌, ◌++◌, arith, length, inl,
  inr, Option-cases, take, drop, replicate, length-append, length-take, length-drop,
  length-replicate,
}
use pg_rest.Text.{Bytes}
use pg_rest.Inet.Parse6.{
  Scan, Round, next, fail, stop, put_word, end_group, double_colon, dotted_tail, nibble, round,
  scan, finish, finished, start, skip_colon, inet6_addr,
}

-- The loop never writes past the sixteen bytes of the address.
pub record InBounds (s : Scan) : Type 0 where
  pub total : length s.out + 2 * s.n ≡ 16
  pub left : 0 < s.n

abbrev RoundInBounds : Round → Type 0
RoundInBounds (next s) = InBounds s
RoundInBounds fail = Unit {0}
RoundInBounds (stop s) = InBounds s

length-put_word : (out : Bytes) (w : ℕ) → length (put_word out w) ≡ length out + 2
length-put_word out w = omega (arith, length-append out (w / 2 ^ 8 % 2 ^ 8 ∷ w % 2 ^ 8 ∷ []))

end_group-InBounds : (s : Scan) (p : Bytes) → InBounds s → RoundInBounds (end_group s p)
unfolding end_group
end_group-InBounds s p h = ground (arith, length-put_word s.out s.word)

double_colon-InBounds : (s : Scan) (p : Bytes) → InBounds s → RoundInBounds (double_colon s p)
unfolding double_colon
double_colon-InBounds s p h = ground arith

dotted_tail-InBounds : (s : Scan) → InBounds s → RoundInBounds (dotted_tail s)
unfolding dotted_tail
dotted_tail-InBounds s h = grind (arith, length-put_word)

nibble-InBounds : (s : Scan) (c : ℕ) → InBounds s → RoundInBounds (nibble s c)
unfolding nibble
nibble-InBounds s c h = ground arith

round-InBounds : (s : Scan) (c : ℕ) (p : Bytes) → InBounds s → RoundInBounds (round s c p)
unfolding round
round-InBounds s c p h = ground (
  arith,
  end_group-InBounds s p h,
  double_colon-InBounds s p h,
  dotted_tail-InBounds s h,
  nibble-InBounds s c h,
)

-- A property of the state at the end of the loop, if it ends by itself or by `break`.
abbrev ScanInBounds : Option Scan → Type 0
ScanInBounds none = Unit {0}
ScanInBounds (some s) = InBounds s

scan-InBounds : (p : Bytes) (s : Scan) → InBounds s → ScanInBounds (scan s p)
unfolding scan
scan-InBounds [] s h = h
scan-InBounds (c ∷ p) s h = rest (round s c p) (round-InBounds s c p h) (scan-InBounds p)
  where
    rest :
        (r : Round)
        → RoundInBounds r
        → ((t : Scan) → InBounds t → ScanInBounds (scan t p))
        → ScanInBounds (elim r [ next t ↦ scan t p | fail ↦ none | stop t ↦ some t ])
    rest (next t) k f = f t k
    rest fail k f = tt
    rest (stop t) k f = k

length-spread :
    (out : Bytes) (n z : ℕ) → length (take z out ++ replicate n 0 ++ drop z out) ≡ length out + n
length-spread out n z = omega (
  arith,
  length-append (take z out ++ replicate n 0) (drop z out),
  length-append (take z out) (replicate n 0),
  length-take z out,
  length-drop z out,
  length-replicate {A = ℕ} n 0,
)

length-finish : (s : Scan) (b : Bytes) → InBounds s → finish s ≡ some b → length b ≡ 16
unfolding finish
length-finish s b h e =
    let out = put_word s.out s.word in
    let written = length-put_word s.out s.word in
    elim (Option-cases s.zero) [
      | inl q ↦ ground (arith, written)
      | inr (z, q) ↦ ground (arith, written, length-spread out ((s.n - 1) * 2) z)
    ]

length-scanned :
    (o : Option Scan) (b : Bytes) → ScanInBounds o → finished o ≡ some b → length b ≡ 16
unfolding finished
length-scanned none b h e = cc
length-scanned (some s) b h e = length-finish s b h e

-- Every address that `pgrest_inet_inet6_addr` accepts has sixteen bytes.
pub length-inet6_addr : (p b : Bytes) → inet6_addr p ≡ some b → length b ≡ 16
unfolding inet6_addr
length-inet6_addr [] b e = cc
length-inet6_addr (c ∷ p) b e =
    length-scanned (scan start (skip_colon (c ∷ p))) b
      (scan-InBounds (skip_colon (c ∷ p)) start (omega arith)) e
