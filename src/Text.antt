-- ===== src/Text.antt =====
-- The string routines of src/pg_rest_string.c and include/pg_rest_string.h. A string is the list of
-- its bytes; a pointer into it is an index.
pub mod Decimal
pub mod Offset
pub mod Search
mod Tests
use pg_rest.Base.{
  ℕ, zero, suc, ◌+◌, ◌-◌, ◌*◌, ◌/◌, ◌%◌, ◌^◌, Bool, true, false, ◌&&◌, ◌||◌, not, Option, none,
  some, List, [], ◌∷◌, map, ltb, leb, ◌==◌, if◌then◌else◌, length,
}
use Prim.Native.Char.{code}
use Prim.Native.String.{String}
use pg_rest.Base.Int.{ℤ, pos, negsuc}

abbrev pub Bytes : Type 0
Bytes = List ℕ

-- The bytes of a literal of ASCII characters.
abbrev pub bytes : String → Bytes
bytes String.[] = []
bytes (String.◌∷◌ c s) = code c ∷ bytes s

unfoldable pub is_digit : ℕ → Bool
is_digit c = leb b'0' c && leb c b'9'

-- `pgrest_tolower`
unfoldable pub tolower : ℕ → ℕ
tolower ch = if leb b'A' ch && leb ch b'Z' then ch + 0x20 else ch

-- `pgrest_strtolower`: every byte is overwritten by its lower-case form.
unfoldable pub strtolower : Bytes → Bytes
unfolding tolower
strtolower s = map tolower s

-- `pgrest_strlchr`, as the distance of the result from `p`; `none` is NULL.
unfoldable pub strlchr : Bytes → ℕ → Option ℕ
strlchr [] c = none
strlchr (b ∷ s) c = elim (b == c) [
  | true ↦ some 0
  | false ↦ elim (strlchr s c) [ none ↦ none | some i ↦ some (suc i) ]
]

-- The loop of `pgrest_count_params`.
unfoldable pub count_wildcards : Bytes → ℕ
count_wildcards [] = 0
count_wildcards (c ∷ s) =
    if not (c == b':') && not (c == b'*') then count_wildcards s else suc (count_wildcards s)

-- `pgrest_count_params`
unfoldable pub count_params : Bytes → ℕ
unfolding count_wildcards
count_params path = let n = count_wildcards path in if leb 255 n then 255 else n

-- PGREST_MAX_OFF_T_VALUE, and PGREST_MAX_TIME_T_VALUE on a platform with 64-bit pointers.
abbrev pub max_off : ℕ
max_off = 2 ^ 63 - 1

abbrev pub cutoff : ℕ
cutoff = max_off / 10

abbrev pub cutlim : ℕ
cutlim = max_off % 10

-- The loop of `pgrest_atoof` over the bytes that are left; `none` is PGREST_ERROR.
unfoldable pub atoof_from : ℕ → Bytes → Option ℕ
unfolding is_digit
atoof_from value [] = some value
atoof_from value (c ∷ line) =
    if ltb c b'0' || ltb b'9' c
    then none
    else if leb cutoff value && (ltb cutoff value || ltb cutlim (c - b'0'))
    then none
    else atoof_from (value * 10 + (c - b'0')) line

-- `pgrest_atoof`
unfoldable pub atoof : Bytes → Option ℕ
unfolding atoof_from
atoof [] = none
atoof (c ∷ line) = atoof_from 0 (c ∷ line)

-- `pgrest_atotm`: the same loop with the bound of `time_t`, which is that of `off_t` where pointers
-- have 64 bits.
unfoldable pub atotm : Bytes → Option ℕ
unfolding atoof_from
atotm [] = none
atotm (c ∷ line) = atoof_from 0 (c ∷ line)

-- The white space that `isspace` accepts in the C locale.
is_space : ℕ → Bool
is_space c = c == b' ' || leb 9 c && leb c 13

skip_spaces : Bytes → Bytes
unfolding is_space
skip_spaces [] = []
skip_spaces (c ∷ s) = if is_space c then skip_spaces s else c ∷ s

-- The digits in front of `s`, read on top of `v`.
leading_number : ℕ → Bytes → ℕ
unfolding is_digit
leading_number v [] = v
leading_number v (c ∷ s) = if is_digit c then leading_number (v * 10 + (c - b'0')) s else v

-- The `int` that is left of a `long`, saturated at its bounds: what the C library's `atoi`, a cast of
-- `strtol`, makes of a positive and of a negative number.
int_of_bits : ℕ → ℤ
int_of_bits w = if ltb w (2 ^ 31) then pos w else negsuc (2 ^ 32 - 1 - w)

saturated : ℕ → ℕ → ℕ
saturated bound v = if ltb bound v then bound else v

c_atoi_signed : Bytes → ℤ
unfolding leading_number int_of_bits saturated
c_atoi_signed [] = pos 0
c_atoi_signed (c ∷ s) =
    if c == b'-'
    then int_of_bits ((2 ^ 32 - saturated (2 ^ 63) (leading_number 0 s) % 2 ^ 32) % 2 ^ 32)
    else if c == b'+'
    then int_of_bits (saturated max_off (leading_number 0 s) % 2 ^ 32)
    else int_of_bits (saturated max_off (leading_number 0 (c ∷ s)) % 2 ^ 32)

unfoldable pub c_atoi : Bytes → ℤ
unfolding skip_spaces c_atoi_signed
c_atoi s = c_atoi_signed (skip_spaces s)

-- `pgrest_atoi` copies its argument and a final zero into `char buff[32]`: `none` is the write past
-- the end of that array.
unfoldable pub atoi : Bytes → Option ℤ
unfolding c_atoi
atoi arg = if ltb (length arg) 32 then some (c_atoi arg) else none
