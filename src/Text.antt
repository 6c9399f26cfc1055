-- ===== src/Text.antt =====
-- Texts as lists of bytes: what the code uses of Go's `strconv` for integers, and the test for a
-- prefix.
pub mod Numerals
use unidoc.Prelude.{
  ℕ, zero, suc, ◌+◌, ◌-◌, ◌*◌, ◌/◌, ◌%◌, ◌^◌, Bool, true, false, ◌&&◌, [], ◌∷◌, ◌++◌, Option, none,
  some, leb, ltb, ◌==◌, if◌then◌else◌,
}
use unidoc.Prelude.Int.{ℤ, pos, negsuc, sub_ℕ}
use unidoc.Core.Symbols.{is_decimal_digit}
use unidoc.Core.Decoding.{Bytes}

-- `%d` of a natural number below 10 ^ k, for k > 0.
unfoldable pub decimal : ℕ → ℕ → Bytes
decimal zero n = []
decimal (suc k) n = if ltb n 10 then (b'0' + n) ∷ [] else decimal k (n / 10) ++ (b'0' + n % 10) ∷ []

-- `%d` of an `int`, which has at most 19 digits
unfoldable pub int_string : ℤ → Bytes
int_string (pos n) = decimal 20 n
int_string (negsuc n) = b'-' ∷ decimal 20 (n + 1)

-- `strconv.ParseInt(s, 10, 64)`: a sign, at most, and digits, within the range of `int64`.
unfoldable pub read_decimal : ℕ → Bytes → Option ℕ
read_decimal n [] = some n
read_decimal n (c ∷ cs) =
    let more = read_decimal (n * 10 + (c - b'0')) cs in if is_decimal_digit c then more else none

unfoldable pub read_unsigned : Bytes → Option ℕ
unfolding read_decimal
read_unsigned [] = none
read_unsigned (c ∷ cs) = read_decimal 0 (c ∷ cs)

abbrev pub positive : Option ℕ → Option ℤ
positive none = none
positive (some n) = if ltb n (2 ^ 63) then some (pos n) else none

abbrev pub negative : Option ℕ → Option ℤ
negative none = none
negative (some n) = if leb n (2 ^ 63) then some (sub_ℕ 0 n) else none

unfoldable pub parse_int : Bytes → Option ℤ
parse_int [] = none
parse_int (c ∷ cs) =
    if c == b'-'
    then negative (read_unsigned cs)
    else if c == b'+'
    then positive (read_unsigned cs)
    else positive (read_unsigned (c ∷ cs))

-- What the bytes begin with.
unfoldable pub has_prefix : Bytes → Bytes → Bool
has_prefix [] bs = true
has_prefix (p ∷ ps) [] = false
has_prefix (p ∷ ps) (b ∷ bs) = (p == b) && has_prefix ps bs
