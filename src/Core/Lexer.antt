-- ===== src/Core/Lexer.antt =====
-- The methods of `PdfParser` (`pdf/core/parser.go`) that read one token. The state of a parser is the
-- list of the bytes that its reader has not returned.
pub mod Names
pub mod Strings
pub mod Numbers
pub mod Tails
use unidoc.Prelude.{
  ℕ, zero, suc, ◌+◌, ◌-◌, ◌*◌, ◌%◌, Bool, true, false, ◌&&◌, ◌||◌, List, [], ◌∷◌, ◌++◌, Option,
  none, some, length, drop, leb, ltb, ◌==◌, codes, if◌then◌else◌,
}
use unidoc.Prelude.Int.{ℤ, pos}
use unidoc.Text.{parse_int}
use unidoc.Core.Symbols.{is_white_space, is_decimal_digit}
use unidoc.Core.Decoding.{Bytes}
use unidoc.Core.AsciiHex.{from_hex_char}

-- `out_of_fuel` is the model's own, for a loop that has not ended within its fuel.
pub data ParseError : Type 0 where
  end_of_file invalid_name invalid_reference unexpected_pattern out_of_fuel : ParseError

-- A value with the bytes that are left, an error, or a run-time panic.
pub data Parsed (A : Type 0) : Type 0 where
  ok : A → Bytes → Parsed A
  err : ParseError → Parsed A
  panic : Parsed A

abbrev pub and_then : {A B : Type 0} → Parsed A → (A → Bytes → Parsed B) → Parsed B
and_then (ok a rest) f = f a rest
and_then (err e) f = err e
and_then panic f = panic

unfoldable pub skip_spaces : Bytes → Bytes
skip_spaces [] = []
skip_spaces (b ∷ bs) = let rest = skip_spaces bs in if is_white_space b then rest else b ∷ bs

-- `skipComments`, which `readComment` and `skipSpaces` in turn amount to as well. The argument tells
-- whether a comment has begun; the end of its line is white space.
unfoldable pub skip_comments : Bool → Bytes → Bytes
skip_comments inside [] = []
skip_comments true (b ∷ bs) =
    let outside = skip_comments false bs in
    let more = skip_comments true bs in if (b == 0x0D) || (b == 0x0A) then outside else more
skip_comments false (b ∷ bs) =
    let rest = skip_comments false bs in
    let more = skip_comments true bs in
    if is_white_space b then rest else if b == b'%' then more else b ∷ bs

-- The bytes at which a name ends.
abbrev pub ends_name : ℕ → Bool
ends_name b =
    is_white_space b
    || (b == b'/')
    || (b == b'[')
    || (b == b'(')
    || (b == b']')
    || (b == b'<')
    || (b == b'>')

-- `hex.DecodeString` of two digits.
unfoldable pub hex_pair : Option ℕ → Option ℕ → Option ℕ
hex_pair (some a) (some b) = some (a * 16 + b)
hex_pair (some a) none = none
hex_pair none b = none

abbrev pub code_or_hash : Option ℕ → ℕ
code_or_hash (some code) = code
code_or_hash none = b'#'

-- The branch of `parseName` for `#`; the two bytes behind it are dropped if they are no digits.
unfoldable pub read_code : (Bytes → Bytes → Parsed Bytes) → Bytes → Bytes → Parsed Bytes
unfolding hex_pair from_hex_char
read_code go r (x ∷ y ∷ bs) =
    go (r ++ code_or_hash (hex_pair (from_hex_char x) (from_hex_char y)) ∷ []) bs
read_code go r _ = err end_of_file

-- A round of the loop of `parseName` after the `/`, with the rest of the loop as an argument.
unfoldable pub name_round : (Bytes → Bytes → Parsed Bytes) → Bytes → Bytes → Parsed Bytes
unfolding read_code
name_round go r [] = ok r []
name_round go r (b ∷ bs) =
    if ends_name b
    then ok r (b ∷ bs)
    else if b == b'#'
    then read_code go r bs
    else go (r ++ b ∷ []) bs

unfoldable pub read_name : ℕ → Bytes → Bytes → Parsed Bytes
read_name zero r bs = err out_of_fuel
read_name (suc fuel) r bs = name_round (read_name fuel) r bs

unfoldable pub name_after_comments : Bytes → Parsed Bytes
name_after_comments [] = ok [] []
name_after_comments (b ∷ bs) =
    if b == b'/' then read_name (suc (length bs)) [] bs else err invalid_name

unfoldable pub parse_name : Bytes → Parsed Bytes
parse_name [] = ok [] []
parse_name (b ∷ bs) =
    if b == b'%'
    then name_after_comments (skip_comments false (b ∷ bs))
    else name_after_comments (b ∷ bs)

-- The text of a number, whether it is that of a `float64`, and what is left.
pub record Scanned : Type 0 where
  pub digits : Bytes
  pub is_float : Bool
  pub unread : Bytes

-- The loop of `parseNumber`, with its variables `allowSigns`, `isFloat` and `r`.
unfoldable pub scan_number : Bool → Bool → Bytes → Bytes → Scanned
scan_number allow_signs is_float r [] = record { digits = r; is_float = is_float; unread = [] }
scan_number allow_signs is_float r (b ∷ bs) =
    let r' = r ++ b ∷ [] in
    let sign = scan_number false is_float r' bs in
    let digit = scan_number allow_signs is_float r' bs in
    let point = scan_number allow_signs true r' bs in
    let exponent = scan_number true true r' bs in
    if allow_signs && ((b == b'-') || (b == b'+'))
    then sign
    else if is_decimal_digit b
    then digit
    else if b == b'.'
    then point
    else if (b == b'e') || (b == b'E')
    then exponent
    else record { digits = r; is_float = is_float; unread = b ∷ bs }

abbrev pub or_zero : {A : Type 0} → A → Option A → A
or_zero z none = z
or_zero z (some a) = a

-- The branches of `parseString` behind a backslash.
abbrev pub is_octal_digit : ℕ → Bool
is_octal_digit c = leb b'0' c && leb c b'7'

abbrev pub octal : ℕ → ℕ
octal d = d - b'0'

unfoldable pub read_octal : (Bytes → Bytes → Parsed Bytes) → Bytes → ℕ → Bytes → Parsed Bytes
read_octal go r b (x ∷ y ∷ bs) =
    if is_octal_digit x
    then if is_octal_digit y
      then go (r ++ ((octal b * 64 + octal x * 8 + octal y) % 256) ∷ []) bs
      else go (r ++ (octal b * 8 + octal x) ∷ []) (y ∷ bs)
    else go (r ++ octal b ∷ []) (x ∷ y ∷ bs)
read_octal go r b _ = err end_of_file

unfoldable pub escaped : ℕ → Bytes
escaped b =
    if b == b'n'
    then 0x0A ∷ []
    else if b == b'r'
    then 0x0D ∷ []
    else if b == b't'
    then 0x09 ∷ []
    else if b == b'b'
    then 0x08 ∷ []
    else if b == b'f'
    then 0x0C ∷ []
    else if (b == b'(') || (b == b')') || (b == 0x5C)
    then b ∷ []
    else []

unfoldable pub read_escape : (Bytes → Bytes → Parsed Bytes) → Bytes → Bytes → Parsed Bytes
unfolding read_octal escaped
read_escape go r [] = err end_of_file
read_escape go r (b ∷ bs) =
    if is_octal_digit b then read_octal go r b bs else go (r ++ escaped b) bs

-- A round of the loop of `parseString`, with the variables `count` and `r`.
unfoldable pub string_round : (ℕ → Bytes → Bytes → Parsed Bytes) → ℕ → Bytes → Bytes → Parsed Bytes
unfolding read_escape
string_round go count r [] = err end_of_file
string_round go count r (b ∷ bs) =
    if b == 0x5C
    then read_escape (go count) r bs
    else if b == b'('
    then go (count + 1) (r ++ b ∷ []) bs
    else if b == b')'
    then if count == 1 then ok r bs else go (count - 1) (r ++ b ∷ []) bs
    else go count (r ++ b ∷ []) bs

unfoldable pub read_string : ℕ → ℕ → Bytes → Bytes → Parsed Bytes
read_string zero count r bs = err out_of_fuel
read_string (suc fuel) count r bs = string_round (read_string fuel) count r bs

unfoldable pub parse_string : Bytes → Parsed Bytes
parse_string bs = read_string (suc (length (drop 1 bs))) 1 [] (drop 1 bs)

-- The loop of `parseHexString`.
unfoldable pub read_hex : Bytes → Bytes → Parsed Bytes
read_hex r [] = err end_of_file
read_hex r (b ∷ bs) =
    let more = read_hex (if is_white_space b then r else r ++ b ∷ []) bs in
    if b == b'>' then ok r bs else more

-- `hex.DecodeString` without its error: the bytes before the first fault.
abbrev pub cons_code : Option ℕ → Bytes → Bytes
cons_code none bs = []
cons_code (some code) bs = code ∷ bs

unfoldable pub decode_hex : Bytes → Bytes
unfolding hex_pair from_hex_char
decode_hex [] = []
decode_hex (x ∷ []) = []
decode_hex (x ∷ y ∷ s) = cons_code (hex_pair (from_hex_char x) (from_hex_char y)) (decode_hex s)

unfoldable pub padded : Bytes → Bytes
padded r = if length r % 2 == 1 then r ++ b'0' ∷ [] else r

unfoldable pub parse_hex_string : Bytes → Parsed Bytes
unfolding decode_hex padded
parse_hex_string bs = and_then (read_hex [] (drop 1 bs)) (λ r. ok (decode_hex (padded r)))
