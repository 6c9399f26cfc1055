-- ===== src/Ps/Parser.antt =====
-- `PSParser` of `pdf/ps/parser.go`. The state of a parser is the list of the bytes that its reader has
-- not returned; `Peek` sees a part of it.
pub mod Scan
pub mod Numbers
pub mod Words
pub mod Termination
pub mod RoundTrip
pub mod Unclosed
mod Tests
use unidoc.Prelude.{
  ℕ, zero, suc, ◌+◌, ◌-◌, ◌*◌, ◌/◌, ◌%◌, ◌^◌, Bool, true, false, ◌&&◌, ◌||◌, List, [], ◌∷◌, ◌++◌,
  Option, none, some, drop, codes, length, leb, ltb, ◌==◌, if◌then◌else◌,
}
use unidoc.Prelude.Int.{ℤ, pos, negsuc, sub_ℕ}
use unidoc.Core.Symbols.{is_white_space, is_decimal_digit, is_delimiter}
use unidoc.Text.{parse_int, has_prefix}
use unidoc.Core.Decoding.{Bytes}
use unidoc.Ps.Object.{
  PsObject, integer, real, boolean, program, operand, PsProgram, nil, cons, append_object,
}

-- `out_of_fuel` is the model's own, for a loop that has not ended within its fuel.
pub data ParseError : Type 0 where
  end_of_file invalid_program invalid_number invalid_boolean empty_operand out_of_fuel : ParseError

-- A value with the bytes that are left, or an error.
pub data Parsed {ℓ} (A : Type ℓ) : Type ℓ where
  ok : A → Bytes → Parsed A
  err : ParseError → Parsed A

abbrev pub and_then : {A B : Type 0} → Parsed A → (A → Bytes → Parsed B) → Parsed B
and_then (ok a rest) f = f a rest
and_then (err e) f = err e

unfoldable pub skip_spaces : Bytes → Bytes
skip_spaces [] = []
skip_spaces (b ∷ bs) = let rest = skip_spaces bs in if is_white_space b then rest else b ∷ bs

-- The text of a number, whether it is that of a `float64`, and what is left.
pub record Scanned : Type 0 where
  pub num_str : Bytes
  pub is_float : Bool
  pub unread : Bytes

-- The loop of `parseNumber`, with its variables `allowSigns`, `isFloat` and `numStr`.
unfoldable pub scan_number : Bool → Bool → Bytes → Bytes → Scanned
scan_number allow_signs is_float num_str [] = record {
  num_str = num_str;
  is_float = is_float;
  unread = [];
}
scan_number allow_signs is_float num_str (b ∷ bs) =
    let num_str' = num_str ++ b ∷ [] in
    let sign = scan_number false is_float num_str' bs in
    let digit = scan_number allow_signs is_float num_str' bs in
    let point = scan_number allow_signs true num_str' bs in
    let exponent = scan_number true true num_str' bs in
    if allow_signs && ((b == b'-') || (b == b'+'))
    then sign
    else if is_decimal_digit b
    then digit
    else if b == b'.'
    then point
    else if b == b'e'
    then exponent
    else record { num_str = num_str; is_float = is_float; unread = b ∷ bs }

-- The loop of `parseOperand`, with the word that is read so far.
unfoldable pub scan_word : Bytes → Bytes → Bytes × Bytes
scan_word word [] = (word, [])
scan_word word (b ∷ bs) =
    let more = scan_word (word ++ b ∷ []) bs in
    if is_delimiter b then (word, b ∷ bs) else if is_white_space b then (word, b ∷ bs) else more

module _ {F : Type 0} where
  -- `parseNumber`; `strconv.ParseFloat` is a parameter.
  unfoldable pub number_of : (Bytes → Option F) → Scanned → Parsed (PsObject F)
  number_of parse_float n =
      if n.is_float
      then elim (parse_float n.num_str) [
        | some x ↦ ok (real x) n.unread
        | none ↦ err invalid_number
      ]
      else elim (parse_int n.num_str) [
        | some i ↦ ok (integer i) n.unread
        | none ↦ err invalid_number
      ]

  unfoldable pub parse_number : (Bytes → Option F) → Bytes → Parsed (PsObject F)
  parse_number parse_float bs = number_of parse_float (scan_number true false [] bs)

  -- `parseBool`
  unfoldable pub parse_bool : Bytes → Parsed (PsObject F)
  unfolding has_prefix
  parse_bool bs =
      if ltb (length bs) 4
      then err end_of_file
      else if has_prefix (codes "true") bs
      then ok (boolean true) (drop 4 bs)
      else if ltb (length bs) 5
      then err end_of_file
      else if has_prefix (codes "false") bs
      then ok (boolean false) (drop 5 bs)
      else err invalid_boolean

  -- `parseOperand`
  abbrev pub operand_of : Bytes × Bytes → Parsed (PsObject F)
  operand_of ([], rest) = err empty_operand
  operand_of (b ∷ bs, rest) = ok (operand (b ∷ bs)) rest

  unfoldable pub parse_operand : Bytes → Parsed (PsObject F)
  unfolding scan_word
  parse_operand bs = operand_of (scan_word [] bs)

  -- The last branch of `parseFunction`.
  unfoldable pub parse_word : Bytes → Parsed (PsObject F)
  unfolding parse_bool parse_operand
  parse_word bs =
      if has_prefix (codes "false") bs
      then parse_bool bs
      else if has_prefix (codes "true") bs
      then parse_bool bs
      else parse_operand bs

-- What the two bytes that `parseFunction` peeks at begin. With fewer than two bytes left `Peek(2)`
-- fails with the end of the file, and the function ends, closed or not.
pub data Lead : Type 0 where
  at_end closing opening number word : Lead

unfoldable pub peek : Bytes → Lead
peek [] = at_end
peek (a ∷ []) = at_end
peek (a ∷ b ∷ bs) =
    if a == b'}'
    then closing
    else if a == b'{'
    then opening
    else if is_decimal_digit a || ((a == b'-') && is_decimal_digit b)
    then number
    else word

module _ {F : Type 0} (parse_float : Bytes → Option F) where
  -- A round of the loop of `parseFunction`, with the rest of the loop as an argument.
  unfoldable pub parse_round :
      (PsProgram F → Bytes → Parsed (PsProgram F))
      → Lead
      → PsProgram F
      → Bytes
      → Parsed (PsProgram F)
  parse_round go at_end function bs = ok function bs
  parse_round go closing function bs = ok function (drop 1 bs)
  parse_round go opening function bs =
      and_then (go nil (drop 1 bs)) (λ inline_f. go (append_object function (program inline_f)))
  parse_round go number function bs =
      and_then (parse_number parse_float bs) (λ o. go (append_object function o))
  parse_round go word function bs = and_then (parse_word bs) (λ o. go (append_object function o))

  -- The loop, a unit of fuel for each object and each level of nesting.
  unfoldable pub parse_objects : ℕ → PsProgram F → Bytes → Parsed (PsProgram F)
  parse_objects zero function bs = err out_of_fuel
  parse_objects (suc fuel) function bs =
      parse_round (parse_objects fuel) (peek (skip_spaces bs)) function (skip_spaces bs)

  -- `parseFunction`
  unfoldable pub parse_function : ℕ → Bytes → Parsed (PsProgram F)
  parse_function fuel [] = err invalid_program
  parse_function fuel (c ∷ bs) =
      let function = parse_objects fuel nil bs in
      if c == b'{' then function else err invalid_program

  -- `Parse`
  unfoldable pub parse : Bytes → Parsed (PsProgram F)
  parse content =
      let function = parse_function (suc (length content)) (skip_spaces content) in
      if ltb (length (skip_spaces content)) 2 then err end_of_file else function
