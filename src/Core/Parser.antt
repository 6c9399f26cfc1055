-- ===== src/Core/Parser.antt =====
-- `parseObject`, `parseArray` and `ParseDict` of `pdf/core/parser.go`, with the regular expressions by
-- which they tell references and numbers apart.
pub mod References
pub mod Numbers
pub mod Indirect
pub mod Tests
pub mod NullKeys
pub mod Endless
pub mod Tails
pub mod Termination
pub mod Rounds
pub mod Atoms
pub mod Containers
pub mod RoundTrip
pub mod Printable
use unidoc.Prelude.{
  ℕ, zero, suc, ◌+◌, ◌-◌, ◌^◌, ◌<◌, Bool, true, false, not, ◌&&◌, ◌||◌, [], ◌∷◌, ◌++◌, Option, none,
  some, length, take, drop, leb, ltb, ◌==◌, bytes_eq, codes, if◌then◌else◌,
}
use unidoc.Prelude.Int.{ℤ, pos}
use unidoc.Text.{has_prefix, parse_int, read_decimal}
use unidoc.Core.Symbols.{is_decimal_digit}
use unidoc.Core.Decoding.{Bytes}
use unidoc.Core.Object.{
  PdfObject, null, boolean, integer, real, text, name, array, dictionary, reference, Elements, nil,
  Entries, empty, append, set_entry,
}
use unidoc.Core.Lexer.{
  end_of_file, invalid_reference, unexpected_pattern, out_of_fuel, Parsed, ok, err, panic, and_then,
  skip_spaces, skip_comments, parse_name, Scanned, scan_number, or_zero, parse_string,
  parse_hex_string,
}

-- `\s` of a regular expression, which leaves out the byte 0.
abbrev pub is_re_space : ℕ → Bool
is_re_space c = (c == 0x09) || (c == 0x0A) || (c == 0x0C) || (c == 0x0D) || (c == 0x20)

-- `c*` and `c+` for a class c: the longest match serves, since no two neighbours share a byte.
unfoldable pub span : (ℕ → Bool) → Bytes → Bytes × Bytes
span test [] = ([], [])
span test (b ∷ bs) =
    let (word, rest) = span test bs in if test b then (b ∷ word, rest) else ([], b ∷ bs)

module _ {A : Type 0} where
  abbrev pub on_word : (Bytes → Bytes → Option A) → Bytes × Bytes → Option A
  on_word next ([], rest) = none
  on_word next (b ∷ word, rest) = next (b ∷ word) rest

  unfoldable pub one_or_more : (ℕ → Bool) → Bytes → (Bytes → Bytes → Option A) → Option A
  one_or_more test bs next = on_word next (span test bs)

abbrev pub starts_with : ℕ → Bytes → Bool
starts_with c [] = false
starts_with c (b ∷ bs) = b == c

-- `^\s*(\d+)\s+(\d+)\s+R`, which is `reReference`, from its end: `\s+R`, what follows the first
-- number, and the whole.
unfoldable pub match_end : Bytes → Bytes → Bytes → Option (Bytes × Bytes)
match_end number generation bs =
    one_or_more is_re_space bs
      (λ _ rest. if starts_with b'R' rest then some (number, generation) else none)

unfoldable pub match_generation : Bytes → Bytes → Option (Bytes × Bytes)
match_generation number bs =
    one_or_more is_re_space bs (λ _ rest. one_or_more is_decimal_digit rest (match_end number))

unfoldable pub match_reference : Bytes → Option (Bytes × Bytes)
match_reference bs = one_or_more is_decimal_digit (span is_re_space bs).1 match_generation

-- `^[\+-.]*([0-9.]+)`, which is `reNumeric`: `+-.` is a range of four bytes, and the first group may
-- leave a period for the second.
unfoldable pub match_numeric : Bytes → Bool
match_numeric [] = false
match_numeric (c ∷ cs) =
    is_decimal_digit c || (c == b'.') || ((leb b'+' c && leb c b'.') && match_numeric cs)

-- `strconv.Atoi` of digits without its error, which is for a number beyond the range.
unfoldable pub atoi : Bytes → ℤ
unfolding read_decimal
atoi ds = clamp (read_decimal 0 ds)
  where
    clamp : Option ℕ → ℤ
    clamp none = pos 0
    clamp (some n) = if ltb n (2 ^ 63) then pos n else pos (2 ^ 63 - 1)

-- `ReadBytes('R')`: the bytes up to the first `R`, and those behind it.
unfoldable pub read_bytes : ℕ → Bytes → Bytes × Bytes
read_bytes delim [] = ([], [])
read_bytes delim (b ∷ bs) =
    let (word, rest) = read_bytes delim bs in if b == delim then (b ∷ [], bs) else (b ∷ word, rest)

module _ {F : Type 0} where
  -- `parseReference`
  unfoldable pub reference_of : Option (Bytes × Bytes) → Bytes → Parsed (PdfObject F)
  unfolding atoi
  reference_of none rest = err invalid_reference
  reference_of (some (number, generation)) rest =
      ok (reference (atoi number) (atoi generation)) rest

  unfoldable pub parse_reference : Bytes → Parsed (PdfObject F)
  parse_reference bs =
      let (word, rest) = read_bytes b'R' bs in reference_of (match_reference word) rest

  -- `parseNumber`; a text that `strconv` refuses is 0.
  unfoldable pub number_of : F → (Bytes → Option F) → Scanned → Parsed (PdfObject F)
  unfolding parse_int
  number_of zero_float parse_float n =
      if n.is_float
      then ok (real (or_zero zero_float (parse_float n.digits))) n.unread
      else ok (integer (or_zero (pos 0) (parse_int n.digits))) n.unread

-- What `parseObject` finds at the next two bytes.
pub data Kind : Type 0 where
  at_end name_kind string_kind array_kind dict_kind hex_kind other : Kind

unfoldable pub kind_of : Bytes → Kind
kind_of [] = at_end
kind_of (b ∷ bs) =
    if b == b'/'
    then name_kind
    else if b == b'('
    then string_kind
    else if b == b'['
    then array_kind
    else if b == b'<'
    then if starts_with b'<' bs then dict_kind else hex_kind
    else other

-- Some writers append `null` to the key.
unfoldable pub ends_with_null : Bytes → Bool
ends_with_null key = ltb 4 (length key) && bytes_eq (drop (length key - 4) key) (codes "null")

module _ {F : Type 0} where
  -- A round of the loop of `parseArray`.
  unfoldable pub array_round :
      (Bytes → Parsed (PdfObject F))
      → (Elements F → Bytes → Parsed (Elements F))
      → Elements F
      → Bytes
      → Parsed (Elements F)
  array_round object go es [] = err end_of_file
  array_round object go es (b ∷ bs) =
      if b == b']' then ok es bs else and_then (object (b ∷ bs)) (λ o. go (append es o))

  unfoldable pub entry_value :
      (Bytes → Parsed (PdfObject F))
      → (Entries F → Bytes → Parsed (Entries F))
      → Entries F
      → Bytes
      → Bytes
      → Parsed (Entries F)
  entry_value object go es key bs = and_then (object bs) (λ o. go (set_entry key o es))

  -- The byte that `Peek(1)` gives is read without a test for the end of the file.
  unfoldable pub null_or_value :
      (Bytes → Parsed (PdfObject F))
      → (Entries F → Bytes → Parsed (Entries F))
      → Entries F
      → Bytes
      → Bytes
      → Parsed (Entries F)
  null_or_value object go es key [] = panic
  null_or_value object go es key (b ∷ bs) =
      if b == b'/'
      then go (set_entry (take (length key - 4) key) null es) (b ∷ bs)
      else entry_value object go es key (b ∷ bs)

  -- A round of the loop of `ParseDict`, behind `<<` and the entries before.
  unfoldable pub dict_entry :
      (Bytes → Parsed (PdfObject F))
      → (Entries F → Bytes → Parsed (Entries F))
      → Entries F
      → Bytes
      → Parsed (Entries F)
  dict_entry object go es bs = and_then (parse_name bs) (λ key rest.
      if ends_with_null key
      then null_or_value object go es key (skip_spaces rest)
      else entry_value object go es key (skip_spaces rest))

  unfoldable pub dict_round :
      (Bytes → Parsed (PdfObject F))
      → (Entries F → Bytes → Parsed (Entries F))
      → Entries F
      → Bytes
      → Parsed (Entries F)
  dict_round object go es (a ∷ b ∷ bs) =
      if (a == b'>') && (b == b'>') then ok es bs else dict_entry object go es (a ∷ b ∷ bs)
  dict_round object go es _ = err end_of_file

-- `strconv.ParseFloat` and the float that is 0.0 are parameters.
module _ {F : Type 0} (zero_float : F) (parse_float : Bytes → Option F) where
  unfoldable pub parse_number : Bytes → Parsed (PdfObject F)
  parse_number bs = number_of zero_float parse_float (scan_number true false [] bs)

  -- `reExponential` begins like `reNumeric`, so that its branch is never reached.
  unfoldable pub number_or_reference : Option (Bytes × Bytes) → Bytes → Bytes → Parsed (PdfObject F)
  number_or_reference (some _) ahead bs = parse_reference bs
  number_or_reference none ahead bs =
      if match_numeric ahead then parse_number bs else err unexpected_pattern

  -- The last branch of `parseObject`, by the 15 bytes that it peeks at.
  unfoldable pub parse_other : Bytes → Bytes → Parsed (PdfObject F)
  parse_other ahead bs =
      if has_prefix (codes "null") ahead
      then ok null (drop 4 bs)
      else if has_prefix (codes "false") ahead
      then ok (boolean false) (drop 5 bs)
      else if has_prefix (codes "true") ahead
      then ok (boolean true) (drop 4 bs)
      else number_or_reference (match_reference ahead) ahead bs

  -- `parseObject` with `parseArray` and `ParseDict` as arguments.
  unfoldable pub parse_kind :
      (Bytes → Parsed (Elements F))
      → (Bytes → Parsed (Entries F))
      → Kind
      → Bytes
      → Parsed (PdfObject F)
  parse_kind arr dict at_end bs = err end_of_file
  parse_kind arr dict name_kind bs = and_then (parse_name bs) (λ k. ok (name k))
  parse_kind arr dict string_kind bs = and_then (parse_string bs) (λ s. ok (text s false))
  parse_kind arr dict array_kind bs = and_then (arr (drop 1 bs)) (λ es. ok (array es))
  parse_kind arr dict dict_kind bs = and_then (dict (drop 2 bs)) (λ es. ok (dictionary es))
  parse_kind arr dict hex_kind bs = and_then (parse_hex_string bs) (λ s. ok (text s true))
  parse_kind arr dict other bs = parse_other (take 15 bs) bs

  -- A unit of fuel for each object, element and entry, and each level of nesting.
  unfoldable mutual
    pub parse_object : ℕ → Bytes → Parsed (PdfObject F)
    parse_object zero bs = err out_of_fuel
    parse_object (suc n) bs =
        parse_kind (parse_array n nil) (parse_dict n empty) (kind_of (skip_comments false bs))
          (skip_comments false bs)

    pub parse_array : ℕ → Elements F → Bytes → Parsed (Elements F)
    parse_array zero es bs = err out_of_fuel
    parse_array (suc n) es bs = array_round (parse_object n) (parse_array n) es (skip_spaces bs)

    pub parse_dict : ℕ → Entries F → Bytes → Parsed (Entries F)
    parse_dict zero es bs = err out_of_fuel
    parse_dict (suc n) es bs =
        dict_round (parse_object n) (parse_dict n) es (skip_comments false bs)
