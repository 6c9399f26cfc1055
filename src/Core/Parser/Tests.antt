-- ===== src/Core/Parser/Tests.antt =====
-- Runs of the parser of `pdf/core/parser.go` and of the dictionaries of `pdf/core/primitives.go` at
-- concrete inputs, and their theorems at inputs that meet the hypotheses.
use unidoc.Prelude.{
  ◌≡◌, ◌≢◌, refl, ap, inl, inr, Bool, true, false, [], ◌++◌, Option, none, some, length, codes,
  bytes_eq, if◌then◌else◌, arith,
}
use unidoc.Prelude.Int.{pos, negsuc}
use unidoc.Text.{int_string, decimal, has_prefix, read_unsigned}
use unidoc.Core.Decoding.{Bytes}
use unidoc.Core.Object.{
  PdfObject, null, boolean, integer, real, text, name, array, dictionary, reference, Elements, nil,
  cons, empty, entry,
}
use unidoc.Core.WriteString.{write_string, write_reference, write_name}
use unidoc.Core.Lexer.{
  skip_comments, name_after_comments, read_name, name_round, skip_spaces, scan_number, read_string,
  string_round, unexpected_pattern, ok, err, panic, out_of_fuel, parse_name, parse_string,
  end_of_file,
}
use unidoc.Core.Parser.{
  parse_kind, kind_of, dict_round, dict_entry, null_or_value, entry_value, parse_other,
  number_or_reference, match_reference, one_or_more, span, match_generation, match_end,
  match_numeric, parse_number, number_of, ends_with_null, parse_object,
}
use unidoc.Core.Parser.References.{NoGeneration-nil}
use unidoc.Core.Parser.Printable.{Printable, ElementsPrintable}
use unidoc.Core.Parser.NullKeys.{parse_object-panic, parse_object-null_key}
use unidoc.Core.Parser.Termination.{parse_object_ends}
use unidoc.Core.Parser.Endless.{parse_object-endless}
use unidoc.Core.Parser.RoundTrip.{parse_object-write_string}

-- Two floats stand for `float64`.
abbrev half_or_five : Bool → Bytes
half_or_five true = codes "0.5"
half_or_five false = codes "-5.25"

abbrev read_float : Bytes → Option Bool
read_float bs =
    if bytes_eq bs (codes "0.5")
    then some true
    else if bytes_eq bs (codes "-5.25")
    then some false
    else none

abbrev kids : Elements Bool
kids = cons (integer (pos 12)) (
    cons (integer (negsuc 6)) (
      cons (text (codes "a(b") false) (
        cons (text (codes "Az") true) (
          cons (reference (pos 3) (pos 0))
            (cons (real false) (cons (name (codes "A B")) (cons null nil)))))))

abbrev page : PdfObject Bool
page = dictionary (
    entry (codes "Kids") (array kids)
      (entry (codes "Open") (boolean true) (entry (codes "Size") (real true) empty)))

page_text :
    write_string half_or_five page
    ≡ codes "<</Kids [12 -7 (a\\(b) <417a> 3 0 R -5.25 /A#20B null]/Open true/Size 0.5>>"
unfolding write_string decimal
page_text = refl

kids-Printable : ElementsPrintable half_or_five read_float kids
unfolding Printable write_string write_reference int_string decimal
kids-Printable = (
  refl,
  (
    refl,
    (
      omega arith,
      (
        omega arith,
        (
          (omega arith, omega arith, omega arith),
          ((inl (refl, (refl, (refl, (refl, (refl, tt))), refl)), refl), (omega arith, (tt, tt))),
        ),
      ),
    ),
  ),
)

page-Printable : Printable half_or_five read_float page
unfolding Printable ends_with_null
page-Printable = (
  omega arith,
  refl,
  refl,
  kids-Printable,
  (
    omega arith,
    refl,
    refl,
    tt,
    (omega arith, refl, refl, (inr (refl, (refl, (refl, tt)), refl), refl), tt),
  ),
)

parse_object-write_string_example :
    parse_object true read_float 200 (write_string half_or_five page ++ []) ≡ ok page []
parse_object-write_string_example =
    parse_object-write_string true read_float half_or_five page 200 [] page-Printable tt
      NoGeneration-nil (ground (arith, ap length page_text))

-- A key that ends in `null` at the end of the file: `Peek(1)` gives no byte.
open_null_key : parse_object true read_float 20 (codes "<</Anull") ≡ panic
unfolding parse_object parse_kind kind_of skip_comments dict_round dict_entry parse_name
    name_after_comments read_name name_round ends_with_null null_or_value skip_spaces
open_null_key = refl

-- The name behind such a key is taken for the next key, and the next key for its value.
name_after_null_key :
    parse_object true read_float 30 (codes "<</Fornull/None/B/C>>") ≡ err unexpected_pattern
unfolding parse_object parse_kind kind_of skip_comments dict_round dict_entry parse_name
    name_after_comments read_name name_round ends_with_null null_or_value entry_value skip_spaces
    parse_other has_prefix number_or_reference match_reference one_or_more span match_generation
    match_end match_numeric parse_number number_of scan_number read_unsigned
name_after_null_key = refl

-- The two bytes behind a `#` are dropped if they are no hexadecimal digits.
name_bad_code : parse_name (codes "/A#xyB ") ≡ ok (codes "A#B") (codes " ")
unfolding parse_name name_after_comments read_name name_round
name_bad_code = refl

-- A reference longer than 15 bytes is read as an integer.
long_reference :
    parse_object true read_float 9 (codes "1234567890 65535 R")
    ≡ ok (integer (pos 1234567890)) (codes " 65535 R")
unfolding parse_object parse_kind kind_of skip_comments parse_other has_prefix number_or_reference
    match_reference one_or_more span match_generation match_end match_numeric parse_number number_of
    scan_number read_unsigned
long_reference = refl

-- A string without its last bracket.
open_string : parse_string (codes "(a(b)") ≡ err end_of_file
unfolding parse_string read_string string_round
open_string = refl

anull : ends_with_null (codes "Anull") ≡ true
unfolding ends_with_null
anull = refl

blanks : skip_spaces (codes " \n") ≡ []
unfolding skip_spaces
blanks = refl

parse_object-panic_example : parse_object true read_float 20 (codes "<</Anull \n") ≡ panic
unfolding write_name ends_with_null
parse_object-panic_example =
    parse_object-panic true read_float (codes "Anull") (codes " \n") 18 (omega arith) anull refl
      blanks

parse_object-null_key_example :
    parse_object true read_float 20
      (write_string half_or_five (dictionary (entry (codes "Anull") (name (codes "None")) empty)))
    ≡ err unexpected_pattern
unfolding ends_with_null
parse_object-null_key_example =
    parse_object-null_key true read_float half_or_five (codes "Anull") (codes "None") 16
      (omega arith) (omega arith) anull refl

parse_object-endless_example : parse_object true read_float 1000 (codes "[,5]") ≡ err out_of_fuel
parse_object-endless_example = parse_object-endless true read_float b'5' (codes "]") refl 1000

parse_object_ends_example : parse_object true read_float 40 (codes "[1<</A(b)>>]") ≢ err out_of_fuel
parse_object_ends_example =
    parse_object_ends true read_float (codes "[1<</A(b)>>]") 40
      (
        refl,
        (refl, (refl, (refl, (refl, (refl, (refl, (refl, (refl, (refl, (refl, (refl, tt))))))))))),
      )
      (omega arith)
