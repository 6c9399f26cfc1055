-- ===== src/Ps/Parser/Tests.antt =====
-- Runs of the parser of `pdf/ps/parser.go` at concrete texts, and its theorems at inputs that meet
-- their hypotheses.
use unidoc.Prelude.{◌≡◌, refl, true, [], ◌∷◌, Option, none, codes, arith}
use unidoc.Prelude.Int.{ℤ, pos, negsuc}
use unidoc.Core.Decoding.{Bytes}
use unidoc.Ps.Object.{integer, boolean, program, operand, PsProgram, nil, cons, append_object}
use unidoc.Ps.Parser.{
  ok, err, invalid_number, skip_spaces, scan_number, number_of, parse_number, scan_word, parse_bool,
  parse_operand, parse_word, peek, parse_round, parse_objects, parse_function, parse,
}
use unidoc.Text.{decimal, int_string, read_decimal, read_unsigned, parse_int, has_prefix}
use unidoc.Ps.Printing.{bool_string, string}
use unidoc.Ps.Parser.RoundTrip.{AllPrintable, parse-string}
use unidoc.Ps.Parser.Unclosed.{unclosed, parse-unclosed}
use unidoc.Ps.Parser.Termination.{Returns, parse-Returns}

-- Texts of `float64` values are left out here.
abbrev no_floats : Bytes → Option ℤ
no_floats s = none

abbrev no_format : ℤ → Bytes
no_format x = []

abbrev procedure : PsProgram ℤ
procedure = cons (boolean true) (cons (operand (codes "neg")) nil)

abbrev sample : PsProgram ℤ
sample =
    cons (integer (pos 20))
      (cons (integer (negsuc 6)) (cons (program procedure) (cons (operand (codes "if")) nil)))

printed_sample : string no_format (program sample) ≡ codes "{ 20 -7 { true neg } if }"
unfolding string int_string decimal bool_string
printed_sample = refl

parse_dense : parse no_floats (codes " {20 -7{true neg}if }\n") ≡ ok sample (codes "\n")
unfolding parse parse_function parse_objects parse_round peek skip_spaces parse_word parse_operand
    parse_bool scan_word has_prefix parse_number number_of parse_int read_unsigned read_decimal
    scan_number append_object
parse_dense = refl

-- A program that is not closed is accepted.
parse_open_program :
    parse no_floats (codes "{ 20 neg ")
    ≡ ok (cons (integer (pos 20)) (cons (operand (codes "neg")) nil)) []
unfolding parse parse_function parse_objects parse_round peek skip_spaces parse_word parse_operand
    scan_word has_prefix parse_number number_of parse_int read_unsigned read_decimal scan_number
    append_object
parse_open_program = refl

-- A sign inside a number does not delimit it.
parse_sign_inside : parse no_floats (codes "{ 1-2 }") ≡ err invalid_number
unfolding parse parse_function parse_objects parse_round peek skip_spaces parse_number number_of
    parse_int read_unsigned read_decimal scan_number append_object
parse_sign_inside = refl

sample-AllPrintable : AllPrintable sample
unfolding AllPrintable peek has_prefix
sample-AllPrintable = ground arith

parse-string_example : parse no_floats (string no_format (program sample)) ≡ ok sample (b'}' ∷ [])
parse-string_example = parse-string no_floats no_format sample sample-AllPrintable

parse-Returns_example : Returns (parse no_floats (codes "{ 20 -7 { true neg } if }"))
parse-Returns_example = parse-Returns no_floats (codes "{ 20 -7 { true neg } if }")

parse-unclosed_example : parse no_floats (b'{' ∷ b' ' ∷ unclosed no_format sample) ≡ ok sample []
parse-unclosed_example = parse-unclosed no_floats no_format sample sample-AllPrintable
