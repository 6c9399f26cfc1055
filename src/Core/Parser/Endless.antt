-- ===== src/Core/Parser/Endless.antt =====
-- `reNumeric` of `pdf/core/parser.go` matches a comma, which `parseNumber` does not read.
use unidoc.Prelude.{ℕ, zero, suc, ◌≡◌, refl, true, ◌∷◌, Option, take}
use unidoc.Prelude.Int.{pos}
use unidoc.Core.Decoding.{Bytes}
use unidoc.Core.Symbols.{is_decimal_digit}
use unidoc.Core.Object.{integer, Elements, nil, append}
use unidoc.Text.{has_prefix, read_unsigned}
use unidoc.Core.Lexer.{ok, err, out_of_fuel, skip_spaces, skip_comments, scan_number}
use unidoc.Core.Parser.{
  kind_of, match_numeric, array_round, number_of, parse_number, number_or_reference, parse_other,
  parse_kind, parse_object, parse_array,
}
use unidoc.Core.Parser.References.{match_reference-none}

module _ {F : Type 0} (zero_float : F) (parse_float : Bytes → Option F) (d : ℕ) (t : Bytes)
    (h : is_decimal_digit d ≡ true) where
  no_number :
      parse_number zero_float parse_float (b',' ∷ d ∷ t) ≡ ok (integer (pos 0)) (b',' ∷ d ∷ t)
  unfolding parse_number scan_number number_of read_unsigned
  no_number = refl

  comma_matches : match_numeric (b',' ∷ d ∷ take 13 t) ≡ true
  unfolding match_numeric
  comma_matches = rw h refl

  comma_other :
      parse_other zero_float parse_float (take 15 (b',' ∷ d ∷ t)) (b',' ∷ d ∷ t)
      ≡ ok (integer (pos 0)) (b',' ∷ d ∷ t)
  unfolding parse_other has_prefix number_or_reference
  comma_other =
      rw (match_reference-none b',' (d ∷ take 13 t) refl refl) (rw comma_matches no_number)

  comma_read :
      (n : ℕ)
      → parse_object zero_float parse_float (suc n) (b',' ∷ d ∷ t)
        ≡ ok (integer (pos 0)) (b',' ∷ d ∷ t)
  unfolding parse_object parse_kind kind_of skip_comments
  comma_read n = comma_other

  comma_array :
      (n : ℕ) (es : Elements F)
      → parse_array zero_float parse_float n es (b',' ∷ d ∷ t) ≡ err out_of_fuel
  unfolding parse_array array_round skip_spaces
  comma_array zero es = refl
  comma_array (suc zero) es = refl
  comma_array (suc (suc n)) es =
      rw (comma_read n) (comma_array (suc n) (append es (integer (pos 0))))

  -- An array that begins with a comma and a digit is never read to an end, whatever follows and however
  -- many rounds the loop of `parseArray` may take: each round reads nothing and appends a zero.
  pub parse_object-endless :
      (n : ℕ) → parse_object zero_float parse_float n (b'[' ∷ b',' ∷ d ∷ t) ≡ err out_of_fuel
  unfolding parse_object parse_kind kind_of skip_comments
  parse_object-endless zero = refl
  parse_object-endless (suc n) = rw (comma_array n nil) refl
