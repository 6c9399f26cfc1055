-- ===== src/Ps/Parser/Numbers.antt =====
-- `parseNumber` of `pdf/ps/parser.go` reads the integers that `%d` prints.
use unidoc.Prelude.{ℕ, ◌+◌, ◌≡◌, refl, true, false, [], ◌∷◌, ◌++◌, Option, some, All, arith, tests}
use unidoc.Prelude.Int.{ℤ, pos, negsuc}
use unidoc.GoInt.{in_range}
use unidoc.Core.Decoding.{Bytes}
use unidoc.Ps.Object.{integer}
use unidoc.Text.{decimal, int_string, parse_int}
use unidoc.Text.Numerals.{IsDigit, decimal-digits, Numeral, decimal-Numeral, parse_int-int_string}
use unidoc.Ps.Parser.{ok, number_of, parse_number, peek, number, skip_spaces}
use unidoc.Ps.Parser.Scan.{scan_sign, scan_number-digits}

module _ {F : Type 0} (parse_float : Bytes → Option F) where
  number_of_int :
      (s t : Bytes) (i : ℤ)
      → parse_int s ≡ some i
      → number_of parse_float (record { num_str = s; is_float = false; unread = t })
        ≡ ok (integer i) t
  unfolding number_of
  number_of_int s t i h = rw h refl

  pub parse_number-int_string :
      (i : ℤ) (t : Bytes)
      → in_range i ≡ true
      → parse_number parse_float (int_string i ++ b' ' ∷ t) ≡ ok (integer i) (b' ' ∷ t)
  unfolding parse_number int_string
  parse_number-int_string (pos n) t h =
      rw (scan_number-digits true [] (decimal 20 n) t (decimal-digits 20 n))
        (number_of_int _ _ _ (unfold int_string in parse_int-int_string (pos n) h))
  parse_number-int_string (negsuc n) t h =
      rw
        (
          scan_sign (decimal 20 (n + 1) ++ b' ' ∷ t),
          scan_number-digits false (b'-' ∷ []) (decimal 20 (n + 1)) t (decimal-digits 20 (n + 1)),
        )
        (number_of_int _ _ _ (unfold int_string in parse_int-int_string (negsuc n) h))

peek_digits : (d : ℕ) (ds t : Bytes) → All IsDigit (d ∷ ds) → peek (d ∷ ds ++ b' ' ∷ t) ≡ number
unfolding peek
peek_digits d [] t (p, h) = ground arith
peek_digits d (x ∷ ds) t (p, h) = ground arith

peek-Numeral : (n : ℕ) (s t : Bytes) → Numeral n s → peek (s ++ b' ' ∷ t) ≡ number
peek-Numeral n [] t h = elim h [ ]
peek-Numeral n (d ∷ ds) t (h, e) = peek_digits d ds t h

peek_negative : (n : ℕ) (s t : Bytes) → Numeral n s → peek (b'-' ∷ s ++ b' ' ∷ t) ≡ number
unfolding peek
peek_negative n [] t h = elim h [ ]
peek_negative n (d ∷ ds) t ((p, h), e) = simp p

pub peek-int_string :
    (i : ℤ) (t : Bytes) → in_range i ≡ true → peek (int_string i ++ b' ' ∷ t) ≡ number
unfolding int_string
peek-int_string (pos n) t h = peek-Numeral n _ t (decimal-Numeral n (omega tests))
peek-int_string (negsuc n) t h = peek_negative (n + 1) _ t (decimal-Numeral (n + 1) (omega tests))

skip-Numeral : (n : ℕ) (s t : Bytes) → Numeral n s → skip_spaces (s ++ b' ' ∷ t) ≡ s ++ b' ' ∷ t
unfolding skip_spaces
skip-Numeral n [] t h = elim h [ ]
skip-Numeral n (d ∷ ds) t ((p, h), e) = ground arith

pub skip_spaces-int_string :
    (i : ℤ) (t : Bytes)
    → in_range i ≡ true
    → skip_spaces (int_string i ++ b' ' ∷ t) ≡ int_string i ++ b' ' ∷ t
unfolding int_string
skip_spaces-int_string (pos n) t h = skip-Numeral n _ t (decimal-Numeral n (omega tests))
skip_spaces-int_string (negsuc n) t h = unfold skip_spaces in refl
