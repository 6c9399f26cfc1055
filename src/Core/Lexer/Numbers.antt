-- ===== src/Core/Lexer/Numbers.antt =====
-- The loop of `parseNumber` of `pdf/core/parser.go` reads the texts of numbers to their end.
use unidoc.Prelude.{
  ℕ, ◌≡◌, refl, ◌∙◌, Bool, true, false, [], ◌∷◌, ◌++◌, ◌||◌, ◌==◌, append_assoc, append-nil, All,
  arith,
}
use unidoc.Core.Symbols.{is_decimal_digit}
use unidoc.Core.Decoding.{Bytes}
use unidoc.Core.Lexer.{scan_number, ends_name}
use unidoc.Text.Numerals.{IsDigit}

-- The bytes that end a name: white space, `/`, brackets, `(`, `<` and `>`. None is part of a number.
abbrev pub ends_number : ℕ → Bool
ends_number b = ends_name b

abbrev pub EndsNumber : Bytes → Type 0
EndsNumber [] = Unit
EndsNumber (b ∷ bs) = ends_number b ≡ true

-- The bytes of a number behind its sign.
abbrev pub is_float_digit : ℕ → Bool
is_float_digit c = is_decimal_digit c || (c == b'.')

abbrev pub IsFloatDigit : ℕ → Type 0
IsFloatDigit c = is_float_digit c ≡ true

abbrev pub has_point : Bytes → Bool
has_point [] = false
has_point (c ∷ cs) = (c == b'.') || has_point cs

or_false : (x : Bool) → (x || false) ≡ x
or_false x = ground arith

or_assoc : (x y z : Bool) → ((x || y) || z) ≡ (x || (y || z))
or_assoc x y z = ground arith

module _ (a : Bool) where
  scan_digit :
      (f : Bool) (r : Bytes) (c : ℕ) (t : Bytes)
      → IsFloatDigit c
      → scan_number a f r (c ∷ t) ≡ scan_number a (f || (c == b'.')) (r ++ c ∷ []) t
  unfolding scan_number
  scan_digit f r c t h = ground arith

  scan_end :
      (f : Bool) (r t : Bytes)
      → EndsNumber t
      → scan_number a f r t ≡ record { digits = r; is_float = f; unread = t }
  unfolding scan_number
  scan_end f r [] h = refl
  scan_end f r (b ∷ t) h = ground arith

  pub scan_number-digits :
      (f : Bool) (r cs t : Bytes)
      → All IsFloatDigit cs
      → EndsNumber t
      → scan_number a f r (cs ++ t)
        ≡ record { digits = r ++ cs; is_float = f || has_point cs; unread = t }
  scan_number-digits f r [] t h e = rw (append-nil r, or_false f) (scan_end f r t e)
  scan_number-digits f r (c ∷ cs) t (p, h) e =
      scan_digit f r c _ p
      ∙ scan_number-digits (f || (c == b'.')) (r ++ c ∷ []) cs t h e
      ∙ simp (append_assoc, or_assoc)

pub scan_sign :
    (t : Bytes) → scan_number true false [] (b'-' ∷ t) ≡ scan_number false false (b'-' ∷ []) t
unfolding scan_number
scan_sign t = refl

pub digits_float : (ds : Bytes) → All IsDigit ds → All IsFloatDigit ds
digits_float [] h = tt
digits_float (d ∷ ds) (p, h) = (ground arith, digits_float ds h)

pub digits_point : (ds : Bytes) → All IsDigit ds → has_point ds ≡ false
digits_point [] h = refl
digits_point (d ∷ ds) (p, h) = ground (arith, digits_point ds h)
