-- ===== src/Core/Parser/Numbers.antt =====
-- `parseObject` of `pdf/core/parser.go` on the texts of integers, reals and references.
use unidoc.Prelude.{
  ℕ, ◌+◌, ◌≡◌, refl, ◌∙◌, ap, Bool, true, false, [], ◌∷◌, ◌++◌, ◌||◌, ◌==◌, ◌⊎◌, inl, inr, Option,
  none, some, take, Bool-cases, All, arith, tests,
}
use unidoc.Prelude.Int.{ℤ, pos, negsuc}
use unidoc.GoInt.{in_range}
use unidoc.Text.{int_string, parse_int, has_prefix}
use unidoc.Text.Numerals.{IsDigit, Numeral, decimal-Numeral, parse_int-int_string}
use unidoc.Core.Symbols.{is_decimal_digit}
use unidoc.Core.Decoding.{Bytes}
use unidoc.Core.Object.{integer, real}
use unidoc.Core.Lexer.{ok}
use unidoc.Core.Lexer.Numbers.{
  EndsNumber, IsFloatDigit, has_point, scan_number-digits, scan_sign, digits_float, digits_point,
}
use unidoc.Core.Parser.{
  is_re_space, span, on_word, one_or_more, match_generation, match_end, match_reference,
  match_numeric, number_of, parse_number, number_or_reference, parse_other,
}
use unidoc.Core.Parser.References.{
  span-none, digit_is_no_space, one_or_more-space, NoGeneration-cons, NoMark-cons, EndsDigits,
  NoGeneration, match_reference-take, match_reference-none, match_reference-digits,
}

pub EndsNumber-EndsDigits : (t : Bytes) → EndsNumber t → EndsDigits t
EndsNumber-EndsDigits [] h = tt
EndsNumber-EndsDigits (b ∷ t) h = ground arith

-- The first byte of a number.
abbrev IsNumberHead : ℕ → Type 0
IsNumberHead c = (is_decimal_digit c || (c == b'-')) ≡ true

-- A real as it is written: a sign, if any, a digit, and digits with a period.
abbrev pub IsUnsignedReal : Bytes → Type 0
IsUnsignedReal [] = ⊥
IsUnsignedReal (d ∷ cs) = IsDigit d × All IsFloatDigit cs × (has_point cs ≡ true)

abbrev pub IsRealText : Bytes → Type 0
IsRealText [] = ⊥
IsRealText (c ∷ s) = ((c ≡ b'-') × IsUnsignedReal s) ⊎ IsUnsignedReal (c ∷ s)

module _ {F : Type 0} (zero_float : F) (parse_float : Bytes → Option F) where
  other_number :
      (c : ℕ) (s : Bytes)
      → IsNumberHead c
      → match_reference (take 15 (c ∷ s)) ≡ none
      → match_numeric (take 15 (c ∷ s)) ≡ true
      → parse_other zero_float parse_float (take 15 (c ∷ s)) (c ∷ s)
        ≡ parse_number zero_float parse_float (c ∷ s)
  unfolding parse_other has_prefix number_or_reference
  other_number c s h e m = ground (arith, e, m)

  unsigned_numeric : (d : ℕ) (s : Bytes) → IsDigit d → match_numeric (take 15 (d ∷ s)) ≡ true
  unfolding match_numeric
  unsigned_numeric d s h = rw h refl

  number_of_int :
      (s t : Bytes) (f : Bool) (i : ℤ)
      → f ≡ false
      → parse_int s ≡ some i
      → number_of zero_float parse_float (record { digits = s; is_float = f; unread = t })
        ≡ ok (integer i) t
  unfolding number_of
  number_of_int s t f i e h = rw (e, h) refl

  number_of_float :
      (s t : Bytes) (f : Bool) (x : F)
      → f ≡ true
      → parse_float s ≡ some x
      → number_of zero_float parse_float (record { digits = s; is_float = f; unread = t })
        ≡ ok (real x) t
  unfolding number_of
  number_of_float s t f x e h = rw (e, h) refl

  parse_unsigned :
      (cs t : Bytes)
      → All IsFloatDigit cs
      → EndsNumber t
      → parse_number zero_float parse_float (cs ++ t)
        ≡ number_of zero_float parse_float
            (record { digits = cs; is_float = has_point cs; unread = t })
  unfolding parse_number
  parse_unsigned cs t h e = rw (scan_number-digits true false [] cs t h e) refl

  parse_signed :
      (cs t : Bytes)
      → All IsFloatDigit cs
      → EndsNumber t
      → parse_number zero_float parse_float (b'-' ∷ cs ++ t)
        ≡ number_of zero_float parse_float
            (record { digits = b'-' ∷ cs; is_float = has_point cs; unread = t })
  unfolding parse_number
  parse_signed cs t h e =
      rw (scan_sign (cs ++ t), scan_number-digits false false (b'-' ∷ []) cs t h e) refl

  signed_numeric : (d : ℕ) (s : Bytes) → IsDigit d → match_numeric (take 15 (b'-' ∷ d ∷ s)) ≡ true
  unfolding match_numeric
  signed_numeric d s h = rw h refl

  read_unsigned_text :
      (d : ℕ) (cs t : Bytes)
      → IsDigit d
      → All IsFloatDigit (d ∷ cs)
      → EndsNumber t
      → match_reference (d ∷ cs ++ t) ≡ none
      → parse_other zero_float parse_float (take 15 (d ∷ cs ++ t)) (d ∷ cs ++ t)
        ≡ number_of zero_float parse_float
            (record { digits = d ∷ cs; is_float = has_point (d ∷ cs); unread = t })
  read_unsigned_text d cs t p h e g =
      other_number d (cs ++ t) (ground arith) (match_reference-take 15 d (cs ++ t) (ground arith) g)
        (unsigned_numeric d (cs ++ t) p)
      ∙ parse_unsigned (d ∷ cs) t h e

  read_signed_text :
      (d : ℕ) (cs t : Bytes)
      → IsDigit d
      → All IsFloatDigit (d ∷ cs)
      → EndsNumber t
      → parse_other zero_float parse_float (take 15 (b'-' ∷ d ∷ cs ++ t)) (b'-' ∷ d ∷ cs ++ t)
        ≡ number_of zero_float parse_float
            (record { digits = b'-' ∷ d ∷ cs; is_float = has_point (d ∷ cs); unread = t })
  read_signed_text d cs t p h e =
      other_number b'-' (d ∷ cs ++ t) refl (match_reference-none b'-' _ refl refl)
        (signed_numeric d (cs ++ t) p)
      ∙ parse_signed (d ∷ cs) t h e

  unsigned_integer :
      (n : ℕ) (s t : Bytes) (i : ℤ)
      → Numeral n s
      → parse_int s ≡ some i
      → EndsNumber t
      → NoGeneration t
      → parse_other zero_float parse_float (take 15 (s ++ t)) (s ++ t) ≡ ok (integer i) t
  unsigned_integer n [] t i m p e g = elim m [ ]
  unsigned_integer n (d ∷ ds) t i (m, _) p e g =
      read_unsigned_text d ds t m.0 (digits_float (d ∷ ds) m) e
        (match_reference-digits d ds t m (EndsNumber-EndsDigits t e) ∙ g (d ∷ ds))
      ∙ number_of_int _ _ _ _ (digits_point (d ∷ ds) m) p

  signed_integer :
      (n : ℕ) (s t : Bytes) (i : ℤ)
      → Numeral n s
      → parse_int (b'-' ∷ s) ≡ some i
      → EndsNumber t
      → parse_other zero_float parse_float (take 15 (b'-' ∷ s ++ t)) (b'-' ∷ s ++ t)
        ≡ ok (integer i) t
  signed_integer n [] t i m p e = elim m [ ]
  signed_integer n (d ∷ ds) t i (m, _) p e =
      read_signed_text d ds t m.0 (digits_float (d ∷ ds) m) e
      ∙ number_of_int _ _ _ _ (digits_point (d ∷ ds) m) p

  pub parse_other-integer :
      (i : ℤ) (t : Bytes)
      → in_range i ≡ true
      → EndsNumber t
      → NoGeneration t
      → parse_other zero_float parse_float (take 15 (int_string i ++ t)) (int_string i ++ t)
        ≡ ok (integer i) t
  unfolding int_string
  parse_other-integer (pos n) t h e g =
      unsigned_integer n _ t (pos n) (decimal-Numeral n (omega tests))
        (parse_int-int_string (pos n) h) e g
  parse_other-integer (negsuc n) t h e g =
      signed_integer (n + 1) _ t (negsuc n) (decimal-Numeral (n + 1) (omega tests))
        (parse_int-int_string (negsuc n) h) e

-- The digits of a real end at its period.
digits_end :
    (cs t : Bytes)
    → All IsFloatDigit cs
    → has_point cs ≡ true
    → (w : Bytes) × (s : Bytes) × (span is_decimal_digit (cs ++ t) ≡ (w, b'.' ∷ s))
unfolding span
digits_end [] t h p = cc
digits_end (c ∷ cs) t (h, k) p = elim (Bool-cases (is_decimal_digit c)) [
  | inl e ↦ let (w, s, q) = digits_end cs t k (ground arith) in (c ∷ w, s, rw (e, q) refl)
  | inr e ↦
      let period : c ≡ b'.' = ground arith in
      ([], cs ++ t, rw e (ap (λ (b : ℕ). ([], b ∷ cs ++ t)) period))
]

one_or_more-real :
    {A : Type 0} (next : Bytes → Bytes → Option A) (cs t : Bytes)
    → ((w s : Bytes) → next w (b'.' ∷ s) ≡ none)
    → All IsFloatDigit cs
    → has_point cs ≡ true
    → one_or_more is_decimal_digit (cs ++ t) next ≡ none
unfolding one_or_more
one_or_more-real next cs t f h p = let (w, s, q) = digits_end cs t h p in rw q (stops w s)
  where
    stops : (w s : Bytes) → on_word next (w, b'.' ∷ s) ≡ none
    stops [] s = refl
    stops (c ∷ w) s = f (c ∷ w) s

module _ (d : ℕ) (cs t : Bytes) (p : IsDigit d) (h : All IsFloatDigit cs)
    (q : has_point cs ≡ true) where
  real_float_digits : All IsFloatDigit (d ∷ cs)
  real_float_digits = (ground arith, h)

  real_point : has_point (d ∷ cs) ≡ true
  real_point = ground arith

  match_reference-real : match_reference (d ∷ cs ++ t) ≡ none
  unfolding match_reference
  match_reference-real = rw (span-none is_re_space d (cs ++ t) (digit_is_no_space d p)) (
      one_or_more-real match_generation (d ∷ cs) t (λ w s. NoGeneration-cons b'.' s refl w)
        real_float_digits real_point)

  pub NoGeneration-real : NoGeneration (b' ' ∷ d ∷ cs ++ t)
  unfolding match_generation
  NoGeneration-real w =
      one_or_more-space _ d (cs ++ t) (digit_is_no_space d p)
      ∙ one_or_more-real (match_end w) (d ∷ cs) t (λ v s. NoMark-cons b'.' s refl w v)
          real_float_digits real_point

module _ {F : Type 0} (zero_float : F) (parse_float : Bytes → Option F) where
  pub parse_other-real :
      (s t : Bytes) (x : F)
      → IsRealText s
      → parse_float s ≡ some x
      → EndsNumber t
      → parse_other zero_float parse_float (take 15 (s ++ t)) (s ++ t) ≡ ok (real x) t
  parse_other-real [] t x h e k = elim h [ ]
  parse_other-real (c ∷ []) t x (inl (m, h)) e k = elim h [ ]
  parse_other-real (c ∷ d ∷ cs) t x (inl (m, (p, h, q))) e k = rw m (
      read_signed_text zero_float parse_float d cs t p (real_float_digits d cs t p h q) k
      ∙ number_of_float zero_float parse_float (b'-' ∷ d ∷ cs) t _ x (real_point d cs t p h q)
          (rw m at e))
  parse_other-real (d ∷ cs) t x (inr (p, h, q)) e k =
      read_unsigned_text zero_float parse_float d cs t p (real_float_digits d cs t p h q) k
        (match_reference-real d cs t p h q)
      ∙ number_of_float zero_float parse_float (d ∷ cs) t _ x (real_point d cs t p h q) e
