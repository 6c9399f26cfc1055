-- ===== src/Core/Parser/Printable.antt =====
-- The objects of `pdf/core` whose text (`Core/WriteString`) can be parsed back, and how such a text
-- begins.
use unidoc.Prelude.{
  ℕ, ◌^◌, ◌<◌, ◌≤◌, ◌≡◌, refl, ◌||◌, ◌==◌, Bool, true, false, [], ◌∷◌, ◌++◌, Option, some, length,
  bytes_eq, subst, ap, sym, inl, inr, arith, tests,
}
use unidoc.Prelude.Int.{ℤ, pos, negsuc}
use unidoc.GoInt.{in_range}
use unidoc.Text.{int_string}
use unidoc.Text.Numerals.{Numeral, decimal-Numeral}
use unidoc.Core.Symbols.{is_decimal_digit}
use unidoc.Core.Decoding.{Bytes, AreBytes}
use unidoc.Core.Object.{
  PdfObject, null, boolean, integer, real, text, name, array, dictionary, reference, Elements, nil,
  cons, Entries, empty, entry,
}
use unidoc.Core.WriteString.{write_text, write_name, write_bool, write_reference, write_string}
use unidoc.Core.Lexer.{skip_spaces, skip_comments}
use unidoc.Core.Lexer.Numbers.{EndsNumber}
use unidoc.Core.Parser.{ends_with_null}
use unidoc.Core.Parser.References.{
  NoMark, NoGeneration, NoMark-space, NoGeneration-space, NoGeneration-digits,
}
use unidoc.Core.Parser.Indirect.{reference_text}
use unidoc.Core.Parser.Numbers.{IsRealText, NoGeneration-real, EndsNumber-EndsDigits}

-- A reference fits into the 15 bytes at which the parser looks.
abbrev pub IsShortReference : ℤ → ℤ → Type 0
IsShortReference (pos n) (pos g) =
    (n < 2 ^ 63)
    × (g < 2 ^ 63)
    × (length (write_reference (int_string (pos n)) (int_string (pos g))) ≤ 15)
IsShortReference _ _ = ⊥

abbrev pub has_key : {F : Type 0} → Bytes → Entries F → Bool
has_key key empty = false
has_key key (entry k v es) = bytes_eq k key || has_key key es

module _ {F : Type 0} (format_float : F → Bytes) (parse_float : Bytes → Option F) where
  -- Integers in range; reals that are written with a period and read back by `strconv`; strings and
  -- names of bytes; dictionaries with distinct keys that do not end with `null` behind another byte.
  unfoldable mutual
    pub Printable : PdfObject F → Type 0
    Printable null = Unit
    Printable (boolean b) = Unit
    Printable (integer n) = in_range n ≡ true
    Printable (real x) = IsRealText (format_float x) × (parse_float (format_float x) ≡ some x)
    Printable (text val is_hex) = AreBytes val
    Printable (name val) = AreBytes val
    Printable (array es) = ElementsPrintable es
    Printable (dictionary es) = EntriesPrintable es
    Printable (reference n g) = IsShortReference n g

    pub ElementsPrintable : Elements F → Type 0
    ElementsPrintable nil = Unit
    ElementsPrintable (cons o es) = Printable o × ElementsPrintable es

    pub EntriesPrintable : Entries F → Type 0
    EntriesPrintable empty = Unit
    EntriesPrintable (entry k v es) =
        AreBytes k
        × (ends_with_null k ≡ false)
        × (has_key k es ≡ false)
        × Printable v
        × EntriesPrintable es

-- The first byte of a number, a reference or a word, and of any object.
abbrev pub is_plain : ℕ → Bool
is_plain c = is_decimal_digit c || (c == b'-') || (c == b'n') || (c == b't') || (c == b'f')

abbrev pub is_start : ℕ → Bool
is_start c = is_plain c || (c == b'(') || (c == b'<') || (c == b'/') || (c == b'[')

abbrev pub Starts : Bytes → Type 0
Starts [] = ⊥
Starts (c ∷ s) = is_start c ≡ true

abbrev pub IsPlain : Bytes → Type 0
IsPlain [] = ⊥
IsPlain (c ∷ s) = is_plain c ≡ true

pub IsPlain-Starts : (s : Bytes) → IsPlain s → Starts s
IsPlain-Starts [] h = elim h [ ]
IsPlain-Starts (c ∷ s) h = ground arith

pub IsPlain-append : (s t : Bytes) → IsPlain s → IsPlain (s ++ t)
IsPlain-append [] t h = elim h [ ]
IsPlain-append (c ∷ s) t h = h

pub skip_spaces-Starts : (s : Bytes) → Starts s → skip_spaces s ≡ s
unfolding skip_spaces
skip_spaces-Starts [] h = refl
skip_spaces-Starts (c ∷ s) h = ground arith

pub skip_comments-Starts : (s : Bytes) → Starts s → skip_comments false s ≡ s
unfolding skip_comments
skip_comments-Starts [] h = refl
skip_comments-Starts (c ∷ s) h = ground arith

pub Starts-append : (s t : Bytes) → Starts s → Starts (s ++ t)
Starts-append [] t h = elim h [ ]
Starts-append (c ∷ s) t h = h

pub NoMark-Starts : (s : Bytes) → Starts s → NoMark (b' ' ∷ s)
NoMark-Starts [] h = elim h [ ]
NoMark-Starts (c ∷ s) h = NoMark-space c s (ground arith) (ground arith)

Numeral-IsPlain : (n : ℕ) (s : Bytes) → Numeral n s → IsPlain s
Numeral-IsPlain n [] h = elim h [ ]
Numeral-IsPlain n (d ∷ ds) ((p, h), e) = ground arith

pub int_string-IsPlain : (i : ℤ) → in_range i ≡ true → IsPlain (int_string i)
unfolding int_string
int_string-IsPlain (pos n) h = Numeral-IsPlain n _ (decimal-Numeral n (omega tests))
int_string-IsPlain (negsuc n) h = refl

pub real-IsPlain : (s : Bytes) → IsRealText s → IsPlain s
real-IsPlain [] h = elim h [ ]
real-IsPlain (c ∷ s) (inl (m, h)) = ground arith
real-IsPlain (c ∷ s) (inr (p, h, q)) = ground arith

pub text-Starts : (val : Bytes) (is_hex : Bool) → Starts (write_text val is_hex)
unfolding write_text
text-Starts val true = refl
text-Starts val false = refl

pub bool-IsPlain : (b : Bool) → IsPlain (write_bool b)
unfolding write_bool
bool-IsPlain true = refl
bool-IsPlain false = refl

pub reference-IsPlain :
    (n g : ℤ) → IsShortReference n g → IsPlain (write_reference (int_string n) (int_string g))
unfolding write_reference
reference-IsPlain (pos n) (pos g) (p, q, l) =
    IsPlain-append (int_string (pos n)) _ (int_string-IsPlain (pos n) (ground arith))
reference-IsPlain (pos n) (negsuc g) h = elim h [ ]
reference-IsPlain (negsuc n) g h = elim h [ ]

module _ {F : Type 0} (format_float : F → Bytes) (parse_float : Bytes → Option F) where
  pub write_string-Starts :
      (o : PdfObject F)
      → Printable format_float parse_float o
      → Starts (write_string format_float o)
  unfolding write_string Printable write_name
  write_string-Starts null h = refl
  write_string-Starts (boolean b) h = IsPlain-Starts _ (bool-IsPlain b)
  write_string-Starts (integer n) h = IsPlain-Starts _ (int_string-IsPlain n h)
  write_string-Starts (real x) h = IsPlain-Starts _ (real-IsPlain _ h.0)
  write_string-Starts (text val is_hex) h = text-Starts val is_hex
  write_string-Starts (name val) h = refl
  write_string-Starts (array es) h = refl
  write_string-Starts (dictionary es) h = refl
  write_string-Starts (reference n g) h = IsPlain-Starts _ (reference-IsPlain n g h)

Numeral-NoGeneration :
    (n : ℕ) (s t : Bytes) → Numeral n s → EndsNumber t → NoMark t → NoGeneration (b' ' ∷ s ++ t)
Numeral-NoGeneration n [] t h e m = elim h [ ]
Numeral-NoGeneration n (d ∷ ds) t (h, _) e m =
    NoGeneration-digits d ds t h (EndsNumber-EndsDigits t e) m

int_string-NoGeneration :
    (i : ℤ) (t : Bytes)
    → in_range i ≡ true
    → EndsNumber t
    → NoMark t
    → NoGeneration (b' ' ∷ int_string i ++ t)
unfolding int_string
int_string-NoGeneration (pos n) t h e m =
    Numeral-NoGeneration n _ t (decimal-Numeral n (omega tests)) e m
int_string-NoGeneration (negsuc n) t h e m = NoGeneration-space b'-' _ refl refl

real-NoGeneration : (s t : Bytes) → IsRealText s → NoGeneration (b' ' ∷ s ++ t)
real-NoGeneration [] t h = elim h [ ]
real-NoGeneration (c ∷ s) t (inl (m, h)) = NoGeneration-space c _ (ground arith) (ground arith)
real-NoGeneration (d ∷ cs) t (inr (p, h, q)) = NoGeneration-real d cs t p h q

reference-NoGeneration :
    (n g : ℤ) (t : Bytes)
    → IsShortReference n g
    → NoGeneration (b' ' ∷ write_reference (int_string n) (int_string g) ++ t)
reference-NoGeneration (pos n) (negsuc g) t h = elim h [ ]
reference-NoGeneration (negsuc n) g t h = elim h [ ]
reference-NoGeneration (pos n) (pos g) t (p, q, l) =
    subst NoGeneration
      (ap (◌∷◌ b' ') (sym (reference_text (int_string (pos n)) (int_string (pos g)) t)))
      (int_string-NoGeneration (pos n) _ (ground arith) refl (
        NoMark-Starts _ (
          Starts-append (int_string (pos g)) _
            (IsPlain-Starts _ (int_string-IsPlain (pos g) (ground arith))))))

text-NoGeneration :
    (val : Bytes) (is_hex : Bool) (t : Bytes) → NoGeneration (b' ' ∷ write_text val is_hex ++ t)
unfolding write_text
text-NoGeneration val true t = NoGeneration-space b'<' _ refl refl
text-NoGeneration val false t = NoGeneration-space b'(' _ refl refl

bool-NoGeneration : (b : Bool) (t : Bytes) → NoGeneration (b' ' ∷ write_bool b ++ t)
unfolding write_bool
bool-NoGeneration true t = NoGeneration-space b't' _ refl refl
bool-NoGeneration false t = NoGeneration-space b'f' _ refl refl

-- An object behind a space is no generation number of the object before it.
module _ {F : Type 0} (format_float : F → Bytes) (parse_float : Bytes → Option F) where
  pub write_string-NoGeneration :
      (o : PdfObject F) (t : Bytes)
      → Printable format_float parse_float o
      → EndsNumber t
      → NoMark t
      → NoGeneration (b' ' ∷ write_string format_float o ++ t)
  unfolding write_string Printable write_name
  write_string-NoGeneration null t h e m = NoGeneration-space b'n' _ refl refl
  write_string-NoGeneration (boolean b) t h e m = bool-NoGeneration b t
  write_string-NoGeneration (integer n) t h e m = int_string-NoGeneration n t h e m
  write_string-NoGeneration (real x) t h e m = real-NoGeneration _ t h.0
  write_string-NoGeneration (text val is_hex) t h e m = text-NoGeneration val is_hex t
  write_string-NoGeneration (name val) t h e m = NoGeneration-space b'/' _ refl refl
  write_string-NoGeneration (array es) t h e m = NoGeneration-space b'[' _ refl refl
  write_string-NoGeneration (dictionary es) t h e m = NoGeneration-space b'<' _ refl refl
  write_string-NoGeneration (reference n g) t h e m = reference-NoGeneration n g t h
