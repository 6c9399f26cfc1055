-- ===== src/Core/Parser/Atoms.antt =====
-- `parseObject` of `pdf/core/parser.go` on the texts of objects that hold no other object.
use unidoc.Prelude.{ℕ, suc, ◌≡◌, refl, Bool, true, false, [], ◌∷◌, ◌++◌, Option, take, arith, codes}
use unidoc.Text.{has_prefix}
use unidoc.Core.Decoding.{Bytes, AreBytes}
use unidoc.Core.Object.{PdfObject, null, boolean, text, name}
use unidoc.Core.WriteString.{lower_hex, hex_encode, write_text, write_name, write_bool}
use unidoc.Core.Lexer.{Parsed, ok}
use unidoc.Core.Lexer.Names.{parse_name-write_name}
use unidoc.Core.Lexer.Strings.{parse_string-write_text, parse_hex_string-write_text}
use unidoc.Core.Lexer.Numbers.{EndsNumber}
use unidoc.Core.Parser.{
  name_kind, string_kind, hex_kind, other, kind_of, parse_other, parse_kind, parse_object,
}
use unidoc.Core.Parser.Printable.{
  IsPlain, IsPlain-Starts, IsPlain-append, text-Starts, Starts-append,
}
use unidoc.Core.Parser.Rounds.{EndsNumber-EndsName, at_kind}

-- No digit of a hexadecimal string is the `<` by which a dictionary goes on.
kind_of_hex : (val t : Bytes) → AreBytes val → kind_of (write_text val true ++ t) ≡ hex_kind
unfolding kind_of write_text hex_encode lower_hex
kind_of_hex [] t h = refl
kind_of_hex (b ∷ val) t (p, h) = ground arith

kind_of-IsPlain : (s : Bytes) → IsPlain s → kind_of s ≡ other
unfolding kind_of
kind_of-IsPlain [] h = elim h [ ]
kind_of-IsPlain (c ∷ s) h = ground arith

module _ {F : Type 0} (zero_float : F) (parse_float : Bytes → Option F) where
  abbrev Object : ℕ → Bytes → Parsed (PdfObject F)
  Object = parse_object zero_float parse_float

  pub read_plain :
      (n : ℕ) (w t : Bytes) (o : PdfObject F)
      → IsPlain w
      → parse_other zero_float parse_float (take 15 (w ++ t)) (w ++ t) ≡ ok o t
      → Object (suc n) (w ++ t) ≡ ok o t
  unfolding parse_kind
  read_plain n w t o h e =
      at_kind zero_float parse_float n (w ++ t) other _ (IsPlain-Starts _ (IsPlain-append w t h))
        (kind_of-IsPlain _ (IsPlain-append w t h)) e

  pub read_bool :
      (b : Bool) (t : Bytes)
      → parse_other zero_float parse_float (take 15 (write_bool b ++ t)) (write_bool b ++ t)
        ≡ ok (boolean b) t
  unfolding parse_other has_prefix write_bool
  read_bool true t = refl
  read_bool false t = refl

  pub read_null :
      (t : Bytes)
      → parse_other zero_float parse_float (take 15 (codes "null" ++ t)) (codes "null" ++ t)
        ≡ ok null t
  unfolding parse_other has_prefix
  read_null t = refl

  pub read_text :
      (n : ℕ) (val : Bytes) (is_hex : Bool) (t : Bytes)
      → AreBytes val
      → Object (suc n) (write_text val is_hex ++ t) ≡ ok (text val is_hex) t
  read_text n val true t h =
      at_kind zero_float parse_float n _ hex_kind _ (Starts-append _ t (text-Starts val true))
        (kind_of_hex val t h) (unfold parse_kind in rw (parse_hex_string-write_text val t h) refl)
  read_text n val false t h =
      at_kind zero_float parse_float n _ string_kind _ (Starts-append _ t (text-Starts val false))
        (unfold kind_of write_text in refl)
        (unfold parse_kind in rw (parse_string-write_text val t) refl)

  pub read_name_object :
      (n : ℕ) (val t : Bytes)
      → AreBytes val
      → EndsNumber t
      → Object (suc n) (write_name val ++ t) ≡ ok (name val) t
  read_name_object n val t h e =
      at_kind zero_float parse_float n _ name_kind _ (unfold write_name in refl)
        (unfold kind_of write_name in refl)
        (unfold parse_kind in rw (parse_name-write_name val t h (EndsNumber-EndsName t e)) refl)
