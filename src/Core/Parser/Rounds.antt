-- ===== src/Core/Parser/Rounds.antt =====
-- The rounds of the loops of `parseObject`, `parseArray` and `ParseDict` (`pdf/core/parser.go`) on texts
-- that `WriteString` writes.
use unidoc.Prelude.{ℕ, suc, ◌≡◌, refl, false, [], ◌∷◌, ◌++◌, Option, arith}
use unidoc.Core.Decoding.{Bytes, AreBytes}
use unidoc.Core.Object.{PdfObject, Elements, nil, cons, Entries, empty, entry, append, set_entry}
use unidoc.Core.WriteString.{write_name}
use unidoc.Core.Lexer.{Parsed, ok, skip_spaces, skip_comments}
use unidoc.Core.Lexer.Names.{EndsName, parse_name-write_name}
use unidoc.Core.Lexer.Numbers.{EndsNumber}
use unidoc.Core.Parser.{
  ends_with_null, Kind, kind_of, parse_kind, array_round, entry_value, dict_entry, dict_round,
  parse_object, parse_array, parse_dict,
}
use unidoc.Core.Parser.Printable.{Starts, skip_spaces-Starts, skip_comments-Starts}

pub EndsNumber-EndsName : (t : Bytes) → EndsNumber t → EndsName t
EndsNumber-EndsName [] h = tt
EndsNumber-EndsName (b ∷ t) h = ground arith

pub skip_space : (s : Bytes) → Starts s → skip_spaces (b' ' ∷ s) ≡ s
skip_space s h = unfold skip_spaces in skip_spaces-Starts s h

module _ {F : Type 0} where
  -- The array and the entries that a loop has made, starting from those before.
  unfoldable pub append_all : Elements F → Elements F → Elements F
  append_all acc nil = acc
  append_all acc (cons o es) = append_all (append acc o) es

  unfoldable pub set_all : Entries F → Entries F → Entries F
  set_all acc empty = acc
  set_all acc (entry k v es) = set_all (set_entry k v acc) es

module _ {F : Type 0} (zero_float : F) (parse_float : Bytes → Option F) where
  pub at_kind :
      (n : ℕ) (s : Bytes) (k : Kind) (r : Parsed (PdfObject F))
      → Starts s
      → kind_of s ≡ k
      → parse_kind zero_float parse_float
          (parse_array zero_float parse_float n nil)
          (parse_dict zero_float parse_float n empty)
          k
          s
        ≡ r
      → parse_object zero_float parse_float (suc n) s ≡ r
  unfolding parse_object
  at_kind n s k r h e p = rw (skip_comments-Starts s h, e) p

  pub array_end :
      (n : ℕ) (acc : Elements F) (t : Bytes)
      → parse_array zero_float parse_float (suc n) acc (b']' ∷ t) ≡ ok acc t
  unfolding parse_array array_round skip_spaces
  array_end n acc t = refl

  array_round_object :
      (object : Bytes → Parsed (PdfObject F)) (go : Elements F → Bytes → Parsed (Elements F))
      (acc : Elements F) (s rest : Bytes) (o : PdfObject F)
      → Starts s
      → object s ≡ ok o rest
      → array_round object go acc s ≡ go (append acc o) rest
  unfolding array_round
  array_round_object object go acc [] rest o h e = elim h [ ]
  array_round_object object go acc (c ∷ s) rest o h e = ground (arith, e)

  pub array_object :
      (n : ℕ) (acc : Elements F) (bs s rest : Bytes) (o : PdfObject F)
      → skip_spaces bs ≡ s
      → Starts s
      → parse_object zero_float parse_float n s ≡ ok o rest
      → parse_array zero_float parse_float (suc n) acc bs
        ≡ parse_array zero_float parse_float n (append acc o) rest
  unfolding parse_array
  array_object n acc bs s rest o k h e = rw k (array_round_object _ _ acc s rest o h e)

  pub dict_end :
      (n : ℕ) (acc : Entries F) (t : Bytes)
      → parse_dict zero_float parse_float (suc n) acc (b'>' ∷ b'>' ∷ t) ≡ ok acc t
  unfolding parse_dict dict_round skip_comments
  dict_end n acc t = refl

  pub dict_next :
      (n : ℕ) (acc : Entries F) (s : Bytes)
      → Starts s
      → parse_dict zero_float parse_float (suc n) acc s
        ≡ dict_round
            (parse_object zero_float parse_float n)
            (parse_dict zero_float parse_float n)
            acc
            s
  unfolding parse_dict
  dict_next n acc s h = rw (skip_comments-Starts s h) refl

module _ {F : Type 0} where
  pub dict_round_name :
      (object : Bytes → Parsed (PdfObject F)) (go : Entries F → Bytes → Parsed (Entries F))
      (acc : Entries F) (w s : Bytes)
      → dict_round object go acc (b'/' ∷ w ++ b' ' ∷ s)
        ≡ dict_entry object go acc (b'/' ∷ w ++ b' ' ∷ s)
  unfolding dict_round
  dict_round_name object go acc [] s = refl
  dict_round_name object go acc (c ∷ w) s = refl

  pub dict_entry_lem :
      (object : Bytes → Parsed (PdfObject F)) (go : Entries F → Bytes → Parsed (Entries F))
      (acc : Entries F) (k s rest : Bytes) (v : PdfObject F)
      → AreBytes k
      → ends_with_null k ≡ false
      → Starts s
      → object s ≡ ok v rest
      → dict_entry object go acc (write_name k ++ b' ' ∷ s) ≡ go (set_entry k v acc) rest
  unfolding dict_entry entry_value
  dict_entry_lem object go acc k s rest v b f h e =
      rw (parse_name-write_name k (b' ' ∷ s) b refl) (rw f (rw (skip_space s h) (rw e refl)))
