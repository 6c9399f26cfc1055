-- ===== src/Core/Parser/NullKeys.antt =====
-- The branch of `ParseDict` (`pdf/core/parser.go`) for writers that append `null` to a key.
use unidoc.Prelude.{
  ℕ, suc, ◌-◌, take, append-nil, ◌≤◌, ◌≡◌, refl, ◌∙◌, true, false, [], ◌∷◌, ◌++◌, Option,
  append_assoc, length, length-append, arith,
}
use unidoc.Text.{has_prefix}
use unidoc.Core.Decoding.{Bytes, AreBytes}
use unidoc.Core.Object.{PdfObject, name, dictionary, Entries, empty, entry, set_entry, null}
use unidoc.Core.WriteString.{name_chars, write_name, write_string}
use unidoc.Core.Lexer.{
  ParseError, Parsed, err, panic, unexpected_pattern, skip_spaces, skip_comments,
}
use unidoc.Core.Lexer.Names.{EndsName, parse_name-write_name, length-name_chars}
use unidoc.Core.Parser.{
  ends_with_null, dict_kind, kind_of, null_or_value, entry_value, dict_entry, dict_round,
  parse_object, parse_dict, parse_kind, parse_other, number_or_reference, match_numeric,
  match_reference, one_or_more, span,
}
use unidoc.Core.Parser.Rounds.{at_kind, dict_next, skip_space}

module _ {F : Type 0} (object : Bytes → Parsed (PdfObject F))
    (go : Entries F → Bytes → Parsed (Entries F)) (acc : Entries F) where
  dict_round_key :
      (bs : Bytes)
      → 1 ≤ length bs
      → dict_round object go acc (b'/' ∷ bs) ≡ dict_entry object go acc (b'/' ∷ bs)
  unfolding dict_round
  dict_round_key [] h = absurd (omega arith)
  dict_round_key (b ∷ bs) h = refl

  key_at_end :
      (k t : Bytes)
      → AreBytes k
      → ends_with_null k ≡ true
      → EndsName t
      → skip_spaces t ≡ []
      → dict_entry object go acc (write_name k ++ t) ≡ panic
  unfolding dict_entry null_or_value
  key_at_end k t b f e s = rw (parse_name-write_name k t b e) (rw f (rw s refl))

-- A key that ends in null has a byte.
null_key_length : (k t : Bytes) → ends_with_null k ≡ true → 1 ≤ length (name_chars k ++ t)
unfolding ends_with_null
null_key_length k t h = ground (arith, length-name_chars k, length-append (name_chars k) t)

module _ {F : Type 0} (zero_float : F) (parse_float : Bytes → Option F) where
  dict_key :
      (n : ℕ) (acc : Entries F) (k t : Bytes)
      → 1 ≤ length (name_chars k ++ t)
      → parse_dict zero_float parse_float (suc n) acc (write_name k ++ t)
        ≡ dict_entry
            (parse_object zero_float parse_float n)
            (parse_dict zero_float parse_float n)
            acc
            (write_name k ++ t)
  unfolding write_name
  dict_key n acc k t h =
      dict_next zero_float parse_float n acc (write_name k ++ t) refl
      ∙ dict_round_key _ _ acc (name_chars k ++ t) h

  dict_object :
      (n : ℕ) (k t : Bytes) (e : ParseError)
      → parse_dict zero_float parse_float n empty (write_name k ++ t) ≡ err e
      → parse_object zero_float parse_float (suc n) (b'<' ∷ b'<' ∷ write_name k ++ t) ≡ err e
  unfolding parse_kind kind_of
  dict_object n k t e h = at_kind zero_float parse_float n _ dict_kind (err e) refl refl (rw h refl)

  -- If the text ends, but for blanks, behind the first key of a dictionary and this key ends in `null`
  -- with something before it, then parsing the dictionary panics, whatever the bytes of the key are.
  pub parse_object-panic :
      (k t : Bytes) (n : ℕ)
      → AreBytes k
      → ends_with_null k ≡ true
      → EndsName t
      → skip_spaces t ≡ []
      → parse_object zero_float parse_float (suc (suc n)) (b'<' ∷ b'<' ∷ write_name k ++ t) ≡ panic
  unfolding parse_kind write_name kind_of
  parse_object-panic k t n b f e s =
      at_kind zero_float parse_float (suc n) _ dict_kind panic refl refl (
        rw (dict_key n empty k t (null_key_length k t f))
          (rw (key_at_end _ _ empty k t b f e s) refl))

  -- The value behind the name of an entry is missing.
  no_value :
      (n : ℕ)
      → parse_object zero_float parse_float (suc n) (b'>' ∷ b'>' ∷ []) ≡ err unexpected_pattern
  unfolding parse_object parse_kind kind_of skip_comments parse_other has_prefix number_or_reference
      match_numeric match_reference one_or_more span
  no_value n = refl

  name_as_key :
      (object : Bytes → Parsed (PdfObject F)) (go : Entries F → Bytes → Parsed (Entries F))
      (acc : Entries F) (v : Bytes)
      → AreBytes v
      → ends_with_null v ≡ false
      → object (b'>' ∷ b'>' ∷ []) ≡ err unexpected_pattern
      → dict_entry object go acc (write_name v ++ b'>' ∷ b'>' ∷ []) ≡ err unexpected_pattern
  unfolding dict_entry entry_value
  name_as_key object go acc v b f e =
      rw (parse_name-write_name v (b'>' ∷ b'>' ∷ []) b refl)
        (rw f (unfold skip_spaces in rw e refl))

  name_behind_null_key :
      (object : Bytes → Parsed (PdfObject F)) (go : Entries F → Bytes → Parsed (Entries F))
      (acc : Entries F) (k v t : Bytes)
      → AreBytes k
      → ends_with_null k ≡ true
      → dict_entry object go acc (write_name k ++ b' ' ∷ (write_name v ++ t))
        ≡ go (set_entry (take (length k - 4) k) null acc) (write_name v ++ t)
  unfolding dict_entry null_or_value write_name
  name_behind_null_key object go acc k v t b f =
      rw (parse_name-write_name k (b' ' ∷ (write_name v ++ t)) b refl)
        (rw f (rw (skip_space (write_name v ++ t) refl) refl))

  one_entry :
      (format_float : F → Bytes) (k v : Bytes)
      → write_string format_float (dictionary (entry k (name v) empty))
        ≡ b'<' ∷ b'<' ∷ (write_name k ++ b' ' ∷ (write_name v ++ b'>' ∷ b'>' ∷ []))
  unfolding write_string
  one_entry format_float k v = simp (append_assoc, append-nil)

  -- The dictionary with one entry, whose key ends in `null` with something before it and whose value
  -- is a name that does not, is written to a text that the parser refuses: the key is taken for a key
  -- without `null` whose value is null, and the value for the next key.
  pub parse_object-null_key :
      (format_float : F → Bytes) (k v : Bytes) (n : ℕ)
      → AreBytes k
      → AreBytes v
      → ends_with_null k ≡ true
      → ends_with_null v ≡ false
      → parse_object zero_float parse_float
          (suc (suc (suc (suc n))))
          (write_string format_float (dictionary (entry k (name v) empty)))
        ≡ err unexpected_pattern
  parse_object-null_key format_float k v n b c f g = rw (one_entry format_float k v) (
      dict_object (suc (suc (suc n))) k _ unexpected_pattern (
        dict_key (suc (suc n)) empty k _ (null_key_length k _ f)
        ∙ name_behind_null_key _ _ empty k v _ b f
        ∙ dict_key (suc n) _ v _ (omega (arith, length-append (name_chars v) (b'>' ∷ b'>' ∷ [])))
        ∙ name_as_key _ _ _ v c g (no_value n)))
