-- ===== src/Core/Parser/Containers.antt =====
-- The loops of `parseArray` and `ParseDict` (`pdf/core/parser.go`) on the texts of elements and entries.
use unidoc.Prelude.{
  ℕ, suc, ◌≡◌, refl, sym, subst, ◌∙◌, ap, false, [], ◌∷◌, ◌++◌, append_assoc, append-nil, ◌||◌,
  Option, arith, bytes_eq,
}
use unidoc.Core.Decoding.{Bytes, AreBytes}
use unidoc.Core.Dictionary.Validity.{bytes_eq_comm}
use unidoc.Core.Object.{
  PdfObject, array, dictionary, Elements, nil, cons, Entries, empty, entry, append, set_entry,
}
use unidoc.Core.WriteString.{name_chars, write_name, write_string, write_elements, write_entries}
use unidoc.Core.Lexer.{Parsed, ok, skip_spaces}
use unidoc.Core.Lexer.Numbers.{EndsNumber}
use unidoc.Core.Parser.{
  ends_with_null, array_kind, dict_kind, kind_of, parse_kind, parse_object, parse_array, parse_dict,
}
use unidoc.Core.Parser.References.{NoMark, NoGeneration, NoMark-cons, NoGeneration-cons}
use unidoc.Core.Parser.Printable.{
  ElementsPrintable, has_key, Starts, skip_spaces-Starts, Starts-append, NoMark-Starts,
  write_string-Starts, write_string-NoGeneration,
}
use unidoc.Core.Parser.Rounds.{
  skip_space, append_all, set_all, at_kind, array_object, dict_next, dict_round_name,
  dict_entry_lem,
}

module _ {F : Type 0} (format_float : F → Bytes) where
  -- The elements behind the first one, each with the space before it.
  unfoldable pub further : Elements F → Bytes
  unfolding write_elements
  further nil = []
  further (cons o es) = b' ' ∷ write_elements format_float (cons o es)

  pub write_elements-cons :
      (o : PdfObject F) (es : Elements F)
      → write_elements format_float (cons o es) ≡ write_string format_float o ++ further es
  unfolding further write_elements
  write_elements-cons o nil = sym (append-nil _)
  write_elements-cons o (cons p es) = refl

module _ {F : Type 0} (zero_float : F) (parse_float : Bytes → Option F)
    (format_float : F → Bytes) where
  abbrev pub Text : PdfObject F → Bytes
  Text = write_string format_float

  -- `t` may stand behind an object.
  abbrev pub Follows : Bytes → Type 0
  Follows t = EndsNumber t × NoGeneration t

  pub further-Follows :
      (es : Elements F) (t : Bytes)
      → ElementsPrintable format_float parse_float es
      → Follows (further format_float es ++ b']' ∷ t) × NoMark (further format_float es ++ b']' ∷ t)
  unfolding further ElementsPrintable
  further-Follows nil t h = ((refl, NoGeneration-cons b']' t refl), NoMark-cons b']' t refl)
  further-Follows (cons o es) t (p, h) =
      let ((e, g), m) = further-Follows es t h in
      let X = Text o ++ (further format_float es ++ b']' ∷ t) in
      let same : write_elements format_float (cons o es) ++ b']' ∷ t ≡ X =
        ap (λ s. s ++ b']' ∷ t) (write_elements-cons format_float o es)
        ∙ append_assoc (Text o) (further format_float es) (b']' ∷ t) in
      let start : Starts X =
        Starts-append (Text o) _ (write_string-Starts format_float parse_float o p) in
      (
        (
          refl,
          subst (λ s. NoGeneration (b' ' ∷ s)) (sym same)
              (write_string-NoGeneration format_float parse_float o _ p e m),
        ),
        subst (λ s. NoMark (b' ' ∷ s)) (sym same) (NoMark-Starts X start),
      )

  pub entries-Follows :
      (es : Entries F) (t : Bytes) → Follows (write_entries format_float es ++ b'>' ∷ b'>' ∷ t)
  unfolding write_entries write_name
  entries-Follows empty t = (refl, NoGeneration-cons b'>' _ refl)
  entries-Follows (entry k v es) t = (refl, NoGeneration-cons b'/' _ refl)

-- A round for an element or an entry, in front of what is written behind it.
module _ {F : Type 0} (zero_float : F) (parse_float : Bytes → Option F)
    (format_float : F → Bytes) where
  abbrev pub Written : PdfObject F → Bytes
  Written = write_string format_float

  abbrev pub ArrayRest : Elements F → Bytes → Bytes
  ArrayRest es t = further format_float es ++ b']' ∷ t

  abbrev pub DictRest : Entries F → Bytes → Bytes
  DictRest es t = write_entries format_float es ++ b'>' ∷ b'>' ∷ t

  elements_text :
      (o : PdfObject F) (es : Elements F) (t : Bytes)
      → write_elements format_float (cons o es) ++ b']' ∷ t ≡ Written o ++ ArrayRest es t
  elements_text o es t =
      ap (λ s. s ++ b']' ∷ t) (write_elements-cons format_float o es)
      ∙ append_assoc (Written o) (further format_float es) (b']' ∷ t)

  pub further_round :
      (o : PdfObject F) (es acc : Elements F) (n : ℕ) (t : Bytes) (r : Parsed (Elements F))
      → Starts (Written o)
      → parse_object zero_float parse_float n (Written o ++ ArrayRest es t) ≡ ok o (ArrayRest es t)
      → parse_array zero_float parse_float n (append acc o) (ArrayRest es t) ≡ r
      → parse_array zero_float parse_float (suc n) acc (ArrayRest (cons o es) t) ≡ r
  unfolding further
  further_round o es acc n t r h e q =
      let h' = Starts-append (Written o) (ArrayRest es t) h in
      array_object zero_float parse_float n acc _ (Written o ++ ArrayRest es t) _ o
        (ap (λ s. skip_spaces (b' ' ∷ s)) (elements_text o es t) ∙ skip_space _ h') h' e
      ∙ q

  pub first_round :
      (o : PdfObject F) (es acc : Elements F) (n : ℕ) (t : Bytes) (r : Parsed (Elements F))
      → Starts (Written o)
      → parse_object zero_float parse_float n (Written o ++ ArrayRest es t) ≡ ok o (ArrayRest es t)
      → parse_array zero_float parse_float n (append acc o) (ArrayRest es t) ≡ r
      → parse_array zero_float parse_float
          (suc n)
          acc
          (write_elements format_float (cons o es) ++ b']' ∷ t)
        ≡ r
  first_round o es acc n t r h e q =
      let h' = Starts-append (Written o) (ArrayRest es t) h in
      array_object zero_float parse_float n acc _ (Written o ++ ArrayRest es t) _ o
        (ap skip_spaces (elements_text o es t) ∙ skip_spaces-Starts _ h') h' e
      ∙ q

  pub read_array :
      (n : ℕ) (es es' : Elements F) (t : Bytes)
      → parse_array zero_float parse_float n nil (write_elements format_float es ++ b']' ∷ t)
        ≡ ok es' t
      → parse_object zero_float parse_float (suc n) (Written (array es) ++ t) ≡ ok (array es') t
  unfolding write_string
  read_array n es es' t e =
      at_kind zero_float parse_float n _ array_kind _ refl (unfold kind_of in refl) (
        unfold parse_kind in
        rw (append_assoc (write_elements format_float es) (b']' ∷ []) t, e) refl)

  entries_text :
      (k : Bytes) (v : PdfObject F) (es : Entries F) (t : Bytes)
      → DictRest (entry k v es) t ≡ write_name k ++ b' ' ∷ (Written v ++ DictRest es t)
  unfolding write_entries
  entries_text k v es t = simp append_assoc

  pub entry_round :
      (k : Bytes) (v : PdfObject F) (es acc : Entries F) (n : ℕ) (t : Bytes)
      (r : Parsed (Entries F))
      → AreBytes k
      → ends_with_null k ≡ false
      → Starts (Written v)
      → parse_object zero_float parse_float n (Written v ++ DictRest es t) ≡ ok v (DictRest es t)
      → parse_dict zero_float parse_float n (set_entry k v acc) (DictRest es t) ≡ r
      → parse_dict zero_float parse_float (suc n) acc (DictRest (entry k v es) t) ≡ r
  unfolding write_name
  entry_round k v es acc n t r b f h e q =
      ap (parse_dict zero_float parse_float (suc n) acc) (entries_text k v es t)
      ∙ dict_next zero_float parse_float n acc _ refl
      ∙ dict_round_name _ _ acc (name_chars k) _
      ∙ dict_entry_lem _ _ acc k _ _ v b f (Starts-append (Written v) (DictRest es t) h) e
      ∙ q

  pub read_dict :
      (n : ℕ) (es es' : Entries F) (t : Bytes)
      → parse_dict zero_float parse_float n empty (DictRest es t) ≡ ok es' t
      → parse_object zero_float parse_float (suc n) (Written (dictionary es) ++ t)
        ≡ ok (dictionary es') t
  unfolding write_string
  read_dict n es es' t e =
      at_kind zero_float parse_float n _ dict_kind _ refl (unfold kind_of in refl) (
        unfold parse_kind in
        rw (append_assoc (write_entries format_float es) (b'>' ∷ b'>' ∷ []) t, e) refl)

-- What the loops make of an array and of a dictionary: all of it, in order.
module _ {F : Type 0} where
  cat : Elements F → Elements F → Elements F
  cat nil es = es
  cat (cons o acc) es = cons o (cat acc es)

  cat-append :
      (acc : Elements F) (o : PdfObject F) (es : Elements F)
      → cat (append acc o) es ≡ cat acc (cons o es)
  unfolding cat append
  cat-append nil o es = refl
  cat-append (cons p acc) o es = ap (cons p) (cat-append acc o es)

  cat-nil : (acc : Elements F) → cat acc nil ≡ acc
  unfolding cat
  cat-nil nil = refl
  cat-nil (cons o acc) = ap (cons o) (cat-nil acc)

  append_all-cat : (es acc : Elements F) → append_all acc es ≡ cat acc es
  unfolding append_all
  append_all-cat nil acc = sym (cat-nil acc)
  append_all-cat (cons o es) acc = append_all-cat es (append acc o) ∙ cat-append acc o es

  pub append_all-nil : (es : Elements F) → append_all nil es ≡ es
  append_all-nil es = append_all-cat es nil ∙ (unfold cat in refl)

  cat_entries : Entries F → Entries F → Entries F
  cat_entries empty es = es
  cat_entries (entry k v acc) es = entry k v (cat_entries acc es)

  -- The second entries have keys that are distinct and not among the first.
  abbrev Fresh : Entries F → Entries F → Type 0
  Fresh acc empty = Unit
  Fresh acc (entry k v es) = (has_key k acc ≡ false) × Fresh acc es

  abbrev pub Distinct : Entries F → Type 0
  Distinct empty = Unit
  Distinct (entry k v es) = (has_key k es ≡ false) × Distinct es

  set_entry-cat :
      (k : Bytes) (v : PdfObject F) (acc es : Entries F)
      → has_key k acc ≡ false
      → cat_entries (set_entry k v acc) es ≡ cat_entries acc (entry k v es)
  unfolding cat_entries set_entry
  set_entry-cat k v empty es h = refl
  set_entry-cat k v (entry j w acc) es h = ground (arith, set_entry-cat k v acc es)

  has_key-set_entry :
      (k j : Bytes) (v : PdfObject F) (acc : Entries F)
      → has_key k acc ≡ false
      → has_key j (set_entry k v acc) ≡ (has_key j acc || bytes_eq k j)
  unfolding set_entry
  has_key-set_entry k j v empty h = ground arith
  has_key-set_entry k j v (entry i w acc) h = ground (arith, has_key-set_entry k j v acc)

  Fresh-set_entry :
      (k : Bytes) (v : PdfObject F) (acc es : Entries F)
      → has_key k acc ≡ false
      → has_key k es ≡ false
      → Fresh acc es
      → Fresh (set_entry k v acc) es
  Fresh-set_entry k v acc empty h g f = tt
  Fresh-set_entry k v acc (entry j w es) h g (p, f) = (
    ground (arith, has_key-set_entry k j v acc h, bytes_eq_comm k j),
    Fresh-set_entry k v acc es h (ground arith) f,
  )

  cat_entries-empty : (acc : Entries F) → cat_entries acc empty ≡ acc
  unfolding cat_entries
  cat_entries-empty empty = refl
  cat_entries-empty (entry k v acc) = ap (entry k v) (cat_entries-empty acc)

  set_all-cat :
      (es acc : Entries F) → Distinct es → Fresh acc es → set_all acc es ≡ cat_entries acc es
  unfolding set_all
  set_all-cat empty acc d f = sym (cat_entries-empty acc)
  set_all-cat (entry k v es) acc (u, d) (p, f) =
      set_all-cat es (set_entry k v acc) d (Fresh-set_entry k v acc es p u f)
      ∙ set_entry-cat k v acc es p

  Fresh-empty : (es : Entries F) → Fresh empty es
  Fresh-empty empty = tt
  Fresh-empty (entry k v es) = (refl, Fresh-empty es)

  pub set_all-empty : (es : Entries F) → Distinct es → set_all empty es ≡ es
  set_all-empty es d = set_all-cat es empty d (Fresh-empty es) ∙ (unfold cat_entries in refl)
