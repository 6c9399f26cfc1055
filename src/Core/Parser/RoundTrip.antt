-- ===== src/Core/Parser/RoundTrip.antt =====
-- `parseObject` of `pdf/core/parser.go` reads the text that `WriteString` of `pdf/core/primitives.go`
-- writes.
use unidoc.Prelude.{
  ℕ, zero, suc, ◌+◌, ◌*◌, ◌≤◌, ◌≡◌, refl, ◌∙◌, ap, [], ◌∷◌, ◌++◌, Option, length, length-append,
  arith, codes,
}
use unidoc.Prelude.Int.{pos, negsuc}
use unidoc.Core.Decoding.{Bytes}
use unidoc.Core.Object.{
  PdfObject, null, boolean, integer, real, text, name, array, dictionary, reference, Elements, nil,
  cons, Entries, empty, entry, append, set_entry,
}
use unidoc.Core.WriteString.{name_chars, write_name, write_string, write_elements, write_entries}
use unidoc.Core.Lexer.{ok}
use unidoc.Core.Lexer.Numbers.{EndsNumber}
use unidoc.Core.Parser.{parse_object, parse_array, parse_dict}
use unidoc.Core.Parser.References.{NoGeneration}
use unidoc.Core.Parser.Numbers.{parse_other-integer, parse_other-real}
use unidoc.Core.Parser.Indirect.{parse_other-reference}
use unidoc.Core.Parser.Printable.{
  int_string-IsPlain, real-IsPlain, bool-IsPlain, reference-IsPlain, Printable, ElementsPrintable,
  EntriesPrintable, Starts, write_string-Starts,
}
use unidoc.Core.Parser.Rounds.{append_all, set_all, array_end, dict_end}
use unidoc.Core.Parser.Atoms.{read_plain, read_bool, read_null, read_text, read_name_object}
use unidoc.Core.Parser.Containers.{
  further, write_elements-cons, further-Follows, entries-Follows, further_round, first_round,
  read_array, entry_round, read_dict, append_all-nil, set_all-empty, Distinct,
}

-- What the fuel leaves for the parts of a text.
fuel_head : {n : ℕ} (u w : Bytes) → 2 * length (u ++ w) + 1 ≤ n → 2 * length u + 1 ≤ n
fuel_head u w h = omega (arith, length-append u w)

module _ {F : Type 0} (zero_float : F) (parse_float : Bytes → Option F)
    (format_float : F → Bytes) where
  abbrev Reads : ℕ → PdfObject F → Type 0
  Reads n o =
      (t : Bytes)
      → EndsNumber t
      → NoGeneration t
      → parse_object zero_float parse_float n (write_string format_float o ++ t) ≡ ok o t

  length-further :
      (o : PdfObject F) (es : Elements F)
      → length (further format_float (cons o es))
        ≡ 1 + length (write_string format_float o) + length (further format_float es)
  unfolding further
  length-further o es = omega (
    arith,
    ap length (write_elements-cons format_float o es),
    length-append (write_string format_float o) (further format_float es),
  )

  array_length :
      (es : Elements F)
      → length (write_string format_float (array es)) ≡ 2 + length (write_elements format_float es)
  unfolding write_string
  array_length es = omega (arith, length-append (write_elements format_float es) (b']' ∷ []))

  dict_length :
      (es : Entries F)
      → length (write_string format_float (dictionary es))
        ≡ 4 + length (write_entries format_float es)
  unfolding write_string
  dict_length es = omega (arith, length-append (write_entries format_float es) (b'>' ∷ b'>' ∷ []))

  entry_length :
      (k : Bytes) (v : PdfObject F) (es : Entries F)
      → 2 + length (write_string format_float v) + length (write_entries format_float es)
        ≤ length (write_entries format_float (entry k v es))
  unfolding write_entries write_name
  entry_length k v es = omega (
    arith,
    length-append (name_chars k)
        (b' ' ∷ (write_string format_float v ++ write_entries format_float es)),
    length-append (write_string format_float v) (write_entries format_float es),
  )

  -- The text of an object is not empty.
  object_length :
      (o : PdfObject F)
      → Printable format_float parse_float o
      → 1 ≤ length (write_string format_float o)
  object_length o h =
      at_least (write_string format_float o) (write_string-Starts format_float parse_float o h)
    where
      at_least : (s : Bytes) → Starts s → 1 ≤ length s
      at_least [] k = elim k [ ]
      at_least (c ∷ s) k = omega arith

  EntriesPrintable-Distinct :
      (es : Entries F) → EntriesPrintable format_float parse_float es → Distinct es
  unfolding EntriesPrintable
  EntriesPrintable-Distinct empty h = tt
  EntriesPrintable-Distinct (entry k v es) h = (h.2, EntriesPrintable-Distinct es h.4)

  -- An array or a dictionary holds other objects.
  unfoldable IsSimple : PdfObject F → Type 0
  IsSimple (array es) = ⊥
  IsSimple (dictionary es) = ⊥
  IsSimple _ = Unit

  read_simple :
      (o : PdfObject F) (n : ℕ)
      → IsSimple o
      → Printable format_float parse_float o
      → Reads (suc n) o
  unfolding Printable IsSimple write_string
  read_simple null n q h t e g =
      read_plain zero_float parse_float n (codes "null") t null refl
        (read_null zero_float parse_float t)
  read_simple (boolean b) n q h t e g =
      read_plain zero_float parse_float n _ t (boolean b) (bool-IsPlain b)
        (read_bool zero_float parse_float b t)
  read_simple (integer i) n q h t e g =
      read_plain zero_float parse_float n _ t (integer i) (int_string-IsPlain i h)
        (parse_other-integer zero_float parse_float i t h e g)
  read_simple (real x) n q h t e g =
      read_plain zero_float parse_float n _ t (real x) (real-IsPlain _ h.0)
        (parse_other-real zero_float parse_float _ t x h.0 h.1 e)
  read_simple (text val is_hex) n q h t e g = read_text zero_float parse_float n val is_hex t h
  read_simple (name val) n q h t e g = read_name_object zero_float parse_float n val t h e
  read_simple (reference (pos a) (pos b)) n q h t e g =
      read_plain zero_float parse_float n _ t (reference (pos a) (pos b))
        (reference-IsPlain (pos a) (pos b) h)
        (parse_other-reference zero_float parse_float a b t h.0 h.1 h.2)
  read_simple (reference (pos a) (negsuc b)) n q h t e g = elim h [ ]
  read_simple (reference (negsuc a) b) n q h t e g = elim h [ ]
  read_simple (array es) n q h t e g = elim q [ ]
  read_simple (dictionary es) n q h t e g = elim q [ ]

  no_elements :
      (n : ℕ) (es : Elements F) (t : Bytes)
      → parse_array zero_float parse_float (suc n) es (write_elements format_float nil ++ b']' ∷ t)
        ≡ ok es t
  unfolding write_elements
  no_elements n es t = array_end zero_float parse_float n es t

  no_further :
      (n : ℕ) (es : Elements F) (t : Bytes)
      → parse_array zero_float parse_float (suc n) es (further format_float nil ++ b']' ∷ t)
        ≡ ok es t
  unfolding further
  no_further n es t = array_end zero_float parse_float n es t

  no_entries :
      (n : ℕ) (es : Entries F) (t : Bytes)
      → parse_dict zero_float parse_float
          (suc n)
          es
          (write_entries format_float empty ++ b'>' ∷ b'>' ∷ t)
        ≡ ok es t
  unfolding write_entries
  no_entries n es t = dict_end zero_float parse_float n es t

  mutual
    unfolding IsSimple Printable ElementsPrintable EntriesPrintable append_all set_all

    read_object :
        (o : PdfObject F) (n : ℕ)
        → Printable format_float parse_float o
        → 2 * length (write_string format_float o) + 1 ≤ n
        → Reads n o
    read_object o zero h l t e g = absurd (omega arith)
    read_object null (suc n) h l t e g = read_simple null n tt h t e g
    read_object (boolean b) (suc n) h l t e g = read_simple (boolean b) n tt h t e g
    read_object (integer i) (suc n) h l t e g = read_simple (integer i) n tt h t e g
    read_object (real x) (suc n) h l t e g = read_simple (real x) n tt h t e g
    read_object (text val is_hex) (suc n) h l t e g = read_simple (text val is_hex) n tt h t e g
    read_object (name val) (suc n) h l t e g = read_simple (name val) n tt h t e g
    read_object (reference a b) (suc n) h l t e g = read_simple (reference a b) n tt h t e g
    read_object (array es) (suc n) h l t e g =
        read_array zero_float parse_float format_float n es es t (
          read_elements es n t h (omega (arith, array_length es))
          ∙ ap (λ r. ok r t) (append_all-nil es))
    read_object (dictionary es) (suc n) h l t e g =
        read_dict zero_float parse_float format_float n es es t (
          read_entries es n empty t h (omega (arith, dict_length es))
          ∙ ap (λ r. ok r t) (set_all-empty es (EntriesPrintable-Distinct es h)))

    read_elements :
        (es : Elements F) (n : ℕ) (t : Bytes)
        → ElementsPrintable format_float parse_float es
        → 2 * length (write_elements format_float es) + 3 ≤ n
        → parse_array zero_float parse_float n nil (write_elements format_float es ++ b']' ∷ t)
          ≡ ok (append_all nil es) t
    read_elements es zero t h l = absurd (omega arith)
    read_elements nil (suc n) t h l = no_elements n nil t
    read_elements (cons o es) (suc n) t (p, h) l =
        let ((e, g), m) = further-Follows zero_float parse_float format_float es t h in
        let u = ap length (write_elements-cons format_float o es) in
        let w = length-append (write_string format_float o) (further format_float es) in
        first_round zero_float parse_float format_float o es nil n t _
          (write_string-Starts format_float parse_float o p)
          (read_object o n p (omega (arith, u, w)) _ e g)
          (read_further es n (append nil o) t h (omega (arith, u, w)))

    read_further :
        (es : Elements F) (n : ℕ) (acc : Elements F) (t : Bytes)
        → ElementsPrintable format_float parse_float es
        → 2 * length (further format_float es) + 1 ≤ n
        → parse_array zero_float parse_float n acc (further format_float es ++ b']' ∷ t)
          ≡ ok (append_all acc es) t
    read_further es zero acc t h l = absurd (omega arith)
    read_further nil (suc n) acc t h l = no_further n acc t
    read_further (cons o es) (suc n) acc t (p, h) l =
        let ((e, g), m) = further-Follows zero_float parse_float format_float es t h in
        further_round zero_float parse_float format_float o es acc n t _
          (write_string-Starts format_float parse_float o p)
          (read_object o n p (omega (arith, length-further o es)) _ e g)
          (read_further es n (append acc o) t h (omega (arith, length-further o es)))

    read_entries :
        (es : Entries F) (n : ℕ) (acc : Entries F) (t : Bytes)
        → EntriesPrintable format_float parse_float es
        → 2 * length (write_entries format_float es) + 1 ≤ n
        → parse_dict zero_float parse_float n acc (write_entries format_float es ++ b'>' ∷ b'>' ∷ t)
          ≡ ok (set_all acc es) t
    read_entries es zero acc t h l = absurd (omega arith)
    read_entries empty (suc n) acc t h l = no_entries n acc t
    read_entries (entry k v es) (suc n) acc t (b, f, u, p, h) l =
        let (e, g) = entries-Follows zero_float parse_float format_float es t in
        entry_round zero_float parse_float format_float k v es acc n t _ b f
          (write_string-Starts format_float parse_float v p)
          (read_object v n p (omega (arith, entry_length k v es)) _ e g)
          (read_entries es n (set_entry k v acc) t h (omega (arith, entry_length k v es)))

  -- `parseObject` reads the text that `WriteString` writes of an object and gives back that object and
  -- what follows, if nothing follows or what follows begins with a byte that ends a name (white space,
  -- `/`, `[`, `]`, `(`, `<` or `>`) and is not blanks, digits, blanks and an `R`. The object is
  -- `Printable`: its names and strings are bytes; no key of a dictionary ends in `null` (with something
  -- before it) or stands there twice; its integers are in the range of `int64`; a reference is no
  -- longer than the 15 bytes that `parseObject` peeks at and its numbers are not negative; and the text
  -- that `strconv` writes for a float has digits and a period, and reads back as that float. The fuel
  -- is twice the length of the text, and one more.
  pub parse_object-write_string :
      (o : PdfObject F) (n : ℕ) (t : Bytes)
      → Printable format_float parse_float o
      → EndsNumber t
      → NoGeneration t
      → 2 * length (write_string format_float o) + 1 ≤ n
      → parse_object zero_float parse_float n (write_string format_float o ++ t) ≡ ok o t
  parse_object-write_string o n t h e g l = read_object o n h l t e g
