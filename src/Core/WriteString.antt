-- ===== src/Core/WriteString.antt =====
-- The `WriteString` methods of `pdf/core/primitives.go`: the text of an object in a file.
use unidoc.Prelude.{
  ℕ, ◌+◌, ◌-◌, ◌/◌, ◌%◌, Bool, true, false, ◌||◌, not, [], ◌∷◌, ◌++◌, codes, ltb, ◌==◌,
  if◌then◌else◌,
}
use unidoc.Text.{int_string}
use unidoc.Core.Symbols.{is_delimiter}
use unidoc.Core.Decoding.{Bytes}
use unidoc.Core.Object.{
  PdfObject, null, boolean, integer, real, text, name, array, dictionary, reference, Elements, nil,
  cons, Entries, empty, entry,
}

-- `IsPrintable` of `pdf/core/symbols.go`
abbrev pub is_printable : ℕ → Bool
is_printable char = if ltb char 0x21 || ltb 0x7E char then false else true

-- A digit of `%x` and of `hex.EncodeToString`.
unfoldable pub lower_hex : ℕ → ℕ
lower_hex d = if ltb d 10 then b'0' + d else b'a' + (d - 10)

unfoldable pub hex_encode : Bytes → Bytes
unfolding lower_hex
hex_encode [] = []
hex_encode (b ∷ bs) = lower_hex (b / 16) ∷ lower_hex (b % 16) ∷ hex_encode bs

-- `escapeSequences` of `PdfObjectString.WriteString`
unfoldable pub escape : ℕ → Bytes
escape char =
    if char == 0x0A
    then codes "\\n"
    else if char == 0x0D
    then codes "\\r"
    else if char == 0x09
    then codes "\\t"
    else if char == 0x08
    then codes "\\b"
    else if char == 0x0C
    then codes "\\f"
    else if (char == b'(') || (char == b')') || (char == 0x5C)
    then 0x5C ∷ char ∷ []
    else char ∷ []

unfoldable pub escape_all : Bytes → Bytes
unfolding escape
escape_all [] = []
escape_all (c ∷ val) = escape c ++ escape_all val

unfoldable pub write_text : Bytes → Bool → Bytes
unfolding hex_encode escape_all
write_text val true = b'<' ∷ hex_encode val ++ b'>' ∷ []
write_text val false = b'(' ∷ escape_all val ++ b')' ∷ []

-- The loop of `PdfObjectName.WriteString`.
unfoldable pub name_char : ℕ → Bytes
unfolding lower_hex
name_char char =
    if not (is_printable char) || (char == b'#') || is_delimiter char
    then b'#' ∷ lower_hex (char / 16) ∷ lower_hex (char % 16) ∷ []
    else char ∷ []

unfoldable pub name_chars : Bytes → Bytes
unfolding name_char
name_chars [] = []
name_chars (c ∷ cs) = name_char c ++ name_chars cs

unfoldable pub write_name : Bytes → Bytes
unfolding name_chars
write_name val = b'/' ∷ name_chars val

unfoldable pub write_bool : Bool → Bytes
write_bool true = codes "true"
write_bool false = codes "false"

unfoldable pub write_reference : Bytes → Bytes → Bytes
write_reference object_number generation_number =
    object_number ++ b' ' ∷ (generation_number ++ b' ' ∷ b'R' ∷ [])

module _ {F : Type 0} (format_float : F → Bytes) where
  -- `format_float` is `strconv.FormatFloat(x, 'f', -1, 64)`.
  unfoldable mutual
    unfolding int_string write_text write_name write_bool write_reference

    pub write_string : PdfObject F → Bytes
    write_string null = codes "null"
    write_string (boolean b) = write_bool b
    write_string (integer n) = int_string n
    write_string (real x) = format_float x
    write_string (text val is_hex) = write_text val is_hex
    write_string (name val) = write_name val
    write_string (array es) = b'[' ∷ write_elements es ++ b']' ∷ []
    write_string (dictionary es) = b'<' ∷ b'<' ∷ write_entries es ++ b'>' ∷ b'>' ∷ []
    write_string (reference n g) = write_reference (int_string n) (int_string g)

    -- A space stands between two elements.
    pub write_elements : Elements F → Bytes
    write_elements nil = []
    write_elements (cons o nil) = write_string o
    write_elements (cons o (cons p es)) = write_string o ++ b' ' ∷ write_elements (cons p es)

    pub write_entries : Entries F → Bytes
    write_entries empty = []
    write_entries (entry k v es) = write_name k ++ b' ' ∷ (write_string v ++ write_entries es)
