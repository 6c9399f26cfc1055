-- ===== src/Core/Lexer/Names.antt =====
-- `parseName` of `pdf/core/parser.go` reads the names that `WriteString` writes.
use unidoc.Prelude.{
  ℕ, zero, suc, ◌/◌, ◌%◌, ◌<◌, ◌≤◌, ◌≡◌, refl, ◌∙◌, false, [], ◌∷◌, ◌++◌, append_assoc, append-nil,
  some, length, length-append, arith, ap, Bool-cases, inl, inr, ◌||◌, not, true, ◌==◌,
}
use unidoc.Core.Symbols.{is_delimiter}
use unidoc.Core.Decoding.{Bytes, AreBytes, IsByte}
use unidoc.Core.AsciiHex.{from_hex_char}
use unidoc.Core.WriteString.{lower_hex, name_char, name_chars, write_name, is_printable}
use unidoc.Core.Lexer.{
  Parsed, ok, ends_name, hex_pair, read_code, name_round, read_name, name_after_comments,
  parse_name,
}

pub from_hex_char-lower_hex : (d : ℕ) → d < 16 → from_hex_char (lower_hex d) ≡ some d
unfolding from_hex_char lower_hex
from_hex_char-lower_hex d h = ground arith

pub hex_pair-lower_hex :
    (b : ℕ)
    → IsByte b
    → hex_pair (from_hex_char (lower_hex (b / 16))) (from_hex_char (lower_hex (b % 16))) ≡ some b
hex_pair-lower_hex b h =
    rw
      (
        from_hex_char-lower_hex (b / 16) (omega arith),
        from_hex_char-lower_hex (b % 16) (omega arith),
      )
      (unfold hex_pair in ap some (omega arith))

-- A text behind a name: nothing, or a byte that ends it.
abbrev pub EndsName : Bytes → Type 0
EndsName [] = Unit
EndsName (b ∷ bs) = ends_name b ≡ true

module _ (go : Bytes → Bytes → Parsed Bytes) (r : Bytes) where
  round_code :
      (c : ℕ) (t : Bytes)
      → IsByte c
      → name_round go r (b'#' ∷ lower_hex (c / 16) ∷ lower_hex (c % 16) ∷ t) ≡ go (r ++ c ∷ []) t
  unfolding name_round read_code
  round_code c t h = rw (hex_pair-lower_hex c h) refl

  round_plain :
      (c : ℕ) (t : Bytes)
      → (not (is_printable c) || (c == b'#') || is_delimiter c) ≡ false
      → name_round go r (c ∷ t) ≡ go (r ++ c ∷ []) t
  unfolding name_round
  round_plain c t h = ground arith

  name_round-name_char :
      (c : ℕ) (t : Bytes) → IsByte c → name_round go r (name_char c ++ t) ≡ go (r ++ c ∷ []) t
  unfolding name_char
  name_round-name_char c t h =
      elim (Bool-cases (not (is_printable c) || (c == b'#') || is_delimiter c)) [
        | inl e ↦ rw e (round_code c t h)
        | inr e ↦ rw e (round_plain c t e)
      ]

read_name-name_chars :
    (n : ℕ) (r cs t : Bytes)
    → AreBytes cs
    → EndsName t
    → length cs < n
    → read_name n r (name_chars cs ++ t) ≡ ok (r ++ cs) t
unfolding read_name name_chars
read_name-name_chars zero r cs t b e h = absurd (omega arith)
read_name-name_chars (suc n) r [] [] b e h = unfold name_round in rw (append-nil r) refl
read_name-name_chars (suc n) r [] (c ∷ t) b e h = unfold name_round in rw (e, append-nil r) refl
read_name-name_chars (suc n) r (c ∷ cs) t (p, b) e h =
    rw (append_assoc (name_char c) (name_chars cs) t) (
      name_round-name_char (read_name n) r c (name_chars cs ++ t) p
      ∙ read_name-name_chars n (r ++ c ∷ []) cs t b e (omega arith)
      ∙ ap (λ s. ok s t) (append_assoc r (c ∷ []) cs))

length-name_char : (c : ℕ) → 1 ≤ length (name_char c)
unfolding name_char
length-name_char c = ground arith

pub length-name_chars : (cs : Bytes) → length cs ≤ length (name_chars cs)
unfolding name_chars
length-name_chars [] = omega arith
length-name_chars (c ∷ cs) =
    omega
      (arith, length-name_chars cs, length-name_char c, length-append (name_char c) (name_chars cs))

-- In front of a byte that ends a name.
pub parse_name-write_name :
    (val t : Bytes) → AreBytes val → EndsName t → parse_name (write_name val ++ t) ≡ ok val t
unfolding parse_name name_after_comments write_name
parse_name-write_name val t b e =
    read_name-name_chars _ [] val t b e
      (omega (arith, length-name_chars val, length-append (name_chars val) t))
