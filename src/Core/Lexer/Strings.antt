-- ===== src/Core/Lexer/Strings.antt =====
-- `parseString` and `parseHexString` of `pdf/core/parser.go` read the strings that `WriteString` writes.
use unidoc.Prelude.{
  ℕ, zero, suc, ◌/◌, ◌%◌, ◌<◌, ◌≤◌, ◌≡◌, refl, ◌∙◌, true, false, [], ◌∷◌, ◌++◌, append_assoc,
  append-nil, length, length-append, arith, ap,
}
use unidoc.Core.Decoding.{Bytes, AreBytes}
use unidoc.Core.WriteString.{lower_hex, hex_encode, escape, escape_all, write_text}
use unidoc.Core.Lexer.{
  Parsed, ok, read_escape, escaped, string_round, read_string, parse_string, read_hex, decode_hex,
  padded, parse_hex_string,
}
use unidoc.Core.Lexer.Names.{hex_pair-lower_hex}

string_round-escape :
    (go : ℕ → Bytes → Bytes → Parsed Bytes) (r : Bytes) (c : ℕ) (t : Bytes)
    → string_round go 1 r (escape c ++ t) ≡ go 1 (r ++ c ∷ []) t
unfolding string_round escape read_escape escaped
string_round-escape go r c t = ground arith

read_string-escape_all :
    (n : ℕ) (r val t : Bytes)
    → length val < n
    → read_string n 1 r (escape_all val ++ b')' ∷ t) ≡ ok (r ++ val) t
unfolding read_string escape_all
read_string-escape_all zero r val t h = absurd (omega arith)
read_string-escape_all (suc n) r [] t h = unfold string_round in rw (append-nil r) refl
read_string-escape_all (suc n) r (c ∷ val) t h =
    rw (append_assoc (escape c) (escape_all val) (b')' ∷ t)) (
      string_round-escape (read_string n) r c _
      ∙ read_string-escape_all n (r ++ c ∷ []) val t (omega arith)
      ∙ ap (λ s. ok s t) (append_assoc r (c ∷ []) val))

length-escape : (c : ℕ) → 1 ≤ length (escape c)
unfolding escape
length-escape c = ground arith

length-escape_all : (val : Bytes) → length val ≤ length (escape_all val)
unfolding escape_all
length-escape_all [] = omega arith
length-escape_all (c ∷ val) =
    omega (arith, length-escape_all val, length-escape c, length-append (escape c) (escape_all val))

pub parse_string-write_text : (val t : Bytes) → parse_string (write_text val false ++ t) ≡ ok val t
unfolding parse_string write_text
parse_string-write_text val t = rw (append_assoc (escape_all val) (b')' ∷ []) t) (
    read_string-escape_all _ [] val t
      (omega (arith, length-escape_all val, length-append (escape_all val) (b')' ∷ t))))

read_digit :
    (r : Bytes) (d : ℕ) (t : Bytes)
    → d < 16
    → read_hex r (lower_hex d ∷ t) ≡ read_hex (r ++ lower_hex d ∷ []) t
unfolding read_hex lower_hex
read_digit r d t h = ground arith

read_hex-hex_encode :
    (bs r t : Bytes)
    → AreBytes bs
    → read_hex r (hex_encode bs ++ b'>' ∷ t) ≡ ok (r ++ hex_encode bs) t
unfolding hex_encode
read_hex-hex_encode [] r t h = unfold read_hex in rw (append-nil r) refl
read_hex-hex_encode (b ∷ bs) r t (p, h) =
    read_digit r (b / 16) _ (omega arith)
    ∙ read_digit _ (b % 16) _ (omega arith)
    ∙ read_hex-hex_encode bs _ t h
    ∙ ap (λ s. ok s t) (simp append_assoc)

decode_hex-hex_encode : (bs : Bytes) → AreBytes bs → decode_hex (hex_encode bs) ≡ bs
unfolding decode_hex hex_encode
decode_hex-hex_encode [] h = refl
decode_hex-hex_encode (b ∷ bs) (p, h) = rw (hex_pair-lower_hex b p, decode_hex-hex_encode bs h) refl

length-hex_encode : (bs : Bytes) → length (hex_encode bs) % 2 ≡ 0
unfolding hex_encode
length-hex_encode [] = refl
length-hex_encode (b ∷ bs) = omega (arith, length-hex_encode bs)

padded_even : (s : Bytes) → length s % 2 ≡ 0 → padded s ≡ s
unfolding padded
padded_even s h = ground arith

pub parse_hex_string-write_text :
    (val t : Bytes) → AreBytes val → parse_hex_string (write_text val true ++ t) ≡ ok val t
unfolding parse_hex_string write_text
parse_hex_string-write_text val t h =
    rw
      (
        append_assoc (hex_encode val) (b'>' ∷ []) t,
        read_hex-hex_encode val [] t h,
        padded_even (hex_encode val) (length-hex_encode val),
        decode_hex-hex_encode val h,
      )
      refl
