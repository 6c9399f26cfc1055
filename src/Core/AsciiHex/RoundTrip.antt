-- ===== src/Core/AsciiHex/RoundTrip.antt =====
-- What `ASCIIHexEncoder` encodes, it decodes to the same bytes (`pdf/core/encoding.go`).
use unidoc.Prelude.{
  ℕ, ◌/◌, ◌%◌, ◌<◌, ◌≡◌, refl, sym, ◌∙◌, ap, [], ◌∷◌, ◌++◌, append_assoc, append-nil, some, length,
  arith,
}
use unidoc.Core.Decoding.{Bytes, AreBytes, ok}
use unidoc.Core.AsciiHex.{
  read_digits, from_hex_char, hex_decode, pad_digits, decode_bytes, upper_hex, write_bytes,
  encode_bytes,
}

-- the digits that are written, without the spaces
digits : Bytes → Bytes
digits [] = []
digits (b ∷ bs) = upper_hex (b / 16) ∷ upper_hex (b % 16) ∷ digits bs

-- the whole text for the bytes
text : Bytes → Bytes
text [] = []
text (b ∷ bs) = upper_hex (b / 16) ∷ upper_hex (b % 16) ∷ b' ' ∷ text bs

write_bytes-text : (bs out : Bytes) → write_bytes bs out ≡ out ++ text bs
unfolding write_bytes text
write_bytes-text [] out = sym (append-nil out)
write_bytes-text (b ∷ bs) out = simp (write_bytes-text bs, append_assoc)

read_digit :
    (d : ℕ) (rest inb : Bytes)
    → d < 16
    → read_digits (upper_hex d ∷ rest) inb ≡ read_digits rest (inb ++ upper_hex d ∷ [])
unfolding read_digits upper_hex
read_digit d rest inb h = ground arith

read_space : (rest inb : Bytes) → read_digits (b' ' ∷ rest) inb ≡ read_digits rest inb
unfolding read_digits
read_space rest inb = refl

read_digits-text :
    (bs inb : Bytes) → AreBytes bs → read_digits (text bs ++ b'>' ∷ []) inb ≡ ok (inb ++ digits bs)
unfolding text digits
read_digits-text [] inb h = unfold read_digits in ap ok (sym (append-nil inb))
read_digits-text (b ∷ bs) inb (p, h) =
    read_digit (b / 16) _ inb (omega arith)
    ∙ read_digit (b % 16) _ _ (omega arith)
    ∙ read_space _ _
    ∙ read_digits-text bs _ h
    ∙ ap ok (simp append_assoc)

from_hex_char-upper_hex : (d : ℕ) → d < 16 → from_hex_char (upper_hex d) ≡ some d
unfolding from_hex_char upper_hex
from_hex_char-upper_hex d h = ground arith

hex_decode-digits : (bs : Bytes) → AreBytes bs → hex_decode (digits bs) ≡ ok bs
unfolding hex_decode digits
hex_decode-digits [] h = refl
hex_decode-digits (b ∷ bs) (p, h) =
    rw
      (
        from_hex_char-upper_hex (b / 16) (omega arith),
        from_hex_char-upper_hex (b % 16) (omega arith),
        hex_decode-digits bs h,
      )
      (ap (λ c. ok (c ∷ bs)) (omega arith))

length-digits : (bs : Bytes) → length (digits bs) % 2 ≡ 0
unfolding digits
length-digits [] = refl
length-digits (b ∷ bs) = omega (arith, length-digits bs)

pad_digits-even : (s : Bytes) → length s % 2 ≡ 0 → pad_digits s ≡ s
unfolding pad_digits
pad_digits-even s h = ground arith

-- Decoding what was encoded gives the bytes back, for every sequence of bytes.
pub ascii_hex_round_trip : (bs : Bytes) → AreBytes bs → decode_bytes (encode_bytes bs) ≡ ok bs
unfolding decode_bytes encode_bytes
ascii_hex_round_trip bs h =
    rw
      (
        write_bytes-text bs [],
        read_digits-text bs [] h,
        pad_digits-even (digits bs) (length-digits bs),
      )
      (hex_decode-digits bs h)
