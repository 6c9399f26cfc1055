-- ===== src/Core/AsciiHex.antt =====
-- `ASCIIHexEncoder` of `pdf/core/encoding.go`: `DecodeBytes` and `EncodeBytes`, with what they use of
-- Go's `encoding/hex` and `fmt`.
pub mod RoundTrip
use unidoc.Prelude.{
  ℕ, ◌+◌, ◌-◌, ◌*◌, ◌/◌, ◌%◌, Bool, true, false, ◌&&◌, ◌||◌, List, [], ◌∷◌, ◌++◌, Option, none,
  some, length, ltb, leb, ◌==◌, if◌then◌else◌,
}
use unidoc.Core.Symbols.{is_white_space}
use unidoc.Core.Decoding.{
  Bytes, Decoded, ok, err, ◌>>=◌, unexpected_eof, invalid_character, odd_length,
}

abbrev pub is_hex_digit : ℕ → Bool
is_hex_digit b =
    (leb b'a' b && leb b b'f') || (leb b'A' b && leb b b'F') || (leb b'0' b && leb b b'9')

-- The loop that reads up to `>`, skips white space and keeps the digits.
unfoldable pub read_digits : Bytes → Bytes → Decoded Bytes
read_digits [] inb = err unexpected_eof
read_digits (b ∷ bs) inb =
    let skip = read_digits bs inb in
    let keep = read_digits bs (inb ++ b ∷ []) in
    if b == b'>'
    then ok inb
    else if is_white_space b
    then skip
    else if is_hex_digit b
    then keep
    else err invalid_character

-- `hex.Decode`: two digits of either case make a byte.
unfoldable pub from_hex_char : ℕ → Option ℕ
from_hex_char c =
    if leb b'0' c && leb c b'9'
    then some (c - b'0')
    else if leb b'a' c && leb c b'f'
    then some (c - b'a' + 10)
    else if leb b'A' c && leb c b'F'
    then some (c - b'A' + 10)
    else none

unfoldable pub join_digits : Option ℕ → Option ℕ → Decoded Bytes → Decoded Bytes
join_digits (some a) (some b) rest = do bs ← rest; ok ((a * 16 + b) ∷ bs)
join_digits (some a) none rest = err invalid_character
join_digits none b rest = err invalid_character

unfoldable pub hex_decode : Bytes → Decoded Bytes
unfolding from_hex_char join_digits
hex_decode [] = ok []
hex_decode (a ∷ []) = err odd_length
hex_decode (a ∷ b ∷ s) = join_digits (from_hex_char a) (from_hex_char b) (hex_decode s)

-- A last digit without its pair is followed by a 0.
unfoldable pub pad_digits : Bytes → Bytes
pad_digits inb = if length inb % 2 == 1 then inb ++ b'0' ∷ [] else inb

unfoldable pub decode_bytes : Bytes → Decoded Bytes
unfolding read_digits pad_digits hex_decode
decode_bytes encoded = do inb ← read_digits encoded []; hex_decode (pad_digits inb)

-- `fmt.Sprintf("%.2X ", b)`
unfoldable pub upper_hex : ℕ → ℕ
upper_hex d = if ltb d 10 then b'0' + d else b'A' + (d - 10)

-- The loop of `EncodeBytes`, with the text that is written so far.
unfoldable pub write_bytes : Bytes → Bytes → Bytes
unfolding upper_hex
write_bytes [] encoded = encoded
write_bytes (b ∷ data_) encoded =
    write_bytes data_ (encoded ++ upper_hex (b / 16) ∷ upper_hex (b % 16) ∷ b' ' ∷ [])

unfoldable pub encode_bytes : Bytes → Bytes
unfolding write_bytes
encode_bytes data_ = write_bytes data_ [] ++ b'>' ∷ []
