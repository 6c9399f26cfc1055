-- ===== src/Core/Ascii85.antt =====
-- `ASCII85Encoder` of `pdf/core/encoding.go`: `DecodeBytes`, `EncodeBytes` and `base256Tobase85`.
pub mod Codes
pub mod Groups
pub mod RoundTrip
use unidoc.Prelude.{
  ℕ, zero, suc, ◌+◌, ◌-◌, ◌*◌, ◌/◌, ◌%◌, ◌^◌, Bool, true, false, ◌&&◌, List, [], ◌∷◌, ◌++◌, length,
  take, map, get_or, leb, ◌==◌, if◌then◌else◌,
}
use unidoc.Core.Symbols.{is_white_space}
use unidoc.Core.Decoding.{Bytes, Decoded, ok, err, ◌>>=◌, invalid_character, out_of_fuel}

-- What the inner loop of `DecodeBytes` leaves: the codes that are set, `toWrite`, `eod` and the text
-- that is not read.
pub record Group : Type 0 where
  pub codes : Bytes
  pub to_write : ℕ
  pub eod : Bool
  pub unread : Bytes

abbrev pub is_next : ℕ → Bytes → Bool
is_next c [] = false
is_next c (x ∷ xs) = x == c

-- The inner loop; `j - spaces` is the number of codes that are set.
unfoldable pub read_group : Bytes → Bytes → Decoded Group
read_group [] codes = ok (record { codes = codes; to_write = 4; eod = false; unread = [] })
read_group (c ∷ cs) codes =
    let skip = read_group cs codes in
    let set_code = read_group cs (codes ++ (c - b'!') ∷ []) in
    if length codes == 5
    then ok (record { codes = codes; to_write = 4; eod = false; unread = c ∷ cs })
    else if is_white_space c
    then skip
    else if (c == b'~') && is_next b'>' cs
    then ok (record { codes = codes; to_write = length codes - 1; eod = true; unread = c ∷ cs })
    else if leb b'!' c && leb c b'u'
    then set_code
    else if (c == b'z') && (length codes == 0)
    then ok (record { codes = codes; to_write = 4; eod = false; unread = cs })
    else err invalid_character

-- A code that is not set is 0, and those behind `toWrite` are 84.
unfoldable pub code_at : Group → ℕ → ℕ
code_at g m = if leb m g.to_write then get_or g.codes m 0 else 84

unfoldable pub group_value : Group → ℕ
unfolding code_at
group_value g =
    (code_at g 0 * 85 ^ 4
      + code_at g 1 * 85 ^ 3
      + code_at g 2 * 85 ^ 2
      + code_at g 3 * 85
      + code_at g 4)
    % 2 ^ 32

unfoldable pub word_bytes : ℕ → Bytes
word_bytes v = v / 2 ^ 24 % 256 ∷ v / 2 ^ 16 % 256 ∷ v / 2 ^ 8 % 256 ∷ v % 256 ∷ []

-- The outer loop, a unit of fuel for each group.
unfoldable pub read_groups : ℕ → Bytes → Bytes → Decoded Bytes
unfolding read_group group_value word_bytes
read_groups zero encoded decoded = err out_of_fuel
read_groups (suc fuel) [] decoded = ok decoded
read_groups (suc fuel) (c ∷ cs) decoded = read_group (c ∷ cs) [] >>= λ (g : Group).
    let decoded' = decoded ++ take g.to_write (word_bytes (group_value g)) in
    let more = read_groups fuel g.unread decoded' in if g.eod then ok decoded' else more

unfoldable pub decode_bytes : Bytes → Decoded Bytes
unfolding read_groups
decode_bytes encoded = read_groups (suc (length encoded)) encoded []

-- `base256Tobase85`: the digits by falling powers; the divider of k rounds to go is 85 ^ (k - 1).
unfoldable pub base256_to_base85 : ℕ → ℕ → Bytes
base256_to_base85 zero remainder = []
base256_to_base85 (suc k) remainder =
    remainder / 85 ^ k % 256 ∷ base256_to_base85 k (remainder % 85 ^ k)

-- A group of n bytes, with zeros for those that are missing. The four bytes of `base256` do not
-- overlap, so that `|` is a sum.
unfoldable pub encode_group : ℕ → ℕ → ℕ → ℕ → ℕ → Bytes
unfolding base256_to_base85
encode_group n b1 b2 b3 b4 =
    let base256 = b1 * 2 ^ 24 + b2 * 2 ^ 16 + b3 * 2 ^ 8 + b4 in
    if base256 == 0
    then b'z' ∷ []
    else map (λ val. (val + b'!') % 256) (take (n + 1) (base256_to_base85 5 base256))

unfoldable pub encode_groups : Bytes → Bytes
unfolding encode_group
encode_groups [] = []
encode_groups (b1 ∷ []) = encode_group 1 b1 0 0 0
encode_groups (b1 ∷ b2 ∷ []) = encode_group 2 b1 b2 0 0
encode_groups (b1 ∷ b2 ∷ b3 ∷ []) = encode_group 3 b1 b2 b3 0
encode_groups (b1 ∷ b2 ∷ b3 ∷ b4 ∷ bs) = encode_group 4 b1 b2 b3 b4 ++ encode_groups bs

unfoldable pub encode_bytes : Bytes → Bytes
unfolding encode_groups
encode_bytes bs = encode_groups bs ++ b'~' ∷ b'>' ∷ []
