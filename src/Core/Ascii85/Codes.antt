-- ===== src/Core/Ascii85/Codes.antt =====
-- One group of `ASCII85Encoder` (`pdf/core/encoding.go`): its codes are read back, and their value
-- gives the bytes back.
use unidoc.Prelude.{
  ℕ, ◌+◌, ◌-◌, ◌*◌, ◌/◌, ◌%◌, ◌^◌, ◌<◌, ◌≡◌, ◌≢◌, refl, ◌∙◌, ap, [], ◌∷◌, ◌++◌, length, take, map,
  arith, true, false,
}
use unidoc.Core.Decoding.{Bytes, ok}
use unidoc.Core.Ascii85.{read_group, base256_to_base85, encode_group}

-- the character of a code
abbrev pub char : ℕ → ℕ
char d = (d + b'!') % 256

read_code_plain :
    (d : ℕ) (rest codes : Bytes)
    → d < 85
    → length codes < 5
    → read_group ((d + 33) ∷ rest) codes ≡ read_group rest (codes ++ d ∷ [])
unfolding read_group
read_code_plain d rest codes h l = ground (arith, add_sub d)
  where
    add_sub : (x : ℕ) → x + 33 - 33 ≡ x
    add_sub x = omega arith

pub read_code :
    (d : ℕ) (rest codes : Bytes)
    → d < 85
    → length codes < 5
    → read_group (char d ∷ rest) codes ≡ read_group rest (codes ++ d ∷ [])
read_code d rest codes h l =
    ap (λ c. read_group (c ∷ rest) codes) {x = char d} {y = d + 33} (omega arith)
    ∙ read_code_plain d rest codes h l

pub read_full :
    (rest codes : Bytes)
    → length codes ≡ 5
    → read_group rest codes
      ≡ ok (record { codes = codes; to_write = 4; eod = false; unread = rest })
unfolding read_group
read_full [] codes h = refl
read_full (c ∷ cs) codes h = ground arith

pub read_eod :
    (rest codes : Bytes)
    → length codes < 5
    → read_group (b'~' ∷ b'>' ∷ rest) codes
      ≡ ok (record {
        codes = codes;
        to_write = length codes - 1;
        eod = true;
        unread = b'~' ∷ b'>' ∷ rest;
      })
unfolding read_group
read_eod rest codes h = ground arith

pub read_z :
    (rest : Bytes)
    → read_group (b'z' ∷ rest) []
      ≡ ok (record { codes = []; to_write = 4; eod = false; unread = rest })
unfolding read_group
read_z rest = refl

-- A code is below 85.
module _ (v : ℕ) (fits : v < 2 ^ 32) where
  abbrev pub code0 : ℕ
  code0 = v / 85 ^ 4 % 256

  abbrev pub code1 : ℕ
  code1 = v % 85 ^ 4 / 85 ^ 3 % 256

  abbrev pub code2 : ℕ
  code2 = v % 85 ^ 4 % 85 ^ 3 / 85 ^ 2 % 256

  abbrev pub code3 : ℕ
  code3 = v % 85 ^ 4 % 85 ^ 3 % 85 ^ 2 / 85 ^ 1 % 256

  abbrev pub code4 : ℕ
  code4 = v % 85 ^ 4 % 85 ^ 3 % 85 ^ 2 % 85 ^ 1 / 85 ^ 0 % 256

  pub codes_lt : (code0 < 85) × (code1 < 85) × (code2 < 85) × (code3 < 85) × (code4 < 85)
  codes_lt = omega arith

  pub whole_value :
      (code0 * 85 ^ 4 + code1 * 85 ^ 3 + code2 * 85 ^ 2 + code3 * 85 + code4) % 2 ^ 32 ≡ v
  whole_value = omega arith

  -- With the codes behind the first n + 1 replaced by 84, the first n bytes are the same, if the
  -- bytes behind them are 0.
  pub one_byte :
      v % 2 ^ 24 ≡ 0
      → (code0 * 85 ^ 4 + code1 * 85 ^ 3 + 84 * 85 ^ 2 + 84 * 85 + 84) % 2 ^ 32 / 2 ^ 24 % 256
        ≡ v / 2 ^ 24 % 256
  one_byte h = omega arith

  pub two_bytes :
      v % 2 ^ 16 ≡ 0
      → (code0 * 85 ^ 4 + code1 * 85 ^ 3 + code2 * 85 ^ 2 + 84 * 85 + 84) % 2 ^ 32 / 2 ^ 16
        ≡ v / 2 ^ 16
  two_bytes h = omega arith

  pub three_bytes :
      v % 2 ^ 8 ≡ 0
      → (code0 * 85 ^ 4 + code1 * 85 ^ 3 + code2 * 85 ^ 2 + code3 * 85 + 84) % 2 ^ 32 / 2 ^ 8
        ≡ v / 2 ^ 8
  three_bytes h = omega arith

-- A group of all zeros is written as `z`.
pub encode_group-zero : (n : ℕ) → encode_group n 0 0 0 0 ≡ b'z' ∷ []
unfolding encode_group
encode_group-zero n = refl

abbrev pub base256 : ℕ → ℕ → ℕ → ℕ → ℕ
base256 b1 b2 b3 b4 = b1 * 2 ^ 24 + b2 * 2 ^ 16 + b3 * 2 ^ 8 + b4

-- Any other one by the characters of its first n + 1 codes.
pub encode_group-nonzero :
    (n b1 b2 b3 b4 : ℕ)
    → base256 b1 b2 b3 b4 ≢ 0
    → encode_group n b1 b2 b3 b4
      ≡ map char (take (n + 1) (base256_to_base85 5 (base256 b1 b2 b3 b4)))
unfolding encode_group
encode_group-nonzero n b1 b2 b3 b4 h = ground arith
