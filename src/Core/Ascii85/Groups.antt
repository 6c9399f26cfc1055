-- ===== src/Core/Ascii85/Groups.antt =====
-- A group that `ASCII85Encoder` (`pdf/core/encoding.go`) has written, read by its decoder.
use unidoc.Prelude.{
  ℕ, suc, ◌^◌, ◌<◌, ◌≡◌, ◌≢◌, refl, ◌∙◌, ap, [], ◌∷◌, ◌++◌, take, map, arith, true, false,
  ℕ_discrete,
}
use unidoc.Core.Decoding.{Bytes, IsByte, ok}
use unidoc.Core.Ascii85.{
  Group, read_group, read_groups, code_at, group_value, word_bytes, base256_to_base85, encode_group,
}
use unidoc.Core.Ascii85.Codes.{
  char, read_code, read_full, read_eod, read_z, code0, code1, code2, code3, code4, codes_lt,
  whole_value, encode_group-zero, encode_group-nonzero, base256,
}

-- a round of the outer loop, by what the inner loop leaves
pub round_more :
    (fuel c : ℕ) (cs out : Bytes) (g : Group)
    → read_group (c ∷ cs) [] ≡ ok g
    → g.eod ≡ false
    → read_groups (suc fuel) (c ∷ cs) out
      ≡ read_groups fuel g.unread (out ++ take g.to_write (word_bytes (group_value g)))
unfolding read_groups
round_more fuel c cs out g e f = rw (e, f)

pub round_last :
    (fuel c : ℕ) (cs out : Bytes) (g : Group)
    → read_group (c ∷ cs) [] ≡ ok g
    → g.eod ≡ true
    → read_groups (suc fuel) (c ∷ cs) out ≡ ok (out ++ take g.to_write (word_bytes (group_value g)))
unfolding read_groups
round_last fuel c cs out g e f = rw (e, f)

four :
    {a b c d a' b' c' d' : ℕ}
    → a ≡ a'
    → b ≡ b'
    → c ≡ c'
    → d ≡ d'
    → ◌≡◌ {A = Bytes} (a ∷ b ∷ c ∷ d ∷ []) (a' ∷ b' ∷ c' ∷ d' ∷ [])
four p q r s = cc

-- the codes of a value, read from their characters
module _ (v : ℕ) (fits : v < 2 ^ 32) where
  abbrev pub codes2 : Bytes
  codes2 = code0 v fits ∷ code1 v fits ∷ []

  abbrev pub text2 : Bytes
  text2 = char (code0 v fits) ∷ char (code1 v fits) ∷ []

  pub text2_lem : map char (take 2 (base256_to_base85 5 v)) ≡ text2
  unfolding base256_to_base85
  text2_lem = refl

  pub read_text2 :
      read_group (text2 ++ b'~' ∷ b'>' ∷ []) []
      ≡ ok (record { codes = codes2; to_write = 1; eod = true; unread = b'~' ∷ b'>' ∷ [] })
  read_text2 =
      read_code (code0 v fits) _ _ (codes_lt v fits).0 (omega arith)
      ∙ read_code (code1 v fits) _ _ (codes_lt v fits).1 (omega arith)
      ∙ read_eod [] codes2 (omega arith)

  abbrev pub codes3 : Bytes
  codes3 = code0 v fits ∷ code1 v fits ∷ code2 v fits ∷ []

  abbrev pub text3 : Bytes
  text3 = char (code0 v fits) ∷ char (code1 v fits) ∷ char (code2 v fits) ∷ []

  pub text3_lem : map char (take 3 (base256_to_base85 5 v)) ≡ text3
  unfolding base256_to_base85
  text3_lem = refl

  pub read_text3 :
      read_group (text3 ++ b'~' ∷ b'>' ∷ []) []
      ≡ ok (record { codes = codes3; to_write = 2; eod = true; unread = b'~' ∷ b'>' ∷ [] })
  read_text3 =
      read_code (code0 v fits) _ _ (codes_lt v fits).0 (omega arith)
      ∙ read_code (code1 v fits) _ _ (codes_lt v fits).1 (omega arith)
      ∙ read_code (code2 v fits) _ _ (codes_lt v fits).2 (omega arith)
      ∙ read_eod [] codes3 (omega arith)

  abbrev pub codes4 : Bytes
  codes4 = code0 v fits ∷ code1 v fits ∷ code2 v fits ∷ code3 v fits ∷ []

  abbrev pub text4 : Bytes
  text4 = char (code0 v fits) ∷ char (code1 v fits) ∷ char (code2 v fits) ∷ char (code3 v fits) ∷ []

  pub text4_lem : map char (take 4 (base256_to_base85 5 v)) ≡ text4
  unfolding base256_to_base85
  text4_lem = refl

  pub read_text4 :
      read_group (text4 ++ b'~' ∷ b'>' ∷ []) []
      ≡ ok (record { codes = codes4; to_write = 3; eod = true; unread = b'~' ∷ b'>' ∷ [] })
  read_text4 =
      read_code (code0 v fits) _ _ (codes_lt v fits).0 (omega arith)
      ∙ read_code (code1 v fits) _ _ (codes_lt v fits).1 (omega arith)
      ∙ read_code (code2 v fits) _ _ (codes_lt v fits).2 (omega arith)
      ∙ read_code (code3 v fits) _ _ (codes_lt v fits).3 (omega arith)
      ∙ read_eod [] codes4 (omega arith)

  abbrev pub codes5 : Bytes
  codes5 = code0 v fits ∷ code1 v fits ∷ code2 v fits ∷ code3 v fits ∷ code4 v fits ∷ []

  abbrev pub text5 : Bytes
  text5 =
      char (code0 v fits)
      ∷ char (code1 v fits)
      ∷ char (code2 v fits)
      ∷ char (code3 v fits)
      ∷ char (code4 v fits)
      ∷ []

  pub text5_lem : map char (take 5 (base256_to_base85 5 v)) ≡ text5
  unfolding base256_to_base85
  text5_lem = refl

  pub read_text5 :
      (rest : Bytes)
      → read_group (text5 ++ rest) []
        ≡ ok (record { codes = codes5; to_write = 4; eod = false; unread = rest })
  read_text5 rest =
      read_code (code0 v fits) _ _ (codes_lt v fits).0 (omega arith)
      ∙ read_code (code1 v fits) _ _ (codes_lt v fits).1 (omega arith)
      ∙ read_code (code2 v fits) _ _ (codes_lt v fits).2 (omega arith)
      ∙ read_code (code3 v fits) _ _ (codes_lt v fits).3 (omega arith)
      ∙ read_code (code4 v fits) _ _ (codes_lt v fits).4 (omega arith)
      ∙ read_full rest codes5 refl

module _ (b1 b2 b3 b4 : ℕ) (p1 : IsByte b1) (p2 : IsByte b2) (p3 : IsByte b3) (p4 : IsByte b4) where
  fits : base256 b1 b2 b3 b4 < 2 ^ 32
  fits = omega arith

  word_bytes-base256 : word_bytes (base256 b1 b2 b3 b4) ≡ b1 ∷ b2 ∷ b3 ∷ b4 ∷ []
  unfolding word_bytes
  word_bytes-base256 = four (omega arith) (omega arith) (omega arith) (omega arith)

  -- a whole group of zeros
  zero_group :
      (fuel : ℕ) (rest out : Bytes)
      → base256 b1 b2 b3 b4 ≡ 0
      → read_groups (suc fuel) (encode_group 4 b1 b2 b3 b4 ++ rest) out
        ≡ read_groups fuel rest (out ++ b1 ∷ b2 ∷ b3 ∷ b4 ∷ [])
  unfolding group_value code_at word_bytes
  zero_group fuel rest out z =
      let z1 : b1 ≡ 0 = omega arith in
      let z2 : b2 ≡ 0 = omega arith in
      let z3 : b3 ≡ 0 = omega arith in
      let z4 : b4 ≡ 0 = omega arith in
      rw (z1, z2, z3, z4, encode_group-zero 4) (round_more fuel b'z' rest out _ (read_z rest) refl)

  -- a whole group that is not all zeros
  full_group :
      (fuel : ℕ) (rest out : Bytes)
      → base256 b1 b2 b3 b4 ≢ 0
      → read_groups (suc fuel) (encode_group 4 b1 b2 b3 b4 ++ rest) out
        ≡ read_groups fuel rest (out ++ b1 ∷ b2 ∷ b3 ∷ b4 ∷ [])
  unfolding group_value code_at
  full_group fuel rest out n =
      let v = base256 b1 b2 b3 b4 in
      rw (encode_group-nonzero 4 b1 b2 b3 b4 n, text5_lem v fits)
        (round_more fuel _ _ out _ (read_text5 v fits rest) refl
          ∙ ap (λ w. read_groups fuel rest (out ++ take 4 (word_bytes w))) (whole_value v fits)
          ∙ ap (λ l. read_groups fuel rest (out ++ take 4 l)) word_bytes-base256)

  pub whole_group :
      (fuel : ℕ) (rest out : Bytes)
      → read_groups (suc fuel) (encode_group 4 b1 b2 b3 b4 ++ rest) out
        ≡ read_groups fuel rest (out ++ b1 ∷ b2 ∷ b3 ∷ b4 ∷ [])
  whole_group fuel rest out = elim (ℕ_discrete (base256 b1 b2 b3 b4) 0) [
    | yes z ↦ zero_group fuel rest out z
    | no n ↦ full_group fuel rest out n
  ]
