-- ===== src/Core/Ascii85/RoundTrip.antt =====
-- What `ASCII85Encoder` encodes, it decodes to the same bytes, unless the data ends in an incomplete
-- group of zeros (`pdf/core/encoding.go`).
use unidoc.Prelude.{
  ℕ, zero, suc, ◌+◌, ◌^◌, ◌≤◌, ◌<◌, ◌≡◌, ◌≢◌, refl, ◌∙◌, ap, [], ◌∷◌, ◌++◌, append_assoc,
  append-nil, replicate, length, length-append, arith,
}
use unidoc.Core.Decoding.{Bytes, IsByte, AreBytes, ok}
use unidoc.Core.Ascii85.{
  read_groups, code_at, group_value, word_bytes, base256_to_base85, encode_group, encode_groups,
  encode_bytes, decode_bytes,
}
use unidoc.Core.Ascii85.Groups.{
  round_last, round_more, whole_group, text2_lem, text3_lem, text4_lem, read_text2, read_text3,
  read_text4,
}
use unidoc.Core.Ascii85.Codes.{
  read_eod, read_z, one_byte, two_bytes, three_bytes, encode_group-nonzero, base256,
}

-- the end-of-data marker
abbrev marker : Bytes
marker = b'~' ∷ b'>' ∷ []

one_group :
    (fuel b1 : ℕ) (out : Bytes)
    → IsByte b1
    → b1 ≢ 0
    → read_groups (suc fuel) (encode_group 1 b1 0 0 0 ++ marker) out ≡ ok (out ++ b1 ∷ [])
unfolding group_value code_at word_bytes
one_group fuel b1 out p n =
    let v = base256 b1 0 0 0 in
    let f : v < 2 ^ 32 = omega arith in
    rw (encode_group-nonzero 1 b1 0 0 0 (λ e. n (omega arith)), text2_lem v f)
      (round_last fuel _ _ out _ (read_text2 v f) refl
        ∙ ap (λ b. ok (out ++ b ∷ [])) (one_byte v f (omega arith) ∙ omega arith))

two_group :
    (fuel b1 b2 : ℕ) (out : Bytes)
    → IsByte b1
    → IsByte b2
    → b1 + b2 ≢ 0
    → read_groups (suc fuel) (encode_group 2 b1 b2 0 0 ++ marker) out ≡ ok (out ++ b1 ∷ b2 ∷ [])
unfolding group_value code_at word_bytes
two_group fuel b1 b2 out p1 p2 n =
    let v = base256 b1 b2 0 0 in
    let f : v < 2 ^ 32 = omega arith in
    rw (encode_group-nonzero 2 b1 b2 0 0 (λ e. n (omega arith)), text3_lem v f)
      (round_last fuel _ _ out _ (read_text3 v f) refl
        ∙ ap (λ l. ok (out ++ l))
            (two_list (omega (arith, two_bytes v f (omega arith)))
              (omega (arith, two_bytes v f (omega arith)))))
  where
    two_list : {a b c d : ℕ} → a ≡ c → b ≡ d → ◌≡◌ {A = Bytes} (a ∷ b ∷ []) (c ∷ d ∷ [])
    two_list p q = cc

three_group :
    (fuel b1 b2 b3 : ℕ) (out : Bytes)
    → IsByte b1
    → IsByte b2
    → IsByte b3
    → b1 + b2 + b3 ≢ 0
    → read_groups (suc fuel) (encode_group 3 b1 b2 b3 0 ++ marker) out
      ≡ ok (out ++ b1 ∷ b2 ∷ b3 ∷ [])
unfolding group_value code_at word_bytes
three_group fuel b1 b2 b3 out p1 p2 p3 n =
    let v = base256 b1 b2 b3 0 in
    let f : v < 2 ^ 32 = omega arith in
    let bytes = three_bytes v f (omega arith) in
    rw (encode_group-nonzero 3 b1 b2 b3 0 (λ e. n (omega arith)), text4_lem v f)
      (round_last fuel _ _ out _ (read_text4 v f) refl
        ∙ ap (λ l. ok (out ++ l)) (three_list (omega arith) (omega arith) (omega arith)))
  where
    three_list :
        {a b c a' b' c' : ℕ}
        → a ≡ a'
        → b ≡ b'
        → c ≡ c'
        → ◌≡◌ {A = Bytes} (a ∷ b ∷ c ∷ []) (a' ∷ b' ∷ c' ∷ [])
    three_list p q r = cc

-- The rest of a text is read as `result`, with a unit of fuel for each of its characters.
abbrev Reads : Bytes → Bytes → Type 0
Reads tail result =
    (fuel : ℕ) (out : Bytes)
    → length (encode_groups tail ++ marker) ≤ fuel
    → read_groups fuel (encode_groups tail ++ marker) out ≡ ok (out ++ result)

length-encode_group : (b1 b2 b3 b4 : ℕ) → 0 < length (encode_group 4 b1 b2 b3 b4)
unfolding encode_group base256_to_base85
length-encode_group b1 b2 b3 b4 = ground arith

length-after_group :
    (b1 b2 b3 b4 fuel : ℕ) (text : Bytes)
    → length ((encode_group 4 b1 b2 b3 b4 ++ text) ++ marker) ≤ suc fuel
    → length (text ++ marker) ≤ fuel
length-after_group b1 b2 b3 b4 fuel text h = omega (
  arith,
  length-encode_group b1 b2 b3 b4,
  length-append (encode_group 4 b1 b2 b3 b4 ++ text) marker,
  length-append (encode_group 4 b1 b2 b3 b4) text,
  length-append text marker,
)

fuel_pos : (l : Bytes) → length (l ++ marker) ≤ 0 → ⊥
fuel_pos l h = absurd (omega (arith, length-append l marker))

Reads-nil : Reads [] []
unfolding encode_groups group_value code_at
Reads-nil zero out h = absurd (omega arith)
Reads-nil (suc fuel) out h =
    round_last fuel b'~' (b'>' ∷ []) out _ (read_eod [] [] (omega arith)) refl

Reads-group :
    (b1 b2 b3 b4 : ℕ) (tail result : Bytes)
    → AreBytes (b1 ∷ b2 ∷ b3 ∷ b4 ∷ [])
    → Reads tail result
    → Reads (b1 ∷ b2 ∷ b3 ∷ b4 ∷ tail) (b1 ∷ b2 ∷ b3 ∷ b4 ∷ result)
unfolding encode_groups
Reads-group b1 b2 b3 b4 tail result a r zero out h = absurd (fuel_pos _ h)
Reads-group b1 b2 b3 b4 tail result (p1, (p2, (p3, (p4, _)))) r (suc fuel) out h =
    ap (λ t. read_groups (suc fuel) t out)
      (append_assoc (encode_group 4 b1 b2 b3 b4) (encode_groups tail) marker)
    ∙ whole_group b1 b2 b3 b4 p1 p2 p3 p4 fuel (encode_groups tail ++ marker) out
    ∙ r fuel (out ++ b1 ∷ b2 ∷ b3 ∷ b4 ∷ []) (length-after_group b1 b2 b3 b4 fuel _ h)
    ∙ ap ok (append_assoc out (b1 ∷ b2 ∷ b3 ∷ b4 ∷ []) result)

-- The data ends in whole groups of four bytes, or in an incomplete one that is not all zeros.
abbrev pub EndsWell : Bytes → Type 0
EndsWell [] = Unit
EndsWell (b1 ∷ []) = b1 ≢ 0
EndsWell (b1 ∷ b2 ∷ []) = b1 + b2 ≢ 0
EndsWell (b1 ∷ b2 ∷ b3 ∷ []) = b1 + b2 + b3 ≢ 0
EndsWell (b1 ∷ b2 ∷ b3 ∷ b4 ∷ bs) = EndsWell bs

EndsWell-Reads : (bs : Bytes) → AreBytes bs → EndsWell bs → Reads bs bs
unfolding encode_groups
EndsWell-Reads [] a e fuel out h = Reads-nil fuel out h
EndsWell-Reads (b1 ∷ []) (p1, _) e zero out h = absurd (fuel_pos _ h)
EndsWell-Reads (b1 ∷ []) (p1, _) e (suc fuel) out h = one_group fuel b1 out p1 e
EndsWell-Reads (b1 ∷ b2 ∷ []) (p1, (p2, _)) e zero out h = absurd (fuel_pos _ h)
EndsWell-Reads (b1 ∷ b2 ∷ []) (p1, (p2, _)) e (suc fuel) out h = two_group fuel b1 b2 out p1 p2 e
EndsWell-Reads (b1 ∷ b2 ∷ b3 ∷ []) (p1, (p2, (p3, _))) e zero out h = absurd (fuel_pos _ h)
EndsWell-Reads (b1 ∷ b2 ∷ b3 ∷ []) (p1, (p2, (p3, _))) e (suc fuel) out h =
    three_group fuel b1 b2 b3 out p1 p2 p3 e
EndsWell-Reads (b1 ∷ b2 ∷ b3 ∷ b4 ∷ bs) (p1, (p2, (p3, (p4, a)))) e fuel out h =
    Reads-group b1 b2 b3 b4 bs bs (p1, (p2, (p3, (p4, tt)))) (EndsWell-Reads bs a e) fuel out h

decode-Reads : (bs result : Bytes) → Reads bs result → decode_bytes (encode_bytes bs) ≡ ok result
unfolding decode_bytes encode_bytes
decode-Reads bs result r = r (suc (length (encode_groups bs ++ marker))) [] (omega arith)

-- Decoding what was encoded gives the bytes back, if they do not end in an incomplete group of zeros.
pub ascii85_round_trip :
    (bs : Bytes) → AreBytes bs → EndsWell bs → decode_bytes (encode_bytes bs) ≡ ok bs
ascii85_round_trip bs a e = decode-Reads bs bs (EndsWell-Reads bs a e)

-- Whole groups of four bytes.
abbrev pub AreGroups : Bytes → Type 0
AreGroups [] = Unit
AreGroups (b1 ∷ []) = ⊥
AreGroups (b1 ∷ b2 ∷ []) = ⊥
AreGroups (b1 ∷ b2 ∷ b3 ∷ []) = ⊥
AreGroups (b1 ∷ b2 ∷ b3 ∷ b4 ∷ bs) = AreGroups bs

-- A `z` in front of the marker is read as four zeros.
read_z_last :
    (fuel : ℕ) (out : Bytes)
    → 3 ≤ fuel
    → read_groups fuel (b'z' ∷ marker) out ≡ ok (out ++ 0 ∷ 0 ∷ 0 ∷ 0 ∷ [])
unfolding group_value code_at word_bytes
read_z_last zero out h = absurd (omega arith)
read_z_last (suc zero) out h = absurd (omega arith)
read_z_last (suc (suc fuel)) out h =
    round_more (suc fuel) b'z' marker out _ (read_z marker) refl
    ∙ round_last fuel b'~' (b'>' ∷ []) _ _ (read_eod [] [] (omega arith)) refl
    ∙ ap ok (append-nil (out ++ 0 ∷ 0 ∷ 0 ∷ 0 ∷ []))

-- One to four zeros at the end are written as that.
zeros-Reads : (k : ℕ) → 1 ≤ k → k ≤ 4 → Reads (replicate k 0) (0 ∷ 0 ∷ 0 ∷ 0 ∷ [])
unfolding encode_groups encode_group
zeros-Reads zero a b fuel out h = absurd (omega arith)
zeros-Reads (suc zero) a b fuel out h = read_z_last fuel out h
zeros-Reads (suc (suc zero)) a b fuel out h = read_z_last fuel out h
zeros-Reads (suc (suc (suc zero))) a b fuel out h = read_z_last fuel out h
zeros-Reads (suc (suc (suc (suc zero)))) a b fuel out h = read_z_last fuel out h
zeros-Reads (suc (suc (suc (suc (suc k))))) a b fuel out h = absurd (omega arith)

AreGroups-Reads :
    (bs tail result : Bytes)
    → AreGroups bs
    → AreBytes bs
    → Reads tail result
    → Reads (bs ++ tail) (bs ++ result)
AreGroups-Reads [] tail result g a r = r
AreGroups-Reads (b1 ∷ []) tail result g a r = absurd g
AreGroups-Reads (b1 ∷ b2 ∷ []) tail result g a r = absurd g
AreGroups-Reads (b1 ∷ b2 ∷ b3 ∷ []) tail result g a r = absurd g
AreGroups-Reads (b1 ∷ b2 ∷ b3 ∷ b4 ∷ bs) tail result g (p1, (p2, (p3, (p4, a)))) r =
    Reads-group b1 b2 b3 b4 (bs ++ tail) (bs ++ result) (p1, (p2, (p3, (p4, tt))))
      (AreGroups-Reads bs tail result g a r)

-- Whole groups followed by one, two or three zeros are decoded with four zeros at the end.
pub ascii85_zero_padding :
    (bs : Bytes) (k : ℕ)
    → AreBytes bs
    → AreGroups bs
    → 1 ≤ k
    → k ≤ 3
    → decode_bytes (encode_bytes (bs ++ replicate k 0)) ≡ ok (bs ++ replicate 4 0)
ascii85_zero_padding bs k a g l u =
    decode-Reads (bs ++ replicate k 0) (bs ++ replicate 4 0)
      (AreGroups-Reads bs (replicate k 0) (replicate 4 0) g a (zeros-Reads k l (omega arith)))
