-- ===== src/Core/Predictor/Tiff.antt =====
-- The TIFF predictor, which `postDecodePredict` (`pdf/core/encoding.go`) undoes.
use unidoc.Prelude.{
  ℕ, zero, suc, ◌+◌, ◌*◌, ◌≤◌, ◌≡◌, refl, ap, ◌∙◌, false, List, [], ◌∷◌, ◌++◌, All, length,
  length-append, take_front, drop_front, ltb, arith,
}
use native.Mathlib.Nat.{mul-mod_left, mul-div_cancel}
use unidoc.Core.Decoding.{Bytes, AreBytes}
use unidoc.Core.Predictor.{ok, FlateEncoder, left_of, tiff_rows, tiff_predict, post_decode_predict}
use unidoc.Core.Predictor.Filters.{
  before, left_of-before, filter_row, unfilter_row-filter_row, length-filter_row,
}

-- Each byte less the byte of the same colour to its left.
abbrev left_pixel : ℕ → Bytes → ℕ
left_pixel colors done = before colors done (length done)

unfoldable pub tiff_filter : ℕ → List Bytes → Bytes
tiff_filter colors [] = []
tiff_filter colors (row ∷ rows) = filter_row (left_pixel colors) [] row ++ tiff_filter colors rows

abbrev pub joined : List Bytes → Bytes
joined [] = []
joined (row ∷ rows) = row ++ joined rows

abbrev pub IsTiffRow : ℕ → Bytes → Type 0
IsTiffRow n row = (length row ≡ n) × AreBytes row

tiff_rows-tiff_filter :
    (n colors : ℕ) (rows : List Bytes)
    → All (IsTiffRow n) rows
    → tiff_rows (length rows) n colors (tiff_filter colors rows) ≡ joined rows
unfolding tiff_rows tiff_filter
tiff_rows-tiff_filter n colors [] h = refl
tiff_rows-tiff_filter n colors (row ∷ rows) ((l, b), h) =
    let filtered = filter_row (left_pixel colors) [] row in
    let k = length-filter_row (left_pixel colors) [] row ∙ l in
    rw
      (
        take_front n filtered (tiff_filter colors rows) k,
        drop_front n filtered (tiff_filter colors rows) k,
        unfilter_row-filter_row (λ done. left_of colors done (length done)) (left_pixel colors) []
            row (λ d. left_of-before colors d (length d)) b,
        tiff_rows-tiff_filter n colors rows h,
      )
      refl

length-tiff_filter :
    (n colors : ℕ) (rows : List Bytes)
    → All (IsTiffRow n) rows
    → length (tiff_filter colors rows) ≡ length rows * n
unfolding tiff_filter
length-tiff_filter n colors [] h = omega arith
length-tiff_filter n colors (row ∷ rows) ((l, b), h) =
    length-append (filter_row (left_pixel colors) [] row) (tiff_filter colors rows)
    ∙ one_more n _ _ (length rows) (length-filter_row (left_pixel colors) [] row ∙ l)
        (length-tiff_filter n colors rows h)
  where
    one_more : (n l r i : ℕ) → l ≡ n → r ≡ i * n → l + r ≡ suc i * n
    one_more n l r i p q = grind arith

whole_tiff_rows :
    (columns colors rows : ℕ) (out_data : Bytes)
    → 1 ≤ rows
    → 1 ≤ columns * colors
    → length out_data ≡ rows * (columns * colors)
    → tiff_predict columns colors out_data ≡ ok (tiff_rows rows (columns * colors) colors out_data)
unfolding tiff_predict
whole_tiff_rows columns colors rows out_data i j l =
    rw
      (
        not_less (columns * colors) 1 j,
        l,
        mul-mod_left rows (columns * colors),
        mul-mod_left columns colors,
        long_enough rows (columns * colors) i,
        mul-div_cancel rows {n = columns * colors} (omega arith),
      )
      refl
  where
    not_less : (m n : ℕ) → n ≤ m → ltb m n ≡ false
    not_less m n h = ground arith

    long_enough : (r n : ℕ) → 1 ≤ r → ltb (r * n) n ≡ false
    long_enough zero n i = absurd (omega arith)
    long_enough (suc r) n i = not_less (suc r * n) n (grind arith)

-- `postDecodePredict` with predictor 2 undoes the TIFF predictor: from one or more rows of as many bytes
-- as there are columns times colours, at least one, in which each byte has been replaced by its
-- difference to the byte of the same colour to its left, it gives the bytes of the rows.
pub post_decode_predict-tiff_filter :
    (enc : FlateEncoder) (rows : List Bytes)
    → enc.predictor ≡ 2
    → 1 ≤ enc.columns * enc.colors
    → 1 ≤ length rows
    → All (IsTiffRow (enc.columns * enc.colors)) rows
    → post_decode_predict enc (tiff_filter enc.colors rows) ≡ ok (joined rows)
unfolding post_decode_predict
post_decode_predict-tiff_filter enc rows e c i h = rw e (
    whole_tiff_rows enc.columns enc.colors (length rows) _ i c
      (length-tiff_filter (enc.columns * enc.colors) enc.colors rows h)
    ∙ ap ok (tiff_rows-tiff_filter (enc.columns * enc.colors) enc.colors rows h))
