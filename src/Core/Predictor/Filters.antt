-- ===== src/Core/Predictor/Filters.antt =====
-- The PNG filters as the PNG specification describes them, which `postDecodePredict`
-- (`pdf/core/encoding.go`) undoes.
use unidoc.Prelude.{
  take_front, drop_front, ◌/◌, ◌&&◌, leb, get_or, if◌then◌else◌, ℕ, zero, suc, ◌+◌, ◌-◌, ◌*◌, ◌%◌,
  ◌≤◌, ◌≡◌, refl, ap, ◌∙◌, false, List, [], ◌∷◌, ◌++◌, some, append_assoc, append-nil, All, length,
  length-append, replicate, arith, ltb,
}
use native.Mathlib.Nat.{mul-mod_left, mul-div_cancel}
use unidoc.Core.Decoding.{Bytes, IsByte, AreBytes}
use unidoc.Core.Predictor.{
  distance, paeth, left_of, predict, ok, FlateEncoder, Filter, pf_none, pf_sub, pf_up, pf_avg,
  pf_paeth, filter_of, predict, unfilter_row, overruns, png_filtered, png_row, png_rows,
  png_predict, post_decode_predict,
}

-- The byte of the pixel to the left of byte j of a row, or 0.
unfoldable pub before : ℕ → Bytes → ℕ → ℕ
before bpp row j = if ltb j bpp then 0 else get_or row (j - bpp) 0

-- The predictor of the PNG specification: p is a + b - c, of which the distances are taken.
unfoldable pub paeth_predictor : ℕ → ℕ → ℕ → ℕ
paeth_predictor a b c =
    let pa = distance (a + b) (c + a) in
    let pb = distance (a + b) (c + b) in
    let pc = distance (a + b) (c + c) in
    if leb pa pb && leb pa pc then a else if leb pb pc then b else c

-- What a filter predicts from the bytes to the left, above, and above to the left.
unfoldable pub predicted : Filter → ℕ → ℕ → ℕ → ℕ
unfolding paeth_predictor
predicted pf_none a b c = 0
predicted pf_sub a b c = a
predicted pf_up a b c = b
predicted pf_avg a b c = (a + b) / 2
predicted pf_paeth a b c = paeth_predictor a b c

unfoldable pub predicted_at : Filter → ℕ → Bytes → Bytes → ℕ
unfolding before predicted
predicted_at f bpp prev done =
    let j = length done in predicted f (before bpp done j) (get_or prev j 0) (before bpp prev j)

pub left_of-before : (bpp : ℕ) (row : Bytes) (j : ℕ) → left_of bpp row j ≡ before bpp row j
unfolding left_of before
left_of-before bpp row j = ground arith

paeth-paeth_predictor : (a b c : ℕ) → paeth a b c ≡ paeth_predictor a b c
unfolding paeth paeth_predictor
paeth-paeth_predictor a b c = ground arith

average :
    (bpp j b : ℕ) (row : Bytes)
    → (if ltb j bpp then b / 2 else (left_of bpp row j + b) / 2) ≡ (before bpp row j + b) / 2
unfolding left_of before
average bpp j b row = ground arith

predict-predicted_at :
    (f : Filter) (bpp : ℕ) (prev done : Bytes)
    → predict f bpp prev done ≡ predicted_at f bpp prev done
unfolding predict predicted_at
predict-predicted_at pf_none bpp prev done = refl
predict-predicted_at pf_sub bpp prev done = left_of-before bpp done (length done)
predict-predicted_at pf_up bpp prev done = refl
predict-predicted_at pf_avg bpp prev done =
    average bpp (length done) (get_or prev (length done) 0) done
predict-predicted_at pf_paeth bpp prev done =
    rw (left_of-before bpp done (length done), left_of-before bpp prev (length done))
      (paeth-paeth_predictor (before bpp done (length done)) (get_or prev (length done) 0)
        (before bpp prev (length done)))

-- Each byte of a row less what is predicted from the bytes before it.
unfoldable pub filter_row : (Bytes → ℕ) → Bytes → Bytes → Bytes
filter_row p done [] = []
filter_row p done (x ∷ row) = ((x + 256 - p done % 256) % 256) ∷ filter_row p (done ++ x ∷ []) row

abbrev pub code_of : Filter → ℕ
code_of pf_none = 0
code_of pf_sub = 1
code_of pf_up = 2
code_of pf_avg = 3
code_of pf_paeth = 4

-- An image: the rows, each with the filter to be applied.
abbrev pub Image : Type 0
Image = List (Filter × Bytes)

unfoldable pub png_filter : ℕ → Bytes → Image → Bytes
unfolding filter_row
png_filter bpp prev [] = []
png_filter bpp prev ((f, row) ∷ image) =
    code_of f ∷ filter_row (predicted_at f bpp prev) [] row ++ png_filter bpp row image

unfoldable pub pixels : Image → Bytes
pixels [] = []
pixels ((f, row) ∷ image) = row ++ pixels image

-- The rows have n bytes each.
abbrev pub IsRow : ℕ → Filter × Bytes → Type 0
IsRow n (f, row) = (length row ≡ n) × AreBytes row

added_back : (x p : ℕ) → IsByte x → ((x + 256 - p % 256) % 256 + p) % 256 ≡ x
added_back x p h = omega arith

pub unfilter_row-filter_row :
    (p q : Bytes → ℕ) (done row : Bytes)
    → ((d : Bytes) → p d ≡ q d)
    → AreBytes row
    → unfilter_row p done (filter_row q done row) ≡ done ++ row
unfolding unfilter_row filter_row
unfilter_row-filter_row p q done [] e h = rw (append-nil done) refl
unfilter_row-filter_row p q done (x ∷ row) e (b, h) =
    ap (λ y. unfilter_row p (done ++ y ∷ []) (filter_row q (done ++ x ∷ []) row))
      (ap (λ z. ((x + 256 - q done % 256) % 256 + z) % 256) (e done) ∙ added_back x (q done) b)
    ∙ unfilter_row-filter_row p q (done ++ x ∷ []) row e h
    ∙ append_assoc done (x ∷ []) row

pub length-filter_row :
    (p : Bytes → ℕ) (done row : Bytes) → length (filter_row p done row) ≡ length row
unfolding filter_row
length-filter_row p done [] = refl
length-filter_row p done (x ∷ row) = ap suc (length-filter_row p (done ++ x ∷ []) row)

filter_of-code_of : (f : Filter) → filter_of (code_of f) ≡ some f
unfolding filter_of
filter_of-code_of pf_none = refl
filter_of-code_of pf_sub = refl
filter_of-code_of pf_up = refl
filter_of-code_of pf_avg = refl
filter_of-code_of pf_paeth = refl

overruns-long : (f : Filter) (bpp : ℕ) (row : Bytes) → bpp ≤ length row → overruns f bpp row ≡ false
overruns-long pf_none bpp row h = refl
overruns-long pf_sub bpp row h = refl
overruns-long pf_up bpp row h = refl
overruns-long pf_avg bpp row h = ground arith
overruns-long pf_paeth bpp row h = refl

pub png_rows-png_filter :
    (n bpp : ℕ) (prev : Bytes) (image : Image)
    → All (IsRow n) image
    → bpp ≤ n
    → png_rows (length image) (suc n) bpp prev (png_filter bpp prev image) ≡ ok (pixels image)
unfolding png_rows png_row png_filtered png_filter pixels
png_rows-png_filter n bpp prev [] h b = refl
png_rows-png_filter n bpp prev ((f, row) ∷ image) ((l, b), h) w =
    let filtered = filter_row (predicted_at f bpp prev) [] row in
    let k = length-filter_row (predicted_at f bpp prev) [] row ∙ l in
    rw
      (
        take_front n filtered (png_filter bpp row image) k,
        drop_front n filtered (png_filter bpp row image) k,
        filter_of-code_of f,
        unfilter_row-filter_row (predict f bpp prev) (predicted_at f bpp prev) [] row
            (predict-predicted_at f bpp prev) b,
        overruns-long f bpp filtered (omega (arith, k, w)),
        png_rows-png_filter n bpp row image h w,
      )
      refl

pub length-png_filter :
    (n bpp : ℕ) (prev : Bytes) (image : Image)
    → All (IsRow n) image
    → length (png_filter bpp prev image) ≡ length image * suc n
unfolding png_filter
length-png_filter n bpp prev [] h = omega arith
length-png_filter n bpp prev ((f, row) ∷ image) ((l, b), h) =
    let filtered = filter_row (predicted_at f bpp prev) [] row in
    one_more n _ _ (length image) (length-append filtered (png_filter bpp row image))
      (length-filter_row (predicted_at f bpp prev) [] row ∙ l) (length-png_filter n bpp row image h)
  where
    one_more : (n l r i : ℕ) {k : ℕ} → k ≡ l + r → l ≡ n → r ≡ i * suc n → suc k ≡ suc i * suc n
    one_more n l r i e p q = grind arith

module _ (columns colors rows : ℕ) (out_data : Bytes) where
  -- The tests pass for whole rows.
  whole_rows :
      (n : ℕ)
      → columns * colors + 1 ≡ n
      → 1 ≤ rows
      → 1 ≤ n
      → length out_data ≡ rows * n
      → png_predict columns colors out_data
        ≡ png_rows rows n colors (replicate (columns * colors) 0) out_data
  unfolding png_predict
  whole_rows n e i j l =
      rw
        (e, l, mul-mod_left rows n, mul-div_cancel rows {n = n} (omega arith), long_enough rows n i)
        refl
    where
      at_most : (m n : ℕ) → n ≤ m → ltb m n ≡ false
      at_most m n h = ground arith

      long_enough : (r n : ℕ) → 1 ≤ r → ltb (r * n) n ≡ false
      long_enough zero n i = absurd (omega arith)
      long_enough (suc r) n i = at_most (suc r * n) n (grind arith)

png_selected :
    (enc : FlateEncoder) (out_data : Bytes)
    → 10 ≤ enc.predictor
    → enc.predictor ≤ 15
    → post_decode_predict enc out_data ≡ png_predict enc.columns enc.colors out_data
unfolding post_decode_predict
png_selected enc out_data l u = ground arith

-- `postDecodePredict` with a PNG predictor (10 to 15) undoes the filters of the PNG specification,
-- whichever filter each row has been given: from the filtered rows of an image with at least one row and
-- one column, of as many bytes as there are columns times colours, it gives the bytes of the rows.
pub post_decode_predict-png_filter :
    (enc : FlateEncoder) (image : Image)
    → 10 ≤ enc.predictor
    → enc.predictor ≤ 15
    → 1 ≤ enc.columns
    → 1 ≤ length image
    → All (IsRow (enc.columns * enc.colors)) image
    → post_decode_predict enc (png_filter enc.colors (replicate (enc.columns * enc.colors) 0) image)
      ≡ ok (pixels image)
unfolding post_decode_predict png_predict
post_decode_predict-png_filter enc image l u c i h =
    let n = enc.columns * enc.colors in
    png_selected enc _ l u
    ∙ whole_rows enc.columns enc.colors (length image) _ (suc n) (omega arith) i (omega arith)
        (length-png_filter n enc.colors (replicate n 0) image h)
    ∙ png_rows-png_filter n enc.colors (replicate n 0) image h (one_pixel enc.columns enc.colors c)
  where
    one_pixel : (columns colors : ℕ) → 1 ≤ columns → colors ≤ columns * colors
    one_pixel zero colors c = absurd (omega arith)
    one_pixel (suc columns) colors c = grind arith
