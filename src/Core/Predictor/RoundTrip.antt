-- ===== src/Core/Predictor/RoundTrip.antt =====
-- `DecodeStream` of `FlateEncoder` (`pdf/core/encoding.go`) reads what `EncodeBytes` writes.
use unidoc.Prelude.{
  ltb, ℕ, zero, suc, ◌+◌, ◌-◌, ◌*◌, ◌%◌, ◌≤◌, ◌≡◌, refl, ap, ◌∙◌, [], ◌∷◌, ◌++◌, Option, some, All,
  All-take, All-drop, length, length-append, length-take, length-drop, take, drop, take-append-drop,
  get_or, replicate, arith, false, ◌==◌, if◌then◌else◌,
}
use native.Mathlib.Nat.{mul-one, suc-mul, mul-mod_left, mul-div_cancel}
use unidoc.Core.Decoding.{Bytes, IsByte, AreBytes}
use unidoc.Core.Predictor.{
  set_predictor, new_flate_encoder, ok, and_then, read_from, pf_sub, sub_rest, sub_row, sub_rows,
  sub_encode, encode_bytes, decode_stream, post_decode_predict,
}
use unidoc.Core.Predictor.Filters.{
  before, predicted_at, Image, IsRow, filter_row, png_filter, pixels,
  post_decode_predict-png_filter,
}

-- The rows of the data, each with the filter Sub.
abbrev image_of : ℕ → ℕ → Bytes → Image
image_of zero n bs = []
image_of (suc rows) n bs = (pf_sub, take n bs) ∷ image_of rows n (drop n bs)

get_last : (done : Bytes) (x : ℕ) → get_or (done ++ x ∷ []) (length done) 0 ≡ x
get_last [] x = refl
get_last (d ∷ done) x = get_last done x

one_longer : (done : Bytes) (x : ℕ) → length (done ++ x ∷ []) ≡ suc (length done)
one_longer done x = omega (arith, length-append done (x ∷ []))

small : (x : ℕ) → IsByte x → x % 256 ≡ x
small x h = omega arith

last_byte : (done : Bytes) (x : ℕ) → before 1 (done ++ x ∷ []) (length (done ++ x ∷ [])) ≡ x
unfolding before
last_byte done x = rw (one_longer done x) (reaches (length done) (get_last done x))
  where
    less : (n : ℕ) → suc n - 1 ≡ n
    less n = omega arith

    reaches :
        (n : ℕ)
        → get_or (done ++ x ∷ []) n 0 ≡ x
        → (if ltb (suc n) 1 then 0 else get_or (done ++ x ∷ []) (suc n - 1) 0) ≡ x
    reaches n h = rw (less n) (ground (arith, h))

sub_rest-filter_row :
    (prev done : Bytes) (x : ℕ) (row : Bytes)
    → AreBytes (x ∷ row)
    → sub_rest x row ≡ filter_row (predicted_at pf_sub 1 prev) (done ++ x ∷ []) row
unfolding sub_rest filter_row predicted_at
sub_rest-filter_row prev done x [] h = refl
sub_rest-filter_row prev done x (y ∷ row) (a, h) =
    rw (last_byte done x, small x a, sub_rest-filter_row prev (done ++ x ∷ []) y row h) refl

sub_row-filter_row :
    (prev row : Bytes) → AreBytes row → sub_row row ≡ filter_row (predicted_at pf_sub 1 prev) [] row
unfolding sub_row filter_row predicted_at before
sub_row-filter_row prev [] h = refl
sub_row-filter_row prev (x ∷ row) (a, h) =
    rw (no_change x a, sub_rest-filter_row prev [] x row (a, h)) refl
  where
    no_change : (x : ℕ) → IsByte x → (x + 256 - 0) % 256 ≡ x
    no_change x h = omega arith

sub_rows-png_filter :
    (rows n : ℕ) (prev bs : Bytes)
    → AreBytes bs
    → sub_rows rows n bs ≡ png_filter 1 prev (image_of rows n bs)
unfolding sub_rows png_filter
sub_rows-png_filter zero n prev bs h = refl
sub_rows-png_filter (suc rows) n prev bs h = ap (◌∷◌ 1) (
    rw
      (
        sub_row-filter_row prev (take n bs) (All-take IsByte n bs h),
        sub_rows-png_filter rows n (take n bs) (drop n bs) (All-drop IsByte n bs h),
      )
      refl)

first_row : (rows n : ℕ) (bs : Bytes) → length bs ≡ suc rows * n → length (take n bs) ≡ n
first_row rows n bs e = length-take n bs ∙ rw (e, suc-mul rows n) (omega arith)

rows_left : (rows n : ℕ) (bs : Bytes) → length bs ≡ suc rows * n → length (drop n bs) ≡ rows * n
rows_left rows n bs e = length-drop n bs ∙ rw (e, suc-mul rows n) (omega arith)

image_of-IsRow :
    (rows n : ℕ) (bs : Bytes)
    → AreBytes bs
    → length bs ≡ rows * n
    → All (IsRow n) (image_of rows n bs)
image_of-IsRow zero n bs h e = tt
image_of-IsRow (suc rows) n bs h e = (
  (first_row rows n bs e, All-take IsByte n bs h),
  image_of-IsRow rows n (drop n bs) (All-drop IsByte n bs h) (rows_left rows n bs e),
)

pixels-image_of :
    (rows n : ℕ) (bs : Bytes) → length bs ≡ rows * n → pixels (image_of rows n bs) ≡ bs
unfolding pixels
pixels-image_of zero n [] e = refl
pixels-image_of zero n (b ∷ bs) e = absurd (omega arith)
pixels-image_of (suc rows) n bs e =
    rw (pixels-image_of rows n (drop n bs) (rows_left rows n bs e)) (take-append-drop n bs)

length-image_of : (rows n : ℕ) (bs : Bytes) → length (image_of rows n bs) ≡ rows
length-image_of zero n bs = refl
length-image_of (suc rows) n bs = ap suc (length-image_of rows n (drop n bs))

module _ (deflate : Bytes → Bytes) (inflate : Bytes → Option Bytes) where
  encoded_rows :
      (columns rows : ℕ) (bs : Bytes)
      → 1 ≤ columns
      → length bs ≡ rows * columns
      → encode_bytes deflate (set_predictor new_flate_encoder columns) bs
        ≡ ok (deflate (sub_rows rows columns bs))
  unfolding encode_bytes sub_encode
  encoded_rows columns rows bs c l =
      rw
        (
          not_zero columns c,
          l,
          mul-mod_left rows columns,
          mul-div_cancel rows {n = columns} (omega arith),
        )
        refl
    where
      not_zero : (n : ℕ) → 1 ≤ n → (n == 0) ≡ false
      not_zero n h = ground arith

  decoded :
      (columns : ℕ) (filtered : Bytes)
      → inflate (deflate filtered) ≡ some filtered
      → decode_stream inflate (set_predictor new_flate_encoder columns) (deflate filtered)
        ≡ post_decode_predict (set_predictor new_flate_encoder columns) filtered
  unfolding decode_stream
  decoded columns filtered e =
      ap
        (λ o.
          and_then (read_from o) (post_decode_predict (set_predictor new_flate_encoder columns)))
        e

  -- An encoder that `NewFlateEncoder` makes and for which `SetPredictor` sets at least one column reads
  -- with `DecodeStream` what it writes with `EncodeBytes`, for bytes that fill one or more rows, if
  -- zlib reads what zlib writes.
  pub decode_stream-encode_bytes :
      (columns rows : ℕ) (bs : Bytes)
      → ((d : Bytes) → inflate (deflate d) ≡ some d)
      → 1 ≤ columns
      → 1 ≤ rows
      → length bs ≡ rows * columns
      → AreBytes bs
      → and_then
          (encode_bytes deflate (set_predictor new_flate_encoder columns) bs)
          (decode_stream inflate (set_predictor new_flate_encoder columns))
        ≡ ok bs
  decode_stream-encode_bytes columns rows bs z c r l h = rw (encoded_rows columns rows bs c l) (
      decoded columns _ (z _)
      ∙ rw (sub_rows-png_filter rows columns (replicate (columns * 1) 0) bs h) (
          post_decode_predict-png_filter (set_predictor new_flate_encoder columns)
            (image_of rows columns bs) (omega arith) (omega arith) c
            (omega (arith, length-image_of rows columns bs, r))
            (rw (mul-one columns) (image_of-IsRow rows columns bs h l)))
      ∙ ap ok (pixels-image_of rows columns bs l))
