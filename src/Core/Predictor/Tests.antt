-- ===== src/Core/Predictor/Tests.antt =====
-- Runs of the predictors of `pdf/core/encoding.go` at concrete inputs, and their theorems at inputs that
-- meet the hypotheses.
use unidoc.Prelude.{◌≤◌, ◌<◌, ◌≡◌, refl, ◌⊎◌, [], ◌∷◌, Option, none, some, codes, arith, replicate}
use unidoc.Core.Decoding.{Bytes}
use unidoc.Core.Predictor.{
  ok, err, panic, range_check, invalid_row_length, sub_rows, and_then, FlateEncoder, set_predictor,
  new_flate_encoder, distance, paeth, pf_sub, pf_avg, pf_paeth, encode_bytes, decode_stream,
  post_decode_predict, png_predict, png_rows, png_row, filter_of,
}
use unidoc.Core.Predictor.Filters.{Image, png_filter, pixels, post_decode_predict-png_filter}
use unidoc.Core.Predictor.RoundTrip.{decode_stream-encode_bytes}
use unidoc.Core.Predictor.Tiff.{tiff_filter, post_decode_predict-tiff_filter}
use unidoc.Core.Predictor.Paeth.{paeth-nearest}

-- A stand-in for zlib that stores the bytes behind a mark.
abbrev store : Bytes → Bytes
store bs = 120 ∷ bs

abbrev unstore : Bytes → Option Bytes
unstore [] = none
unstore (b ∷ bs) = some bs

decode_stream-encode_bytes_example :
    and_then
      (encode_bytes store (set_predictor new_flate_encoder 3) (codes "abcxyz"))
      (decode_stream unstore (set_predictor new_flate_encoder 3))
    ≡ ok (codes "abcxyz")
decode_stream-encode_bytes_example =
    decode_stream-encode_bytes store unstore 3 2 (codes "abcxyz") (λ d. refl) (omega arith)
      (omega arith) refl (omega arith)

abbrev two_colors : FlateEncoder
two_colors = record { predictor = 15; bits_per_component = 8; columns = 2; colors = 2 }

abbrev no_columns : FlateEncoder
no_columns = record { predictor = 15; bits_per_component = 8; columns = 0; colors = 1 }

-- A row with the average filter in a stream whose parameters give no columns is a run-time panic.
flate_no_columns : decode_stream unstore no_columns (120 ∷ 3 ∷ []) ≡ panic
unfolding decode_stream post_decode_predict png_predict png_rows png_row filter_of
flate_no_columns = refl

-- No data cannot be read back with a predictor.
flate_nothing :
    and_then
      (encode_bytes store (set_predictor new_flate_encoder 3) [])
      (decode_stream unstore (set_predictor new_flate_encoder 3))
    ≡ err range_check
unfolding encode_bytes decode_stream sub_rows
flate_nothing = refl

-- `EncodeBytes` knows one colour only.
flate_colors :
    and_then
      (encode_bytes store (set_predictor two_colors 4) (codes "abcd"))
      (decode_stream unstore (set_predictor two_colors 4))
    ≡ err invalid_row_length
unfolding encode_bytes decode_stream sub_rows
flate_colors = refl

abbrev image : Image
image =
    (pf_sub, 10 ∷ 20 ∷ 30 ∷ 250 ∷ [])
    ∷ (pf_avg, 5 ∷ 6 ∷ 7 ∷ 8 ∷ [])
    ∷ (pf_paeth, 200 ∷ 100 ∷ 0 ∷ 255 ∷ [])
    ∷ []

post_decode_predict-png_filter_example :
    post_decode_predict two_colors (png_filter 2 (replicate 4 0) image) ≡ ok (pixels image)
post_decode_predict-png_filter_example =
    post_decode_predict-png_filter two_colors image (omega arith) (omega arith) (omega arith)
      (omega arith) ((refl, omega arith), ((refl, omega arith), ((refl, omega arith), tt)))

paeth-nearest_example :
    ((paeth 9 5 2 ≡ 9) × (distance 14 11 ≤ distance 14 7) × (distance 14 11 ≤ distance 14 4))
    ⊎ ((paeth 9 5 2 ≡ 5)
        × (distance 14 7 ≤ distance 14 4)
        × ((distance 14 7 < distance 14 11) ⊎ (distance 14 4 < distance 14 11)))
    ⊎ ((paeth 9 5 2 ≡ 2) × (distance 14 4 < distance 14 7) × (distance 14 4 < distance 14 11))
paeth-nearest_example = paeth-nearest 9 5 2

abbrev tiff_image : FlateEncoder
tiff_image = record { predictor = 2; bits_per_component = 8; columns = 1; colors = 3 }

post_decode_predict-tiff_filter_example :
    post_decode_predict tiff_image (tiff_filter 3 ((10 ∷ 20 ∷ 255 ∷ []) ∷ (1 ∷ 2 ∷ 3 ∷ []) ∷ []))
    ≡ ok (10 ∷ 20 ∷ 255 ∷ 1 ∷ 2 ∷ 3 ∷ [])
post_decode_predict-tiff_filter_example =
    post_decode_predict-tiff_filter tiff_image ((10 ∷ 20 ∷ 255 ∷ []) ∷ (1 ∷ 2 ∷ 3 ∷ []) ∷ []) refl
      (omega arith) (omega arith) ((refl, omega arith), ((refl, omega arith), tt))
