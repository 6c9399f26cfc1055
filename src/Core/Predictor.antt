-- ===== src/Core/Predictor.antt =====
-- `FlateEncoder` of `pdf/core/encoding.go`: its predictors, with `paeth` of `pdf/core/paeth.go`. The
-- package zlib is a parameter: `deflate` writes and `inflate` reads, where `none` is an error. The
-- fields are natural numbers.
pub mod Filters
pub mod RoundTrip
pub mod Tiff
pub mod Paeth
pub mod Tests
use unidoc.Prelude.{
  ℕ, zero, suc, ◌+◌, ◌-◌, ◌*◌, ◌/◌, ◌%◌, Bool, false, not, ◌&&◌, [], ◌∷◌, ◌++◌, Option, none, some,
  length, take, drop, replicate, get_or, ltb, leb, ◌==◌, if◌then◌else◌,
}
use unidoc.Core.Decoding.{Bytes}

pub data PredictError : Type 0 where
  invalid_row_length range_check invalid_filter unsupported_predictor unsupported_parameters
        invalid_bits zlib_error :
      PredictError

-- The bytes, an error, or a run-time panic.
pub data Predicted : Type 0 where
  ok : Bytes → Predicted
  err : PredictError → Predicted
  panic : Predicted

abbrev pub and_then : Predicted → (Bytes → Predicted) → Predicted
and_then (ok bs) f = f bs
and_then (err e) f = err e
and_then panic f = panic

pub record FlateEncoder : Type 0 where
  pub predictor : ℕ
  pub bits_per_component : ℕ
  pub columns : ℕ
  pub colors : ℕ

abbrev pub new_flate_encoder : FlateEncoder
new_flate_encoder = record { predictor = 1; bits_per_component = 8; columns = 1; colors = 1 }

abbrev pub set_predictor : FlateEncoder → ℕ → FlateEncoder
set_predictor enc columns = record {
  predictor = 11;
  bits_per_component = enc.bits_per_component;
  columns = columns;
  colors = enc.colors;
}

-- `abs` of the difference of two values.
abbrev pub distance : ℕ → ℕ → ℕ
distance x y = (x - y) + (y - x)

-- `paeth`: pa is |b - c|, pb is |a - c|, and pc is |(b - c) + (a - c)|.
unfoldable pub paeth : ℕ → ℕ → ℕ → ℕ
paeth a b c =
    let pa = distance b c in
    let pb = distance a c in
    let pc = distance (a + b) (c + c) in
    if leb pa pb && leb pa pc then a else if leb pb pc then b else c

-- `pfNone` to `pfPaeth`
pub data Filter : Type 0 where
  pf_none pf_sub pf_up pf_avg pf_paeth : Filter

unfoldable pub filter_of : ℕ → Option Filter
filter_of fb =
    if fb == 0
    then some pf_none
    else if fb == 1
    then some pf_sub
    else if fb == 2
    then some pf_up
    else if fb == 3
    then some pf_avg
    else if fb == 4
    then some pf_paeth
    else none

-- `rowData[j - bytesPerPixel]` if the row reaches back that far.
unfoldable pub left_of : ℕ → Bytes → ℕ → ℕ
left_of bpp row j = if leb bpp j then get_or row (j - bpp) 0 else 0

-- What a filter adds to the next byte of a row, of which `done` is decoded: the loops of the branches
-- of `postDecodePredict`. The filter byte does not count here, so that j is less by 1.
unfoldable pub predict : Filter → ℕ → Bytes → Bytes → ℕ
unfolding left_of paeth
predict pf_none bpp prev done = 0
predict pf_sub bpp prev done = left_of bpp done (length done)
predict pf_up bpp prev done = get_or prev (length done) 0
predict pf_avg bpp prev done =
    if ltb (length done) bpp
    then get_or prev (length done) 0 / 2
    else (left_of bpp done (length done) + get_or prev (length done) 0) / 2
predict pf_paeth bpp prev done =
    paeth (left_of bpp done (length done)) (get_or prev (length done) 0)
      (left_of bpp prev (length done))

-- A loop over the bytes of a row, which it changes in place.
unfoldable pub unfilter_row : (Bytes → ℕ) → Bytes → Bytes → Bytes
unfilter_row p done [] = done
unfilter_row p done (x ∷ row) = unfilter_row p (done ++ ((x + p done) % 256) ∷ []) row

abbrev pub prepend : Bytes → Predicted → Predicted
prepend row (ok bs) = ok (row ++ bs)
prepend row (err e) = err e
prepend row panic = panic

-- The first loop of the average filter runs over the bytes of a pixel also where the row has fewer.
abbrev pub overruns : Filter → ℕ → Bytes → Bool
overruns pf_avg bpp row = ltb (length row) bpp
overruns _ bpp row = false

unfoldable pub png_filtered :
    (Bytes → Bytes → Predicted) → ℕ → Bytes → Option Filter → Bytes → Bytes → Predicted
png_filtered go bpp prev none row rest = err invalid_filter
png_filtered go bpp prev (some f) row rest =
    let decoded = unfilter_row (predict f bpp prev) [] row in
    let after = prepend decoded (go decoded rest) in if overruns f bpp row then panic else after

unfoldable pub png_row : (Bytes → Bytes → Predicted) → ℕ → Bytes → Bytes → Bytes → Predicted
unfolding png_filtered
png_row go bpp prev [] rest = panic
png_row go bpp prev (fb ∷ row) rest = png_filtered go bpp prev (filter_of fb) row rest

-- The loop over the rows.
unfoldable pub png_rows : ℕ → ℕ → ℕ → Bytes → Bytes → Predicted
png_rows zero row_length bpp prev data_left = ok []
png_rows (suc rows) row_length bpp prev data_left =
    png_row (png_rows rows row_length bpp) bpp prev (take row_length data_left)
      (drop row_length data_left)

unfoldable pub tiff_rows : ℕ → ℕ → ℕ → Bytes → Bytes
unfolding left_of
tiff_rows zero row_length colors out_data = []
tiff_rows (suc rows) row_length colors out_data =
    unfilter_row (λ done. left_of colors done (length done)) [] (take row_length out_data)
    ++ tiff_rows rows row_length colors (drop row_length out_data)

unfoldable pub png_predict : ℕ → ℕ → Bytes → Predicted
png_predict columns colors out_data =
    let row_length = columns * colors + 1 in
    if not (length out_data % row_length == 0)
    then err invalid_row_length
    else if ltb (length out_data) row_length
    then err range_check
    else png_rows (length out_data / row_length) row_length colors (replicate (columns * colors) 0)
        out_data

unfoldable pub tiff_predict : ℕ → ℕ → Bytes → Predicted
tiff_predict columns colors out_data =
    let row_length = columns * colors in
    if ltb row_length 1
    then ok []
    else if not (length out_data % row_length == 0)
    then err invalid_row_length
    else if not (row_length % colors == 0)
    then err invalid_row_length
    else if ltb (length out_data) row_length
    then err range_check
    else ok (tiff_rows (length out_data / row_length) row_length colors out_data)

unfoldable pub post_decode_predict : FlateEncoder → Bytes → Predicted
unfolding png_predict tiff_predict
post_decode_predict enc out_data =
    if ltb 1 enc.predictor
    then if enc.predictor == 2
      then tiff_predict enc.columns enc.colors out_data
      else if leb 10 enc.predictor && leb enc.predictor 15
      then png_predict enc.columns enc.colors out_data
      else err unsupported_predictor
    else ok out_data

-- The PNG filter `Sub` as `EncodeBytes` applies it; the subtraction of bytes wraps around.
unfoldable pub sub_rest : ℕ → Bytes → Bytes
sub_rest last [] = []
sub_rest last (x ∷ row) = ((x + 256 - last) % 256) ∷ sub_rest x row

unfoldable pub sub_row : Bytes → Bytes
unfolding sub_rest
sub_row [] = []
sub_row (x ∷ row) = x ∷ sub_rest x row

unfoldable pub sub_rows : ℕ → ℕ → Bytes → Bytes
unfolding sub_row
sub_rows zero row_length bs = []
sub_rows (suc rows) row_length bs =
    1 ∷ sub_row (take row_length bs) ++ sub_rows rows row_length (drop row_length bs)

-- The division by the number of columns panics if it is 0.
unfoldable pub sub_encode : ℕ → Bytes → Predicted
sub_encode row_length bs =
    if row_length == 0
    then panic
    else if not (length bs % row_length == 0)
    then err invalid_row_length
    else ok (sub_rows (length bs / row_length) row_length bs)

module _ (deflate : Bytes → Bytes) where
  unfoldable pub encode_bytes : FlateEncoder → Bytes → Predicted
  unfolding sub_encode
  encode_bytes enc bs =
      if not (enc.predictor == 1) && not (enc.predictor == 11)
      then err unsupported_parameters
      else if enc.predictor == 11
      then and_then (sub_encode enc.columns bs) (λ out. ok (deflate out))
      else ok (deflate bs)

abbrev pub read_from : Option Bytes → Predicted
read_from none = err zlib_error
read_from (some bs) = ok bs

module _ (inflate : Bytes → Option Bytes) where
  abbrev pub decode_bytes : Bytes → Predicted
  decode_bytes encoded = read_from (inflate encoded)

  unfoldable pub decode_stream : FlateEncoder → Bytes → Predicted
  unfolding post_decode_predict
  decode_stream enc encoded =
      if not (enc.bits_per_component == 8)
      then err invalid_bits
      else and_then (decode_bytes encoded) (post_decode_predict enc)
