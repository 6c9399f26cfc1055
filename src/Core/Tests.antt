-- ===== src/Core/Tests.antt =====
-- Runs of the stream filters of `pdf/core/encoding.go` at concrete inputs, and their theorems at
-- inputs that meet the hypotheses.
use unidoc.Prelude.{◌≡◌, ◌≢◌, refl, [], ◌∷◌, ◌++◌, codes, replicate, arith}
use unidoc.Core.Decoding.{ok, err, out_of_fuel, unexpected_eof}
use unidoc.Core.AsciiHex
use unidoc.Core.AsciiHex.RoundTrip.{ascii_hex_round_trip}
use unidoc.Core.RunLength
use unidoc.Core.RunLength.Decode.{decode_bytes_ends}
use unidoc.Core.RunLength.RoundTrip.{run_length_round_trip}
use unidoc.Core.Ascii85
use unidoc.Core.Ascii85.RoundTrip.{ascii85_round_trip, ascii85_zero_padding}

hex_text : AsciiHex.encode_bytes (1 ∷ 171 ∷ []) ≡ codes "01 AB >"
unfolding AsciiHex.encode_bytes
hex_text = refl

hex_odd : AsciiHex.decode_bytes (codes "61 6>") ≡ ok (0x61 ∷ 0x60 ∷ [])
unfolding AsciiHex.decode_bytes
hex_odd = refl

ascii_hex_round_trip_example :
    AsciiHex.decode_bytes (AsciiHex.encode_bytes (0 ∷ 171 ∷ [])) ≡ ok (0 ∷ 171 ∷ [])
ascii_hex_round_trip_example = ascii_hex_round_trip (0 ∷ 171 ∷ []) (omega arith)

run_text : RunLength.encode_bytes (codes "aaab") ≡ 254 ∷ b'a' ∷ 0 ∷ b'b' ∷ 128 ∷ []
unfolding RunLength.encode_bytes
run_text = refl

run_length_round_trip_example :
    RunLength.decode_bytes (RunLength.encode_bytes (codes "aaab")) ≡ ok (codes "aaab")
run_length_round_trip_example = run_length_round_trip (codes "aaab") (cc)

decode_bytes_ends_example : RunLength.decode_bytes (2 ∷ 7 ∷ []) ≢ err out_of_fuel
decode_bytes_ends_example = decode_bytes_ends (2 ∷ 7 ∷ [])

-- no data is encoded without the end-of-data byte
run_length_nothing : RunLength.decode_bytes (RunLength.encode_bytes []) ≡ err unexpected_eof
unfolding RunLength.encode_bytes RunLength.decode_bytes
run_length_nothing = refl

ascii85_text : Ascii85.encode_bytes (codes "Man ") ≡ codes "9jqo^~>"
unfolding Ascii85.encode_bytes
ascii85_text = refl

ascii85_round_trip_example :
    Ascii85.decode_bytes (Ascii85.encode_bytes (codes "Man sure")) ≡ ok (codes "Man sure")
ascii85_round_trip_example = ascii85_round_trip (codes "Man sure") (omega arith) tt

ascii85_round_trip_short :
    Ascii85.decode_bytes (Ascii85.encode_bytes (codes "Man s")) ≡ ok (codes "Man s")
ascii85_round_trip_short = ascii85_round_trip (codes "Man s") (omega arith) (omega arith)

ascii85_zero_padding_example :
    Ascii85.decode_bytes (Ascii85.encode_bytes (codes "Man " ++ replicate 1 0))
    ≡ ok (codes "Man " ++ replicate 4 0)
ascii85_zero_padding_example =
    ascii85_zero_padding (codes "Man ") 1 (omega arith) tt (omega arith) (omega arith)
