-- ===== src/Core/RunLength.antt =====
-- `RunLengthEncoder` of `pdf/core/encoding.go`: `DecodeBytes` and `EncodeBytes`.
pub mod Decode
pub mod Steps
pub mod RoundTrip
use unidoc.Prelude.{
  ℕ, zero, suc, ◌+◌, ◌-◌, ◌%◌, Bool, true, false, List, [], ◌∷◌, ◌++◌, length, take, replicate, ltb,
  leb, ◌==◌, if◌then◌else◌,
}
use unidoc.Core.Decoding.{Bytes, Decoded, ok, err, ◌>>=◌, unexpected_eof, out_of_fuel}

-- `n` bytes are read and appended; the unread ones are returned with the result.
unfoldable pub read_literals : ℕ → Bytes → Bytes → Decoded (Bytes × Bytes)
read_literals zero bs inb = ok (bs, inb)
read_literals (suc n) [] inb = err unexpected_eof
read_literals (suc n) (v ∷ bs) inb = read_literals n bs (inb ++ v ∷ [])

-- The byte that is repeated.
unfoldable pub read_repeat : ℕ → Bytes → Bytes → Decoded (Bytes × Bytes)
read_repeat n [] inb = err unexpected_eof
read_repeat n (v ∷ bs) inb = ok (bs, inb ++ replicate n v)

-- The outer loop of `DecodeBytes`, a unit of fuel for each round.
unfoldable pub read_runs : ℕ → Bytes → Bytes → Decoded Bytes
unfolding read_literals read_repeat
read_runs zero bs inb = err out_of_fuel
read_runs (suc fuel) [] inb = err unexpected_eof
read_runs (suc fuel) (b ∷ bs) inb =
    let repeated = read_repeat (257 - b) bs inb >>= λ (r : Bytes × Bytes). read_runs fuel r.0 r.1 in
    let literal = read_literals (b + 1) bs inb >>= λ (r : Bytes × Bytes). read_runs fuel r.0 r.1 in
    if ltb 128 b then repeated else if ltb b 128 then literal else ok inb

unfoldable pub decode_bytes : Bytes → Decoded Bytes
unfolding read_runs
decode_bytes encoded = read_runs (suc (length encoded)) encoded []

-- The variables of the loop of `EncodeBytes`.
pub record EncoderState : Type 0 where
  pub inb : Bytes
  pub literal : Bytes
  pub run_len : ℕ
  pub b0 : ℕ

-- `append(inb, byte(len(literal)-1))`, `append(inb, literal...)`
unfoldable pub literal_block : Bytes → Bytes
literal_block literal = (length literal - 1) % 256 ∷ literal

-- `append(inb, byte(257-runLen), b0)`
unfoldable pub run_block : ℕ → ℕ → Bytes
run_block run_len b0 = (257 - run_len) % 256 ∷ b0 ∷ []

-- The last literal becomes the start of a run.
unfoldable pub end_literal : EncoderState → EncoderState
unfolding literal_block
end_literal s =
    let kept = take (length s.literal - 1) s.literal in
    if ltb 0 (length s.literal)
    then record s {
      inb = if ltb 0 (length kept) then s.inb ++ literal_block kept else s.inb;
      run_len = 1;
      literal = [];
    }
    else s

-- `b == b0`
unfoldable pub lengthen_run : EncoderState → EncoderState
unfolding run_block
lengthen_run s =
    if leb 127 (s.run_len + 1)
    then record s { inb = s.inb ++ run_block (s.run_len + 1) s.b0; run_len = 0 }
    else record s { run_len = s.run_len + 1 }

-- `b != b0`: the run ends
unfoldable pub end_run : EncoderState → EncoderState
unfolding run_block
end_run s =
    if ltb 0 s.run_len
    then if s.run_len == 1
      then record s { literal = s.b0 ∷ []; run_len = 0 }
      else record s { inb = s.inb ++ run_block s.run_len s.b0; run_len = 0 }
    else s

-- and b is appended to the literals.
unfoldable pub lengthen_literal : EncoderState → ℕ → EncoderState
unfolding literal_block
lengthen_literal s b =
    if leb 127 (length (s.literal ++ b ∷ []))
    then record s { inb = s.inb ++ literal_block (s.literal ++ b ∷ []); literal = [] }
    else record s { literal = s.literal ++ b ∷ [] }

-- A round of the loop.
unfoldable pub encode_byte : EncoderState → ℕ → EncoderState
unfolding end_literal lengthen_run end_run lengthen_literal
encode_byte s b =
    record (if b == s.b0 then lengthen_run (end_literal s) else lengthen_literal (end_run s) b) {
      b0 = b;
    }

unfoldable pub encode_loop : EncoderState → Bytes → EncoderState
unfolding encode_byte
encode_loop s [] = s
encode_loop s (b ∷ bs) = encode_loop (encode_byte s b) bs

-- What is written after the loop, with the end-of-data byte 128.
unfoldable pub last_block : EncoderState → Bytes
unfolding literal_block run_block
last_block s =
    if ltb 0 (length s.literal)
    then literal_block s.literal
    else if ltb 0 s.run_len
    then run_block s.run_len s.b0
    else []

unfoldable pub encode_bytes : Bytes → Bytes
unfolding encode_loop last_block
encode_bytes [] = []
encode_bytes (b ∷ bs) =
    let s = encode_loop (record { inb = []; literal = []; run_len = 1; b0 = b }) bs in
    (s.inb ++ last_block s) ++ 128 ∷ []
