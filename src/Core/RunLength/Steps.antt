-- ===== src/Core/RunLength/Steps.antt =====
-- The rounds of `EncodeBytes` of `RunLengthEncoder` (`pdf/core/encoding.go`), by the shape of the
-- encoder's state: in a run of equal bytes, or behind literals of which the last is `b0`.
use unidoc.Prelude.{
  ℕ, ◌+◌, ◌-◌, ◌≤◌, ◌<◌, ◌≡◌, ◌≢◌, refl, ◌∙◌, ap, [], ◌∷◌, ◌++◌, append-nil, length, length-append,
  take, arith,
}
use unidoc.Core.Decoding.{Bytes}
use unidoc.Core.RunLength.{EncoderState, literal_block, run_block, encode_byte, last_block}

abbrev pub in_run : Bytes → ℕ → ℕ → EncoderState
in_run inb r b0 = record { inb = inb; literal = []; run_len = r; b0 = b0 }

abbrev pub in_literal : Bytes → Bytes → ℕ → EncoderState
in_literal inb m b0 = record { inb = inb; literal = m ++ b0 ∷ []; run_len = 0; b0 = b0 }

-- what `literal[:len(literal)-1]` leaves
take_init : (m : Bytes) (b : ℕ) → take (length (m ++ b ∷ []) - 1) (m ++ b ∷ []) ≡ m
take_init m b =
    ap (λ n. take n (m ++ b ∷ [])) {x = length (m ++ b ∷ []) - 1} {y = length m}
      (omega (arith, length-append m (b ∷ [])))
    ∙ take_all m
  where
    take_all : (l : Bytes) → take (length l) (l ++ b ∷ []) ≡ l
    take_all [] = refl
    take_all (x ∷ l) = ap (λ t. x ∷ t) (take_all l)

-- the literals in front of a run, if there are any
abbrev pub literal_block? : Bytes → Bytes
literal_block? [] = []
literal_block? (x ∷ m) = literal_block (x ∷ m)

pub longer_run :
    (inb : Bytes) (r b : ℕ) → r < 126 → encode_byte (in_run inb r b) b ≡ in_run inb (r + 1) b
unfolding encode_byte
longer_run inb r b h = ground arith

pub full_run :
    (inb : Bytes) (r b : ℕ)
    → r ≡ 126
    → encode_byte (in_run inb r b) b ≡ in_run (inb ++ run_block (r + 1) b) 0 b
unfolding encode_byte
full_run inb r b h = ground arith

pub first_literal :
    (inb : Bytes) (b0 b : ℕ) → b ≢ b0 → encode_byte (in_run inb 0 b0) b ≡ in_literal inb [] b
unfolding encode_byte
first_literal inb b0 b h = ground arith

pub second_literal :
    (inb : Bytes) (b0 b : ℕ) → b ≢ b0 → encode_byte (in_run inb 1 b0) b ≡ in_literal inb (b0 ∷ []) b
unfolding encode_byte
second_literal inb b0 b h = ground arith

pub ended_run :
    (inb : Bytes) (r b0 b : ℕ)
    → 2 ≤ r
    → b ≢ b0
    → encode_byte (in_run inb r b0) b ≡ in_literal (inb ++ run_block r b0) [] b
unfolding encode_byte
ended_run inb r b0 b k h = ground arith

pub ended_literal :
    (inb m : Bytes) (b : ℕ)
    → encode_byte (in_literal inb m b) b ≡ in_run (inb ++ literal_block? m) 2 b
unfolding encode_byte
ended_literal inb [] b = ground (arith, append-nil inb)
ended_literal inb (x ∷ m) b = ground (arith, take_init (x ∷ m) b, length-append (x ∷ m) (b ∷ []))

pub longer_literal :
    (inb m : Bytes) (b0 b : ℕ)
    → length m < 125
    → b ≢ b0
    → encode_byte (in_literal inb m b0) b ≡ in_literal inb (m ++ b0 ∷ []) b
unfolding encode_byte
longer_literal inb m b0 b k h =
    ground (arith, length-append (m ++ b0 ∷ []) (b ∷ []), length-append m (b0 ∷ []))

pub full_literal :
    (inb m : Bytes) (b0 b : ℕ)
    → length m ≡ 125
    → b ≢ b0
    → encode_byte (in_literal inb m b0) b
      ≡ in_run (inb ++ literal_block ((m ++ b0 ∷ []) ++ b ∷ [])) 0 b
unfolding encode_byte
full_literal inb m b0 b k h =
    ground (arith, length-append (m ++ b0 ∷ []) (b ∷ []), length-append m (b0 ∷ []))

pub last-in_run : (inb : Bytes) (r b0 : ℕ) → 0 < r → last_block (in_run inb r b0) ≡ run_block r b0
unfolding last_block
last-in_run inb r b0 h = ground arith

pub last-in_literal :
    (inb m : Bytes) (b0 : ℕ) → last_block (in_literal inb m b0) ≡ literal_block (m ++ b0 ∷ [])
unfolding last_block
last-in_literal inb m b0 = ground (arith, length-append m (b0 ∷ []))
