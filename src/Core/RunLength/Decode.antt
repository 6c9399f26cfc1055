-- ===== src/Core/RunLength/Decode.antt =====
-- `DecodeBytes` of `RunLengthEncoder` (`pdf/core/encoding.go`): its loop ends, and each block is read
-- back.
use unidoc.Prelude.{
  ℕ, zero, suc, ◌+◌, ◌-◌, ◌%◌, ◌≤◌, ◌<◌, ◌≡◌, ◌≢◌, refl, sym, ◌∙◌, ap, [], ◌∷◌, ◌++◌, append_assoc,
  append-nil, length, replicate, arith, false, ltb, lt→ltb, dec_lt,
}
use unidoc.Core.Decoding.{Bytes, DecodeError, Decoded, ok, err, ◌>>=◌, out_of_fuel}
use unidoc.Core.RunLength.{
  read_literals, read_repeat, read_runs, decode_bytes, literal_block, run_block,
}

ltb-false : (a b : ℕ) → b ≤ a → ltb a b ≡ false
ltb-false a b h = ground arith

-- A result that did not run out of fuel, and leaves no more unread than n bytes.
abbrev Reads : ℕ → Decoded (Bytes × Bytes) → Type 0
Reads n (ok r) = length r.0 ≤ n
Reads n (err e) = e ≢ out_of_fuel

read_literals-Reads : (n : ℕ) (bs inb : Bytes) → Reads (length bs) (read_literals n bs inb)
unfolding read_literals
read_literals-Reads zero bs inb = omega arith
read_literals-Reads (suc n) [] inb = grind arith
read_literals-Reads (suc n) (v ∷ bs) inb = weaken _ (read_literals-Reads n bs (inb ++ v ∷ []))
  where
    weaken : (r : Decoded (Bytes × Bytes)) → Reads (length bs) r → Reads (suc (length bs)) r
    weaken (ok r) h = omega arith
    weaken (err e) h = h

read_repeat-Reads : (n : ℕ) (bs inb : Bytes) → Reads (length bs) (read_repeat n bs inb)
unfolding read_repeat
read_repeat-Reads n [] inb = grind arith
read_repeat-Reads n (v ∷ bs) inb = omega arith

read_literals-block :
    (l rest inb : Bytes) → read_literals (length l) (l ++ rest) inb ≡ ok (rest, inb ++ l)
unfolding read_literals
read_literals-block [] rest inb = rw append-nil
read_literals-block (v ∷ l) rest inb =
    read_literals-block l rest (inb ++ v ∷ [])
    ∙ ap (λ i. ok (rest, i)) (append_assoc inb (v ∷ []) l)

round_literal :
    (fuel c : ℕ) (bs inb : Bytes)
    → c < 128
    → read_runs (suc fuel) (c ∷ bs) inb
      ≡ (read_literals (c + 1) bs inb >>= λ (r : Bytes × Bytes). read_runs fuel r.0 r.1)
unfolding read_runs
round_literal fuel c bs inb h = rw (ltb-false 128 c (omega arith), lt→ltb c 128 h)

round_repeat :
    (fuel c : ℕ) (bs inb : Bytes)
    → 128 < c
    → read_runs (suc fuel) (c ∷ bs) inb
      ≡ (read_repeat (257 - c) bs inb >>= λ (r : Bytes × Bytes). read_runs fuel r.0 r.1)
unfolding read_runs
round_repeat fuel c bs inb h = rw (lt→ltb 128 c h)

-- one round reads a block of 1 to 128 literals
pub read_runs-literal :
    (fuel v : ℕ) (l rest inb : Bytes)
    → length l < 128
    → read_runs (suc fuel) (literal_block (v ∷ l) ++ rest) inb ≡ read_runs fuel rest (inb ++ v ∷ l)
unfolding literal_block
read_runs-literal fuel v l rest inb h =
    round_literal fuel _ ((v ∷ l) ++ rest) inb (omega arith)
    ∙ ap
        (λ n.
          read_literals n ((v ∷ l) ++ rest) inb >>= λ (r : Bytes × Bytes). read_runs fuel r.0 r.1)
        {x = (suc (length l) - 1) % 256 + 1} {y = suc (length l)} (omega arith)
    ∙ ap (λ (d : Decoded (Bytes × Bytes)). d >>= λ (r : Bytes × Bytes). read_runs fuel r.0 r.1)
        (read_literals-block (v ∷ l) rest inb)

-- one round reads a block that stands for a run of 1 to 127 bytes
pub read_runs-run :
    (fuel r v : ℕ) (rest inb : Bytes)
    → 0 < r
    → r < 128
    → read_runs (suc fuel) (run_block r v ++ rest) inb ≡ read_runs fuel rest (inb ++ replicate r v)
unfolding run_block literal_block
read_runs-run fuel zero v rest inb h k = absurd (omega arith)
read_runs-run fuel (suc zero) v rest inb h k = read_runs-literal fuel v [] rest inb (omega arith)
read_runs-run fuel (suc (suc r)) v rest inb h k =
    round_repeat fuel _ (v ∷ rest) inb (omega arith)
    ∙ unfold read_repeat in
      ap (λ n. read_runs fuel rest (inb ++ replicate n v)) {x = 257 - (257 - suc (suc r)) % 256}
        {y = suc (suc r)} (omega arith)

-- the end-of-data byte
pub read_runs-end : (fuel : ℕ) (rest inb : Bytes) → read_runs (suc fuel) (128 ∷ rest) inb ≡ ok inb
unfolding read_runs
read_runs-end fuel rest inb = refl

ok-ne-err : {a : Bytes} {e : DecodeError} → ok a ≢ err e
ok-ne-err h = cc

Reads-continue :
    (n : ℕ) (r : Decoded (Bytes × Bytes)) (f : Bytes × Bytes → Decoded Bytes)
    → Reads n r
    → ((p : Bytes × Bytes) → length p.0 ≤ n → f p ≢ err out_of_fuel)
    → (r >>= f) ≢ err out_of_fuel
Reads-continue n (ok p) f h k = k p h
Reads-continue n (err e) f h k = λ q. h (cc)

read_runs-ends :
    (fuel : ℕ) (bs inb : Bytes) → length bs < fuel → read_runs fuel bs inb ≢ err out_of_fuel
read_runs-ends zero bs inb h = absurd (omega arith)
read_runs-ends (suc fuel) [] inb h = unfold read_runs in (λ q. cc)
read_runs-ends (suc fuel) (b ∷ bs) inb h = elim (dec_lt 128 b) [
  | yes l ↦ (λ q.
      Reads-continue (length bs) _ _ (read_repeat-Reads (257 - b) bs inb)
        (λ p k. read_runs-ends fuel p.0 p.1 (omega arith)) (sym (round_repeat fuel b bs inb l) ∙ q))
  | no l ↦ elim (dec_lt b 128) [
    | yes m ↦ (λ q.
        Reads-continue (length bs) _ _ (read_literals-Reads (b + 1) bs inb)
          (λ p k. read_runs-ends fuel p.0 p.1 (omega arith))
          (sym (round_literal fuel b bs inb m) ∙ q))
    | no m ↦ (λ q. ok-ne-err (
        sym (read_runs-end fuel bs inb)
        ∙ ap (λ c. read_runs (suc fuel) (c ∷ bs) inb) {x = 128} {y = b} (omega arith)
        ∙ q))
  ]
]

-- `DecodeBytes` ends on every input: with the decoded bytes, or with an error of the reader.
pub decode_bytes_ends : (bs : Bytes) → decode_bytes bs ≢ err out_of_fuel
unfolding decode_bytes
decode_bytes_ends bs = read_runs-ends (suc (length bs)) bs [] (omega arith)
