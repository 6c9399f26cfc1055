-- ===== src/Core/RunLength/RoundTrip.antt =====
-- What `RunLengthEncoder` encodes, it decodes to the same bytes (`pdf/core/encoding.go`). The loop of
-- the encoder keeps the invariant that the blocks written so far decode to the bytes read so far,
-- but for those that it still holds back.
use unidoc.Prelude.{
  ℕ, zero, suc, ◌+◌, ◌-◌, ◌≤◌, ◌<◌, ◌≡◌, ◌≢◌, refl, sym, ◌∙◌, ap, [], ◌∷◌, ◌++◌, append_assoc,
  append-nil, length, length-append, replicate, arith, dec_lt, ℕ_discrete, subst,
}
use unidoc.Core.Decoding.{Bytes, ok}
use unidoc.Core.RunLength.{
  EncoderState, read_runs, decode_bytes, literal_block, run_block, encode_byte, encode_loop,
  last_block, encode_bytes,
}
use unidoc.Core.RunLength.Decode.{read_runs-literal, read_runs-run, read_runs-end}
use unidoc.Core.RunLength.Steps.{
  in_run, in_literal, literal_block?, longer_run, full_run, first_literal, second_literal,
  ended_run, ended_literal, longer_literal, full_literal, last-in_run, last-in_literal,
}

-- k rounds of the decoder read the blocks of `inb` as `content`.
abbrev Writes : ℕ → Bytes → Bytes → Type 0
Writes k inb content =
    (fuel : ℕ) (rest out : Bytes)
    → read_runs (k + fuel) (inb ++ rest) out ≡ read_runs fuel rest (out ++ content)

Writes-nil : Writes 0 [] []
Writes-nil fuel rest out =
    ap (λ n. read_runs n rest out) {x = 0 + fuel} {y = fuel} (omega arith)
    ∙ ap (read_runs fuel rest) (sym (append-nil out))

-- one more block
Writes-append :
    (k : ℕ) (inb content block more : Bytes)
    → Writes k inb content
    → ((fuel : ℕ) (rest out : Bytes)
        → read_runs (suc fuel) (block ++ rest) out ≡ read_runs fuel rest (out ++ more))
    → Writes (k + 1) (inb ++ block) (content ++ more)
Writes-append k inb content block more w b fuel rest out =
    ap (λ n. read_runs n ((inb ++ block) ++ rest) out) {x = k + 1 + fuel} {y = k + suc fuel}
      (omega arith)
    ∙ ap (λ t. read_runs (k + suc fuel) t out) (append_assoc inb block rest)
    ∙ w (suc fuel) (block ++ rest) out
    ∙ b fuel rest (out ++ content)
    ∙ ap (read_runs fuel rest) (append_assoc out content more)

-- The invariant, by the shape of the state; p is what was read.
data Encodes (p : Bytes) (s : EncoderState) : Type 0 where
  running :
      (inb content : Bytes) (k r b0 : ℕ)
      → s ≡ in_run inb r b0
      → Writes k inb content
      → k ≤ length inb
      → r < 127
      → content ++ replicate r b0 ≡ p
      → Encodes p s
  copying :
      (inb content m : Bytes) (k b0 : ℕ)
      → s ≡ in_literal inb m b0
      → Writes k inb content
      → k ≤ length inb
      → length m < 126
      → content ++ (m ++ b0 ∷ []) ≡ p
      → Encodes p s

replicate_more : (r b : ℕ) → replicate (r + 1) b ≡ replicate r b ++ b ∷ []
replicate_more zero b = refl
replicate_more (suc r) b =
    ap (λ n. replicate n b) {x = suc r + 1} {y = suc (r + 1)} (omega arith)
    ∙ ap (λ l. b ∷ l) (replicate_more r b)

replicate-add_one :
    (content p : Bytes) (r b : ℕ)
    → content ++ replicate r b ≡ p
    → content ++ replicate (r + 1) b ≡ p ++ b ∷ []
replicate-add_one content p r b e =
    ap (λ l. content ++ l) (replicate_more r b)
    ∙ sym (append_assoc content (replicate r b) (b ∷ []))
    ∙ ap (λ l. l ++ b ∷ []) e

literal_block-reads :
    (m : Bytes) (b : ℕ)
    → length m < 127
    → (fuel : ℕ) (rest out : Bytes)
    → read_runs (suc fuel) (literal_block (m ++ b ∷ []) ++ rest) out
      ≡ read_runs fuel rest (out ++ (m ++ b ∷ []))
literal_block-reads [] b h fuel rest out = read_runs-literal fuel b [] rest out (omega arith)
literal_block-reads (x ∷ m) b h fuel rest out =
    read_runs-literal fuel x (m ++ b ∷ []) rest out (omega (arith, length-append m (b ∷ [])))

length-block : (inb l : Bytes) (k : ℕ) → k ≤ length inb → k + 1 ≤ length (inb ++ literal_block l)
unfolding literal_block
length-block inb l k h = omega (arith, length-append inb (literal_block l))

length-run : (inb : Bytes) (r b k : ℕ) → k ≤ length inb → k + 1 ≤ length (inb ++ run_block r b)
unfolding run_block
length-run inb r b k h = omega (arith, length-append inb (run_block r b))

-- a round in a run that goes on
same_step :
    (p inb content : Bytes) (k r b : ℕ)
    → Writes k inb content
    → k ≤ length inb
    → r < 127
    → content ++ replicate r b ≡ p
    → Encodes (p ++ b ∷ []) (encode_byte (in_run inb r b) b)
same_step p inb content k r b w l h e =
    let more = replicate-add_one content p r b e in
    elim (dec_lt r 126) [
      | yes short ↦
          running inb content k (r + 1) b (longer_run inb r b short) w l (omega arith) more
      | no full ↦
          running (inb ++ run_block (r + 1) b) (content ++ replicate (r + 1) b) (k + 1) 0 b
            (full_run inb r b (omega arith))
            (Writes-append k inb content _ _ w
              (λ fuel rest out. read_runs-run fuel (r + 1) b rest out (omega arith) (omega arith)))
            (length-run inb (r + 1) b k l) (omega arith) (append-nil _ ∙ more)
    ]

-- a round in a run that ends
other_step :
    (p inb content : Bytes) (k r b0 b : ℕ)
    → Writes k inb content
    → k ≤ length inb
    → r < 127
    → content ++ replicate r b0 ≡ p
    → b ≢ b0
    → Encodes (p ++ b ∷ []) (encode_byte (in_run inb r b0) b)
other_step p inb content k zero b0 b w l h e n =
    copying inb content [] k b (first_literal inb b0 b n) w l (omega arith)
      (ap (λ c. c ++ b ∷ []) (sym (append-nil content) ∙ e))
other_step p inb content k (suc zero) b0 b w l h e n =
    copying inb content (b0 ∷ []) k b (second_literal inb b0 b n) w l (omega arith)
      (sym (append_assoc content (b0 ∷ []) (b ∷ [])) ∙ ap (λ c. c ++ b ∷ []) e)
other_step p inb content k (suc (suc r)) b0 b w l h e n =
    copying (inb ++ run_block (suc (suc r)) b0) (content ++ replicate (suc (suc r)) b0) [] (k + 1) b
      (ended_run inb (suc (suc r)) b0 b (omega arith) n)
      (Writes-append k inb content _ _ w
        (λ fuel rest out. read_runs-run fuel (suc (suc r)) b0 rest out (omega arith) (omega arith)))
      (length-run inb (suc (suc r)) b0 k l) (omega arith) (ap (λ c. c ++ b ∷ []) e)

-- the literals in front of a run are written, if there are any
Writes-literal_block? :
    (k : ℕ) (inb content m : Bytes)
    → Writes k inb content
    → k ≤ length inb
    → length m < 126
    → (j : ℕ) × Writes j (inb ++ literal_block? m) (content ++ m)
      × (j ≤ length (inb ++ literal_block? m))
Writes-literal_block? k inb content [] w l h = (
  k,
  λ fuel rest out.
      ap (λ t. read_runs (k + fuel) (t ++ rest) out) (append-nil inb)
      ∙ w fuel rest out
      ∙ ap (λ t. read_runs fuel rest (out ++ t)) (sym (append-nil content)),
  omega (arith, length-append inb []),
)
Writes-literal_block? k inb content (x ∷ m) w l h = (
  k + 1,
  Writes-append k inb content _ _ w
      (λ fuel rest out. read_runs-literal fuel x m rest out (omega arith)),
  length-block inb (x ∷ m) k l,
)

-- a round behind literals
copy_step :
    (p inb content m : Bytes) (k b0 b : ℕ)
    → Writes k inb content
    → k ≤ length inb
    → length m < 126
    → content ++ (m ++ b0 ∷ []) ≡ p
    → b ≢ b0
    → Encodes (p ++ b ∷ []) (encode_byte (in_literal inb m b0) b)
copy_step p inb content m k b0 b w l h e n =
    let q : content ++ ((m ++ b0 ∷ []) ++ b ∷ []) ≡ p ++ b ∷ [] =
      sym (append_assoc content (m ++ b0 ∷ []) (b ∷ [])) ∙ ap (λ c. c ++ b ∷ []) e in
    elim (dec_lt (length m) 125) [
      | yes short ↦
          copying inb content (m ++ b0 ∷ []) k b (longer_literal inb m b0 b short n) w l
            (omega (arith, length-append m (b0 ∷ []))) q
      | no full ↦
          running (inb ++ literal_block ((m ++ b0 ∷ []) ++ b ∷ []))
            (content ++ ((m ++ b0 ∷ []) ++ b ∷ [])) (k + 1) 0 b
            (full_literal inb m b0 b (omega arith) n)
            (Writes-append k inb content _ _ w
              (literal_block-reads (m ++ b0 ∷ []) b (omega (arith, length-append m (b0 ∷ [])))))
            (length-block inb _ k l) (omega arith) (append-nil _ ∙ q)
    ]

run_start_step :
    (p inb content m : Bytes) (k b : ℕ)
    → Writes k inb content
    → k ≤ length inb
    → length m < 126
    → content ++ (m ++ b ∷ []) ≡ p
    → Encodes (p ++ b ∷ []) (encode_byte (in_literal inb m b) b)
run_start_step p inb content m k b w l h e =
    let (j, w', l') = Writes-literal_block? k inb content m w l h in
    running (inb ++ literal_block? m) (content ++ m) j 2 b (ended_literal inb m b) w' l'
      (omega arith)
      (sym (append_assoc (content ++ m) (b ∷ []) (b ∷ []))
        ∙ ap (λ c. c ++ b ∷ []) (append_assoc content m (b ∷ []) ∙ e))

encode_byte-Encodes :
    (p : Bytes) (s : EncoderState) (b : ℕ) → Encodes p s → Encodes (p ++ b ∷ []) (encode_byte s b)
encode_byte-Encodes p s b (running inb content k r b0 st w l h e) = rw st (elim (ℕ_discrete b b0) [
  | yes same ↦
      subst (λ x. Encodes (p ++ b ∷ []) (encode_byte (in_run inb r x) b)) same
        (same_step p inb content k r b w l h (ap (λ x. content ++ replicate r x) same ∙ e))
  | no other ↦ other_step p inb content k r b0 b w l h e other
])
encode_byte-Encodes p s b (copying inb content m k b0 st w l h e) = rw st (elim (ℕ_discrete b b0) [
  | yes same ↦
      subst (λ x. Encodes (p ++ b ∷ []) (encode_byte (in_literal inb m x) b)) same
        (run_start_step p inb content m k b w l h (ap (λ x. content ++ (m ++ x ∷ [])) same ∙ e))
  | no other ↦ copy_step p inb content m k b0 b w l h e other
])

encode_loop-Encodes :
    (p : Bytes) (s : EncoderState) (bs : Bytes) → Encodes p s → Encodes (p ++ bs) (encode_loop s bs)
unfolding encode_loop
encode_loop-Encodes p s [] h = rw append-nil h
encode_loop-Encodes p s (b ∷ bs) h =
    rw (← append_assoc p (b ∷ []) bs)
      (encode_loop-Encodes (p ++ b ∷ []) (encode_byte s b) bs (encode_byte-Encodes p s b h))

-- the last block, and the end of the data
last_block-Writes :
    (p : Bytes) (s : EncoderState)
    → Encodes p s
    → (j : ℕ) × Writes j (s.inb ++ last_block s) p × (j ≤ length (s.inb ++ last_block s))
last_block-Writes p s (running inb content k zero b0 st w l h e) = rw st (
    unfold last_block in
    (
      k,
      λ fuel rest out.
          ap (λ t. read_runs (k + fuel) (t ++ rest) out) (append-nil inb)
          ∙ w fuel rest out
          ∙ ap (λ t. read_runs fuel rest (out ++ t)) (sym (append-nil content) ∙ e),
      omega (arith, length-append inb []),
    ))
last_block-Writes p s (running inb content k (suc r) b0 st w l h e) =
    rw (st, last-in_run inb (suc r) b0 (omega arith))
      (
        k + 1,
        rw (← e) (
            Writes-append k inb content _ _ w (λ fuel rest out.
              read_runs-run fuel (suc r) b0 rest out (omega arith) (omega arith))),
        length-run inb (suc r) b0 k l,
      )
last_block-Writes p s (copying inb content m k b0 st w l h e) =
    rw (st, last-in_literal inb m b0)
      (
        k + 1,
        rw (← e) (Writes-append k inb content _ _ w (literal_block-reads m b0 (omega arith))),
        length-block inb (m ++ b0 ∷ []) k l,
      )

decode-written :
    (j : ℕ) (text p : Bytes)
    → Writes j text p
    → j ≤ length text
    → decode_bytes (text ++ 128 ∷ []) ≡ ok p
unfolding decode_bytes
decode-written j text p w l =
    ap (λ n. read_runs n (text ++ 128 ∷ []) []) {x = suc (length (text ++ 128 ∷ []))}
      {y = j + suc (length text - j + 1)} (omega (arith, length-append text (128 ∷ [])))
    ∙ w (suc (length text - j + 1)) (128 ∷ []) []
    ∙ read_runs-end (length text - j + 1) [] p

-- Decoding what was encoded gives the data back, if there is any.
pub run_length_round_trip : (bs : Bytes) → bs ≢ [] → decode_bytes (encode_bytes bs) ≡ ok bs
unfolding encode_bytes
run_length_round_trip [] h = absurd (h refl)
run_length_round_trip (b ∷ bs) h =
    let start : EncoderState = in_run [] 1 b in
    let (j, w, l) = last_block-Writes (b ∷ bs) (encode_loop start bs) (
      encode_loop-Encodes (b ∷ []) start bs
        (running [] [] 0 1 b refl Writes-nil (omega arith) (omega arith) refl)) in
    decode-written j _ (b ∷ bs) w l
