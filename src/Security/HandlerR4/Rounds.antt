-- ===== src/Security/HandlerR4/Rounds.antt =====
-- The loops of `pdf/core/security/standard_r4.go` that apply RC4 repeatedly.
use Prim.Native.Nat.{bit_xor}
use unidoc.Prelude.{ℕ, zero, suc, ◌+◌, ◌≤◌, ◌≡◌, refl, ap, sym, ◌∙◌, length, length-map, arith}
use unidoc.Core.Decoding.{Bytes}
use unidoc.Security.Result.{ok, ◌>>=◌}
use unidoc.Security.Primitives.{Primitives, IsSound, rc4_crypt, rc4_crypt-ok, xor_key, xor_key-zero}
use unidoc.Security.HandlerR4.{StdHandlerR4, up_rounds, down_rounds}

module _ (prim : Primitives) (sound : IsSound prim) (sh : StdHandlerR4) where
  -- What `up_rounds` gives.
  unfoldable pub raised : ℕ → ℕ → Bytes → Bytes → Bytes
  raised zero i key text = text
  raised (suc n) i key text = raised n (i + 1) key (prim.rc4 (xor_key key (i + 1)) text)

  pub length-raised : (n i : ℕ) (key text : Bytes) → length (raised n i key text) ≡ length text
  unfolding raised
  length-raised zero i key text = refl
  length-raised (suc n) i key text = length-raised n (i + 1) key _ ∙ sound.rc4_length _ text

  module _ (key : Bytes) (l : 1 ≤ length key) (u : length key ≤ 256) where
    round_ok :
        (b : ℕ) (text : Bytes)
        → rc4_crypt prim (xor_key key b) text ≡ ok (prim.rc4 (xor_key key b) text)
    round_ok b text =
        rc4_crypt-ok prim (xor_key key b) text (omega (arith, length-map key (λ x. bit_xor x b), l))
          (omega (arith, length-map key (λ x. bit_xor x b), u))

    pub up_rounds-raised :
        (n i : ℕ) (text : Bytes) → up_rounds prim sh n i key text ≡ ok (raised n i key text)
    unfolding up_rounds raised
    up_rounds-raised zero i text = refl
    up_rounds-raised (suc n) i text = rw (round_ok (i + 1) text) (up_rounds-raised n (i + 1) _)

    one_down :
        (m : ℕ) (text : Bytes)
        → down_rounds prim sh (suc m) key (prim.rc4 (xor_key key m) text)
          ≡ down_rounds prim sh m key text
    unfolding down_rounds
    one_down m text =
        ap (λ r. r >>= down_rounds prim sh m key) (round_ok m _ ∙ ap ok (sound.rc4_twice _ text))

    -- The rounds downwards undo those upwards.
    down_rounds-raised :
        (n i k : ℕ) (text : Bytes)
        → suc i + n ≡ k
        → down_rounds prim sh k key (raised n i key text) ≡ down_rounds prim sh (suc i) key text
    unfolding raised
    down_rounds-raised zero i k text e =
        let e' : k ≡ suc i = omega arith in ap (λ j. down_rounds prim sh j key text) e'
    down_rounds-raised (suc n) i k text e =
        let e' : i + 1 ≡ suc i = omega arith in
        down_rounds-raised n (i + 1) k _ (omega arith)
        ∙ one_down (i + 1) text
        ∙ ap (λ j. down_rounds prim sh j key text) e'

    -- The 20 rounds of `alg7` undo the first one and the 19 further ones of `alg3`.
    pub down_rounds-all :
        (text : Bytes) → down_rounds prim sh 20 key (raised 19 0 key (prim.rc4 key text)) ≡ ok text
    down_rounds-all text =
        down_rounds-raised 19 0 20 (prim.rc4 key text) refl
        ∙ ap (λ j. down_rounds prim sh 1 key (prim.rc4 j text)) (sym (xor_key-zero key))
        ∙ one_down 0 text
        ∙ no_rounds
      where
        no_rounds : down_rounds prim sh 0 key text ≡ ok text
        no_rounds = unfold down_rounds in refl
