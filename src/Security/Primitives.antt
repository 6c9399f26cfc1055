-- ===== src/Security/Primitives.antt =====
-- The ciphers and hashes that `pdf/core/security` takes from Go's packages: parameters, with what the
-- code relies on.
use Prim.Native.Nat.{bit_xor, bit_xor-bitwise, digits, differ}
use unidoc.Prelude.{
  ℕ, Bool, zero, suc, ◌∙◌, [], ◌∷◌, arith, ◌*◌, ◌/◌, ◌+◌, ◌%◌, ◌≤◌, ◌≡◌, refl, map, length, ◌||◌,
  ◌==◌, leb, ◌&&◌, if◌then◌else◌,
}
use unidoc.Core.Decoding.{Bytes}
use unidoc.Security.Result.{invalid_cipher, Result, ok, err}

-- `rc4` is a fresh cipher applied to the data; the modes of `aes` take a key, then the vector if there is
-- one.
pub record Primitives : Type 0 where
  pub md5 : Bytes → Bytes
  pub sha256 : Bytes → Bytes
  pub sha384 : Bytes → Bytes
  pub sha512 : Bytes → Bytes
  pub rc4 : Bytes → Bytes → Bytes
  pub cbc_encrypt : Bytes → Bytes → Bytes → Bytes
  pub cbc_decrypt : Bytes → Bytes → Bytes → Bytes
  pub block_encrypt : Bytes → Bytes → Bytes
  pub block_decrypt : Bytes → Bytes → Bytes

-- The lengths of the hashes and texts, and that decryption undoes encryption.
pub record IsSound (p : Primitives) : Type 0 where
  pub md5_length : (d : Bytes) → length (p.md5 d) ≡ 16
  pub sha256_length : (d : Bytes) → length (p.sha256 d) ≡ 32
  pub sha384_length : (d : Bytes) → length (p.sha384 d) ≡ 48
  pub sha512_length : (d : Bytes) → length (p.sha512 d) ≡ 64
  pub rc4_length : (k d : Bytes) → length (p.rc4 k d) ≡ length d
  pub rc4_twice : (k d : Bytes) → p.rc4 k (p.rc4 k d) ≡ d
  pub cbc_length : (k v d : Bytes) → length (p.cbc_encrypt k v d) ≡ length d
  pub cbc_inverse :
      (k v d : Bytes) → length d % 16 ≡ 0 → p.cbc_decrypt k v (p.cbc_encrypt k v d) ≡ d
  pub block_length : (k d : Bytes) → length d ≡ 16 → length (p.block_encrypt k d) ≡ 16
  pub block_inverse : (k d : Bytes) → length d ≡ 16 → p.block_decrypt k (p.block_encrypt k d) ≡ d

module _ (p : Primitives) where
  -- `rc4.NewCipher` and `XORKeyStream`; the key has 1 to 256 bytes.
  unfoldable pub rc4_crypt : Bytes → Bytes → Result Bytes
  rc4_crypt key text =
      if leb 1 (length key) && leb (length key) 256 then ok (p.rc4 key text) else err invalid_cipher

  pub rc4_crypt-ok :
      (key text : Bytes)
      → 1 ≤ length key
      → length key ≤ 256
      → rc4_crypt key text ≡ ok (p.rc4 key text)
  unfolding rc4_crypt
  rc4_crypt-ok key text h k = ground arith

-- The sizes of key that `aes.NewCipher` takes.
abbrev pub is_aes_key : Bytes → Bool
is_aes_key key = (length key == 16) || (length key == 24) || (length key == 32)

-- Each byte of a key with a byte.
abbrev pub xor_key : Bytes → ℕ → Bytes
xor_key key b = map (λ x. bit_xor x b) key

digits_zero : (n a : ℕ) → a ≤ n → digits (λ b. b) differ n a 0 ≡ a
digits_zero zero a h = omega arith
digits_zero (suc n) zero h = refl
digits_zero (suc n) (suc a) h =
    rw (digits_zero n (suc a / 2) (omega arith))
      (differ_zero (suc a % 2) (suc a / 2) (suc a) (omega arith))
  where
    differ_zero : (d q k : ℕ) → q * 2 + d ≡ k → q * 2 + differ d 0 ≡ k
    differ_zero zero q k e = e
    differ_zero (suc d) q k e = e

xor_zero : (x : ℕ) → bit_xor x 0 ≡ x
xor_zero x = (λ i. bit_xor-bitwise x 0 i) ∙ digits_zero x x (omega arith)

pub xor_key-zero : (key : Bytes) → xor_key key 0 ≡ key
xor_key-zero [] = refl
xor_key-zero (x ∷ key) = rw (xor_zero x, xor_key-zero key) refl
