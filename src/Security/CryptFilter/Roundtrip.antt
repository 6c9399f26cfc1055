-- ===== src/Security/CryptFilter/Roundtrip.antt =====
-- `DecryptBytes` after `EncryptBytes` for each of the filters of `pdf/core/security/crypt`.
use Prim.Native.Nat.{min}
use unidoc.Prelude.{
  ℕ, zero, suc, ◌+◌, ◌-◌, ◌%◌, ◌≤◌, ◌≡◌, refl, ap, ◌∙◌, Bool, true, false, [], ◌∷◌, ◌++◌, length,
  length-append, length-take, length-drop, length-replicate, take, take_front, drop_front,
  replicate, get_or, ltb, if-both, arith,
}
use unidoc.Core.Decoding.{Bytes}
use unidoc.Security.Result.{Result, ok, err, panic, prefix-ok, read_random-ok}
use unidoc.Security.Primitives.{Primitives, IsSound, rc4_crypt-ok, is_aes_key}
use unidoc.Security.Hash.{last_byte}
use unidoc.Security.CryptFilter.{
  Filter, identity, v2, aesv2, aesv3, object_key, padded, unpadded, make_key_v2, make_key,
  aes_encrypt, aes_decrypt, encrypt_bytes, decrypt_bytes,
}

get_or-replicate : (n a : ℕ) → get_or (replicate (suc n) a) n 0 ≡ a
get_or-replicate zero a = refl
get_or-replicate (suc n) a = get_or-replicate n a

get_or-behind : (xs : Bytes) (n a : ℕ) → get_or (xs ++ replicate (suc n) a) (length xs + n) 0 ≡ a
get_or-behind [] n a =
    let e : 0 + n ≡ n = omega arith in
    ap (λ i. get_or (replicate (suc n) a) i 0) e ∙ get_or-replicate n a
get_or-behind (x ∷ xs) n a =
    let e : length (x ∷ xs) + n ≡ suc (length xs + n) = omega arith in
    ap (λ i. get_or (x ∷ xs ++ replicate (suc n) a) i 0) e ∙ get_or-behind xs n a

last_byte-replicate : (xs : Bytes) (n a : ℕ) → 1 ≤ n → last_byte (xs ++ replicate n a) ≡ a
last_byte-replicate xs zero a h = omega (arith, h)
last_byte-replicate xs (suc n) a h =
    let e : length (xs ++ replicate (suc n) a) - 1 ≡ length xs + n =
      omega (arith, length-append xs (replicate (suc n) a), length-replicate (suc n) a) in
    ap (λ i. get_or (xs ++ replicate (suc n) a) i 0) e ∙ get_or-behind xs n a

module _ (buf : Bytes) where
  abbrev pub pad : ℕ
  pad = 16 - length buf % 16

  pub length-padded : length (padded buf) ≡ length buf + pad
  length-padded =
      length-append buf (replicate pad pad) ∙ ap (λ n. length buf + n) (length-replicate pad pad)

  pub padded-blocks : length (padded buf) % 16 ≡ 0
  padded-blocks = omega (arith, length-padded)

  -- The padding is found again.
  pub unpadded-padded : unpadded (padded buf) ≡ ok buf
  unfolding unpadded
  unpadded-padded =
      let l = last_byte-replicate buf pad pad (omega arith) in
      let e : length (padded buf) - pad ≡ length buf = omega (arith, length-padded) in
      rw (l, e, take_front (length buf) buf (replicate pad pad) refl)
        (ground (arith, length-padded))

module _ (prim : Primitives) (sound : IsSound prim) where
  -- Decryption gives the text of which this is the encryption, and at most 16 random bytes are used.
  abbrev pub Restores : Filter → Bytes → Bytes → Bytes → Result (Bytes × Bytes) → Type 0
  Restores f buf okey random (ok (encrypted, left)) =
      (decrypt_bytes prim f encrypted okey ≡ ok buf) × (length random ≤ length left + 16)
  Restores f buf okey random (err e) = ⊥
  Restores f buf okey random panic = ⊥

  aes_decrypt-aes_encrypt :
      (buf okey iv : Bytes)
      → is_aes_key okey ≡ true
      → length iv ≡ 16
      → aes_decrypt prim (iv ++ prim.cbc_encrypt okey iv (padded buf)) okey ≡ ok buf
  unfolding aes_decrypt
  aes_decrypt-aes_encrypt buf okey iv k e =
      let body = prim.cbc_encrypt okey iv (padded buf) in
      let l : length body % 16 ≡ 0 =
        ap (λ n. n % 16) (sound.cbc_length okey iv (padded buf)) ∙ padded-blocks buf in
      let long : ltb (length (iv ++ body)) 16 ≡ false = ground (arith, length-append iv body, e) in
      rw
        (
          k,
          long,
          drop_front 16 iv body e,
          take_front 16 iv body e,
          l,
          sound.cbc_inverse okey iv (padded buf) (padded-blocks buf),
        )
        (unpadded-padded buf)

  -- The keys that a filter takes, and the keys of files that it makes them from.
  abbrev pub Takes : Filter → Bytes → Type 0
  Takes identity okey = Unit {0}
  Takes (v2 n) okey = (1 ≤ length okey) × (length okey ≤ 256)
  Takes aesv2 okey = is_aes_key okey ≡ true
  Takes aesv3 okey = is_aes_key okey ≡ true

  abbrev pub Fits : Filter → Bytes → Type 0
  Fits identity ekey = Unit {0}
  Fits (v2 n) ekey = Unit {0}
  Fits aesv2 ekey = 11 ≤ length ekey
  Fits aesv3 ekey = is_aes_key ekey ≡ true

  aes_encrypt-Restores :
      (f : Filter) (buf okey random : Bytes)
      → ((iv : Bytes)
          → length iv ≡ 16
          → decrypt_bytes prim f (iv ++ prim.cbc_encrypt okey iv (padded buf)) okey ≡ ok buf)
      → is_aes_key okey ≡ true
      → 16 ≤ length random
      → Restores f buf okey random (aes_encrypt prim buf okey random)
  unfolding aes_encrypt
  aes_encrypt-Restores f buf okey random restored k r =
      rw (k, read_random-ok 16 random r)
        (
          restored (take 16 random) (length-take 16 random ∙ omega (arith, r)),
          omega (arith, length-drop 16 random, r),
        )

  pub encrypt_bytes-Restores :
      (f : Filter) (buf okey random : Bytes)
      → Takes f okey
      → 16 ≤ length random
      → Restores f buf okey random (encrypt_bytes prim f buf okey random)
  unfolding encrypt_bytes decrypt_bytes
  encrypt_bytes-Restores identity buf okey random k r = (refl, omega arith)
  encrypt_bytes-Restores (v2 n) buf okey random (k, k') r =
      rw (rc4_crypt-ok prim okey buf k k', rc4_crypt-ok prim okey (prim.rc4 okey buf) k k')
        (ap ok (sound.rc4_twice okey buf), omega arith)
  encrypt_bytes-Restores aesv2 buf okey random k r =
      aes_encrypt-Restores aesv2 buf okey random (λ iv e. aes_decrypt-aes_encrypt buf okey iv k e) k
        r
  encrypt_bytes-Restores aesv3 buf okey random k r =
      aes_encrypt-Restores aesv3 buf okey random (λ iv e. aes_decrypt-aes_encrypt buf okey iv k e) k
        r

  -- The key of an object.
  abbrev pub IsKey : (Bytes → Type 0) → Result Bytes → Type 0
  IsKey Good (ok key) = Good key
  IsKey Good (err e) = ⊥
  IsKey Good panic = ⊥

  make_key_v2-IsKey :
      (n g : ℕ) (ekey : Bytes) (is_aes : Bool) (Good : Bytes → Type 0)
      → ((key : Bytes) → length key ≡ min (length ekey + 5) 16 → Good key)
      → IsKey Good (make_key_v2 prim n g ekey is_aes)
  unfolding make_key_v2
  make_key_v2-IsKey n g ekey is_aes Good good =
      let hashb = prim.md5 (object_key n g ekey is_aes) in
      let l = sound.md5_length (object_key n g ekey is_aes) in
      if-both (IsKey Good) (ltb (length ekey + 5) 16)
        (λ h.
          rw (prefix-ok (length ekey + 5) hashb (ground (arith, l, h)))
            (good _ (length-take (length ekey + 5) hashb ∙ ground (arith, l, h))))
        (λ h. good hashb (ground (arith, l, h)))

  pub make_key-Takes :
      (f : Filter) (n g : ℕ) (ekey : Bytes)
      → Fits f ekey
      → IsKey (Takes f) (make_key prim f n g ekey)
  unfolding make_key
  make_key-Takes identity n g ekey h = tt
  make_key-Takes (v2 m) n g ekey h =
      make_key_v2-IsKey n g ekey false (Takes (v2 m))
        (λ key e. (omega (arith, e), omega (arith, e)))
  make_key-Takes aesv2 n g ekey h =
      make_key_v2-IsKey n g ekey true (Takes aesv2) (λ key e. ground (arith, e, h))
  make_key-Takes aesv3 n g ekey h = h

  IsKey-map :
      (P Q : Bytes → Type 0) (r : Result Bytes)
      → ((key : Bytes) → P key → Q key)
      → IsKey P r
      → IsKey Q r
  IsKey-map P Q (ok key) f h = f key h
  IsKey-map P Q (err e) f h = h
  IsKey-map P Q panic f h = h

  -- Each filter makes a key for an object from the key of the file, of at least 11 bytes for AESV2 and of
  -- 16, 24 or 32 for AESV3, and if the random source gives 16 bytes, EncryptBytes with this key gives
  -- bytes from which DecryptBytes with it gives the text again, of any length, and uses at most 16 bytes of
  -- the source. MD5 gives 16 bytes, RC4 undoes itself, and decryption in blocks undoes encryption.
  pub make_key-Restores :
      (f : Filter) (obj_num gen_num : ℕ) (ekey buf random : Bytes)
      → Fits f ekey
      → 16 ≤ length random
      → IsKey
          (λ okey. Restores f buf okey random (encrypt_bytes prim f buf okey random))
          (make_key prim f obj_num gen_num ekey)
  make_key-Restores f obj_num gen_num ekey buf random h r =
      IsKey-map (Takes f)
        (λ okey. Restores f buf okey random (encrypt_bytes prim f buf okey random))
        (make_key prim f obj_num gen_num ekey)
        (λ okey k. encrypt_bytes-Restores f buf okey random k r)
        (make_key-Takes f obj_num gen_num ekey h)
