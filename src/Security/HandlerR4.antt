-- ===== src/Security/HandlerR4.antt =====
-- `stdHandlerR4` of `pdf/core/security/standard_r4.go`.
pub mod Rounds
pub mod Authentication
use unidoc.Prelude.{
  ℕ, zero, suc, ◌+◌, ◌-◌, ◌/◌, ◌%◌, Bool, not, ◌&&◌, [], ◌∷◌, ◌++◌, Option, none, some, length,
  take, leb, ltb, ◌==◌, bytes_eq, if◌then◌else◌,
}
use unidoc.Core.Decoding.{Bytes}
use unidoc.Security.Result.{
  SecurityError, hash_length, invalid_r, Result, ok, err, panic, ◌>>=◌, prefix, read_random,
}
use unidoc.Security.Primitives.{Primitives, rc4_crypt, xor_key}
use unidoc.Security.Dict.{StdEncryptDict, perm_owner, put_uint32}

abbrev pub padding : Bytes
padding =
    0x28 ∷ 0xBF ∷ 0x4E ∷ 0x5E ∷ 0x4E ∷ 0x75 ∷ 0x8A ∷ 0x41 ∷ 0x64 ∷ 0x00 ∷ 0x4E ∷ 0x56 ∷ 0xFF ∷ 0xFA
    ∷ 0x01 ∷ 0x08 ∷ 0x2E ∷ 0x2E ∷ 0x00 ∷ 0xB6 ∷ 0xD0 ∷ 0x68 ∷ 0x3E ∷ 0x80 ∷ 0x2F ∷ 0x0C ∷ 0xA9
    ∷ 0xFE ∷ 0x64 ∷ 0x53 ∷ 0x69 ∷ 0x7A ∷ []

pub record StdHandlerR4 : Type 0 where
  pub key_length : ℕ
  pub id0 : Bytes

unfoldable pub padded_pass : Bytes → Bytes
padded_pass pass = take 32 pass ++ take (32 - length pass) padding

-- The password of the owner in `alg3`, that of the user if there is none.
abbrev pub owner_of : Bytes → Bytes → Bytes
owner_of opass upass = if ltb 0 (length opass) then opass else upass

module _ (prim : Primitives) (sh : StdHandlerR4) where
  -- The 50 rounds of `alg2`.
  unfoldable pub hash_rounds : ℕ → Bytes → Result Bytes
  hash_rounds zero hashb = ok hashb
  hash_rounds (suc n) hashb =
      prefix (sh.key_length / 8) hashb >>= λ part. hash_rounds n (prim.md5 part)

  unfoldable pub alg2_data : StdEncryptDict → Bytes → Bytes
  unfolding padded_pass
  alg2_data d pass =
      padded_pass pass
      ++ d.o
      ++ put_uint32 d.p
      ++ sh.id0
      ++ (if leb 4 d.r && not d.encrypt_metadata then 0xFF ∷ 0xFF ∷ 0xFF ∷ 0xFF ∷ [] else [])

  unfoldable pub alg2 : StdEncryptDict → Bytes → Result Bytes
  unfolding alg2_data
  alg2 d pass =
      let hashb = prim.md5 (alg2_data d pass) in
      if leb 3 d.r then hash_rounds 50 hashb >>= prefix (sh.key_length / 8) else prefix 5 hashb

  -- The 50 rounds of `alg3Key`.
  unfoldable pub md5_rounds : ℕ → Bytes → Bytes
  md5_rounds zero bs = bs
  md5_rounds (suc n) bs = md5_rounds n (prim.md5 bs)

  unfoldable pub alg3_key : ℕ → Bytes → Result Bytes
  alg3_key r pass =
      let okey = padded_pass pass in
      let enc_key = prim.md5 (if leb 3 r then md5_rounds 50 okey else okey) in
      if r == 2 then prefix 5 enc_key else prefix (sh.key_length / 8) enc_key

  -- The 19 rounds of `alg3` and `alg5`: n are left, of which the first is round i.
  unfoldable pub up_rounds : ℕ → ℕ → Bytes → Bytes → Result Bytes
  up_rounds zero i key encrypted = ok encrypted
  up_rounds (suc n) i key encrypted =
      rc4_crypt prim (xor_key key (i + 1)) encrypted >>= up_rounds n (i + 1) key

  unfoldable pub alg3 : ℕ → Bytes → Bytes → Result Bytes
  alg3 r upass opass = alg3_key r (owner_of opass upass) >>= λ enc_key.
      rc4_crypt prim enc_key (padded_pass upass) >>= λ encrypted.
      if leb 3 r then up_rounds 19 0 enc_key encrypted else ok encrypted

  unfoldable pub alg4 : Bytes → Bytes → Result Bytes
  alg4 ekey upass = rc4_crypt prim ekey padding

  -- The second argument of `alg5`, the password, is not used.
  unfoldable pub alg5 : Bytes → Bytes → Bytes → Result (Bytes × Bytes)
  alg5 ekey upass random =
      let hash = prim.md5 (padding ++ sh.id0) in
      if length hash == 16
      then (rc4_crypt prim ekey hash >>= up_rounds 19 0 ekey >>= λ encrypted.
          read_random 16 random >>= λ (rest, left). ok (take 16 encrypted ++ rest, left))
      else err hash_length

  unfoldable pub generated_u : StdEncryptDict → Bytes → Bytes → Bytes → Result (Bytes × Bytes)
  generated_u d ekey upass random =
      if d.r == 2
      then (alg4 ekey upass >>= λ u. ok (u, random))
      else if leb 3 d.r
      then alg5 ekey upass random
      else err invalid_r

  -- Of 32 bytes of `U` the last 16 are arbitrary.
  abbrev pub compared : ℕ → Bytes → Bytes
  compared r u = if leb 3 r then take 16 u else u

  -- The key, or none if the password is refused.
  unfoldable pub alg6 : StdEncryptDict → Bytes → Bytes → Result (Option Bytes × Bytes)
  alg6 d upass random = alg2 d upass >>= λ ekey. generated_u d ekey upass random >>= λ (u, left).
      ok ((if bytes_eq (compared d.r u) (compared d.r d.u) then some ekey else none), left)

  -- The 20 rounds of `alg7`: round i takes the key with 19 - i, where 20 - i rounds are left.
  unfoldable pub down_rounds : ℕ → Bytes → Bytes → Result Bytes
  down_rounds zero key decrypted = ok decrypted
  down_rounds (suc n) key decrypted = rc4_crypt prim (xor_key key n) decrypted >>= down_rounds n key

  unfoldable pub decrypted_o : StdEncryptDict → Bytes → Result Bytes
  decrypted_o d enc_key =
      if d.r == 2
      then rc4_crypt prim enc_key d.o
      else if leb 3 d.r
      then down_rounds 20 enc_key d.o
      else err invalid_r

  -- An error of `alg6` is no error of `alg7`.
  abbrev pub or_refused : Bytes → Result (Option Bytes × Bytes) → Result (Option Bytes × Bytes)
  or_refused random (ok r) = ok r
  or_refused random (err e) = ok (none, random)
  or_refused random panic = panic

  unfoldable pub alg7 : StdEncryptDict → Bytes → Bytes → Result (Option Bytes × Bytes)
  alg7 d opass random =
      alg3_key d.r opass >>= decrypted_o d >>= λ upass. or_refused random (alg6 d upass random)

  unfoldable pub generate_params :
      StdEncryptDict → Bytes → Bytes → Bytes → Result (StdEncryptDict × Bytes × Bytes)
  generate_params d opass upass random = alg3 d.r upass opass >>= λ o.
      let d' = record d { o = o } in
      alg2 d' upass >>= λ ekey.
      alg5 ekey upass random >>= λ (u, left). ok (record d' { u = u }, ekey, left)

  -- The key and the permissions, or none and no permissions.
  abbrev pub as_user : ℕ → Option Bytes × Bytes → Result (Option Bytes × ℕ × Bytes)
  as_user p (none, left) = ok (none, 0, left)
  as_user p (some ekey, left) = ok (some ekey, p, left)

  abbrev pub as_owner :
      StdEncryptDict → Bytes → Option Bytes × Bytes → Result (Option Bytes × ℕ × Bytes)
  as_owner d pass (none, left) = alg6 d pass left >>= as_user d.p
  as_owner d pass (some ekey, left) = ok (some ekey, perm_owner, left)

  unfoldable pub authenticate : StdEncryptDict → Bytes → Bytes → Result (Option Bytes × ℕ × Bytes)
  authenticate d pass random = alg7 d pass random >>= as_owner d pass
