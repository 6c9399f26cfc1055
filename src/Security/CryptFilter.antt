-- ===== src/Security/CryptFilter.antt =====
-- The crypt filters of `pdf/core/security/crypt`: RC4, AES and identity. The lengths of a dictionary are
-- not negative.
pub mod Roundtrip
use unidoc.Prelude.{
  ℕ, ◌+◌, ◌-◌, ◌*◌, ◌/◌, ◌%◌, Bool, true, false, not, ◌&&◌, ◌||◌, [], ◌∷◌, ◌++◌, length, take, drop,
  replicate, ltb, ◌==◌, bytes_eq, codes, if◌then◌else◌,
}
use unidoc.Core.Decoding.{Bytes}
use unidoc.Security.Result.{
  invalid_cipher, short_buffer, partial_block, invalid_pad, unknown_filter, invalid_length, Result,
  ok, err, panic, ◌>>=◌, prefix, read_random,
}
use unidoc.Security.Primitives.{Primitives, rc4_crypt, is_aes_key}
use unidoc.Security.Hash.{last_byte}

pub data Filter : Type 0 where
  identity : Filter
  v2 : (length : ℕ) → Filter
  aesv2 : Filter
  aesv3 : Filter

unfoldable pub new_filter_v2 : ℕ → Result Filter
new_filter_v2 n =
    if not (n % 8 == 0)
    then err invalid_length
    else if ltb n 5 || ltb 16 n
    then (if (n == 40) || (n == 64) || (n == 128) then ok (v2 (n / 8)) else err invalid_length)
    else ok (v2 n)

unfoldable pub new_filter_aesv2 : ℕ → Result Filter
new_filter_aesv2 n =
    let n' = if n == 128 then n / 8 else n in
    if not (n' == 0) && not (n' == 16) then err invalid_length else ok aesv2

unfoldable pub new_filter_aesv3 : ℕ → Result Filter
new_filter_aesv3 n =
    let n' = if n == 256 then n / 8 else n in
    if not (n' == 0) && not (n' == 32) then err invalid_length else ok aesv3

-- The methods that the files register.
unfoldable pub new_filter : Bytes → ℕ → Result Filter
unfolding new_filter_v2 new_filter_aesv2 new_filter_aesv3
new_filter cfm n =
    if bytes_eq cfm (codes "V2")
    then new_filter_v2 n
    else if bytes_eq cfm (codes "AESV2")
    then new_filter_aesv2 n
    else if bytes_eq cfm (codes "AESV3")
    then new_filter_aesv3 n
    else err unknown_filter

unfoldable pub filter_name : Filter → Bytes
filter_name identity = codes "Identity"
filter_name (v2 n) = codes "V2"
filter_name aesv2 = codes "AESV2"
filter_name aesv3 = codes "AESV3"

unfoldable pub filter_key_length : Filter → ℕ
filter_key_length identity = 0
filter_key_length (v2 n) = n
filter_key_length aesv2 = 16
filter_key_length aesv3 = 32

unfoldable pub handler_version : Filter → ℕ × ℕ
handler_version identity = (0, 0)
handler_version (v2 n) = (2, 3)
handler_version aesv2 = (4, 4)
handler_version aesv3 = (5, 6)

-- The key of an object before it is hashed.
abbrev pub object_key : ℕ → ℕ → Bytes → Bool → Bytes
object_key obj_num gen_num ekey is_aes =
    ekey
    ++ (obj_num % 256)
      ∷ (obj_num / 256 % 256)
      ∷ (obj_num / 65536 % 256)
      ∷ (gen_num % 256)
      ∷ (gen_num / 256 % 256)
      ∷ []
    ++ (if is_aes then 0x73 ∷ 0x41 ∷ 0x6C ∷ 0x54 ∷ [] else [])

-- What `EncryptBytes` appends.
abbrev pub padded : Bytes → Bytes
padded buf = let pad = 16 - length buf % 16 in buf ++ replicate pad pad

-- What `DecryptBytes` removes.
unfoldable pub unpadded : Bytes → Result Bytes
unpadded buf =
    if length buf == 0
    then ok buf
    else if ltb (length buf) (last_byte buf)
    then err invalid_pad
    else ok (take (length buf - last_byte buf) buf)

module _ (prim : Primitives) where
  unfoldable pub make_key_v2 : ℕ → ℕ → Bytes → Bool → Result Bytes
  make_key_v2 obj_num gen_num ekey is_aes =
      let hashb = prim.md5 (object_key obj_num gen_num ekey is_aes) in
      if ltb (length ekey + 5) 16 then prefix (length ekey + 5) hashb else ok hashb

  -- `MakeKey` of the filters
  unfoldable pub make_key : Filter → ℕ → ℕ → Bytes → Result Bytes
  make_key identity obj_num gen_num fkey = ok fkey
  make_key (v2 n) obj_num gen_num fkey = make_key_v2 obj_num gen_num fkey false
  make_key aesv2 obj_num gen_num fkey = make_key_v2 obj_num gen_num fkey true
  make_key aesv3 obj_num gen_num fkey = ok fkey

  unfoldable pub aes_encrypt : Bytes → Bytes → Bytes → Result (Bytes × Bytes)
  aes_encrypt buf okey random =
      if is_aes_key okey
      then (read_random 16 random >>= λ (iv, left).
          ok (iv ++ prim.cbc_encrypt okey iv (padded buf), left))
      else err invalid_cipher

  unfoldable pub aes_decrypt : Bytes → Bytes → Result Bytes
  unfolding unpadded
  aes_decrypt buf okey =
      if not (is_aes_key okey)
      then err invalid_cipher
      else if ltb (length buf) 16
      then err short_buffer
      else if not (length (drop 16 buf) % 16 == 0)
      then err partial_block
      else unpadded (prim.cbc_decrypt okey (take 16 buf) (drop 16 buf))

  -- `EncryptBytes` and `DecryptBytes` of the filters
  unfoldable pub encrypt_bytes : Filter → Bytes → Bytes → Bytes → Result (Bytes × Bytes)
  encrypt_bytes identity buf okey random = ok (buf, random)
  encrypt_bytes (v2 n) buf okey random = rc4_crypt prim okey buf >>= λ out. ok (out, random)
  encrypt_bytes aesv2 buf okey random = aes_encrypt buf okey random
  encrypt_bytes aesv3 buf okey random = aes_encrypt buf okey random

  unfoldable pub decrypt_bytes : Filter → Bytes → Bytes → Result Bytes
  decrypt_bytes identity buf okey = ok buf
  decrypt_bytes (v2 n) buf okey = rc4_crypt prim okey buf
  decrypt_bytes aesv2 buf okey = aes_decrypt buf okey
  decrypt_bytes aesv3 buf okey = aes_decrypt buf okey
