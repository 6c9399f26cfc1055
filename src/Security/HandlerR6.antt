-- ===== src/Security/HandlerR6.antt =====
-- `stdHandlerR6` of `pdf/core/security/standard_r6.go`, for revisions 5 and 6.
pub mod Keys
pub mod Generation
pub mod Authentication
pub mod Roundtrip
use unidoc.Prelude.{
  ℕ, ◌+◌, ◌-◌, Bool, true, false, not, [], ◌∷◌, ◌++◌, Option, none, some, length, take, drop,
  replicate, get_or, ltb, ◌==◌, bytes_eq, codes, if◌then◌else◌,
}
use unidoc.Core.Decoding.{Bytes}
use unidoc.Security.Result.{
  invalid_permissions, permissions_differ, invalid_flag, metadata_differs, Result, ok, err, panic,
  ◌>>=◌, prefix, slice, read_random,
}
use unidoc.Security.Primitives.{Primitives}
use unidoc.Security.Dict.{StdEncryptDict, perm_owner, check_at_least, put_uint32, uint32}
use unidoc.Security.Hash.{alg2b}
use unidoc.Security.Ecb.{crypt_blocks}

abbrev pub no_vector : Bytes
no_vector = replicate 16 0

-- `pass[:127]` for a longer password
abbrev pub truncated : Bytes → Bytes
truncated pass = if ltb 127 (length pass) then take 127 pass else pass

abbrev pub flag_of : Bool → ℕ
flag_of true = b'T'
flag_of false = b'F'

-- The permissions are extended to 64 bits.
unfoldable pub plain_perms : StdEncryptDict → Bytes → Bytes
plain_perms d rest =
    put_uint32 d.p ++ replicate 4 0xFF ++ flag_of d.encrypt_metadata ∷ codes "adb" ++ rest

abbrev pub if_equal : Bytes → Bytes → Option Bytes
if_equal h expected = if bytes_eq h expected then some h else none

unfoldable pub check_flag : StdEncryptDict → ℕ → Result (Unit {0})
check_flag d flag =
    if flag == b'T'
    then if d.encrypt_metadata then ok tt else err metadata_differs
    else if flag == b'F'
    then if d.encrypt_metadata then err metadata_differs else ok tt
    else err invalid_flag

unfoldable pub check_perms : StdEncryptDict → Bytes → Result (Unit {0})
check_perms d perms =
    if not (bytes_eq (drop 9 (take 12 perms)) (codes "adb"))
    then err invalid_permissions
    else if not (uint32 perms == d.p)
    then err permissions_differ
    else check_flag d (get_or perms 8 0)

module _ (prim : Primitives) where
  -- The first 32 bytes of a hash are the key for that of the file.
  unfoldable pub encrypt_key : Bytes → Bytes → Result Bytes
  encrypt_key h ekey = do key ← prefix 32 h; ok (prim.cbc_encrypt key no_vector (take 32 ekey))

  unfoldable pub alg8 : StdEncryptDict → Bytes → Bytes → Bytes → Result (StdEncryptDict × Bytes)
  alg8 d ekey upass random = do
    _ ← check_at_least 32 ekey
    (rbuf, left) ← read_random 16 random
    let val_salt = take 8 rbuf
    let key_salt = drop 8 rbuf
    h ← alg2b prim d.r (upass ++ val_salt) upass []
    part ← prefix 32 h
    h2 ← alg2b prim d.r (upass ++ key_salt) upass []
    ue ← encrypt_key h2 ekey
    ok (record d { u = part ++ val_salt ++ key_salt; ue = ue }, left)

  unfoldable pub alg9 : StdEncryptDict → Bytes → Bytes → Bytes → Result (StdEncryptDict × Bytes)
  alg9 d ekey opass random = do
    _ ← check_at_least 32 ekey
    _ ← check_at_least 48 d.u
    (rbuf, left) ← read_random 16 random
    let val_salt = take 8 rbuf
    let key_salt = drop 8 rbuf
    let user_key = take 48 d.u
    h ← alg2b prim d.r (opass ++ val_salt ++ user_key) opass user_key
    part ← prefix 32 h
    h2 ← alg2b prim d.r (opass ++ key_salt ++ user_key) opass user_key
    oe ← encrypt_key h2 ekey
    ok (record d { o = part ++ val_salt ++ key_salt; oe = oe }, left)

  unfoldable pub alg10 : StdEncryptDict → Bytes → Bytes → Result (StdEncryptDict × Bytes)
  alg10 d ekey random = do
    _ ← check_at_least 32 ekey
    (rest, left) ← read_random 4 random
    perms ← crypt_blocks (prim.block_encrypt (take 32 ekey)) (plain_perms d rest)
    ok (record d { perms = perms }, left)

  unfoldable pub alg11 : StdEncryptDict → Bytes → Result (Option Bytes)
  alg11 d upass = do
    _ ← check_at_least 48 d.u
    salt ← slice 32 40 d.u
    h ← alg2b prim d.r (upass ++ salt) upass []
    part ← prefix 32 h
    ok (if_equal part (take 32 d.u))

  unfoldable pub alg12 : StdEncryptDict → Bytes → Result (Option Bytes)
  alg12 d opass = do
    _ ← check_at_least 48 d.u
    _ ← check_at_least 48 d.o
    salt ← slice 32 40 d.o
    h ← alg2b prim d.r (opass ++ salt ++ take 48 d.u) opass (take 48 d.u)
    part ← prefix 32 h
    ok (if_equal part (take 32 d.o))

  unfoldable pub alg13 : StdEncryptDict → Bytes → Result (Unit {0})
  alg13 d fkey = do
    _ ← check_at_least 32 fkey
    _ ← check_at_least 16 d.perms
    perms ← crypt_blocks (prim.block_decrypt (take 32 fkey)) (take 16 d.perms)
    check_perms d perms

  -- The end of `alg2a`: the text to be hashed, the key of the file, the user's key and the permissions.
  unfoldable pub file_key :
      StdEncryptDict → Bytes → Bytes → Bytes → Bytes → ℕ → Result (Option Bytes × ℕ)
  file_key d pass text ekey ukey perm = do
    _ ← check_at_least 32 ekey
    ikey ← alg2b prim d.r text pass ukey
    key ← prefix 32 ikey
    let fkey = prim.cbc_decrypt key no_vector (take 32 ekey)
    _ ← if d.r == 5 then ok tt else alg13 d fkey
    ok (some fkey, perm)

  unfoldable pub as_owner : StdEncryptDict → Bytes → Result (Option Bytes × ℕ)
  as_owner d pass = do
    salt ← slice 40 48 d.o
    file_key d pass (pass ++ salt ++ take 48 d.u) d.oe (take 48 d.u) perm_owner

  abbrev pub or_default : StdEncryptDict → Option Bytes → Result (Option Bytes)
  or_default d none = alg11 d []
  or_default d (some h) = ok (some h)

  abbrev pub if_user : StdEncryptDict → Bytes → Option Bytes → Result (Option Bytes × ℕ)
  if_user d pass none = ok (none, 0)
  if_user d pass (some h) = slice 40 48 d.u >>= λ salt. file_key d pass (pass ++ salt) d.ue [] d.p

  unfoldable pub as_user : StdEncryptDict → Bytes → Result (Option Bytes × ℕ)
  as_user d pass = alg11 d pass >>= or_default d >>= if_user d pass

  abbrev pub if_owner : StdEncryptDict → Bytes → Option Bytes → Result (Option Bytes × ℕ)
  if_owner d pass none = as_user d pass
  if_owner d pass (some h) = as_owner d pass

  -- The key and the permissions, or none and no permissions.
  unfoldable pub alg2a : StdEncryptDict → Bytes → Result (Option Bytes × ℕ)
  alg2a d password = do
    _ ← check_at_least 48 d.o
    _ ← check_at_least 48 d.u
    let pass = truncated password
    h ← alg12 d pass
    if_owner d pass h

  abbrev pub authenticate : StdEncryptDict → Bytes → Result (Option Bytes × ℕ)
  authenticate = alg2a

  unfoldable pub generate_params :
      StdEncryptDict → Bytes → Bytes → Bytes → Result (StdEncryptDict × Bytes × Bytes)
  generate_params d opass upass random = do
    (ekey, s0) ← read_random 32 random
    let d0 = record d { u = []; o = []; ue = []; oe = []; perms = [] }
    (d1, s1) ← alg8 d0 ekey (truncated upass) s0
    (d2, s2) ← alg9 d1 ekey (truncated opass) s1
    (d3, s3) ← if d.r == 5 then ok (d2, s2) else alg10 d2 ekey s2
    ok (d3, ekey, s3)
