-- ===== src/Security/HandlerR6/Generation.antt =====
-- `alg8`, `alg9` and `alg10` of `pdf/core/security/standard_r6.go`, as functions of the random bytes.
use unidoc.Prelude.{
  ℕ, ◌≤◌, ◌≡◌, refl, ◌∙◌, [], ◌++◌, length, length-take, length-drop, take, drop, take_all, arith,
}
use unidoc.Core.Decoding.{Bytes}
use unidoc.Security.Result.{ok, read_random-ok}
use unidoc.Security.Primitives.{Primitives, IsSound}
use unidoc.Security.Dict.{StdEncryptDict}
use unidoc.Security.Ecb.{crypt_blocks-one}
use unidoc.Security.HandlerR6.{no_vector, plain_perms, alg8, alg9, alg10}
use unidoc.Security.HandlerR6.Keys.{
  check_at_least-ok, hash_of, alg2b-hash_of, length-hash_of, prefix-hash_of, encrypt_key-ok,
}

-- The salts that are read.
abbrev pub val_salt : Bytes → Bytes
val_salt random = take 8 (take 16 random)

abbrev pub key_salt : Bytes → Bytes
key_salt random = drop 8 (take 16 random)

pub length-val_salt : (random : Bytes) → 16 ≤ length random → length (val_salt random) ≡ 8
length-val_salt random h = length-take 8 (take 16 random) ∙ omega (arith, length-take 16 random, h)

pub length-key_salt : (random : Bytes) → 16 ≤ length random → length (key_salt random) ≡ 8
length-key_salt random h = length-drop 8 (take 16 random) ∙ omega (arith, length-take 16 random, h)

pub length-plain_perms :
    (d : StdEncryptDict) (rest : Bytes) → length rest ≡ 4 → length (plain_perms d rest) ≡ 16
unfolding plain_perms
length-plain_perms d rest e = omega (arith, e)

module _ (prim : Primitives) (sound : IsSound prim) where
  -- The hash of a password with a salt and the user's key, and the key of the file encrypted with it.
  abbrev pub salted : ℕ → Bytes → Bytes → Bytes → Bytes
  salted r pass salt user_key = hash_of prim sound r (pass ++ salt ++ user_key) pass user_key

  abbrev pub sealed : ℕ → Bytes → Bytes → Bytes → Bytes → Bytes
  sealed r pass salt user_key ekey = prim.cbc_encrypt (salted r pass salt user_key) no_vector ekey

  module _ (d : StdEncryptDict) (ekey pass random : Bytes) where
    abbrev pub with_user : StdEncryptDict
    with_user = record d {
      u =
          hash_of prim sound d.r (pass ++ val_salt random) pass []
          ++ val_salt random
          ++ key_salt random;
      ue =
          prim.cbc_encrypt (hash_of prim sound d.r (pass ++ key_salt random) pass []) no_vector
            ekey;
    }

    pub alg8-with_user :
        length ekey ≡ 32
        → length pass ≤ 127
        → 16 ≤ length random
        → alg8 prim d ekey pass random ≡ ok (with_user, drop 16 random)
    unfolding alg8
    alg8-with_user e p h =
        let vs = val_salt random in
        let ks = key_salt random in
        rw
          (
            check_at_least-ok 32 ekey (omega (arith, e)),
            read_random-ok 16 random h,
            alg2b-hash_of prim sound d.r (pass ++ vs) pass [] p (omega arith),
            prefix-hash_of prim sound d.r (pass ++ vs) pass [] p (omega arith),
            alg2b-hash_of prim sound d.r (pass ++ ks) pass [] p (omega arith),
            encrypt_key-ok prim sound (hash_of prim sound d.r (pass ++ ks) pass []) ekey
                (length-hash_of prim sound d.r (pass ++ ks) pass [] p (omega arith)) e,
          )
          refl

    abbrev pub with_owner : StdEncryptDict
    with_owner = record d {
      o = salted d.r pass (val_salt random) (take 48 d.u) ++ val_salt random ++ key_salt random;
      oe = sealed d.r pass (key_salt random) (take 48 d.u) ekey;
    }

    pub alg9-with_owner :
        length ekey ≡ 32
        → length pass ≤ 127
        → 48 ≤ length d.u
        → 16 ≤ length random
        → alg9 prim d ekey pass random ≡ ok (with_owner, drop 16 random)
    unfolding alg9
    alg9-with_owner e p k h =
        let uk = take 48 d.u in
        let q : length uk ≤ 48 = omega (arith, length-take 48 d.u, k) in
        let vs = pass ++ val_salt random ++ uk in
        let ks = pass ++ key_salt random ++ uk in
        rw
          (
            check_at_least-ok 32 ekey (omega (arith, e)),
            check_at_least-ok 48 d.u k,
            read_random-ok 16 random h,
            alg2b-hash_of prim sound d.r vs pass uk p q,
            prefix-hash_of prim sound d.r vs pass uk p q,
            alg2b-hash_of prim sound d.r ks pass uk p q,
            encrypt_key-ok prim sound (hash_of prim sound d.r ks pass uk) ekey
                (length-hash_of prim sound d.r ks pass uk p q) e,
          )
          refl

  module _ (d : StdEncryptDict) (ekey random : Bytes) where
    abbrev pub with_perms : StdEncryptDict
    with_perms = record d { perms = prim.block_encrypt ekey (plain_perms d (take 4 random)) }

    pub alg10-with_perms :
        length ekey ≡ 32
        → 4 ≤ length random
        → alg10 prim d ekey random ≡ ok (with_perms, drop 4 random)
    unfolding alg10
    alg10-with_perms e h =
        rw
          (
            check_at_least-ok 32 ekey (omega (arith, e)),
            read_random-ok 4 random h,
            take_all 32 ekey (omega (arith, e)),
            crypt_blocks-one (prim.block_encrypt ekey) (plain_perms d (take 4 random))
                (length-plain_perms d (take 4 random) (omega (arith, length-take 4 random, h))),
          )
          refl
