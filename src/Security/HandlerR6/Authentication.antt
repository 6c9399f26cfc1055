-- ===== src/Security/HandlerR6/Authentication.antt =====
-- `alg11`, `alg12`, `alg13` and `alg2a` of `pdf/core/security/standard_r6.go` on a dictionary that was
-- made for a key and two passwords.
use unidoc.Prelude.{
  ℕ, ◌^◌, ◌<◌, ◌≤◌, ◌≡◌, refl, ap, ◌∙◌, Bool, true, false, [], ◌++◌, some, length, length-take,
  take, take_all, ◌==◌, if◌then◌else◌, arith,
}
use unidoc.Core.Decoding.{Bytes}
use unidoc.Core.Dictionary.Validity.{bytes_eq_self}
use unidoc.Security.Result.{ok, slice}
use unidoc.Security.Primitives.{Primitives, IsSound}
use unidoc.Security.Dict.{StdEncryptDict, perm_owner, uint32-put_uint32}
use unidoc.Security.Ecb.{crypt_blocks-one}
use unidoc.Security.HandlerR6.{
  no_vector, flag_of, plain_perms, check_flag, check_perms, alg11, alg12, alg13, file_key, as_owner,
  as_user, alg2a, truncated,
}
use unidoc.Security.HandlerR6.Keys.{
  check_at_least-ok, entry_length, entry_hash, entry_validation_salt, entry_key_salt, hash_of,
  alg2b-hash_of, length-hash_of, prefix-hash_of,
}
use unidoc.Security.HandlerR6.Generation.{salted, sealed, length-plain_perms}

-- The flag that `alg10` writes passes.
check_flag-flag_of : (d : StdEncryptDict) → check_flag d (flag_of d.encrypt_metadata) ≡ ok tt
unfolding check_flag
check_flag-flag_of d = split d.encrypt_metadata refl
  where
    split : (m : Bool) → d.encrypt_metadata ≡ m → check_flag d (flag_of d.encrypt_metadata) ≡ ok tt
    split true e = rw e refl
    split false e = rw e refl

check_perms-plain_perms :
    (d : StdEncryptDict) (rest : Bytes) → d.p < 2 ^ 32 → check_perms d (plain_perms d rest) ≡ ok tt
unfolding check_perms plain_perms
check_perms-plain_perms d rest h =
    rw (uint32-put_uint32 d.p h) (ground (arith, check_flag-flag_of d))

module _ (prim : Primitives) (sound : IsSound prim) where
  -- Authentication is possible with a dictionary whose entries come from one key and two passwords.
  pub record IsMade (d : StdEncryptDict) (ekey upass opass : Bytes) : Type 0 where
    pub user_salt : Bytes
    pub user_key_salt : Bytes
    pub owner_salt : Bytes
    pub owner_key_salt : Bytes
    pub rest : Bytes
    pub length_user_salt : length user_salt ≡ 8
    pub length_user_key_salt : length user_key_salt ≡ 8
    pub length_owner_salt : length owner_salt ≡ 8
    pub length_owner_key_salt : length owner_key_salt ≡ 8
    pub length_rest : length rest ≡ 4
    pub u_made :
        d.u ≡ hash_of prim sound d.r (upass ++ user_salt) upass [] ++ user_salt ++ user_key_salt
    pub ue_made :
        d.ue
        ≡ prim.cbc_encrypt (hash_of prim sound d.r (upass ++ user_key_salt) upass []) no_vector ekey
    pub o_made :
        d.o ≡ salted prim sound d.r opass owner_salt (take 48 d.u) ++ owner_salt ++ owner_key_salt
    pub oe_made : d.oe ≡ sealed prim sound d.r opass owner_key_salt (take 48 d.u) ekey
    pub perms_made : (d.r == 5) ≡ false → d.perms ≡ prim.block_encrypt ekey (plain_perms d rest)

  file_key-ok :
      (d : StdEncryptDict) (pass text encrypted ukey ekey : Bytes) (perm : ℕ)
      → length pass ≤ 127
      → length ukey ≤ 48
      → length ekey ≡ 32
      → encrypted ≡ prim.cbc_encrypt (hash_of prim sound d.r text pass ukey) no_vector ekey
      → (if d.r == 5 then ok tt else alg13 prim d ekey) ≡ ok tt
      → file_key prim d pass text encrypted ukey perm ≡ ok (some ekey, perm)
  unfolding file_key
  file_key-ok d pass text encrypted ukey ekey perm p q e made passes =
      let h = hash_of prim sound d.r text pass ukey in
      let l : length encrypted ≡ 32 = ap length made ∙ sound.cbc_length h no_vector ekey ∙ e in
      rw
        (
          check_at_least-ok 32 encrypted (omega (arith, l)),
          alg2b-hash_of prim sound d.r text pass ukey p q,
          prefix-hash_of prim sound d.r text pass ukey p q,
          take_all 32 encrypted (omega (arith, l)),
          made,
          sound.cbc_inverse h no_vector ekey (omega (arith, e)),
          passes,
        )
        refl

  alg13-ok :
      (d : StdEncryptDict) (ekey rest : Bytes)
      → length ekey ≡ 32
      → length rest ≡ 4
      → d.p < 2 ^ 32
      → d.perms ≡ prim.block_encrypt ekey (plain_perms d rest)
      → alg13 prim d ekey ≡ ok tt
  unfolding alg13
  alg13-ok d ekey rest e r p made =
      let k = length-plain_perms d rest r in
      let l : length d.perms ≡ 16 =
        ap length made ∙ sound.block_length ekey (plain_perms d rest) k in
      rw
        (
          check_at_least-ok 32 ekey (omega (arith, e)),
          check_at_least-ok 16 d.perms (omega (arith, l)),
          take_all 32 ekey (omega (arith, e)),
          take_all 16 d.perms (omega (arith, l)),
          crypt_blocks-one (prim.block_decrypt ekey) d.perms l
              ∙ ap (λ bs. ok (prim.block_decrypt ekey bs)) made
              ∙ ap ok (sound.block_inverse ekey (plain_perms d rest) k),
        )
        (check_perms-plain_perms d rest p)

  module _ (d : StdEncryptDict) (ekey upass opass : Bytes) (made : IsMade d ekey upass opass) where
    passes :
        length ekey ≡ 32 → d.p < 2 ^ 32 → (if d.r == 5 then ok tt else alg13 prim d ekey) ≡ ok tt
    passes e p = split (d.r == 5) refl
      where
        split :
            (b : Bool) → (d.r == 5) ≡ b → (if d.r == 5 then ok tt else alg13 prim d ekey) ≡ ok tt
        split true h = rw h refl
        split false h = rw h (alg13-ok d ekey made.rest e made.length_rest p (made.perms_made h))

    module _ (p : length upass ≤ 127) where
      hash_length : length (hash_of prim sound d.r (upass ++ made.user_salt) upass []) ≡ 32
      hash_length = length-hash_of prim sound d.r (upass ++ made.user_salt) upass [] p (omega arith)

      pub length-u : length d.u ≡ 48
      length-u =
          ap length made.u_made
          ∙ entry_length _ made.user_salt made.user_key_salt hash_length made.length_user_salt
              made.length_user_key_salt

      alg11-accepts :
          alg11 prim d upass ≡ ok (some (hash_of prim sound d.r (upass ++ made.user_salt) upass []))
      unfolding alg11
      alg11-accepts =
          let vs = made.user_salt in
          let ks = made.user_key_salt in
          let h = hash_of prim sound d.r (upass ++ vs) upass [] in
          rw
            (
              check_at_least-ok 48 d.u (omega (arith, length-u)),
              ap (slice 32 40) made.u_made
                  ∙ entry_validation_salt h vs ks hash_length made.length_user_salt
                      made.length_user_key_salt,
              alg2b-hash_of prim sound d.r (upass ++ vs) upass [] p (omega arith),
              prefix-hash_of prim sound d.r (upass ++ vs) upass [] p (omega arith),
              ap (take 32) made.u_made
                  ∙ entry_hash h vs ks hash_length made.length_user_salt made.length_user_key_salt,
              bytes_eq_self h,
            )
            refl

      pub as_user-ok : length ekey ≡ 32 → d.p < 2 ^ 32 → as_user prim d upass ≡ ok (some ekey, d.p)
      unfolding as_user
      as_user-ok e q =
          let vs = made.user_salt in
          let ks = made.user_key_salt in
          let h = hash_of prim sound d.r (upass ++ vs) upass [] in
          rw
            (
              alg11-accepts,
              ap (slice 40 48) made.u_made
                  ∙ entry_key_salt h vs ks hash_length made.length_user_salt
                      made.length_user_key_salt,
            )
            (file_key-ok d upass (upass ++ ks) d.ue [] ekey d.p p (omega arith) e made.ue_made
              (passes e q))

      module _ (q : length opass ≤ 127) where
        user_key_short : length (take 48 d.u) ≤ 48
        user_key_short = omega (arith, length-take 48 d.u)

        owner_hash_length : length (salted prim sound d.r opass made.owner_salt (take 48 d.u)) ≡ 32
        owner_hash_length =
            length-hash_of prim sound d.r (opass ++ made.owner_salt ++ take 48 d.u) opass
              (take 48 d.u) q user_key_short

        pub length-o : length d.o ≡ 48
        length-o =
            ap length made.o_made
            ∙ entry_length _ made.owner_salt made.owner_key_salt owner_hash_length
                made.length_owner_salt made.length_owner_key_salt

        alg12-accepts :
            alg12 prim d opass
            ≡ ok (some (salted prim sound d.r opass made.owner_salt (take 48 d.u)))
        unfolding alg12
        alg12-accepts =
            let vs = made.owner_salt in
            let ks = made.owner_key_salt in
            let uk = take 48 d.u in
            let h = salted prim sound d.r opass vs uk in
            rw
              (
                check_at_least-ok 48 d.u (omega (arith, length-u)),
                check_at_least-ok 48 d.o (omega (arith, length-o)),
                ap (slice 32 40) made.o_made
                    ∙ entry_validation_salt h vs ks owner_hash_length made.length_owner_salt
                        made.length_owner_key_salt,
                alg2b-hash_of prim sound d.r (opass ++ vs ++ uk) opass uk q user_key_short,
                prefix-hash_of prim sound d.r (opass ++ vs ++ uk) opass uk q user_key_short,
                ap (take 32) made.o_made
                    ∙ entry_hash h vs ks owner_hash_length made.length_owner_salt
                        made.length_owner_key_salt,
                bytes_eq_self h,
              )
              refl

        as_owner-ok :
            length ekey ≡ 32 → d.p < 2 ^ 32 → as_owner prim d opass ≡ ok (some ekey, perm_owner)
        unfolding as_owner
        as_owner-ok e r =
            let vs = made.owner_salt in
            let ks = made.owner_key_salt in
            let uk = take 48 d.u in
            let h = salted prim sound d.r opass vs uk in
            rw
              (ap (slice 40 48) made.o_made
                ∙ entry_key_salt h vs ks owner_hash_length made.length_owner_salt
                    made.length_owner_key_salt)
              (file_key-ok d opass (opass ++ ks ++ uk) d.oe uk ekey perm_owner q user_key_short e
                made.oe_made (passes e r))

        pub alg2a-owner :
            (password : Bytes)
            → truncated password ≡ opass
            → length ekey ≡ 32
            → d.p < 2 ^ 32
            → alg2a prim d password ≡ ok (some ekey, perm_owner)
        unfolding alg2a
        alg2a-owner password t e r =
            rw
              (
                check_at_least-ok 48 d.o (omega (arith, length-o)),
                check_at_least-ok 48 d.u (omega (arith, length-u)),
                t,
                alg12-accepts,
              )
              (as_owner-ok e r)
