-- ===== src/Security/HandlerR4/Authentication.antt =====
-- `GenerateParams` and `Authenticate` of `pdf/core/security/standard_r4.go`.
use unidoc.Prelude.{
  ℕ, zero, suc, ◌-◌, ◌/◌, ◌≤◌, ◌≡◌, refl, ap, sym, ◌∙◌, true, false, ◌++◌, some, length,
  length-take, length-append, take, drop, take_all, append-nil, take_front, leb, ◌==◌, arith,
}
use unidoc.Core.Decoding.{Bytes}
use unidoc.Core.Dictionary.Validity.{bytes_eq_self}
use unidoc.Security.Result.{Result, ok, err, panic, prefix-ok, read_random-ok}
use unidoc.Security.Primitives.{Primitives, IsSound, rc4_crypt-ok}
use unidoc.Security.Dict.{StdEncryptDict, perm_owner}
use unidoc.Security.HandlerR4.{
  StdHandlerR4, padding, padded_pass, md5_rounds, hash_rounds, alg2_data, alg2, alg3_key, alg3,
  alg5, generated_u, alg6, down_rounds, decrypted_o, alg7, generate_params, authenticate, owner_of,
}
use unidoc.Security.HandlerR4.Rounds.{raised, length-raised, up_rounds-raised, down_rounds-all}

length-padded_pass : (pass : Bytes) → length (padded_pass pass) ≡ 32
unfolding padded_pass
length-padded_pass pass =
    length-append (take 32 pass) (take (32 - length pass) padding)
    ∙ omega (arith, length-take 32 pass, length-take (32 - length pass) padding)

-- The padding of a password can be padded again.
padded_pass-padded_pass : (pass : Bytes) → padded_pass (padded_pass pass) ≡ padded_pass pass
padded_pass-padded_pass pass = whole (padded_pass pass) (length-padded_pass pass)
  where
    whole : (q : Bytes) → length q ≡ 32 → padded_pass q ≡ q
    whole q e = unfold padded_pass in rw (e, take_all 32 q (omega arith), append-nil q) refl

at_least : (r : ℕ) → 3 ≤ r → leb 3 r ≡ true
at_least r h = ground arith

not_two : (r : ℕ) → 3 ≤ r → (r == 2) ≡ false
not_two r h = ground arith

-- What the handler promises for a dictionary and a key: the owner's password gives the key and all
-- permissions, and the user's password is found to be right and gives the same key.
abbrev pub Authenticates :
    Primitives
    → StdHandlerR4
    → Bytes
    → Bytes
    → Bytes
    → Result (StdEncryptDict × Bytes × Bytes)
    → Type 0
Authenticates prim sh owner upass random (ok (d, ekey, left)) =
    (authenticate prim sh d owner random ≡ ok (some ekey, perm_owner, drop 16 random))
    × (alg6 prim sh d upass random ≡ ok (some ekey, drop 16 random))
Authenticates prim sh owner upass random (err e) = ⊥
Authenticates prim sh owner upass random panic = ⊥

module _ (prim : Primitives) (sound : IsSound prim) (sh : StdHandlerR4) (l : 8 ≤ sh.key_length)
    (u : sh.key_length / 8 ≤ 16) where
  -- The hash behind the rounds of `alg2`.
  unfoldable pub rehashed : ℕ → Bytes → Bytes
  rehashed zero hashb = hashb
  rehashed (suc n) hashb = rehashed n (prim.md5 (take (sh.key_length / 8) hashb))

  length-rehashed : (n : ℕ) (hashb : Bytes) → length hashb ≡ 16 → length (rehashed n hashb) ≡ 16
  unfolding rehashed
  length-rehashed zero hashb e = e
  length-rehashed (suc n) hashb e = length-rehashed n _ (sound.md5_length _)

  hash_rounds-rehashed :
      (n : ℕ) (hashb : Bytes)
      → length hashb ≡ 16
      → hash_rounds prim sh n hashb ≡ ok (rehashed n hashb)
  unfolding hash_rounds rehashed
  hash_rounds-rehashed zero hashb e = refl
  hash_rounds-rehashed (suc n) hashb e =
      rw (prefix-ok (sh.key_length / 8) hashb (omega (arith, e, u)))
        (hash_rounds-rehashed n _ (sound.md5_length _))

  -- The key of the document, and that of the owner.
  unfoldable pub file_key : StdEncryptDict → Bytes → Bytes
  file_key d pass = take (sh.key_length / 8) (rehashed 50 (prim.md5 (alg2_data prim sh d pass)))

  unfoldable pub owner_key : Bytes → Bytes
  owner_key pass = take (sh.key_length / 8) (prim.md5 (md5_rounds prim sh 50 (padded_pass pass)))

  alg2-file_key :
      (d : StdEncryptDict) (pass : Bytes) → 3 ≤ d.r → alg2 prim sh d pass ≡ ok (file_key d pass)
  unfolding alg2 file_key
  alg2-file_key d pass h =
      rw
        (
          at_least d.r h,
          hash_rounds-rehashed 50 (prim.md5 (alg2_data prim sh d pass)) (sound.md5_length _),
        )
        (prefix-ok (sh.key_length / 8) _ (
          omega (
            arith,
            length-rehashed 50 (prim.md5 (alg2_data prim sh d pass)) (sound.md5_length _),
            u,
          )))

  alg3_key-owner_key :
      (r : ℕ) (pass : Bytes) → 3 ≤ r → alg3_key prim sh r pass ≡ ok (owner_key pass)
  unfolding alg3_key owner_key
  alg3_key-owner_key r pass h =
      rw (not_two r h, at_least r h)
        (prefix-ok (sh.key_length / 8) _
          (omega (arith, sound.md5_length (md5_rounds prim sh 50 (padded_pass pass)), u)))

  length-owner_key : (pass : Bytes) → length (owner_key pass) ≡ sh.key_length / 8
  unfolding owner_key
  length-owner_key pass =
      length-take (sh.key_length / 8) _
      ∙ omega (arith, sound.md5_length (md5_rounds prim sh 50 (padded_pass pass)), u)

  pub length-file_key :
      (d : StdEncryptDict) (pass : Bytes) → length (file_key d pass) ≡ sh.key_length / 8
  unfolding file_key
  length-file_key d pass =
      length-take (sh.key_length / 8) _
      ∙ omega
          (arith, length-rehashed 50 (prim.md5 (alg2_data prim sh d pass)) (sound.md5_length _), u)

  -- The entries `O` and `U`.
  unfoldable pub o_of : Bytes → Bytes → Bytes
  o_of owner upass =
      raised prim sound sh 19 0 (owner_key owner) (prim.rc4 (owner_key owner) (padded_pass upass))

  unfoldable pub u_of : Bytes → Bytes
  u_of ekey = raised prim sound sh 19 0 ekey (prim.rc4 ekey (prim.md5 (padding ++ sh.id0)))

  alg3-o_of :
      (r : ℕ) (upass opass : Bytes)
      → 3 ≤ r
      → alg3 prim sh r upass opass ≡ ok (o_of (owner_of opass upass) upass)
  unfolding alg3 o_of
  alg3-o_of r upass opass h =
      let owner = owner_of opass upass in
      let k = length-owner_key owner in
      rw
        (
          alg3_key-owner_key r owner h,
          rc4_crypt-ok prim (owner_key owner) (padded_pass upass) (omega (arith, k, l))
              (omega (arith, k, u)),
          at_least r h,
        )
        (up_rounds-raised prim sound sh (owner_key owner) (omega (arith, k, l))
          (omega (arith, k, u)) 19 0 _)

  pub length-o_of : (owner upass : Bytes) → length (o_of owner upass) ≡ 32
  unfolding o_of
  length-o_of owner upass =
      length-raised prim sound sh 19 0 (owner_key owner) _
      ∙ sound.rc4_length _ _
      ∙ length-padded_pass upass

  pub length-u_of : (ekey : Bytes) → length (u_of ekey) ≡ 16
  unfolding u_of
  length-u_of ekey =
      length-raised prim sound sh 19 0 ekey _ ∙ sound.rc4_length ekey _ ∙ sound.md5_length _

  alg5-u_of :
      (ekey upass random : Bytes)
      → length ekey ≡ sh.key_length / 8
      → 16 ≤ length random
      → alg5 prim sh ekey upass random ≡ ok (u_of ekey ++ take 16 random, drop 16 random)
  unfolding alg5 u_of
  alg5-u_of ekey upass random k r =
      let hash = prim.md5 (padding ++ sh.id0) in
      rw
        (
          sound.md5_length (padding ++ sh.id0),
          rc4_crypt-ok prim ekey hash (omega (arith, k, l)) (omega (arith, k, u)),
          up_rounds-raised prim sound sh ekey (omega (arith, k, l)) (omega (arith, k, u)) 19 0
              (prim.rc4 ekey hash),
          read_random-ok 16 random r,
          take_all 16 (raised prim sound sh 19 0 ekey (prim.rc4 ekey hash)) (
              omega (
                arith,
                length-raised prim sound sh 19 0 ekey (prim.rc4 ekey hash),
                sound.rc4_length ekey hash,
                sound.md5_length (padding ++ sh.id0),
              )),
        )
        refl

  -- The dictionary that `GenerateParams` makes, and its key.
  unfoldable pub generated : StdEncryptDict → Bytes → Bytes → Bytes → StdEncryptDict
  generated d opass upass random =
      let d' = record d { o = o_of (owner_of opass upass) upass } in
      record d' { u = u_of (file_key d' upass) ++ take 16 random }

  -- The entry `U` is no part of the key.
  same_key :
      (d : StdEncryptDict) (bs pass : Bytes) → file_key d pass ≡ file_key (record d { u = bs }) pass
  unfolding file_key alg2_data
  same_key d bs pass = refl

  pub generate_params-generated :
      (d : StdEncryptDict) (opass upass random : Bytes)
      → 3 ≤ d.r
      → 16 ≤ length random
      → generate_params prim sh d opass upass random
        ≡ ok (
          generated d opass upass random,
          file_key (generated d opass upass random) upass,
          drop 16 random,
        )
  unfolding generate_params generated
  generate_params-generated d opass upass random h r =
      let d' = record d { o = o_of (owner_of opass upass) upass } in
      rw
        (
          alg3-o_of d.r upass opass h,
          alg2-file_key d' upass h,
          alg5-u_of (file_key d' upass) upass random (length-file_key d' upass) r,
        )
        (ap
          (λ k.
            ok (record d' { u = u_of (file_key d' upass) ++ take 16 random }, k, drop 16 random))
          (same_key d' _ upass))

  -- A dictionary in which the key of the password is checked.
  alg6-user :
      (d : StdEncryptDict) (pass rest random : Bytes)
      → 3 ≤ d.r
      → d.u ≡ u_of (file_key d pass) ++ rest
      → 16 ≤ length random
      → alg6 prim sh d pass random ≡ ok (some (file_key d pass), drop 16 random)
  unfolding alg6 generated_u
  alg6-user d pass rest random h e r =
      let key = file_key d pass in
      let m = ap (take 16) e ∙ take_front 16 (u_of key) rest (length-u_of key) in
      rw
        (
          alg2-file_key d pass h,
          not_two d.r h,
          at_least d.r h,
          alg5-u_of (file_key d pass) pass random (length-file_key d pass) r,
          take_front 16 (u_of key) (take 16 random) (length-u_of key),
          m,
          bytes_eq_self (u_of (file_key d pass)),
        )
        refl

  file_key-padded_pass :
      (d : StdEncryptDict) (pass : Bytes) → file_key d (padded_pass pass) ≡ file_key d pass
  unfolding file_key alg2_data
  file_key-padded_pass d pass = rw (padded_pass-padded_pass pass) refl

  decrypted_o-owner :
      (d : StdEncryptDict) (owner pass : Bytes)
      → 3 ≤ d.r
      → d.o ≡ o_of owner pass
      → decrypted_o prim sh d (owner_key owner) ≡ ok (padded_pass pass)
  unfolding decrypted_o o_of
  decrypted_o-owner d owner pass h e =
      let k = length-owner_key owner in
      rw (not_two d.r h, at_least d.r h)
        (ap (down_rounds prim sh 20 (owner_key owner)) e
          ∙ down_rounds-all prim sound sh (owner_key owner) (omega (arith, k, l))
              (omega (arith, k, u)) (padded_pass pass))

  -- The owner's password leads to the user's.
  pub authenticate-owner :
      (d : StdEncryptDict) (owner pass rest random : Bytes)
      → 3 ≤ d.r
      → d.o ≡ o_of owner pass
      → d.u ≡ u_of (file_key d pass) ++ rest
      → 16 ≤ length random
      → authenticate prim sh d owner random
        ≡ ok (some (file_key d pass), perm_owner, drop 16 random)
  unfolding authenticate alg7
  authenticate-owner d owner pass rest random h e f r =
      let k = file_key-padded_pass d pass in
      let f' = f ∙ ap (λ x. u_of x ++ rest) (sym k) in
      rw
        (
          alg3_key-owner_key d.r owner h,
          decrypted_o-owner d owner pass h e,
          alg6-user d (padded_pass pass) rest random h f' r,
          k,
        )
        refl

  module _ (d : StdEncryptDict) (opass upass random : Bytes) where
    pub generated-o : (generated d opass upass random).o ≡ o_of (owner_of opass upass) upass
    unfolding generated
    generated-o = refl

    pub generated-u :
        (generated d opass upass random).u
        ≡ u_of (file_key (generated d opass upass random) upass) ++ take 16 random
    unfolding generated
    generated-u =
        let d' = record d { o = o_of (owner_of opass upass) upass } in
        ap (λ k. u_of k ++ take 16 random)
          (same_key d' (u_of (file_key d' upass) ++ take 16 random) upass)

    generated-r : 3 ≤ d.r → 3 ≤ (generated d opass upass random).r
    unfolding generated
    generated-r h = h

  -- For revision 3 or more and a key length from 8 to 135 bits, and if the random source gives 16 bytes
  -- each time, GenerateParams makes a dictionary and a key such that Authenticate gives this key with
  -- all permissions for the owner's password, which is the user's if it is empty, and that alg6 gives
  -- it for the user's password. The hashes have their lengths, and RC4 with the same key undoes itself.
  pub generate_params-Authenticates :
      (d : StdEncryptDict) (opass upass random random' : Bytes)
      → 3 ≤ d.r
      → 16 ≤ length random
      → 16 ≤ length random'
      → Authenticates prim sh
          (owner_of opass upass)
          upass
          random'
          (generate_params prim sh d opass upass random)
  generate_params-Authenticates d opass upass random random' h r q =
      let owner = owner_of opass upass in
      let made = generated d opass upass random in
      rw (generate_params-generated d opass upass random h r) (
        authenticate-owner made owner upass (take 16 random) random'
            (generated-r d opass upass random h) (generated-o d opass upass random)
            (generated-u d opass upass random) q,
        alg6-user made upass (take 16 random) random' (generated-r d opass upass random h)
            (generated-u d opass upass random) q,
      )
