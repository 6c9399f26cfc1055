-- ===== src/Security/HandlerR6/Roundtrip.antt =====
-- `GenerateParams` followed by `Authenticate` of `pdf/core/security/standard_r6.go`.
use unidoc.Prelude.{
  ℕ, ◌^◌, ◌<◌, ◌≤◌, ◌≡◌, refl, ap, ◌∙◌, Bool, true, false, [], some, length, length-take,
  length-drop, take, drop, ◌==◌, if◌then◌else◌, arith,
}
use unidoc.Core.Decoding.{Bytes}
use unidoc.Security.Result.{Result, ok, err, panic, ◌>>=◌, read_random-ok}
use unidoc.Security.Primitives.{Primitives, IsSound}
use unidoc.Security.Dict.{StdEncryptDict, perm_owner}
use unidoc.Security.HandlerR6.{
  truncated, plain_perms, alg10, as_user, authenticate, generate_params,
}
use unidoc.Security.HandlerR6.Keys.{length-truncated, length-hash_of, entry_length}
use unidoc.Security.HandlerR6.Generation.{
  val_salt, key_salt, length-val_salt, length-key_salt, with_user, with_owner, with_perms,
  alg8-with_user, alg9-with_owner, alg10-with_perms,
}
use unidoc.Security.HandlerR6.Authentication.{IsMade, alg2a-owner, as_user-ok}

-- What the handler promises for a dictionary and a key of 32 bytes: the owner's password gives the key
-- and all permissions; a user's password that is not the owner's gives the key and the permissions of
-- the dictionary.
abbrev pub Authenticates :
    Primitives → Bytes → Bytes → ℕ → Result (StdEncryptDict × Bytes × Bytes) → Type 0
Authenticates prim opass upass p (ok (d, ekey, s)) =
    (authenticate prim d opass ≡ ok (some ekey, perm_owner))
    × (as_user prim d (truncated upass) ≡ ok (some ekey, p))
Authenticates prim opass upass p (err e) = ⊥
Authenticates prim opass upass p panic = ⊥

module _ (prim : Primitives) (sound : IsSound prim) where
  module _ (d : StdEncryptDict) (opass upass random : Bytes) (h : 68 ≤ length random) where
    abbrev pub drawn_key : Bytes
    drawn_key = take 32 random

    abbrev left : Bytes
    left = drop 32 random

    abbrev pub last_left : Bytes
    last_left = drop 16 (drop 16 left)

    abbrev emptied : StdEncryptDict
    emptied = record d { u = []; o = []; ue = []; oe = []; perms = [] }

    abbrev user_made : StdEncryptDict
    user_made = with_user prim sound emptied drawn_key (truncated upass) left

    abbrev owner_made : StdEncryptDict
    owner_made = with_owner prim sound user_made drawn_key (truncated opass) (drop 16 left)

    pub length-drawn_key : length drawn_key ≡ 32
    length-drawn_key = length-take 32 random ∙ omega (arith, h)

    length-left : 36 ≤ length left
    length-left = omega (arith, length-drop 32 random, h)

    length-left16 : 20 ≤ length (drop 16 left)
    length-left16 = omega (arith, length-drop 16 left, length-left)

    pub length-left32 : 4 ≤ length last_left
    length-left32 = omega (arith, length-drop 16 (drop 16 left), length-left16)

    length-user_made : length user_made.u ≡ 48
    length-user_made =
        entry_length _ (val_salt left) (key_salt left)
          (length-hash_of prim sound d.r _ (truncated upass) [] (length-truncated upass)
            (omega arith))
          (length-val_salt left (omega (arith, length-left)))
          (length-key_salt left (omega (arith, length-left)))

    -- The dictionary with its permissions.
    owner_made-IsMade :
        (ps : Bytes)
        → ((d.r == 5) ≡ false
            → ps ≡ prim.block_encrypt drawn_key (plain_perms owner_made (take 4 last_left)))
        → IsMade prim sound
            (record owner_made { perms = ps })
            drawn_key
            (truncated upass)
            (truncated opass)
    unfolding plain_perms
    owner_made-IsMade ps e = record {
      user_salt = val_salt left;
      user_key_salt = key_salt left;
      owner_salt = val_salt (drop 16 left);
      owner_key_salt = key_salt (drop 16 left);
      rest = take 4 last_left;
      length_user_salt = length-val_salt left (omega (arith, length-left));
      length_user_key_salt = length-key_salt left (omega (arith, length-left));
      length_owner_salt = length-val_salt (drop 16 left) (omega (arith, length-left16));
      length_owner_key_salt = length-key_salt (drop 16 left) (omega (arith, length-left16));
      length_rest = length-take 4 last_left ∙ omega (arith, length-left32);
      u_made = refl;
      ue_made = refl;
      o_made = refl;
      oe_made = refl;
      perms_made = e;
    }

    generate_params-steps : generate_params prim d opass upass random ≡ (
        (if d.r == 5 then ok (owner_made, last_left) else alg10 prim owner_made drawn_key last_left)
        >>= λ (made, s). ok (made, drawn_key, s))
    unfolding generate_params
    generate_params-steps =
        rw
          (
            read_random-ok 32 random (omega (arith, h)),
            alg8-with_user prim sound emptied drawn_key (truncated upass) left length-drawn_key
                (length-truncated upass) (omega (arith, length-left)),
            alg9-with_owner prim sound user_made drawn_key (truncated opass) (drop 16 left)
                length-drawn_key (length-truncated opass) (omega (arith, length-user_made))
                (omega (arith, length-left16)),
          )
          refl

  -- The dictionary and the key for revision 6.
  module _ (d : StdEncryptDict) (opass upass random : Bytes) (h : 68 ≤ length random) where
    abbrev pub full_dict : StdEncryptDict
    full_dict =
        with_perms prim sound (owner_made d opass upass random h) (drawn_key d opass upass random h)
          (last_left d opass upass random h)

    pub generate_params-full_dict :
        (d.r == 5) ≡ false
        → generate_params prim d opass upass random
          ≡ ok (
            full_dict,
            drawn_key d opass upass random h,
            drop 4 (last_left d opass upass random h),
          )
    generate_params-full_dict e =
        rw
          (
            generate_params-steps d opass upass random h,
            e,
            alg10-with_perms prim sound (owner_made d opass upass random h)
                (drawn_key d opass upass random h) (last_left d opass upass random h)
                (length-drawn_key d opass upass random h) (length-left32 d opass upass random h),
          )
          refl

    pub full_dict-IsMade :
        IsMade prim sound full_dict
          (drawn_key d opass upass random h)
          (truncated upass)
          (truncated opass)
    full_dict-IsMade = owner_made-IsMade d opass upass random h _ (λ f. refl)

  -- If the random source gives 68 bytes and the permissions have 32 bits, GenerateParams for revision 5
  -- or 6 makes a dictionary and a key such that Authenticate gives this key with all permissions for the
  -- owner's password, and that the part of alg2a for a user gives it with the permissions of the
  -- dictionary for the user's password, each cut to 127 bytes. The hashes have their lengths, and
  -- decryption undoes encryption.
  pub generate_params-Authenticates6 :
      (d : StdEncryptDict) (opass upass random : Bytes)
      → d.p < 2 ^ 32
      → 68 ≤ length random
      → Authenticates prim opass upass d.p (generate_params prim d opass upass random)
  generate_params-Authenticates6 d opass upass random p h = split (d.r == 5) refl
    where
      made-Authenticates :
          (made : StdEncryptDict) (s : Bytes)
          → IsMade prim sound made
              (drawn_key d opass upass random h)
              (truncated upass)
              (truncated opass)
          → made.p ≡ d.p
          → Authenticates prim opass upass d.p (ok (made, drawn_key d opass upass random h, s))
      made-Authenticates made s is q =
          let k = length-drawn_key d opass upass random h in
          let b : made.p < 2 ^ 32 = omega (arith, p, q) in
          (
            alg2a-owner prim sound made _ _ _ is (length-truncated upass) (length-truncated opass)
                opass refl k b,
            as_user-ok prim sound made _ _ _ is (length-truncated upass) k b
                ∙ ap (λ x. ok (some (drawn_key d opass upass random h), x)) q,
          )

      split :
          (b : Bool)
          → (d.r == 5) ≡ b
          → Authenticates prim opass upass d.p (generate_params prim d opass upass random)
      split true e =
          rw (generate_params-steps d opass upass random h, e)
            (made-Authenticates (owner_made d opass upass random h)
              (last_left d opass upass random h)
              (owner_made-IsMade d opass upass random h [] (λ f. cc)) refl)
      split false e = rw (generate_params-full_dict d opass upass random h e) (
          made-Authenticates (full_dict d opass upass random h)
            (drop 4 (last_left d opass upass random h)) (full_dict-IsMade d opass upass random h)
            refl)
