-- ===== src/Security/Document/Opening.antt =====
-- A document that `PdfCryptNewEncrypt` of `pdf/core/crypt.go` has prepared is opened with the password of its
-- owner.
use unidoc.Prelude.{
  ℕ, ◌/◌, ◌^◌, ◌<◌, ◌≤◌, ◌≡◌, refl, ap, sym, subst, ◌∙◌, Bool, true, false, [], some, length, take,
  drop, ◌==◌, if◌then◌else◌, leb, arith,
}
use unidoc.Prelude.Int.{ℤ}
use unidoc.Core.Decoding.{Bytes}
use unidoc.Core.Object.{PdfObject, Entries, set_entry}
use unidoc.Security.Result.{Result, ok, err, panic, ◌>>=◌}
use unidoc.Security.Primitives.{Primitives, IsSound}
use unidoc.Security.Dict.{StdEncryptDict, perm_owner}
use unidoc.Security.HandlerR4.{StdHandlerR4, owner_of}
use unidoc.Security.HandlerR4
use unidoc.Security.HandlerR4.Authentication
use unidoc.Security.HandlerR6.{truncated, plain_perms}
use unidoc.Security.HandlerR6.Keys.{length-truncated}
use unidoc.Security.HandlerR6.Generation.{length-plain_perms}
use unidoc.Security.HandlerR6.Authentication.{alg2a-owner, length-o, length-u}
use unidoc.Security.HandlerR6.Roundtrip.{
  full_dict, full_dict-IsMade, generate_params-full_dict, drawn_key, length-drawn_key,
}
use unidoc.Security.CryptFilter.{
  Filter, identity, v2, aesv2, aesv3, handler_version, filter_key_length,
}
use unidoc.Security.Lookup.{std_crypt_filter, string_filter_of}
use unidoc.Security.EncryptDict.{encode_encrypt_std, decode_encrypt_std, new_encrypt_dict}
use unidoc.Security.EncryptDict.Roundtrip.{legacy, full}
use unidoc.Security.Document.{
  DocumentCrypt, trailer_id, new_decrypt, generate, authenticate, new_encrypt,
}
use unidoc.Security.Document.Roundtrip.{read_aesv2, read_aesv3, read_v2}

-- The filters of documents that can be read again.
abbrev pub IsWritable : Filter → Type 0
IsWritable identity = ⊥
IsWritable (v2 n) = n ≡ 16
IsWritable aesv2 = Unit {0}
IsWritable aesv3 = Unit {0}

-- The password of the owner, which the older handler takes from the user if there is none.
abbrev pub owner_password : Filter → Bytes → Bytes → Bytes
owner_password aesv3 opass upass = opass
owner_password _ opass upass = owner_of opass upass

-- The document is opened with the key and the filter with which it was written.
abbrev pub Opened : Filter → DocumentCrypt → Result (Bool × DocumentCrypt) → Type 0
Opened cf c (ok (granted, c')) =
    (granted ≡ true)
    × (c'.crypt.encryption_key ≡ c.crypt.encryption_key)
    × (c'.crypt.crypt_filters (string_filter_of c'.crypt) ≡ some cf)
    × (c'.crypt.crypt_filters
          (if leb 4 c'.crypt.v then c'.crypt.stream_filter else std_crypt_filter)
        ≡ some cf)
Opened cf c (err e) = ⊥
Opened cf c panic = ⊥

-- The length of the keys of the older handler, in bits.
long_enough : 8 ≤ 128
long_enough = omega arith

short_enough : 128 / 8 ≤ 16
short_enough = omega arith

module _ (prim : Primitives) {F : Type 0} (resolve : ℤ → ℤ → Result (PdfObject F)) where
  abbrev pub Opens :
      Filter → Entries F → Bytes → Bytes → Result (DocumentCrypt × Entries F × Bytes) → Type 0
  Opens cf trailer password random (ok (c, ed, left)) =
      Opened cf c (new_decrypt resolve ed trailer >>= λ c'. authenticate prim c' password random)
  Opens cf trailer password random (err e) = ⊥
  Opens cf trailer password random panic = ⊥

  module _ (sound : IsSound prim) (perm : ℕ) (p : perm < 2 ^ 32)
      (id0 opass upass random random' : Bytes) (trailer : Entries F)
      (t : trailer_id resolve trailer ≡ ok id0) where
    abbrev std_of : ℕ → StdEncryptDict
    std_of r = record {
      r = r;
      p = perm;
      encrypt_metadata = true;
      o = [];
      u = [];
      oe = [];
      ue = [];
      perms = [];
    }

    module _ (h : 68 ≤ length random) where
      abbrev made6 : StdEncryptDict
      made6 = full_dict prim sound (std_of 6) opass upass random h

      decode-made6 :
          decode_encrypt_std (encode_encrypt_std made6 (new_encrypt_dict {F = F} 5 256)) ≡ ok made6
      decode-made6 =
          let is = full_dict-IsMade prim sound (std_of 6) opass upass random h in
          let key = drawn_key prim sound (std_of 6) opass upass random h in
          let k = length-drawn_key prim sound (std_of 6) opass upass random h in
          let lo =
            length-o prim sound made6 key (truncated upass) (truncated opass) is
              (length-truncated upass) (length-truncated opass) in
          let lu =
            length-u prim sound made6 key (truncated upass) (truncated opass) is
              (length-truncated upass) in
          full made6 (new_encrypt_dict 5 256) refl p (omega (arith, lo)) (omega (arith, lu))
            (sound.cbc_length _ _ _ ∙ k) (sound.cbc_length _ _ _ ∙ k)
            (ap length (is.perms_made refl)
              ∙ sound.block_length key (plain_perms made6 is.rest)
                  (length-plain_perms made6 is.rest is.length_rest))

      aesv3_roundtrip :
          Opens aesv3 trailer opass random' (new_encrypt prim aesv3 upass opass perm id0 random)
      unfolding new_encrypt generate handler_version filter_key_length authenticate
      aesv3_roundtrip =
          let is = full_dict-IsMade prim sound (std_of 6) opass upass random h in
          let key = drawn_key prim sound (std_of 6) opass upass random h in
          let k = length-drawn_key prim sound (std_of 6) opass upass random h in
          let some_key : (length key == 0) ≡ false = ground (arith, k) in
          rw
            (
              generate_params-full_dict prim sound (std_of 6) opass upass random h refl,
              read_aesv3 resolve made6 made6 id0 trailer t decode-made6,
              alg2a-owner prim sound made6 key (truncated upass) (truncated opass) is
                  (length-truncated upass) (length-truncated opass) opass refl k p,
              some_key,
            )
            (refl, refl, refl, refl)

    module _ (h : 16 ≤ length random) (q : 16 ≤ length random') where
      abbrev handler : StdHandlerR4
      handler = record { key_length = 128; id0 = id0 }

      abbrev made4 : ℕ → StdEncryptDict
      made4 r =
          Authentication.generated prim sound handler long_enough short_enough (std_of r) opass
            upass random

      abbrev key4 : ℕ → Bytes
      key4 r = Authentication.file_key prim sound handler long_enough short_enough (made4 r) upass

      decode-made4 :
          (r v : ℕ)
          → 2 ≤ r
          → r ≤ 4
          → decode_encrypt_std (encode_encrypt_std (made4 r) (new_encrypt_dict {F = F} v 128))
            ≡ ok (made4 r)
      unfolding Authentication.generated new_encrypt_dict set_entry
      decode-made4 r v a b =
          legacy (made4 r) (new_encrypt_dict v 128) a b p
            (Authentication.length-o_of prim sound handler long_enough short_enough
              (owner_of opass upass) upass)
            refl

      some_key4 : (r : ℕ) → (length (key4 r) == 0) ≡ false
      some_key4 r =
          let l =
            Authentication.length-file_key prim sound handler long_enough short_enough (made4 r)
              upass in
          ground (arith, l)

      authenticate-made4 :
          (r : ℕ)
          → 3 ≤ r
          → HandlerR4.authenticate prim handler (made4 r) (owner_of opass upass) random'
            ≡ ok (some (key4 r), perm_owner, drop 16 random')
      unfolding Authentication.generated
      authenticate-made4 r a =
          Authentication.authenticate-owner prim sound handler long_enough short_enough (made4 r)
            (owner_of opass upass) upass (take 16 random) random' a
            (Authentication.generated-o prim sound handler long_enough short_enough (std_of r) opass
              upass random)
            (Authentication.generated-u prim sound handler long_enough short_enough (std_of r) opass
              upass random)
            q

      aesv2_roundtrip :
          Opens aesv2 trailer
            (owner_of opass upass)
            random'
            (new_encrypt prim aesv2 upass opass perm id0 random)
      unfolding new_encrypt generate handler_version filter_key_length authenticate
          Authentication.generated
      aesv2_roundtrip =
          rw
            (
              Authentication.generate_params-generated prim sound handler long_enough short_enough
                  (std_of 4) opass upass random (omega arith) h,
              read_aesv2 resolve (made4 4) (made4 4) id0 trailer t
                  (decode-made4 4 4 (omega arith) (omega arith)),
              authenticate-made4 4 (omega arith),
              some_key4 4,
            )
            (refl, refl, refl, refl)

      v2_roundtrip :
          Opens
            (v2 16)
            trailer
            (owner_of opass upass)
            random'
            (new_encrypt prim (v2 16) upass opass perm id0 random)
      unfolding new_encrypt generate handler_version filter_key_length authenticate
          Authentication.generated
      v2_roundtrip =
          rw
            (
              Authentication.generate_params-generated prim sound handler long_enough short_enough
                  (std_of 3) opass upass random (omega arith) h,
              read_v2 resolve (made4 3) (made4 3) id0 trailer t
                  (decode-made4 3 2 (omega arith) (omega arith)),
              authenticate-made4 3 (omega arith),
              some_key4 3,
            )
            (refl, refl, refl, refl)

    -- For a filter RC4 with 128 bits, AESV2 or AESV3, permissions of 32 bits, and random sources that give
    -- 68 and 16 bytes, PdfCryptNewEncrypt makes a dictionary for encryption from which PdfCryptNewDecrypt,
    -- with a trailer that has the same identifier of the document, reads a handler that the owner's
    -- password opens: it gets the same key, and the filter for strings and that for streams are the one
    -- that was given. The hashes have their lengths, RC4 undoes itself, and decryption in blocks undoes
    -- encryption.
    pub new_encrypt-Opens :
        (cf : Filter)
        → IsWritable cf
        → 68 ≤ length random
        → 16 ≤ length random'
        → Opens cf trailer
            (owner_password cf opass upass)
            random'
            (new_encrypt prim cf upass opass perm id0 random)
    new_encrypt-Opens identity w h q = elim w [ ]
    new_encrypt-Opens (v2 n) w h q =
        subst
          (λ m.
            Opens (v2 m) trailer (owner_of opass upass) random'
              (new_encrypt prim (v2 m) upass opass perm id0 random))
          (sym w) (v2_roundtrip (omega (arith, h)) q)
    new_encrypt-Opens aesv2 w h q = aesv2_roundtrip (omega (arith, h)) q
    new_encrypt-Opens aesv3 w h q = aesv3_roundtrip h
