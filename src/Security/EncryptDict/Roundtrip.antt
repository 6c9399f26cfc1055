-- ===== src/Security/EncryptDict/Roundtrip.antt =====
-- `decodeEncryptStd` after `encodeEncryptStd` of `pdf/core/crypt.go`.
use unidoc.Prelude.{
  ◌%◌, ◌^◌, ◌<◌, ◌≤◌, ◌≡◌, refl, ap, sym, ◌∙◌, Bool, true, false, Bool-cases, inl, inr, ◌||◌, [],
  none, some, length, leb, ltb, ◌==◌, bytes_eq, codes, if-both, if◌then◌else◌, arith,
}
use unidoc.Core.Decoding.{Bytes}
use unidoc.Core.Dictionary.Validity.{bytes_eq_lem, bytes_eq_comm}
use unidoc.Core.Object.{PdfObject, Entries, empty, entry, set_entry}
use unidoc.Security.Result.{ok}
use unidoc.Security.Dict.{StdEncryptDict}
use unidoc.Security.CryptFilter.{Filter}
use unidoc.Security.Lookup.{get_entry}
use unidoc.Security.EncryptDict.{
  encode_encrypt_std, exact_string, decode_encrypt_std, save_crypt_filter,
}

-- What is written: for the older revisions no flag.
abbrev pub written : StdEncryptDict → StdEncryptDict
written d =
    if leb 5 d.r
    then record d { perms = if d.r == 6 then d.perms else [] }
    else record d { encrypt_metadata = true; oe = []; ue = []; perms = [] }

-- The keys that `encodeEncryptStd` does not set.
abbrev pub IsKept : Bytes → Type 0
IsKept k =
    (bytes_eq (codes "R") k ≡ false)
    × (bytes_eq (codes "P") k ≡ false)
    × (bytes_eq (codes "O") k ≡ false)
    × (bytes_eq (codes "U") k ≡ false)
    × (bytes_eq (codes "OE") k ≡ false)
    × (bytes_eq (codes "UE") k ≡ false)
    × (bytes_eq (codes "EncryptMetadata") k ≡ false)
    × (bytes_eq (codes "Perms") k ≡ false)

module _ {F : Type 0} where
  pub get_entry-set :
      (k j : Bytes) (v : PdfObject F) (es : Entries F)
      → get_entry k (set_entry j v es) ≡ (if bytes_eq j k then some v else get_entry k es)
  unfolding set_entry
  get_entry-set k j v empty = refl
  get_entry-set k j v (entry i w es) = elim (Bool-cases (bytes_eq i j)) [
    | inl e ↦ rw (e, ap (λ x. bytes_eq x k) (bytes_eq_lem i j e)) (either (bytes_eq j k))
    | inr e ↦ rw e (elim (Bool-cases (bytes_eq i k)) [
      | inl f ↦ rw (f, sym (ap (bytes_eq j) (bytes_eq_lem i k f)) ∙ bytes_eq_comm j i ∙ e) refl
      | inr f ↦ rw f (get_entry-set k j v es)
    ])
  ]
    where
      either :
          (b : Bool)
          → (if b then some v else get_entry k es)
            ≡ (if b then some v else if b then some w else get_entry k es)
      either true = refl
      either false = refl

  pub legacy :
      (d : StdEncryptDict) (ed : Entries F)
      → 2 ≤ d.r
      → d.r ≤ 4
      → d.p < 2 ^ 32
      → length d.o ≡ 32
      → get_entry (codes "EncryptMetadata") ed ≡ none
      → decode_encrypt_std (encode_encrypt_std d ed)
        ≡ ok (record d { encrypt_metadata = true; oe = []; ue = []; perms = [] })
  unfolding decode_encrypt_std encode_encrypt_std exact_string
  legacy d ed l h p o e =
      let r1 : leb 5 d.r ≡ false = ground (arith, h) in
      let r2 : (ltb d.r 2 || ltb 6 d.r) ≡ false = ground (arith, h, l) in
      let r3 : (d.r == 5) ≡ false = ground (arith, h) in
      let r4 : (d.r == 6) ≡ false = ground (arith, h) in
      let p' : d.p % 2 ^ 32 ≡ d.p = omega (arith, p) in
      rw r1 (simp (get_entry-set, r2) (rw (r3, r4, r1, o, e, p') refl))

  extended :
      (d : StdEncryptDict) (ed : Entries F)
      → d.r ≡ 5
      → d.p < 2 ^ 32
      → 48 ≤ length d.o
      → 48 ≤ length d.u
      → length d.oe ≡ 32
      → length d.ue ≡ 32
      → decode_encrypt_std (encode_encrypt_std d ed) ≡ ok (record d { perms = [] })
  unfolding decode_encrypt_std encode_encrypt_std exact_string
  extended d ed five p o u oe ue =
      let r1 : leb 5 d.r ≡ true = ground (arith, five) in
      let r2 : ltb 5 d.r ≡ false = ground (arith, five) in
      let r3 : (ltb d.r 2 || ltb 6 d.r) ≡ false = ground (arith, five) in
      let r4 : (d.r == 5) ≡ true = ground (arith, five) in
      let r5 : (d.r == 6) ≡ false = ground (arith, five) in
      let o' : leb 48 (length d.o) ≡ true = ground (arith, o) in
      let u' : leb 48 (length d.u) ≡ true = ground (arith, u) in
      let p' : d.p % 2 ^ 32 ≡ d.p = omega (arith, p) in
      rw (r1, r2) (simp (get_entry-set, r3) (rw (r4, r5, r1, o', u', oe, ue, p') refl))

  pub full :
      (d : StdEncryptDict) (ed : Entries F)
      → d.r ≡ 6
      → d.p < 2 ^ 32
      → 48 ≤ length d.o
      → 48 ≤ length d.u
      → length d.oe ≡ 32
      → length d.ue ≡ 32
      → length d.perms ≡ 16
      → decode_encrypt_std (encode_encrypt_std d ed) ≡ ok d
  unfolding decode_encrypt_std encode_encrypt_std exact_string
  full d ed six p o u oe ue perms =
      let r1 : leb 5 d.r ≡ true = ground (arith, six) in
      let r2 : ltb 5 d.r ≡ true = ground (arith, six) in
      let r3 : (ltb d.r 2 || ltb 6 d.r) ≡ false = ground (arith, six) in
      let r4 : (d.r == 5) ≡ false = ground (arith, six) in
      let r5 : (d.r == 6) ≡ true = ground (arith, six) in
      let o' : leb 48 (length d.o) ≡ true = ground (arith, o) in
      let u' : leb 48 (length d.u) ≡ true = ground (arith, u) in
      let p' : d.p % 2 ^ 32 ≡ d.p = omega (arith, p) in
      rw (r1, r2) (simp (get_entry-set, r3) (rw (r4, r5, r1, o', u', oe, ue, perms, p') refl))

  pub get_entry-encode_encrypt_std :
      (d : StdEncryptDict) (ed : Entries F) (k : Bytes)
      → IsKept k
      → get_entry k (encode_encrypt_std d ed) ≡ get_entry k ed
  unfolding encode_encrypt_std
  get_entry-encode_encrypt_std d ed k (r, p, o, u, oe, ue, em, ps) =
      if-both (λ es. get_entry k es ≡ get_entry k ed) (leb 5 d.r)
        (λ _.
          if-both (λ es. get_entry k es ≡ get_entry k ed) (ltb 5 d.r)
            (λ _. simp (get_entry-set, r, p, o, u, oe, ue, em, ps) refl)
            (λ _. simp (get_entry-set, r, p, o, u, oe, ue, em) refl))
        (λ _. simp (get_entry-set, r, p, o, u) refl)

  pub decode_encrypt_std-save_crypt_filter :
      (f : Filter) (es : Entries F)
      → decode_encrypt_std (save_crypt_filter f es) ≡ decode_encrypt_std es
  unfolding decode_encrypt_std save_crypt_filter
  decode_encrypt_std-save_crypt_filter f es = simp (get_entry-set) refl
