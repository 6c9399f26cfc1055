-- ===== src/Security/PdfCrypt/Roundtrip.antt =====
-- `Decrypt` after `Encrypt` of `pdf/core/crypt.go` for numbered objects.
use unidoc.Prelude.{
  ℕ, ◌+◌, ◌≤◌, ◌≡◌, refl, ap, ◌∙◌, Bool, true, false, not, ◌&&◌, ◌||◌, Bool-cases, inl, inr, List,
  ◌∷◌, Option, none, some, length, leb, ◌==◌, bytes_eq, codes, if◌then◌else◌, arith,
}
use unidoc.Prelude.Int.{ℤ, pos}
use unidoc.Core.Decoding.{Bytes}
use unidoc.Core.Dictionary.Validity.{bytes_eq_self}
use unidoc.Core.Object.{PdfObject, integer, Entries, empty, entry, set_entry}
use unidoc.Security.Result.{Result, ok, err, panic, ◌>>=◌}
use unidoc.Security.Primitives.{Primitives, IsSound}
use unidoc.Security.CryptFilter.{Filter}
use unidoc.Security.Lookup.{
  PdfCrypt, Numbered, indirect, stream, get_entry, is_named, has_type, is_identity, is_crypt,
  if_known, or_identity, first_name, params_name, stream_filter_of, std_crypt_filter, set_length,
  is_marked, is_clear,
}
use unidoc.Security.PdfCrypt.{
  encrypt_direct, encrypt_entries, encrypt_numbered, decrypt_numbered, encrypt, decrypt,
  decrypt_entries,
}
use unidoc.Security.PdfCrypt.Shape.{
  bare_entries, has_type-same, is_clear-same, stream_filter_of-same, get_entry-set_entry,
}
use unidoc.Security.PdfCrypt.Direct.{
  Gives, Gives-bind, needed, needed_entries, IsReady, Buffer, buffer, encrypt_direct-Restored,
  encrypt_entries-Restored,
}

set_entry-set_entry :
    {F : Type 0} (k : Bytes) (v w : PdfObject F) (es : Entries F)
    → set_entry k v (set_entry k w es) ≡ set_entry k v es
unfolding set_entry
set_entry-set_entry k v w empty = rw (bytes_eq_self k) refl
set_entry-set_entry k v w (entry j o es) = elim (Bool-cases (bytes_eq j k)) [
  | inl e ↦ rw (e, e) refl
  | inr e ↦ rw (e, e) (ap (entry j o) (set_entry-set_entry k v w es))
]

or_false : (a b : Bool) → (a || b) ≡ false → (a ≡ false) × (b ≡ false)
or_false true b h = cc
or_false false b h = (refl, h)

true_or_false : (a : Bool) → a ≡ true → a ≡ false → ⊥
true_or_false a h k = cc

and_false : (a : Bool) → (a && false) ≡ false
and_false true = refl
and_false false = refl

or_without : (r x i : Bool) → (r && x) ≡ false → (x || i) ≡ true → ((not r && x) || i) ≡ true
or_without true true i h k = cc
or_without true false i h k = k
or_without false x i h k = k

module _ {F : Type 0} (c : PdfCrypt) (resolve : ℤ → ℤ → PdfObject F) where
  -- What a filter is chosen by after encryption and with a new length.
  module _ (dict dict' : Entries F) (bs : Bytes)
      (same : bare_entries dict' ≡ bare_entries dict) where
    has_type-set_length : (t : Bytes) → has_type (set_length bs dict') t ≡ has_type dict t
    has_type-set_length t =
        ap (λ o. is_named o t)
          (get_entry-set_entry (codes "Type") (codes "Length") (integer (pos (length bs))) dict'
            refl)
        ∙ has_type-same dict dict' t same

    stream_filter_of-set_length :
        stream_filter_of resolve c (set_length bs dict') ≡ stream_filter_of resolve c dict
    stream_filter_of-set_length =
        rw
          (
            get_entry-set_entry (codes "Filter") (codes "Length") (integer (pos (length bs))) dict'
                refl,
            get_entry-set_entry (codes "DecodeParms") (codes "Length") (integer (pos (length bs)))
                dict' refl,
          )
          (stream_filter_of-same resolve c dict dict' same)

  -- The filter of a name.
  record Lookup (s : Bytes) : Type 0 where
    crypt : Filter
    known : c.crypt_filters s ≡ some crypt

  Lookup-or_identity :
      (o : Option Bytes)
      → leb 4 c.v ≡ true
      → is_identity c (or_identity c o) ≡ false
      → Lookup (or_identity c o)
  Lookup-or_identity none v h = ground (arith, v, h)
  Lookup-or_identity (some s) v h = found (c.crypt_filters s) refl h
    where
      found :
          (f : Option Filter)
          → c.crypt_filters s ≡ f
          → is_identity c (if_known s f) ≡ false
          → Lookup (if_known s f)
      found none e h' = ground (arith, v, h')
      found (some f) e h' = record { crypt = f; known = e }

  Lookup-chosen :
      (b k : Bool) (o : Option Bytes) (f : Filter)
      → leb 4 c.v ≡ b
      → c.crypt_filters (if b then c.stream_filter else std_crypt_filter) ≡ some f
      → is_identity c
          (if b then (if k then or_identity c o else c.stream_filter) else std_crypt_filter)
        ≡ false
      → Lookup (if b then (if k then or_identity c o else c.stream_filter) else std_crypt_filter)
  Lookup-chosen false k o f v e h = record { crypt = f; known = e }
  Lookup-chosen true true o f v e h = Lookup-or_identity o v h
  Lookup-chosen true false o f v e h = record { crypt = f; known = e }

  -- The object after encryption and decryption: the length of a stream is set.
  abbrev pub sized : Numbered F → Numbered F
  sized (indirect n g o) = indirect n g o
  sized (stream n g dict bs) =
      if has_type dict (codes "XRef") || is_identity c (stream_filter_of resolve c dict)
      then stream n g dict bs
      else stream n g (set_length bs dict) bs

  abbrev pub needed_numbered : Numbered F → ℕ
  needed_numbered (indirect n g o) = needed o
  needed_numbered (stream n g dict bs) = needed_entries dict + 16

  -- What `Encrypt` treats and `isDecrypted` leaves, or the reverse: an indirect object that is known to be
  -- decrypted or is like the dictionary for encryption, and a stream of references for revision 5.
  abbrev pub is_exception : List ℕ → Numbered F → Bool
  is_exception nums (indirect n g o) = is_clear c nums (indirect n g o)
  is_exception nums (stream n g dict bs) = (c.r == 5) && has_type dict (codes "XRef")

  module _ (prim : Primitives) (sound : IsSound prim) (ready : IsReady prim sound c) where
    -- The body of `Decrypt` restores the object, or it is restored already.
    abbrev DecryptsTo : List ℕ → Numbered F → Numbered F → Bytes → Type 0
    DecryptsTo nums o o' s =
        (decrypt_numbered prim c resolve o' ≡ ok (sized o))
        × (is_clear c nums o' ≡ is_clear c nums o)
        × (is_clear c nums o ≡ true → o' ≡ sized o)

    DecryptsTo-stream :
        (nums : List ℕ) (n g : ℕ) (dict dict' : Entries F) (bs random : Bytes)
        → is_exception nums (stream n g dict bs) ≡ false
        → (has_type dict (codes "XRef") || is_identity c (stream_filter_of resolve c dict)) ≡ false
        → bare_entries dict' ≡ bare_entries dict
        → ((i : ℤ)
            → decrypt_entries prim c n g
                (has_type dict (codes "Sig"))
                (set_entry (codes "Length") (integer i) dict')
              ≡ ok (set_entry (codes "Length") (integer i) dict))
        → (b : Buffer prim sound c (stream_filter_of resolve c dict) n g bs random)
        → DecryptsTo nums (stream n g dict bs) (stream n g (set_length b.out dict') b.out) b.left
    unfolding decrypt_numbered
    DecryptsTo-stream nums n g dict dict' bs random x e same d b =
        let (y, i) =
          or_false (has_type dict (codes "XRef")) (is_identity c (stream_filter_of resolve c dict))
            e in
        let h = has_type-set_length dict dict' b.out same in
        (
          rw
              (
                h (codes "XRef"),
                stream_filter_of-set_length dict dict' b.out same,
                h (codes "Sig"),
                y,
                and_false (not (c.r == 5)),
                i,
                d (pos (length b.out)),
                b.made,
                b.decrypted,
              )
              (ap (λ es. ok (stream n g es bs)) (set_entry-set_entry (codes "Length") _ _ dict)),
          ap (λ t. not (c.r == 5) && t) (h (codes "XRef")),
          λ t.
              elim (true_or_false _ t
                (ap (λ q. not (c.r == 5) && q) y ∙ and_false (not (c.r == 5)))) [ ],
        )

    encrypt_numbered-DecryptsTo :
        (nums : List ℕ) (o : Numbered F) (random : Bytes)
        → needed_numbered o ≤ length random
        → is_exception nums o ≡ false
        → Gives (DecryptsTo nums o) (encrypt_numbered prim c resolve o random)
    unfolding encrypt_numbered decrypt_numbered
    encrypt_numbered-DecryptsTo nums (indirect n g o) random h x =
        Gives-bind _ (DecryptsTo nums (indirect n g o)) (encrypt_direct prim c n g o random) _
          (encrypt_direct-Restored prim sound c ready n g o random h)
          (λ o' s (d, b, l).
            (rw d refl, is_clear-same c nums n g o o' b, λ t. elim (true_or_false _ t x) [ ]))
    encrypt_numbered-DecryptsTo nums (stream n g dict bs) random h x =
        split (has_type dict (codes "XRef") || is_identity c (stream_filter_of resolve c dict)) refl
      where
        unchanged :
            (has_type dict (codes "XRef") || is_identity c (stream_filter_of resolve c dict)) ≡ true
            → ((not (c.r == 5) && has_type dict (codes "XRef"))
                || is_identity c (stream_filter_of resolve c dict))
              ≡ true
        unchanged e =
            or_without (c.r == 5) (has_type dict (codes "XRef"))
              (is_identity c (stream_filter_of resolve c dict)) x e

        split :
            (b : Bool)
            → (has_type dict (codes "XRef") || is_identity c (stream_filter_of resolve c dict)) ≡ b
            → Gives
                (DecryptsTo nums (stream n g dict bs))
                (encrypt_numbered prim c resolve (stream n g dict bs) random)
        split true e = rw (e, unchanged e) (rw e refl, refl, λ t. rw e refl)
        split false e =
            let (y, i) =
              or_false (has_type dict (codes "XRef"))
                (is_identity c (stream_filter_of resolve c dict)) e in
            let k =
              Lookup-chosen (leb 4 c.v)
                (is_crypt (first_name resolve (get_entry (codes "Filter") dict)))
                (params_name resolve (get_entry (codes "DecodeParms") dict)) ready.stream_crypt refl
                ready.stream_known i in
            rw e (
              Gives-bind _ (DecryptsTo nums (stream n g dict bs))
                (encrypt_entries prim c n g (has_type dict (codes "Sig")) dict random) _
                (encrypt_entries-Restored prim sound c ready n g (has_type dict (codes "Sig")) dict
                  random (omega (arith, h)))
                (λ dict' s (d, same, l, w).
                  let b =
                    buffer prim sound c (stream_filter_of resolve c dict) k.crypt n g bs s k.known
                      (ready.fits (stream_filter_of resolve c dict) k.crypt k.known)
                      (omega (arith, h, l)) in
                  rw (b.made, b.encrypted)
                    (DecryptsTo-stream nums n g dict dict' bs s x e same w b)))

    -- Decryption, with the marks that it adds, gives the object.
    abbrev pub Undone :
        List ℕ → List ℕ → ℕ → Numbered F → Result (List ℕ × Numbered F × Bytes) → Type 0
    Undone marks nums i o (ok (encrypted_marks, o', left)) =
        decrypt prim c resolve marks nums i o'
        ≡ ok ((if is_clear c nums o then marks else i ∷ marks), sized o)
    Undone marks nums i o (err e) = ⊥
    Undone marks nums i o panic = ⊥

    decrypt-DecryptsTo :
        (marks nums : List ℕ) (i : ℕ) (o o' : Numbered F) (s : Bytes)
        → is_marked marks i ≡ false
        → DecryptsTo nums o o' s
        → decrypt prim c resolve marks nums i o'
          ≡ ok ((if is_clear c nums o then marks else i ∷ marks), sized o)
    unfolding decrypt
    decrypt-DecryptsTo marks nums i o o' s m (d, q, k) = by_clear (is_clear c nums o) refl
      where
        by_clear :
            (b : Bool)
            → is_clear c nums o ≡ b
            → decrypt prim c resolve marks nums i o'
              ≡ ok ((if is_clear c nums o then marks else i ∷ marks), sized o)
        by_clear true e = rw (m, q, e) (ap (λ x. ok (marks, x)) (k e))
        by_clear false e = rw (m, q, e, d) refl

    Undone-bind :
        (marks nums encrypted_marks : List ℕ) (i : ℕ) (o : Numbered F)
        → is_marked marks i ≡ false
        → (r : Result (Numbered F × Bytes)) → Gives (DecryptsTo nums o) r
        → Undone marks nums i o (r >>= λ (o', s). ok (i ∷ encrypted_marks, o', s))
    Undone-bind marks nums encrypted_marks i o m (ok (o', s)) p =
        decrypt-DecryptsTo marks nums i o o' s m p
    Undone-bind marks nums encrypted_marks i o m (err e) p = elim p [ ]
    Undone-bind marks nums encrypted_marks i o m panic p = elim p [ ]

    -- If the crypt filters of the strings and the streams are known and all filters fit the key, Encrypt of
    -- a numbered object that is not marked, with 16 random bytes for each string in it and for a stream,
    -- succeeds, and Decrypt of what it gives, with the same numbers, gives the object again, with the
    -- length of its stream set unless the stream is left alone. Excepted are indirect objects of a number
    -- that is known to be decrypted, indirect dictionaries that have all keys of the one for encryption,
    -- and streams of references for revision 5. The hashes have their lengths, RC4 undoes itself, and
    -- decryption in blocks undoes encryption.
    pub encrypt-Undone :
        (encrypted_marks marks nums : List ℕ) (i : ℕ) (o : Numbered F) (random : Bytes)
        → is_marked encrypted_marks i ≡ false
        → is_marked marks i ≡ false
        → is_exception nums o ≡ false
        → needed_numbered o ≤ length random
        → Undone marks nums i o (encrypt prim c resolve encrypted_marks i o random)
    unfolding encrypt
    encrypt-Undone encrypted_marks marks nums i o random n m x h = rw n (
        Undone-bind marks nums encrypted_marks i o m (encrypt_numbered prim c resolve o random)
          (encrypt_numbered-DecryptsTo nums o random h x))
