-- ===== src/Security/PdfCrypt/Direct.antt =====
-- `Decrypt` after `Encrypt` of `pdf/core/crypt.go` for buffers, strings and direct objects.
use unidoc.Prelude.{
  ℕ, ◌+◌, ◌%◌, ◌^◌, ◌≤◌, ◌≡◌, refl, ap, Bool, true, false, Bool-cases, inl, inr, some, length, leb,
  bytes_eq, codes, if◌then◌else◌, arith,
}
use unidoc.Prelude.Int.{ℤ}
use unidoc.Core.Decoding.{Bytes}
use unidoc.Core.Object.{
  PdfObject, null, boolean, integer, real, text, name, array, dictionary, reference, Elements, nil,
  cons, Entries, empty, entry, set_entry,
}
use unidoc.Security.Result.{Result, ok, err, panic, ◌>>=◌}
use unidoc.Security.Primitives.{Primitives, IsSound}
use unidoc.Security.CryptFilter.{Filter, make_key, encrypt_bytes}
use unidoc.Security.CryptFilter.Roundtrip.{
  Restores, Takes, Fits, IsKey, make_key-Takes, encrypt_bytes-Restores,
}
use unidoc.Security.Lookup.{
  PdfCrypt, has_type, left_alone, std_crypt_filter, is_identity, string_filter_of,
}
use unidoc.Security.PdfCrypt.{
  make_object_key, encrypt_buffer, decrypt_buffer, encrypt_string, decrypt_string, encrypt_direct,
  encrypt_elements, encrypt_entries, decrypt_direct, decrypt_elements, decrypt_entries,
}
use unidoc.Security.PdfCrypt.Shape.{bare, bare_elements, bare_entries, has_type-same}

-- A result that is a value with a property.
abbrev pub Gives : {X : Type 0} → (X → Bytes → Type 0) → Result (X × Bytes) → Type 0
Gives P (ok (x, s)) = P x s
Gives P (err e) = ⊥
Gives P panic = ⊥

pub Gives-bind :
    {X Y : Type 0} (P : X → Bytes → Type 0) (Q : Y → Bytes → Type 0)
    → (r : Result (X × Bytes)) (f : X × Bytes → Result (Y × Bytes)) → Gives P r
    → ((x : X) (s : Bytes) → P x s → Gives Q (f (x, s)))
    → Gives Q (r >>= f)
Gives-bind P Q (ok (x, s)) f p q = q x s p
Gives-bind P Q (err e) f p q = elim p [ ]
Gives-bind P Q panic f p q = elim p [ ]

-- Random bytes that are enough: 16 for each string.
module _ {F : Type 0} where
  abbrev mutual
    pub needed : PdfObject F → ℕ
    needed (text val is_hex) = 16
    needed (array es) = needed_elements es
    needed (dictionary es) = needed_entries es
    needed o = 0

    pub needed_elements : Elements F → ℕ
    needed_elements nil = 0
    needed_elements (cons o es) = needed o + needed_elements es

    pub needed_entries : Entries F → ℕ
    needed_entries empty = 0
    needed_entries (entry k o es) = needed o + needed_entries es

module _ (prim : Primitives) (sound : IsSound prim) (c : PdfCrypt) where
  -- The filters fit the key, and there is one for the strings and one for the streams.
  pub record IsReady : Type 0 where
    pub fits :
        (s : Bytes) (f : Filter) → c.crypt_filters s ≡ some f → Fits prim sound f c.encryption_key
    pub string_crypt : Filter
    pub string_known : c.crypt_filters (string_filter_of c) ≡ some string_crypt
    pub stream_crypt : Filter
    pub stream_known :
        c.crypt_filters (if leb 4 c.v then c.stream_filter else std_crypt_filter)
        ≡ some stream_crypt

  -- The encryption of a buffer for an object with the numbers n and g.
  pub record Buffer (filter : Bytes) (n g : ℕ) (buf random : Bytes) : Type 0 where
    pub okey : Bytes
    pub out : Bytes
    pub left : Bytes
    pub made : make_object_key prim c filter n g ≡ ok okey
    pub encrypted : encrypt_buffer prim c buf filter okey random ≡ ok (out, left)
    pub decrypted : decrypt_buffer prim c out filter okey ≡ ok buf
    pub enough : length random ≤ length left + 16

  pub buffer :
      (filter : Bytes) (f : Filter) (n g : ℕ) (buf random : Bytes)
      → c.crypt_filters filter ≡ some f
      → Fits prim sound f c.encryption_key
      → 16 ≤ length random
      → Buffer filter n g buf random
  unfolding make_object_key encrypt_buffer decrypt_buffer
  buffer filter f n g buf random known fit h =
      with_key (make_key prim f (n % 2 ^ 32) (g % 2 ^ 32) c.encryption_key) refl
        (make_key-Takes prim sound f (n % 2 ^ 32) (g % 2 ^ 32) c.encryption_key fit)
    where
      with_bytes :
          (okey : Bytes) (r : Result (Bytes × Bytes))
          → make_key prim f (n % 2 ^ 32) (g % 2 ^ 32) c.encryption_key ≡ ok okey
          → encrypt_bytes prim f buf okey random ≡ r
          → Restores prim sound f buf okey random r
          → Buffer filter n g buf random
      with_bytes okey (ok (out, left)) k e (d, l) = record {
        okey = okey;
        out = out;
        left = left;
        made = rw known k;
        encrypted = rw known e;
        decrypted = rw known d;
        enough = l;
      }
      with_bytes okey (err x) k e p = elim p [ ]
      with_bytes okey panic k e p = elim p [ ]

      with_key :
          (r : Result Bytes)
          → make_key prim f (n % 2 ^ 32) (g % 2 ^ 32) c.encryption_key ≡ r
          → IsKey prim sound (Takes prim sound f) r
          → Buffer filter n g buf random
      with_key (ok okey) e k =
          with_bytes okey (encrypt_bytes prim f buf okey random) e refl
            (encrypt_bytes-Restores prim sound f buf okey random k h)
      with_key (err x) e k = elim k [ ]
      with_key panic e k = elim k [ ]

  module _ (ready : IsReady) (n g : ℕ) where
    encrypt_string-Gives :
        (val random : Bytes)
        → 16 ≤ length random
        → Gives
            (λ val' s. (decrypt_string prim c n g val' ≡ ok val) × (length random ≤ length s + 16))
            (encrypt_string prim c n g val random)
    unfolding encrypt_string decrypt_string
    encrypt_string-Gives val random h =
        let filter = string_filter_of c in
        elim (Bool-cases (is_identity c filter)) [
          | inl e ↦ rw e (refl, omega arith)
          | inr e ↦
              let b =
                buffer filter ready.string_crypt n g val random ready.string_known
                  (ready.fits filter ready.string_crypt ready.string_known) h in
              rw (e, b.made, b.encrypted) (b.decrypted, b.enough)
        ]

    module _ {F : Type 0} where
      -- What the encryption of an object, of the elements of an array and of the entries of a dictionary is.
      abbrev pub Restored : PdfObject F → Bytes → PdfObject F → Bytes → Type 0
      Restored o random o' s =
          (decrypt_direct prim c n g o' ≡ ok o)
          × (bare o' ≡ bare o)
          × (length random ≤ length s + needed o)

      abbrev RestoredElements : Elements F → Bytes → Elements F → Bytes → Type 0
      RestoredElements es random es' s =
          (decrypt_elements prim c n g es' ≡ ok es)
          × (bare_elements es' ≡ bare_elements es)
          × (length random ≤ length s + needed_elements es)

      -- The entry of the length may be set before decryption.
      abbrev pub RestoredEntries : Bool → Entries F → Bytes → Entries F → Bytes → Type 0
      RestoredEntries is_sig es random es' s =
          (decrypt_entries prim c n g is_sig es' ≡ ok es)
          × (bare_entries es' ≡ bare_entries es)
          × (length random ≤ length s + needed_entries es)
          × ((i : ℤ)
              → decrypt_entries prim c n g is_sig (set_entry (codes "Length") (integer i) es')
                ≡ ok (set_entry (codes "Length") (integer i) es))

      decrypt_entries-number :
          (is_sig : Bool) (k : Bytes) (i : ℤ) (es es' : Entries F)
          → decrypt_entries prim c n g is_sig es' ≡ ok es
          → decrypt_entries prim c n g is_sig (entry k (integer i) es')
            ≡ ok (entry k (integer i) es)
      unfolding decrypt_entries decrypt_direct
      decrypt_entries-number is_sig k i es es' e = elim (Bool-cases (left_alone is_sig k)) [
        | inl a ↦ rw (a, e) refl
        | inr a ↦ rw (a, e) refl
      ]

      entry-RestoredEntries :
          (is_sig : Bool) (k : Bytes) (o o' : PdfObject F) (es es' : Entries F)
          (random s left : Bytes)
          → (if left_alone is_sig k then ok o' else decrypt_direct prim c n g o') ≡ ok o
          → bare o' ≡ bare o
          → length random ≤ length s + needed o
          → RestoredEntries is_sig es s es' left
          → RestoredEntries is_sig (entry k o es) random (entry k o' es') left
      unfolding decrypt_entries set_entry bare_entries
      entry-RestoredEntries is_sig k o o' es es' random s left d b l (d', b', l', w) = (
        rw (d, d') refl,
        rw (b, b') refl,
        omega (arith, l, l'),
        λ i. elim (Bool-cases (bytes_eq k (codes "Length"))) [
          | inl e ↦ rw e (decrypt_entries-number is_sig k i es es' d')
          | inr e ↦ rw (e, d, w i) refl
        ],
      )

      -- The object of an entry that is left alone or not.
      abbrev RestoredEntry : Bool → PdfObject F → Bytes → PdfObject F → Bytes → Type 0
      RestoredEntry alone o random o' s =
          ((if alone then ok o' else decrypt_direct prim c n g o') ≡ ok o)
          × (bare o' ≡ bare o)
          × (length random ≤ length s + needed o)

      entry_object :
          (alone : Bool) (o : PdfObject F) (random : Bytes)
          → Gives (Restored o random) (encrypt_direct prim c n g o random)
          → Gives
              (RestoredEntry alone o random)
              (if alone then ok (o, random) else encrypt_direct prim c n g o random)
      entry_object true o random h = (refl, refl, omega arith)
      entry_object false o random h = h

      mutual
        unfolding encrypt_direct encrypt_elements encrypt_entries decrypt_direct decrypt_elements
            decrypt_entries bare bare_elements bare_entries set_entry

        pub encrypt_direct-Restored :
            (o : PdfObject F) (random : Bytes)
            → needed o ≤ length random
            → Gives (Restored o random) (encrypt_direct prim c n g o random)
        encrypt_direct-Restored null random h = (refl, refl, omega arith)
        encrypt_direct-Restored (boolean b) random h = (refl, refl, omega arith)
        encrypt_direct-Restored (integer i) random h = (refl, refl, omega arith)
        encrypt_direct-Restored (real x) random h = (refl, refl, omega arith)
        encrypt_direct-Restored (name t) random h = (refl, refl, omega arith)
        encrypt_direct-Restored (reference a b) random h = (refl, refl, omega arith)
        encrypt_direct-Restored (text val is_hex) random h =
            Gives-bind _ (Restored (text val is_hex) random) (encrypt_string prim c n g val random)
              _ (encrypt_string-Gives val random h) (λ val' s (d, l). (rw d refl, refl, l))
        encrypt_direct-Restored (array es) random h =
            Gives-bind _ (Restored (array es) random) (encrypt_elements prim c n g es random) _
              (encrypt_elements-Restored es random h)
              (λ es' s (d, b, l). (rw d refl, ap array b, l))
        encrypt_direct-Restored (dictionary es) random h =
            Gives-bind _ (Restored (dictionary es) random)
              (encrypt_entries prim c n g (has_type es (codes "Sig")) es random) _
              (encrypt_entries-Restored (has_type es (codes "Sig")) es random h)
              (λ es' s (d, b, l, w).
                (rw (has_type-same es es' (codes "Sig") b, d) refl, ap dictionary b, l))

        encrypt_elements-Restored :
            (es : Elements F) (random : Bytes)
            → needed_elements es ≤ length random
            → Gives (RestoredElements es random) (encrypt_elements prim c n g es random)
        encrypt_elements-Restored nil random h = (refl, refl, omega arith)
        encrypt_elements-Restored (cons o es) random h =
            Gives-bind _ (RestoredElements (cons o es) random) (encrypt_direct prim c n g o random)
              _ (encrypt_direct-Restored o random (omega (arith, h)))
              (λ o' s (d, b, l).
                Gives-bind _ (RestoredElements (cons o es) random)
                  (encrypt_elements prim c n g es s) _
                  (encrypt_elements-Restored es s (omega (arith, h, l)))
                  (λ es' s' (d', b', l'). (rw (d, d') refl, rw (b, b') refl, omega (arith, l, l'))))

        pub encrypt_entries-Restored :
            (is_sig : Bool) (es : Entries F) (random : Bytes)
            → needed_entries es ≤ length random
            → Gives (RestoredEntries is_sig es random) (encrypt_entries prim c n g is_sig es random)
        encrypt_entries-Restored is_sig empty random h = (
          refl,
          refl,
          omega arith,
          λ i. decrypt_entries-number is_sig (codes "Length") i empty empty refl,
        )
        encrypt_entries-Restored is_sig (entry k o es) random h =
            Gives-bind (RestoredEntry (left_alone is_sig k) o random)
              (RestoredEntries is_sig (entry k o es) random) _ _
              (entry_object (left_alone is_sig k) o random
                (encrypt_direct-Restored o random (omega (arith, h))))
              (λ o' s (d, b, l).
                Gives-bind _ (RestoredEntries is_sig (entry k o es) random)
                  (encrypt_entries prim c n g is_sig es s) _
                  (encrypt_entries-Restored is_sig es s (omega (arith, h, l)))
                  (λ es' s' p. entry-RestoredEntries is_sig k o o' es es' random s s' d b l p))
