-- ===== src/Security/Document/Panic.antt =====
-- The panic of `PdfCryptNewDecrypt` of `pdf/core/crypt.go`.
use unidoc.Prelude.{
  ℕ, ◌/◌, ◌%◌, ◌≡◌, refl, ◌∙◌, Bool, true, false, not, ◌&&◌, ◌||◌, Bool-cases, inl, inr, Option,
  none, some, length, leb, ltb, ◌==◌, bytes_eq, codes, if◌then◌else◌, if-both, arith,
}
use unidoc.Prelude.Int.{ℤ, pos, negsuc}
use unidoc.Core.Decoding.{Bytes}
use unidoc.Core.Object.{
  PdfObject, null, boolean, integer, real, text, name, array, dictionary, reference, nil, cons,
  Entries, empty, entry,
}
use unidoc.Security.Result.{Result, ok, err, panic, ◌>>=◌}
use unidoc.Security.CryptFilter.{
  Filter, identity, new_filter, new_filter_v2, new_filter_aesv2, new_filter_aesv3,
}
use unidoc.Security.Lookup.{get_entry}
use unidoc.Security.EncryptDict.{
  string_of, number_of, revision, check_length, is_aes256, exact_string, decode_encrypt_std,
  decode_crypt_filter, method_of, length_or_zero, is_other_type,
}
use unidoc.Security.Document.{
  no_filters, with_filter, or_panic, is_whole, new_crypt_filters_v2, entries_of, add_filter,
  load_filters, chosen_filter, load_crypt_filters, is_standard, length_or_40, filters_for, resolved,
  id_of, first_id, trailer_id, new_decrypt,
}

abbrev pub panics : {A : Type 0} → Result A → Bool
panics (ok a) = false
panics (err e) = false
panics panic = true

-- The lengths in bits or bytes that `NewFilterV2` takes.
abbrev pub is_usable : ℕ → Bool
is_usable n = (n == 8) || (n == 16) || (n == 40) || (n == 64) || (n == 128)

abbrev IsSafe : {A : Type 0} → Result A → Type 0
IsSafe r = panics r ≡ false

IsSafe-bind :
    {A B : Type 0} (r : Result A) (f : A → Result B)
    → IsSafe r
    → ((a : A) → IsSafe (f a))
    → IsSafe (r >>= f)
IsSafe-bind (ok a) f h k = k a
IsSafe-bind (err e) f h k = refl
IsSafe-bind panic f h k = h

check_length-IsSafe : (b : Bool) → IsSafe (check_length b)
check_length-IsSafe true = refl
check_length-IsSafe false = refl

revision-IsSafe : (i : ℤ) → IsSafe (revision i)
revision-IsSafe (pos n) = if-both IsSafe (ltb n 2 || ltb 6 n) (λ _. refl) (λ _. refl)
revision-IsSafe (negsuc n) = refl

new_filter_v2-IsSafe : (n : ℕ) → IsSafe (new_filter_v2 n)
unfolding new_filter_v2
new_filter_v2-IsSafe n =
    if-both IsSafe (not (n % 8 == 0)) (λ _. refl)
      (λ _.
        if-both IsSafe (ltb n 5 || ltb 16 n)
          (λ _. if-both IsSafe ((n == 40) || (n == 64) || (n == 128)) (λ _. refl) (λ _. refl))
          (λ _. refl))

new_filter-IsSafe : (cfm : Bytes) (n : ℕ) → IsSafe (new_filter cfm n)
unfolding new_filter new_filter_aesv2 new_filter_aesv3
new_filter-IsSafe cfm n =
    if-both IsSafe (bytes_eq cfm (codes "V2")) (λ _. new_filter_v2-IsSafe n)
      (λ _.
        if-both IsSafe (bytes_eq cfm (codes "AESV2"))
          (λ _.
            if-both (IsSafe {A = Filter})
              (not ((if n == 128 then n / 8 else n) == 0)
                && not ((if n == 128 then n / 8 else n) == 16))
              (λ _. refl) (λ _. refl))
          (λ _.
            if-both IsSafe (bytes_eq cfm (codes "AESV3"))
              (λ _.
                if-both (IsSafe {A = Filter})
                  (not ((if n == 256 then n / 8 else n) == 0)
                    && not ((if n == 256 then n / 8 else n) == 32))
                  (λ _. refl) (λ _. refl))
              (λ _. refl)))

-- Only what comes first can panic.
panics-bind :
    {A B : Type 0} (r : Result A) (f : A → Result B)
    → ((a : A) → IsSafe (f a))
    → panics (r >>= f) ≡ panics r
panics-bind (ok a) f k = k a
panics-bind (err e) f k = refl
panics-bind panic f k = refl

or_panic-is_usable : (n : ℕ) → panics (or_panic (new_filter_v2 n)) ≡ not (is_usable n)
unfolding new_filter_v2
or_panic-is_usable n = ground arith

abbrev pub is_usable_length : ℤ → Bool
is_usable_length (pos n) = is_usable n
is_usable_length (negsuc n) = false

new_crypt_filters_v2-is_usable_length :
    (i : ℤ) → panics (new_crypt_filters_v2 i) ≡ not (is_usable_length i)
unfolding new_crypt_filters_v2
new_crypt_filters_v2-is_usable_length (pos n) =
    panics-bind (or_panic (new_filter_v2 n)) _ (λ f. refl) ∙ or_panic-is_usable n
new_crypt_filters_v2-is_usable_length (negsuc n) = refl

module _ {F : Type 0} where
  string_of-IsSafe : (o : Option (PdfObject F)) → IsSafe (string_of o)
  string_of-IsSafe none = refl
  string_of-IsSafe (some null) = refl
  string_of-IsSafe (some (boolean b)) = refl
  string_of-IsSafe (some (integer i)) = refl
  string_of-IsSafe (some (real x)) = refl
  string_of-IsSafe (some (text v h)) = refl
  string_of-IsSafe (some (name s)) = refl
  string_of-IsSafe (some (array es)) = refl
  string_of-IsSafe (some (dictionary es)) = refl
  string_of-IsSafe (some (reference a b)) = refl

  number_of-IsSafe : (o : Option (PdfObject F)) → IsSafe (number_of o)
  number_of-IsSafe none = refl
  number_of-IsSafe (some null) = refl
  number_of-IsSafe (some (boolean b)) = refl
  number_of-IsSafe (some (integer i)) = refl
  number_of-IsSafe (some (real x)) = refl
  number_of-IsSafe (some (text v h)) = refl
  number_of-IsSafe (some (name s)) = refl
  number_of-IsSafe (some (array es)) = refl
  number_of-IsSafe (some (dictionary es)) = refl
  number_of-IsSafe (some (reference a b)) = refl

  method_of-IsSafe : (o : Option (PdfObject F)) → IsSafe (method_of o)
  method_of-IsSafe none = refl
  method_of-IsSafe (some null) = refl
  method_of-IsSafe (some (boolean b)) = refl
  method_of-IsSafe (some (integer i)) = refl
  method_of-IsSafe (some (real x)) = refl
  method_of-IsSafe (some (text v h)) = refl
  method_of-IsSafe (some (name s)) = refl
  method_of-IsSafe (some (array es)) = refl
  method_of-IsSafe (some (dictionary es)) = refl
  method_of-IsSafe (some (reference a b)) = refl

  length_or_zero-IsSafe : (o : Option (PdfObject F)) → IsSafe (length_or_zero o)
  length_or_zero-IsSafe none = refl
  length_or_zero-IsSafe (some null) = refl
  length_or_zero-IsSafe (some (boolean b)) = refl
  length_or_zero-IsSafe (some (integer (pos n))) = refl
  length_or_zero-IsSafe (some (integer (negsuc n))) = refl
  length_or_zero-IsSafe (some (real x)) = refl
  length_or_zero-IsSafe (some (text v h)) = refl
  length_or_zero-IsSafe (some (name s)) = refl
  length_or_zero-IsSafe (some (array es)) = refl
  length_or_zero-IsSafe (some (dictionary es)) = refl
  length_or_zero-IsSafe (some (reference a b)) = refl

  exact_string-IsSafe :
      (needed : Bool) (n : ℕ) (o : Option (PdfObject F)) → IsSafe (exact_string needed n o)
  unfolding exact_string
  exact_string-IsSafe true n o =
      IsSafe-bind (string_of o) _ (string_of-IsSafe o)
        (λ val. IsSafe-bind (check_length (length val == n)) _ (check_length-IsSafe _) (λ _. refl))
  exact_string-IsSafe false n o = refl

  decode_encrypt_std-IsSafe : (ed : Entries F) → IsSafe (decode_encrypt_std ed)
  unfolding decode_encrypt_std
  decode_encrypt_std-IsSafe ed =
      IsSafe-bind (number_of (get_entry (codes "R") ed)) _ (number_of-IsSafe _) (λ i.
        IsSafe-bind (revision i) _ (revision-IsSafe i) (λ r.
          IsSafe-bind (string_of (get_entry (codes "O") ed)) _ (string_of-IsSafe _) (λ o.
            IsSafe-bind (check_length (if is_aes256 r then leb 48 (length o) else length o == 32)) _
              (check_length-IsSafe _)
              (λ _. IsSafe-bind (string_of (get_entry (codes "U") ed)) _ (string_of-IsSafe _) (λ u.
                IsSafe-bind (check_length (if is_aes256 r then leb 48 (length u) else true)) _
                  (check_length-IsSafe _)
                  (λ _.
                    IsSafe-bind (exact_string (leb 5 r) 32 (get_entry (codes "OE") ed)) _
                      (exact_string-IsSafe (leb 5 r) 32 (get_entry (codes "OE") ed))
                      (λ oe.
                        IsSafe-bind (exact_string (leb 5 r) 32 (get_entry (codes "UE") ed)) _
                          (exact_string-IsSafe (leb 5 r) 32 (get_entry (codes "UE") ed))
                          (λ ue.
                            IsSafe-bind (number_of (get_entry (codes "P") ed)) _
                              (number_of-IsSafe _)
                              (λ p.
                                IsSafe-bind
                                  (exact_string (r == 6) 16 (get_entry (codes "Perms") ed)) _
                                  (exact_string-IsSafe (r == 6) 16 (get_entry (codes "Perms") ed))
                                  (λ perms. refl))))))))))

  decode_crypt_filter-IsSafe : (d : Entries F) → IsSafe (decode_crypt_filter d)
  unfolding decode_crypt_filter
  decode_crypt_filter-IsSafe d =
      if-both IsSafe (is_other_type (get_entry (codes "Type") d)) (λ _. refl)
        (λ _. IsSafe-bind (method_of (get_entry (codes "CFM") d)) _ (method_of-IsSafe _) (λ s.
          IsSafe-bind (length_or_zero (get_entry (codes "Length") d)) _ (length_or_zero-IsSafe _)
            (λ n. new_filter-IsSafe s n)))

  -- The version and the length that lead to the panic.
  abbrev pub is_fatal : Result ℤ → Option (PdfObject F) → Bool
  is_fatal (ok i) (some (integer (pos v))) = (leb 1 v && leb v 2) && not (is_usable_length i)
  is_fatal _ _ = false

  module _ (resolve : ℤ → ℤ → Result (PdfObject F))
      (safe : (a b : ℤ) → panics (resolve a b) ≡ false) where
    entries_of-IsSafe : (o : Option (PdfObject F)) → IsSafe (entries_of resolve o)
    entries_of-IsSafe none = refl
    entries_of-IsSafe (some null) = refl
    entries_of-IsSafe (some (boolean b)) = refl
    entries_of-IsSafe (some (integer i)) = refl
    entries_of-IsSafe (some (real x)) = refl
    entries_of-IsSafe (some (text v h)) = refl
    entries_of-IsSafe (some (name s)) = refl
    entries_of-IsSafe (some (array es)) = refl
    entries_of-IsSafe (some (dictionary es)) = refl
    entries_of-IsSafe (some (reference a b)) = looked_up (resolve a b) (safe a b)
      where
        looked_up :
            (r : Result (PdfObject F))
            → IsSafe r
            → IsSafe (entries_of (λ x y. r) (some (reference a b)))
        looked_up (ok null) h = refl
        looked_up (ok (boolean b)) h = refl
        looked_up (ok (integer i)) h = refl
        looked_up (ok (real x)) h = refl
        looked_up (ok (text v h)) _ = refl
        looked_up (ok (name s)) h = refl
        looked_up (ok (array es)) h = refl
        looked_up (ok (dictionary es)) h = refl
        looked_up (ok (reference m n)) h = refl
        looked_up (err e) h = refl
        looked_up panic h = h

    id_of-IsSafe : (r : Result (PdfObject F)) → IsSafe r → IsSafe (id_of resolve r)
    id_of-IsSafe (ok null) h = refl
    id_of-IsSafe (ok (boolean b)) h = refl
    id_of-IsSafe (ok (integer i)) h = refl
    id_of-IsSafe (ok (real x)) h = refl
    id_of-IsSafe (ok (text v h)) _ = refl
    id_of-IsSafe (ok (name s)) h = refl
    id_of-IsSafe (ok (array es)) h = refl
    id_of-IsSafe (ok (dictionary es)) h = refl
    id_of-IsSafe (ok (reference m n)) h = refl
    id_of-IsSafe (err e) h = refl
    id_of-IsSafe panic h = h

    resolved-IsSafe : (o : PdfObject F) → IsSafe (resolved resolve o)
    resolved-IsSafe null = refl
    resolved-IsSafe (boolean b) = refl
    resolved-IsSafe (integer i) = refl
    resolved-IsSafe (real x) = refl
    resolved-IsSafe (text v h) = refl
    resolved-IsSafe (name s) = refl
    resolved-IsSafe (array es) = refl
    resolved-IsSafe (dictionary es) = refl
    resolved-IsSafe (reference a b) = safe a b

    first_id-IsSafe : (o : Option (PdfObject F)) → IsSafe (first_id resolve o)
    first_id-IsSafe none = refl
    first_id-IsSafe (some null) = refl
    first_id-IsSafe (some (boolean b)) = refl
    first_id-IsSafe (some (integer i)) = refl
    first_id-IsSafe (some (real x)) = refl
    first_id-IsSafe (some (text v h)) = refl
    first_id-IsSafe (some (name s)) = refl
    first_id-IsSafe (some (array nil)) = refl
    first_id-IsSafe (some (array (cons o es))) =
        id_of-IsSafe (resolved resolve o) (resolved-IsSafe o)
    first_id-IsSafe (some (dictionary es)) = refl
    first_id-IsSafe (some (reference a b)) = refl

    trailer_id-IsSafe : (trailer : Entries F) → IsSafe (trailer_id resolve trailer)
    unfolding trailer_id
    trailer_id-IsSafe trailer = first_id-IsSafe (get_entry (codes "ID") trailer)

    load_filters-IsSafe :
        (es : Entries F) (filters : Bytes → Option Filter)
        → IsSafe (load_filters resolve es filters)
    unfolding load_filters
    load_filters-IsSafe empty filters = refl
    load_filters-IsSafe (entry k o es) filters =
        IsSafe-bind (entries_of resolve (some o)) _ (entries_of-IsSafe (some o)) (λ d.
          IsSafe-bind (add_filter resolve k d filters) (load_filters resolve es)
            (if-both IsSafe (bytes_eq k (codes "Identity")) (λ _. refl)
              (λ _.
                IsSafe-bind (decode_crypt_filter d) _ (decode_crypt_filter-IsSafe d) (λ f. refl)))
            (load_filters-IsSafe es))

    chosen_filter-IsSafe :
        (filters : Bytes → Option Filter) (o : Option (PdfObject F))
        → IsSafe (chosen_filter resolve filters o)
    chosen_filter-IsSafe filters none = refl
    chosen_filter-IsSafe filters (some null) = refl
    chosen_filter-IsSafe filters (some (boolean b)) = refl
    chosen_filter-IsSafe filters (some (integer i)) = refl
    chosen_filter-IsSafe filters (some (real x)) = refl
    chosen_filter-IsSafe filters (some (text v h)) = refl
    chosen_filter-IsSafe filters (some (name s)) = by_filter (filters s)
      where
        by_filter : (f : Option Filter) → IsSafe (chosen_filter resolve (λ x. f) (some (name s)))
        by_filter none = refl
        by_filter (some f) = refl
    chosen_filter-IsSafe filters (some (array es)) = refl
    chosen_filter-IsSafe filters (some (dictionary es)) = refl
    chosen_filter-IsSafe filters (some (reference a b)) = refl

    load_crypt_filters-IsSafe : (ed : Entries F) → IsSafe (load_crypt_filters resolve ed)
    unfolding load_crypt_filters
    load_crypt_filters-IsSafe ed =
        IsSafe-bind (entries_of resolve (get_entry (codes "CF") ed)) _ (entries_of-IsSafe _) (λ cf.
          IsSafe-bind (load_filters resolve cf no_filters) _ (load_filters-IsSafe cf no_filters)
            (λ loaded.
              IsSafe-bind
                (chosen_filter resolve (with_filter (codes "Identity") identity loaded)
                  (get_entry (codes "StrF") ed))
                _
                (chosen_filter-IsSafe (with_filter (codes "Identity") identity loaded)
                  (get_entry (codes "StrF") ed))
                (λ strf.
                  IsSafe-bind
                    (chosen_filter resolve (with_filter (codes "Identity") identity loaded)
                      (get_entry (codes "StmF") ed))
                    _
                    (chosen_filter-IsSafe (with_filter (codes "Identity") identity loaded)
                      (get_entry (codes "StmF") ed))
                    (λ stmf. refl))))

    length_or_40-IsSafe : (o : Option (PdfObject F)) → IsSafe (length_or_40 resolve o)
    length_or_40-IsSafe none = refl
    length_or_40-IsSafe (some null) = refl
    length_or_40-IsSafe (some (boolean b)) = refl
    length_or_40-IsSafe (some (integer (pos n))) =
        if-both IsSafe (is_whole (pos n)) (λ _. refl) (λ _. refl)
    length_or_40-IsSafe (some (integer (negsuc n))) =
        if-both IsSafe (is_whole (negsuc n)) (λ _. refl) (λ _. refl)
    length_or_40-IsSafe (some (real x)) = refl
    length_or_40-IsSafe (some (text v h)) = refl
    length_or_40-IsSafe (some (name s)) = refl
    length_or_40-IsSafe (some (array es)) = refl
    length_or_40-IsSafe (some (dictionary es)) = refl
    length_or_40-IsSafe (some (reference a b)) = refl

    module _ (ed : Entries F) where
      filters_for-is_fatal :
          (n : ℤ) (o : Option (PdfObject F))
          → panics (filters_for resolve ed n o) ≡ is_fatal (ok n) o
      unfolding new_crypt_filters_v2
      filters_for-is_fatal n none = refl
      filters_for-is_fatal n (some null) = refl
      filters_for-is_fatal n (some (boolean b)) = refl
      filters_for-is_fatal n (some (real x)) = refl
      filters_for-is_fatal n (some (text v h)) = refl
      filters_for-is_fatal n (some (name s)) = refl
      filters_for-is_fatal n (some (array es)) = refl
      filters_for-is_fatal n (some (dictionary es)) = refl
      filters_for-is_fatal n (some (reference a b)) = refl
      filters_for-is_fatal n (some (integer (negsuc v))) = refl
      filters_for-is_fatal n (some (integer (pos v))) = elim (Bool-cases (leb 1 v && leb v 2)) [
        | inl e ↦ rw e (
            panics-bind (new_crypt_filters_v2 n) _ (λ filters. refl)
            ∙ new_crypt_filters_v2-is_usable_length n)
        | inr e ↦ rw e (
            if-both IsSafe (leb 4 v && leb v 5)
              (λ _.
                IsSafe-bind (load_crypt_filters resolve ed) _ (load_crypt_filters-IsSafe ed)
                  (λ l. refl))
              (λ _. refl))
      ]

      length-is_fatal :
          {B : Type 0} (l : Result ℤ) (o : Option (PdfObject F))
          → (f : ℤ → ℕ × (Bytes → Option Filter) × Bytes × Bytes → Result B) → IsSafe l
          → ((n : ℤ) (x : ℕ × (Bytes → Option Filter) × Bytes × Bytes) → IsSafe (f n x))
          → panics (l >>= λ n. filters_for resolve ed n o >>= f n) ≡ is_fatal l o
      length-is_fatal (ok n) o f h k =
          panics-bind (filters_for resolve ed n o) (f n) (k n) ∙ filters_for-is_fatal n o
      length-is_fatal (err e) o f h k = refl
      length-is_fatal panic o f h k = cc

      -- If no lookup of a reference panics, PdfCryptNewDecrypt panics in exactly one case, whatever the
      -- entries of the dictionary and of the trailer are and whatever the references in them lead to, an
      -- error included: the filter is Standard, V is 1 or 2, and the length, 40 if there is none, is a
      -- multiple of 8 other than 8, 16, 40, 64 and 128.
      pub new_decrypt-panics :
          (trailer : Entries F)
          → panics (new_decrypt resolve ed trailer) ≡ (
              is_standard resolve (get_entry (codes "Filter") ed)
              && is_fatal
                  (length_or_40 resolve (get_entry (codes "Length") ed))
                  (get_entry (codes "V") ed))
      unfolding new_decrypt
      new_decrypt-panics trailer =
          elim (Bool-cases (is_standard resolve (get_entry (codes "Filter") ed))) [
            | inl e ↦ rw e (
                length-is_fatal (length_or_40 resolve (get_entry (codes "Length") ed))
                  (get_entry (codes "V") ed) _ (length_or_40-IsSafe (get_entry (codes "Length") ed))
                  (λ n x.
                    IsSafe-bind (decode_encrypt_std ed) _ (decode_encrypt_std-IsSafe ed) (λ std.
                      IsSafe-bind (trailer_id resolve trailer) _ (trailer_id-IsSafe trailer)
                        (λ id0. refl))))
            | inr e ↦ rw e refl
          ]
