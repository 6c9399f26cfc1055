-- ===== src/Security/PdfCrypt/Shape.antt =====
-- What the encryption of `pdf/core/crypt.go` keeps: an object but for the bytes of its strings, and so the
-- names by which `Encrypt` and `Decrypt` choose a filter.
use mathlib.Core.Option.{map}
use unidoc.Prelude.{
  ℕ, List, ◌||◌, ◌≡◌, refl, sym, ap, ◌∙◌, false, Bool-cases, inl, inr, [], Option, none, some,
  bytes_eq, codes, if◌then◌else◌,
}
use unidoc.Prelude.Int.{ℤ}
use unidoc.Core.Decoding.{Bytes}
use unidoc.Core.Dictionary.Validity.{bytes_eq_lem}
use unidoc.Core.Object.{
  PdfObject, null, boolean, integer, real, text, name, array, dictionary, reference, Elements, nil,
  cons, Entries, empty, entry, set_entry,
}
use unidoc.Security.Lookup.{
  PdfCrypt, indirect, is_marked, is_clear, get_entry, name_of, is_named, has_type, is_present,
  is_encrypt_dict, traced_name, first_name, params_name, stream_filter_of,
}

module _ {F : Type 0} where
  unfoldable mutual
    pub bare : PdfObject F → PdfObject F
    bare (text val is_hex) = text [] is_hex
    bare (array es) = array (bare_elements es)
    bare (dictionary es) = dictionary (bare_entries es)
    bare o = o

    pub bare_elements : Elements F → Elements F
    bare_elements nil = nil
    bare_elements (cons o es) = cons (bare o) (bare_elements es)

    pub bare_entries : Entries F → Entries F
    bare_entries empty = empty
    bare_entries (entry k o es) = entry k (bare o) (bare_entries es)

  get_entry-bare_entries :
      (k : Bytes) (es : Entries F) → get_entry k (bare_entries es) ≡ map bare (get_entry k es)
  unfolding bare_entries
  get_entry-bare_entries k empty = refl
  get_entry-bare_entries k (entry j o es) = elim (Bool-cases (bytes_eq j k)) [
    | inl e ↦ rw e refl
    | inr e ↦ rw e (get_entry-bare_entries k es)
  ]

  is_named-bare : (o : Option (PdfObject F)) (t : Bytes) → is_named (map bare o) t ≡ is_named o t
  unfolding bare
  is_named-bare none t = refl
  is_named-bare (some null) t = refl
  is_named-bare (some (boolean b)) t = refl
  is_named-bare (some (integer i)) t = refl
  is_named-bare (some (real x)) t = refl
  is_named-bare (some (text v h)) t = refl
  is_named-bare (some (name s)) t = refl
  is_named-bare (some (array es)) t = refl
  is_named-bare (some (dictionary es)) t = refl
  is_named-bare (some (reference a b)) t = refl

  name_of-bare : (o : Option (PdfObject F)) → name_of (map bare o) ≡ name_of o
  unfolding bare
  name_of-bare none = refl
  name_of-bare (some null) = refl
  name_of-bare (some (boolean b)) = refl
  name_of-bare (some (integer i)) = refl
  name_of-bare (some (real x)) = refl
  name_of-bare (some (text v h)) = refl
  name_of-bare (some (name s)) = refl
  name_of-bare (some (array es)) = refl
  name_of-bare (some (dictionary es)) = refl
  name_of-bare (some (reference a b)) = refl

  has_type-bare : (es : Entries F) (t : Bytes) → has_type (bare_entries es) t ≡ has_type es t
  has_type-bare es t =
      ap (λ o. is_named o t) (get_entry-bare_entries (codes "Type") es)
      ∙ is_named-bare (get_entry (codes "Type") es) t

  pub has_type-same :
      (es es' : Entries F) (t : Bytes)
      → bare_entries es' ≡ bare_entries es
      → has_type es' t ≡ has_type es t
  has_type-same es es' t e =
      sym (has_type-bare es' t) ∙ ap (λ x. has_type x t) e ∙ has_type-bare es t

  is_present-bare :
      (k : Bytes) (es : Entries F)
      → is_present (get_entry k (bare_entries es)) ≡ is_present (get_entry k es)
  is_present-bare k es = ap is_present (get_entry-bare_entries k es) ∙ present (get_entry k es)
    where
      present : (o : Option (PdfObject F)) → is_present (map bare o) ≡ is_present o
      present none = refl
      present (some o) = refl

  is_encrypt_dict-bare : (es : Entries F) → is_encrypt_dict (bare_entries es) ≡ is_encrypt_dict es
  is_encrypt_dict-bare es =
      rw
        (
          is_present-bare (codes "V") es,
          is_present-bare (codes "R") es,
          is_present-bare (codes "O") es,
          is_present-bare (codes "U") es,
          is_present-bare (codes "P") es,
        )
        refl

  pub is_clear-same :
      (c : PdfCrypt) (nums : List ℕ) (n g : ℕ) (o o' : PdfObject F)
      → bare o' ≡ bare o
      → is_clear c nums (indirect n g o') ≡ is_clear c nums (indirect n g o)
  unfolding bare
  is_clear-same c nums n g o o' e =
      sym (is_clear-bare o') ∙ ap (λ x. is_clear c nums (indirect n g x)) e ∙ is_clear-bare o
    where
      is_clear-bare :
          (x : PdfObject F)
          → is_clear c nums (indirect n g (bare x)) ≡ is_clear c nums (indirect n g x)
      is_clear-bare null = refl
      is_clear-bare (boolean b) = refl
      is_clear-bare (integer i) = refl
      is_clear-bare (real x) = refl
      is_clear-bare (text v h) = refl
      is_clear-bare (name t) = refl
      is_clear-bare (array es) = refl
      is_clear-bare (dictionary es) = ap (λ b. is_marked nums n || b) (is_encrypt_dict-bare es)
      is_clear-bare (reference a b) = refl

  module _ (resolve : ℤ → ℤ → PdfObject F) where
    traced_name-bare : (o : PdfObject F) → traced_name resolve (bare o) ≡ traced_name resolve o
    unfolding bare
    traced_name-bare null = refl
    traced_name-bare (boolean b) = refl
    traced_name-bare (integer i) = refl
    traced_name-bare (real x) = refl
    traced_name-bare (text v h) = refl
    traced_name-bare (name s) = refl
    traced_name-bare (array es) = refl
    traced_name-bare (dictionary es) = refl
    traced_name-bare (reference a b) = refl

    first_name-bare :
        (o : Option (PdfObject F)) → first_name resolve (map bare o) ≡ first_name resolve o
    unfolding bare bare_elements
    first_name-bare none = refl
    first_name-bare (some null) = refl
    first_name-bare (some (boolean b)) = refl
    first_name-bare (some (integer i)) = refl
    first_name-bare (some (real x)) = refl
    first_name-bare (some (text v h)) = refl
    first_name-bare (some (name s)) = refl
    first_name-bare (some (array nil)) = refl
    first_name-bare (some (array (cons o es))) = traced_name-bare o
    first_name-bare (some (dictionary es)) = refl
    first_name-bare (some (reference a b)) = refl

    params_name-bare :
        (o : Option (PdfObject F)) → params_name resolve (map bare o) ≡ params_name resolve o
    unfolding bare bare_entries
    params_name-bare none = refl
    params_name-bare (some null) = refl
    params_name-bare (some (boolean b)) = refl
    params_name-bare (some (integer i)) = refl
    params_name-bare (some (real x)) = refl
    params_name-bare (some (text v h)) = refl
    params_name-bare (some (name s)) = refl
    params_name-bare (some (array es)) = refl
    params_name-bare (some (dictionary es)) =
        ap name_of (get_entry-bare_entries (codes "Name") es)
        ∙ name_of-bare (get_entry (codes "Name") es)
    params_name-bare (some (reference a b)) = refl

    stream_filter_of-bare :
        (c : PdfCrypt) (es : Entries F)
        → stream_filter_of resolve c (bare_entries es) ≡ stream_filter_of resolve c es
    stream_filter_of-bare c es =
        rw
          (
            get_entry-bare_entries (codes "Filter") es,
            first_name-bare (get_entry (codes "Filter") es),
            get_entry-bare_entries (codes "DecodeParms") es,
            params_name-bare (get_entry (codes "DecodeParms") es),
          )
          refl

    pub stream_filter_of-same :
        (c : PdfCrypt) (es es' : Entries F)
        → bare_entries es' ≡ bare_entries es
        → stream_filter_of resolve c es' ≡ stream_filter_of resolve c es
    stream_filter_of-same c es es' e =
        sym (stream_filter_of-bare c es')
        ∙ ap (stream_filter_of resolve c) e
        ∙ stream_filter_of-bare c es

  -- The keys but one are found as before.
  pub get_entry-set_entry :
      (k j : Bytes) (v : PdfObject F) (es : Entries F)
      → bytes_eq j k ≡ false
      → get_entry k (set_entry j v es) ≡ get_entry k es
  unfolding set_entry
  get_entry-set_entry k j v empty n = rw n refl
  get_entry-set_entry k j v (entry i w es) n = elim (Bool-cases (bytes_eq i j)) [
    | inl e ↦
        let q : bytes_eq i k ≡ false = ap (λ x. bytes_eq x k) (bytes_eq_lem i j e) ∙ n in
        rw (e, q) refl
    | inr e ↦ rw e (ap (λ r. if bytes_eq i k then some w else r) (get_entry-set_entry k j v es n))
  ]
