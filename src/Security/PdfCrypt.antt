-- ===== src/Security/PdfCrypt.antt =====
-- `PdfCrypt.Encrypt` and `PdfCrypt.Decrypt` of `pdf/core/crypt.go`; a mark is the identity of a numbered object.
pub mod Shape
pub mod Direct
pub mod Roundtrip
use unidoc.Prelude.{
  ℕ, ◌+◌, ◌*◌, ◌%◌, ◌^◌, Bool, true, false, not, ◌&&◌, ◌||◌, List, [], ◌∷◌, Option, none, some,
  length, leb, ◌==◌, bytes_eq, codes, if◌then◌else◌,
}
use unidoc.Prelude.Int.{ℤ, pos}
use unidoc.Core.Decoding.{Bytes}
use unidoc.Core.Object.{
  PdfObject, null, boolean, integer, real, text, name, array, dictionary, reference, Elements, nil,
  cons, Entries, empty, entry, set_entry,
}
use unidoc.Security.Result.{unknown_filter, Result, ok, err, panic, ◌>>=◌}
use unidoc.Security.Primitives.{Primitives}
use unidoc.Security.CryptFilter.{Filter, make_key, encrypt_bytes, decrypt_bytes}
use unidoc.Security.Lookup.{
  PdfCrypt, Numbered, left_alone, has_type, set_length, is_identity, string_filter_of, is_marked,
  stream_filter_of, is_clear, known_filter, indirect, stream,
}

module _ (prim : Primitives) (c : PdfCrypt) where
  -- `makeKey` with the file's key; the numbers are converted to `uint32`.
  unfoldable pub make_object_key : Bytes → ℕ → ℕ → Result Bytes
  make_object_key filter n g =
      known_filter c filter >>= λ f. make_key prim f (n % 2 ^ 32) (g % 2 ^ 32) c.encryption_key

  unfoldable pub encrypt_buffer : Bytes → Bytes → Bytes → Bytes → Result (Bytes × Bytes)
  encrypt_buffer buf filter okey random =
      known_filter c filter >>= λ f. encrypt_bytes prim f buf okey random

  unfoldable pub decrypt_buffer : Bytes → Bytes → Bytes → Result Bytes
  decrypt_buffer buf filter okey = known_filter c filter >>= λ f. decrypt_bytes prim f buf okey

  -- The case of a string; n and g are the numbers of the object that holds it.
  unfoldable pub encrypt_string : ℕ → ℕ → Bytes → Bytes → Result (Bytes × Bytes)
  encrypt_string n g val random =
      let filter = string_filter_of c in
      if is_identity c filter
      then ok (val, random)
      else (make_object_key filter n g >>= λ key. encrypt_buffer val filter key random)

  unfoldable pub decrypt_string : ℕ → ℕ → Bytes → Result Bytes
  decrypt_string n g val =
      let filter = string_filter_of c in
      if is_identity c filter
      then ok val
      else (make_object_key filter n g >>= λ key. decrypt_buffer val filter key)

  module _ {F : Type 0} (n g : ℕ) where
    unfoldable mutual
      unfolding encrypt_string

      pub encrypt_direct : PdfObject F → Bytes → Result (PdfObject F × Bytes)
      encrypt_direct (text val is_hex) random =
          encrypt_string n g val random >>= λ (val', s). ok (text val' is_hex, s)
      encrypt_direct (array es) random =
          encrypt_elements es random >>= λ (es', s). ok (array es', s)
      encrypt_direct (dictionary es) random =
          encrypt_entries (has_type es (codes "Sig")) es random >>= λ (es', s).
          ok (dictionary es', s)
      encrypt_direct o random = ok (o, random)

      pub encrypt_elements : Elements F → Bytes → Result (Elements F × Bytes)
      encrypt_elements nil random = ok (nil, random)
      encrypt_elements (cons o es) random = encrypt_direct o random >>= λ (o', s).
          encrypt_elements es s >>= λ (es', s'). ok (cons o' es', s')

      pub encrypt_entries : Bool → Entries F → Bytes → Result (Entries F × Bytes)
      encrypt_entries is_sig empty random = ok (empty, random)
      encrypt_entries is_sig (entry k o es) random =
          let this = encrypt_direct o random in
          (if left_alone is_sig k then ok (o, random) else this) >>= λ (o', s).
          encrypt_entries is_sig es s >>= λ (es', s'). ok (entry k o' es', s')

    unfoldable mutual
      unfolding decrypt_string

      pub decrypt_direct : PdfObject F → Result (PdfObject F)
      decrypt_direct (text val is_hex) = decrypt_string n g val >>= λ val'. ok (text val' is_hex)
      decrypt_direct (array es) = decrypt_elements es >>= λ es'. ok (array es')
      decrypt_direct (dictionary es) =
          decrypt_entries (has_type es (codes "Sig")) es >>= λ es'. ok (dictionary es')
      decrypt_direct o = ok o

      pub decrypt_elements : Elements F → Result (Elements F)
      decrypt_elements nil = ok nil
      decrypt_elements (cons o es) =
          decrypt_direct o >>= λ o'. decrypt_elements es >>= λ es'. ok (cons o' es')

      pub decrypt_entries : Bool → Entries F → Result (Entries F)
      decrypt_entries is_sig empty = ok empty
      decrypt_entries is_sig (entry k o es) =
          let this = decrypt_direct o in
          (if left_alone is_sig k then ok o else this) >>= λ o'.
          decrypt_entries is_sig es >>= λ es'. ok (entry k o' es')

  module _ {F : Type 0} (resolve : ℤ → ℤ → PdfObject F) where
    -- The body of `Encrypt` for an object that is not marked.
    unfoldable pub encrypt_numbered : Numbered F → Bytes → Result (Numbered F × Bytes)
    encrypt_numbered (indirect n g o) random =
        encrypt_direct n g o random >>= λ (o', s). ok (indirect n g o', s)
    encrypt_numbered (stream n g dict bs) random =
        let filter = stream_filter_of resolve c dict in
        if has_type dict (codes "XRef") || is_identity c filter
        then ok (stream n g dict bs, random)
        else (encrypt_entries n g (has_type dict (codes "Sig")) dict random >>= λ (dict', s).
            make_object_key filter n g >>= λ okey. encrypt_buffer bs filter okey s >>= λ (bs', s').
            ok (stream n g (set_length bs' dict') bs', s'))

    -- The body of `Decrypt` for an object that `isDecrypted` does not find.
    unfoldable pub decrypt_numbered : Numbered F → Result (Numbered F)
    decrypt_numbered (indirect n g o) = decrypt_direct n g o >>= λ o'. ok (indirect n g o')
    decrypt_numbered (stream n g dict bs) =
        let filter = stream_filter_of resolve c dict in
        if (not (c.r == 5) && has_type dict (codes "XRef")) || is_identity c filter
        then ok (stream n g dict bs)
        else (decrypt_entries n g (has_type dict (codes "Sig")) dict >>= λ dict'.
            make_object_key filter n g >>= λ okey.
            decrypt_buffer bs filter okey >>= λ bs'. ok (stream n g (set_length bs' dict') bs'))

    -- `Encrypt` and `Decrypt` of the object with the identity i
    unfoldable pub encrypt : List ℕ → ℕ → Numbered F → Bytes → Result (List ℕ × Numbered F × Bytes)
    unfolding encrypt_numbered
    encrypt marks i o random =
        if is_marked marks i
        then ok (marks, o, random)
        else (encrypt_numbered o random >>= λ (o', s). ok (i ∷ marks, o', s))

    unfoldable pub decrypt : List ℕ → List ℕ → ℕ → Numbered F → Result (List ℕ × Numbered F)
    unfolding decrypt_numbered
    decrypt marks nums i o =
        if is_marked marks i || is_clear c nums o
        then ok (marks, o)
        else (decrypt_numbered o >>= λ o'. ok (i ∷ marks, o'))
