-- ===== src/Security/Document/Roundtrip.antt =====
-- `PdfCryptNewDecrypt` and `authenticate` of `pdf/core/crypt.go` after `PdfCryptNewEncrypt`.
use unidoc.Prelude.{ℕ, ◌≡◌, refl, false, [], Option, some, codes}
use unidoc.Prelude.Int.{ℤ, pos}
use unidoc.Core.Decoding.{Bytes}
use unidoc.Core.Object.{PdfObject, integer, name, Entries, set_entry}
use unidoc.Security.Result.{Result, ok}
use unidoc.Security.Dict.{StdEncryptDict}
use unidoc.Security.CryptFilter.{
  Filter, identity, v2, aesv2, aesv3, new_filter, new_filter_v2, filter_name, filter_key_length,
}
use unidoc.Security.Lookup.{get_entry, std_crypt_filter}
use unidoc.Security.EncryptDict.{
  encode_encrypt_std, decode_encrypt_std, new_encrypt_dict, encode_crypt_filter, save_crypt_filter,
  decode_crypt_filter,
}
use unidoc.Security.EncryptDict.Roundtrip.{
  get_entry-set, get_entry-encode_encrypt_std, decode_encrypt_std-save_crypt_filter,
}
use unidoc.Security.Document.{
  DocumentCrypt, no_filters, with_filter, new_crypt_filters_v2, load_filters, load_crypt_filters,
  trailer_id, new_decrypt,
}

module _ {F : Type 0} (resolve : ℤ → ℤ → Result (PdfObject F)) where
  -- What is read, where the entries of the standard handler give `std`.
  abbrev pub read_crypt :
      ℕ → ℕ → (Bytes → Option Filter) → Bytes → StdEncryptDict → Bytes → DocumentCrypt
  read_crypt v n filters filter std id0 = record {
    crypt = record {
      v = v;
      r = std.r;
      encryption_key = [];
      crypt_filters = filters;
      stream_filter = filter;
      string_filter = filter;
    };
    key_length = pos n;
    std = std;
    id0 = id0;
    authenticated = false;
  }

  abbrev pub both_filters : Filter → Bytes → Option Filter
  both_filters cf =
      with_filter (codes "Identity") identity (with_filter std_crypt_filter cf no_filters)

  -- The entries of `newEncryptDict`.
  module _ (d : StdEncryptDict) (v n : ℕ) where
    abbrev pub std_entries : Entries F
    std_entries = encode_encrypt_std d (new_encrypt_dict v n)

    filter_entry : get_entry (codes "Filter") std_entries ≡ some (name (codes "Standard"))
    unfolding new_encrypt_dict set_entry
    filter_entry =
        get_entry-encode_encrypt_std d (new_encrypt_dict v n) (codes "Filter")
          (refl, refl, refl, refl, refl, refl, refl, refl)

    v_entry : get_entry (codes "V") std_entries ≡ some (integer (pos v))
    unfolding new_encrypt_dict set_entry
    v_entry =
        get_entry-encode_encrypt_std d (new_encrypt_dict v n) (codes "V")
          (refl, refl, refl, refl, refl, refl, refl, refl)

    length_entry : get_entry (codes "Length") std_entries ≡ some (integer (pos n))
    unfolding new_encrypt_dict set_entry
    length_entry =
        get_entry-encode_encrypt_std d (new_encrypt_dict v n) (codes "Length")
          (refl, refl, refl, refl, refl, refl, refl, refl)

  module _ (d std : StdEncryptDict) (id0 : Bytes) (trailer : Entries F)
      (t : trailer_id resolve trailer ≡ ok id0) where
    pub read_aesv2 :
        decode_encrypt_std (std_entries d 4 128) ≡ ok std
        → new_decrypt resolve (save_crypt_filter aesv2 (std_entries d 4 128)) trailer
          ≡ ok (read_crypt 4 128 (both_filters aesv2) std_crypt_filter std id0)
    unfolding new_decrypt load_crypt_filters load_filters save_crypt_filter encode_crypt_filter
        decode_crypt_filter new_filter filter_name filter_key_length
    read_aesv2 e =
        rw (decode_encrypt_std-save_crypt_filter aesv2 (std_entries d 4 128), e, t)
          (simp (get_entry-set, filter_entry d 4 128, v_entry d 4 128, length_entry d 4 128) refl)

    pub read_aesv3 :
        decode_encrypt_std (std_entries d 5 256) ≡ ok std
        → new_decrypt resolve (save_crypt_filter aesv3 (std_entries d 5 256)) trailer
          ≡ ok (read_crypt 5 256 (both_filters aesv3) std_crypt_filter std id0)
    unfolding new_decrypt load_crypt_filters load_filters save_crypt_filter encode_crypt_filter
        decode_crypt_filter new_filter filter_name filter_key_length
    read_aesv3 e =
        rw (decode_encrypt_std-save_crypt_filter aesv3 (std_entries d 5 256), e, t)
          (simp (get_entry-set, filter_entry d 5 256, v_entry d 5 256, length_entry d 5 256) refl)

    pub read_v2 :
        decode_encrypt_std (std_entries d 2 128) ≡ ok std
        → new_decrypt resolve (std_entries d 2 128) trailer
          ≡ ok (read_crypt 2 128 (with_filter std_crypt_filter (v2 16) no_filters) [] std id0)
    unfolding new_decrypt new_crypt_filters_v2 new_filter_v2
    read_v2 e = rw (filter_entry d 2 128, v_entry d 2 128, length_entry d 2 128, e, t) refl
