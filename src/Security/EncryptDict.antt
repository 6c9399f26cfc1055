-- ===== src/Security/EncryptDict.antt =====
-- The dictionary for encryption of `pdf/core/crypt.go`: its entries for the standard handler and for the
-- crypt filters, written and read.
pub mod Roundtrip
use unidoc.Prelude.{
  ℕ, suc, ◌+◌, ◌-◌, ◌*◌, ◌/◌, ◌%◌, ◌^◌, Bool, true, false, not, ◌&&◌, ◌||◌, [], ◌∷◌, Option, none,
  some, length, leb, ltb, ◌==◌, bytes_eq, codes, if◌then◌else◌,
}
use unidoc.Prelude.Int.{ℤ, pos, negsuc}
use unidoc.Core.Decoding.{Bytes}
use unidoc.Core.Object.{
  PdfObject, boolean, integer, text, name, dictionary, Entries, empty, entry, set_entry,
}
use unidoc.Security.Result.{
  missing_entry, invalid_length, invalid_r, unknown_filter, Result, ok, err, panic, ◌>>=◌,
}
use unidoc.Security.Dict.{StdEncryptDict}
use unidoc.Security.CryptFilter.{Filter, identity, new_filter, filter_name, filter_key_length}
use unidoc.Security.Lookup.{get_entry, std_crypt_filter}

module _ {F : Type 0} where
  -- `GetString`, and the assertions of the type of a value
  abbrev pub string_of : Option (PdfObject F) → Result Bytes
  string_of (some (text val is_hex)) = ok val
  string_of _ = err missing_entry

  abbrev pub number_of : Option (PdfObject F) → Result ℤ
  number_of (some (integer i)) = ok i
  number_of _ = err missing_entry

  -- True by default.
  abbrev pub flag_or_true : Option (PdfObject F) → Bool
  flag_or_true (some (boolean b)) = b
  flag_or_true _ = true

  abbrev pub set_string : Bytes → Bytes → Entries F → Entries F
  set_string k val es = set_entry k (text val false) es

  unfoldable pub encode_encrypt_std : StdEncryptDict → Entries F → Entries F
  encode_encrypt_std d ed =
      let ed1 =
        set_entry (codes "P") (integer (pos d.p)) (set_entry (codes "R") (integer (pos d.r)) ed) in
      let ed2 = set_string (codes "U") d.u (set_string (codes "O") d.o ed1) in
      let ed3 = set_string (codes "UE") d.ue (set_string (codes "OE") d.oe ed2) in
      let ed4 = set_entry (codes "EncryptMetadata") (boolean d.encrypt_metadata) ed3 in
      if leb 5 d.r then if ltb 5 d.r then set_string (codes "Perms") d.perms ed4 else ed4 else ed2

-- The conversion of an `int64` to `Permissions`, which is `uint32`.
abbrev pub to_permissions : ℤ → ℕ
to_permissions (pos n) = n % 2 ^ 32
to_permissions (negsuc n) = 2 ^ 32 - 1 - n % 2 ^ 32

abbrev pub revision : ℤ → Result ℕ
revision (pos n) = if ltb n 2 || ltb 6 n then err invalid_r else ok n
revision (negsuc n) = err invalid_r

abbrev pub check_length : Bool → Result (Unit {0})
check_length b = if b then ok tt else err invalid_length

abbrev pub is_aes256 : ℕ → Bool
is_aes256 r = (r == 5) || (r == 6)

module _ {F : Type 0} where
  -- A string of n bytes, if it is needed.
  unfoldable pub exact_string : Bool → ℕ → Option (PdfObject F) → Result Bytes
  exact_string needed n o =
      let s = string_of o in
      if needed then (s >>= λ val. check_length (length val == n) >>= λ _. ok val) else ok []

  unfoldable pub decode_encrypt_std : Entries F → Result StdEncryptDict
  unfolding exact_string
  decode_encrypt_std ed = do
    i ← number_of (get_entry (codes "R") ed)
    r ← revision i
    o ← string_of (get_entry (codes "O") ed)
    _ ← check_length (if is_aes256 r then leb 48 (length o) else length o == 32)
    u ← string_of (get_entry (codes "U") ed)
    _ ← check_length (if is_aes256 r then leb 48 (length u) else true)
    oe ← exact_string (leb 5 r) 32 (get_entry (codes "OE") ed)
    ue ← exact_string (leb 5 r) 32 (get_entry (codes "UE") ed)
    p ← number_of (get_entry (codes "P") ed)
    perms ← exact_string (r == 6) 16 (get_entry (codes "Perms") ed)
    ok record {
      r = r;
      p = to_permissions p;
      encrypt_metadata = flag_or_true (get_entry (codes "EncryptMetadata") ed);
      o = o;
      u = u;
      oe = oe;
      ue = ue;
      perms = perms;
    }

  -- `newEncryptDict`
  unfoldable pub new_encrypt_dict : ℕ → ℕ → Entries F
  new_encrypt_dict v n = set_entry (codes "Length") (integer (pos n)) (
      set_entry (codes "V") (integer (pos v))
        (entry (codes "Filter") (name (codes "Standard")) empty))

  -- `encodeCryptFilter` without an event
  unfoldable pub encode_crypt_filter : Filter → Entries F
  encode_crypt_filter f = entry (codes "Type") (name (codes "CryptFilter")) (
      entry (codes "AuthEvent") (name (codes "DocOpen")) (
        entry (codes "CFM") (name (filter_name f))
          (entry (codes "Length") (integer (pos (filter_key_length f))) empty)))

  abbrev pub is_other_type : Option (PdfObject F) → Bool
  is_other_type (some (name s)) = not (bytes_eq s (codes "CryptFilter"))
  is_other_type _ = false

  abbrev pub method_of : Option (PdfObject F) → Result Bytes
  method_of (some (name s)) = ok s
  method_of _ = err unknown_filter

  -- A length that is missing is 0; one below 0 is refused by every filter.
  abbrev pub length_or_zero : Option (PdfObject F) → Result ℕ
  length_or_zero (some (integer (pos n))) = ok n
  length_or_zero (some (integer (negsuc n))) = err invalid_length
  length_or_zero _ = ok 0

  -- `decodeCryptFilter`, whose event is not used, and `NewFilter`
  unfoldable pub decode_crypt_filter : Entries F → Result Filter
  decode_crypt_filter d =
      let cfm = method_of (get_entry (codes "CFM") d) in
      let n = length_or_zero (get_entry (codes "Length") d) in
      if is_other_type (get_entry (codes "Type") d)
      then err unknown_filter
      else (cfm >>= λ s. n >>= λ n'. new_filter s n')

  -- `saveCryptFilters` with the one filter that `PdfCryptNewEncrypt` makes
  unfoldable pub save_crypt_filter : Filter → Entries F → Entries F
  unfolding encode_crypt_filter
  save_crypt_filter f ed = set_entry (codes "StmF") (name std_crypt_filter) (
      set_entry (codes "StrF") (name std_crypt_filter) (
        set_entry (codes "CF")
          (dictionary (entry std_crypt_filter (dictionary (encode_crypt_filter f)) empty)) ed))
