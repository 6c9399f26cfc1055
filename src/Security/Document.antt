-- ===== src/Security/Document.antt =====
-- `PdfCryptNewEncrypt`, `PdfCryptNewDecrypt` and `authenticate` of `pdf/core/crypt.go`. The identifier of the
-- document that is written, which is a hash of the time, is an argument.
pub mod Roundtrip
pub mod Opening
pub mod Panic
use unidoc.Prelude.{
  ℕ, suc, ◌+◌, ◌*◌, ◌/◌, ◌%◌, Bool, true, false, not, ◌&&◌, ◌||◌, [], Option, none, some, length,
  leb, ltb, ◌==◌, bytes_eq, codes, if◌then◌else◌,
}
use unidoc.Prelude.Int.{ℤ, pos, negsuc}
use unidoc.Core.Decoding.{Bytes}
use unidoc.Core.Object.{
  PdfObject, integer, text, name, array, dictionary, reference, cons, Entries, empty, entry,
}
use unidoc.Security.Result.{
  missing_entry, invalid_length, invalid_id, unknown_filter, Result, ok, err, panic, ◌>>=◌,
}
use unidoc.Security.Primitives.{Primitives}
use unidoc.Security.Dict.{StdEncryptDict}
use unidoc.Security.HandlerR4
use unidoc.Security.HandlerR4.{StdHandlerR4}
use unidoc.Security.HandlerR6
use unidoc.Security.CryptFilter.{
  Filter, identity, new_filter_v2, handler_version, filter_key_length,
}
use unidoc.Security.Lookup.{PdfCrypt, get_entry, std_crypt_filter}
use unidoc.Security.EncryptDict.{
  encode_encrypt_std, decode_encrypt_std, new_encrypt_dict, save_crypt_filter, decode_crypt_filter,
}

-- The fields of `PdfCrypt` that `Encrypt` and `Decrypt` do not use stand beside those that they use.
pub record DocumentCrypt : Type 0 where
  pub crypt : PdfCrypt
  pub key_length : ℤ
  pub std : StdEncryptDict
  pub id0 : Bytes
  pub authenticated : Bool

abbrev pub no_filters : Bytes → Option Filter
no_filters s = none

abbrev pub with_filter : Bytes → Filter → (Bytes → Option Filter) → Bytes → Option Filter
with_filter k f filters s = if bytes_eq k s then some f else filters s

-- An error of `newFilterV2` is a panic of `NewFilterV2`.
abbrev pub or_panic : Result Filter → Result Filter
or_panic (ok f) = ok f
or_panic (err e) = panic
or_panic panic = panic

-- A length below 0 is none that `NewFilterV2` takes.
unfoldable pub new_crypt_filters_v2 : ℤ → Result (Bytes → Option Filter)
new_crypt_filters_v2 (pos n) =
    or_panic (new_filter_v2 n) >>= λ f. ok (with_filter std_crypt_filter f no_filters)
new_crypt_filters_v2 (negsuc n) = panic

abbrev pub is_whole : ℤ → Bool
is_whole (pos n) = n % 8 == 0
is_whole (negsuc n) = suc n % 8 == 0

-- Reading the crypt filters and the trailer; `resolve` is `LookupByReference` with `TraceToDirectObject`
-- behind it, which gives a direct object, an error or a panic.
module _ {F : Type 0} (resolve : ℤ → ℤ → Result (PdfObject F)) where
  abbrev pub resolved : PdfObject F → Result (PdfObject F)
  resolved (reference a b) = resolve a b
  resolved o = ok o

  abbrev pub entries_of : Option (PdfObject F) → Result (Entries F)
  entries_of none = err missing_entry
  entries_of (some o) = resolved o >>= of_object
    where
      of_object : PdfObject F → Result (Entries F)
      of_object (dictionary es) = ok es
      of_object _ = err missing_entry

  abbrev pub add_filter :
      Bytes → Entries F → (Bytes → Option Filter) → Result (Bytes → Option Filter)
  add_filter k d filters =
      if bytes_eq k (codes "Identity")
      then ok filters
      else (decode_crypt_filter d >>= λ f. ok (with_filter k f filters))

  unfoldable pub load_filters : Entries F → (Bytes → Option Filter) → Result (Bytes → Option Filter)
  load_filters empty filters = ok filters
  load_filters (entry k o es) filters =
      entries_of (some o) >>= λ d. add_filter k d filters >>= load_filters es

  -- The filter that `StrF` or `StmF` names.
  abbrev pub chosen_filter : (Bytes → Option Filter) → Option (PdfObject F) → Result Bytes
  chosen_filter filters (some (name s)) = if_found (filters s)
    where
      if_found : Option Filter → Result Bytes
      if_found none = err unknown_filter
      if_found (some f) = ok s
  chosen_filter filters _ = ok (codes "Identity")

  unfoldable pub load_crypt_filters : Entries F → Result ((Bytes → Option Filter) × Bytes × Bytes)
  unfolding load_filters
  load_crypt_filters ed = entries_of (get_entry (codes "CF") ed) >>= λ cf.
      load_filters cf no_filters >>= λ loaded.
      let filters = with_filter (codes "Identity") identity loaded in
      chosen_filter filters (get_entry (codes "StrF") ed) >>= λ strf.
      chosen_filter filters (get_entry (codes "StmF") ed) >>= λ stmf. ok (filters, strf, stmf)

  abbrev pub is_standard : Option (PdfObject F) → Bool
  is_standard (some (name s)) = bytes_eq s (codes "Standard")
  is_standard _ = false

  abbrev pub length_or_40 : Option (PdfObject F) → Result ℤ
  length_or_40 (some (integer i)) = if is_whole i then ok i else err invalid_length
  length_or_40 _ = ok (pos 40)

  -- The version with the filters, and those of the strings and the streams.
  abbrev pub filters_for :
      Entries F → ℤ → Option (PdfObject F) → Result (ℕ × (Bytes → Option Filter) × Bytes × Bytes)
  filters_for ed n (some (integer (pos v))) =
      let v2 = new_crypt_filters_v2 n >>= λ filters. ok (v, filters, [], []) in
      let v4 = load_crypt_filters ed >>= λ (filters, strf, stmf). ok (v, filters, strf, stmf) in
      if leb 1 v && leb v 2 then v2 else if leb 4 v && leb v 5 then v4 else err unknown_filter
  filters_for ed n (some (integer (negsuc v))) = err unknown_filter
  filters_for ed n _ = ok (0, no_filters, [], [])

  -- `GetString`, which takes an error of the lookup for a null object.
  abbrev pub id_of : Result (PdfObject F) → Result Bytes
  id_of (ok (text val is_hex)) = ok val
  id_of (ok _) = err invalid_id
  id_of (err e) = err invalid_id
  id_of panic = panic

  abbrev pub first_id : Option (PdfObject F) → Result Bytes
  first_id (some (array (cons o es))) = id_of (resolved o)
  first_id _ = ok []

  unfoldable pub trailer_id : Entries F → Result Bytes
  trailer_id trailer = first_id (get_entry (codes "ID") trailer)

  unfoldable pub new_decrypt : Entries F → Entries F → Result DocumentCrypt
  unfolding load_crypt_filters new_crypt_filters_v2 trailer_id
  new_decrypt ed trailer =
      let read = length_or_40 (get_entry (codes "Length") ed) >>= λ n.
      filters_for ed n (get_entry (codes "V") ed) >>= λ (v, filters, strf, stmf).
      decode_encrypt_std ed >>= λ std. trailer_id trailer >>= λ id0. ok record {
        crypt = record {
          v = v;
          r = std.r;
          encryption_key = [];
          crypt_filters = filters;
          stream_filter = stmf;
          string_filter = strf;
        };
        key_length = n;
        std = std;
        id0 = id0;
        authenticated = false;
      } in
      if is_standard (get_entry (codes "Filter") ed) then read else err unknown_filter

-- The fields before the parameters are generated.
abbrev pub new_crypt : Filter → ℕ → Bytes → DocumentCrypt
new_crypt cf perm id0 =
    let (v, r) = handler_version cf in
    let filter = if leb 4 v then std_crypt_filter else [] in
    record {
      crypt = record {
        v = v;
        r = r;
        encryption_key = [];
        crypt_filters = with_filter std_crypt_filter cf no_filters;
        stream_filter = filter;
        string_filter = filter;
      };
      key_length = pos (filter_key_length cf * 8);
      std = record {
        r = r;
        p = perm;
        encrypt_metadata = true;
        o = [];
        u = [];
        oe = [];
        ue = [];
        perms = [];
      };
      id0 = id0;
      authenticated = false;
    }

module _ (prim : Primitives) where
  -- The older handler of `securityHandler`, and what is done with it. A key length of -8 or less is a
  -- panic when the first key is cut, which revision 2 cuts to 5 bytes; those nearer to 0 are divided to 0.
  abbrev pub with_handler_r4 : {A : Type 0} → ℕ → Bytes → ℤ → (StdHandlerR4 → Result A) → Result A
  with_handler_r4 r id0 (pos n) f = f record { key_length = n; id0 = id0 }
  with_handler_r4 r id0 (negsuc n) f =
      if (r == 2) || ltb n 7 then f record { key_length = 0; id0 = id0 } else panic

  -- `generateParams`
  unfoldable pub generate : DocumentCrypt → Bytes → Bytes → Bytes → Result (DocumentCrypt × Bytes)
  generate c upass opass random =
      (if leb 5 c.std.r
        then HandlerR6.generate_params prim c.std opass upass random
        else with_handler_r4 c.std.r c.id0 c.key_length
            (λ h. HandlerR4.generate_params prim h c.std opass upass random))
      >>= λ (std, ekey, left).
          let crypt = record c.crypt { encryption_key = ekey } in
          ok (record c { std = std; crypt = crypt }, left)

  -- The result of a handler: access is refused without permissions or without a key.
  abbrev pub admitted : DocumentCrypt → Option Bytes → ℕ → Result (Bool × DocumentCrypt)
  admitted c none perm = ok (false, c)
  admitted c (some fkey) perm =
      let crypt = record c.crypt { encryption_key = fkey } in
      if (perm == 0) || (length fkey == 0)
      then ok (false, c)
      else ok (true, record c { crypt = crypt; authenticated = true })

  unfoldable pub authenticate : DocumentCrypt → Bytes → Bytes → Result (Bool × DocumentCrypt)
  authenticate c password random =
      let refused = record c { authenticated = false } in
      if leb 5 c.std.r
      then (HandlerR6.authenticate prim c.std password >>= λ (fkey, perm).
          admitted refused fkey perm)
      else (with_handler_r4 c.std.r c.id0 c.key_length
            (λ h. HandlerR4.authenticate prim h c.std password random)
          >>= λ (fkey, perm, left). admitted refused fkey perm)

  -- `PdfCryptNewEncrypt` with a filter
  unfoldable pub new_encrypt :
      {F : Type 0}
      → Filter
      → Bytes
      → Bytes
      → ℕ
      → Bytes
      → Bytes
      → Result (DocumentCrypt × Entries F × Bytes)
  unfolding generate
  new_encrypt cf upass opass perm id0 random =
      let start = new_crypt cf perm id0 in
      let ed = new_encrypt_dict start.crypt.v (filter_key_length cf * 8) in
      generate start upass opass random >>= λ (c, left).
      let ed' = encode_encrypt_std c.std ed in
      ok (c, (if leb 4 c.crypt.v then save_crypt_filter cf ed' else ed'), left)
