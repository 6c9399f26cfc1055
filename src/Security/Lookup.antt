-- ===== src/Security/Lookup.antt =====
-- The state of `PdfCrypt` of `pdf/core/crypt.go`, numbered objects, and what `Encrypt` and `Decrypt` look up
-- in dictionaries. A numbered object holds direct objects, in which other objects are references.
use unidoc.Prelude.{
  ℕ, Bool, true, false, not, ◌&&◌, ◌||◌, List, [], ◌∷◌, Option, none, some, length, leb, ◌==◌,
  bytes_eq, codes, if◌then◌else◌,
}
use unidoc.Prelude.Int.{ℤ, pos}
use unidoc.Core.Decoding.{Bytes}
use unidoc.Core.Object.{
  PdfObject, integer, name, array, dictionary, reference, cons, Entries, empty, entry, set_entry,
}
use unidoc.Security.Result.{unknown_filter, Result, ok, err}
use unidoc.Security.CryptFilter.{Filter}

pub record PdfCrypt : Type 0 where
  pub v : ℕ
  pub r : ℕ
  pub encryption_key : Bytes
  pub crypt_filters : Bytes → Option Filter
  pub stream_filter : Bytes
  pub string_filter : Bytes

pub data Numbered (F : Type 0) : Type 0 where
  indirect : (object_number generation_number : ℕ) → PdfObject F → Numbered F
  stream : (object_number generation_number : ℕ) → Entries F → Bytes → Numbered F

-- The keys that `Encrypt` and `Decrypt` leave, where `is_sig` tells the dictionary of a signature.
abbrev pub left_alone : Bool → Bytes → Bool
left_alone is_sig k =
    (is_sig && bytes_eq k (codes "Contents"))
    || bytes_eq k (codes "Parent")
    || bytes_eq k (codes "Prev")
    || bytes_eq k (codes "Last")

-- The lookups of the code in a dictionary.
module _ {F : Type 0} where
  abbrev pub get_entry : Bytes → Entries F → Option (PdfObject F)
  get_entry k empty = none
  get_entry k (entry j o es) = if bytes_eq j k then some o else get_entry k es

  abbrev pub name_of : Option (PdfObject F) → Option Bytes
  name_of (some (name s)) = some s
  name_of _ = none

  abbrev pub is_named : Option (PdfObject F) → Bytes → Bool
  is_named (some (name s)) t = bytes_eq s t
  is_named _ t = false

  abbrev pub has_type : Entries F → Bytes → Bool
  has_type es t = is_named (get_entry (codes "Type") es) t

  abbrev pub set_length : Bytes → Entries F → Entries F
  set_length bs dict = set_entry (codes "Length") (integer (pos (length bs))) dict

  -- The keys of `encryptDictKeys`.
  abbrev pub is_present : Option (PdfObject F) → Bool
  is_present none = false
  is_present (some o) = true

  abbrev pub is_encrypt_dict : Entries F → Bool
  is_encrypt_dict es =
      is_present (get_entry (codes "V") es)
      && is_present (get_entry (codes "R") es)
      && is_present (get_entry (codes "O") es)
      && is_present (get_entry (codes "U") es)
      && is_present (get_entry (codes "P") es)

abbrev pub std_crypt_filter : Bytes
std_crypt_filter = codes "StdCF"

abbrev pub is_identity : PdfCrypt → Bytes → Bool
is_identity c filter = leb 4 c.v && bytes_eq filter (codes "Identity")

abbrev pub string_filter_of : PdfCrypt → Bytes
string_filter_of c = if leb 4 c.v then c.string_filter else std_crypt_filter

abbrev pub is_crypt : Option Bytes → Bool
is_crypt (some s) = bytes_eq s (codes "Crypt")
is_crypt none = false

abbrev pub if_known : Bytes → Option Filter → Bytes
if_known s none = codes "Identity"
if_known s (some f) = s

abbrev pub or_identity : PdfCrypt → Option Bytes → Bytes
or_identity c none = codes "Identity"
or_identity c (some s) = if_known s (c.crypt_filters s)

abbrev pub is_marked : List ℕ → ℕ → Bool
is_marked [] i = false
is_marked (m ∷ ms) i = (m == i) || is_marked ms i

-- The filter of a stream; `resolve` gives the object of a reference.
module _ {F : Type 0} (resolve : ℤ → ℤ → PdfObject F) where
  abbrev pub traced_name : PdfObject F → Option Bytes
  traced_name (reference a b) = name_of (some (resolve a b))
  traced_name o = name_of (some o)

  abbrev pub first_name : Option (PdfObject F) → Option Bytes
  first_name (some (array (cons o es))) = traced_name o
  first_name _ = none

  abbrev pub params_name : Option (PdfObject F) → Option Bytes
  params_name (some (dictionary es)) = name_of (get_entry (codes "Name") es)
  params_name _ = none

  abbrev pub stream_filter_of : PdfCrypt → Entries F → Bytes
  stream_filter_of c dict =
      if leb 4 c.v
      then (if is_crypt (first_name (get_entry (codes "Filter") dict))
          then or_identity c (params_name (get_entry (codes "DecodeParms") dict))
          else c.stream_filter)
      else std_crypt_filter

-- What `isDecrypted` looks at in an object that is not marked: the numbers of the objects that are
-- decrypted, the streams of references, and old copies of the dictionary for encryption.
abbrev pub is_clear : {F : Type 0} → PdfCrypt → List ℕ → Numbered F → Bool
is_clear c nums (indirect n g (dictionary es)) = is_marked nums n || is_encrypt_dict es
is_clear c nums (indirect n g o) = is_marked nums n
is_clear c nums (stream n g dict bs) = not (c.r == 5) && has_type dict (codes "XRef")

abbrev pub known_filter : PdfCrypt → Bytes → Result Filter
known_filter c filter = of_option (c.crypt_filters filter)
  where
    of_option : Option Filter → Result Filter
    of_option none = err unknown_filter
    of_option (some f) = ok f
