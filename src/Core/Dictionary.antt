-- ===== src/Core/Dictionary.antt =====
-- `PdfObjectDictionary` of `pdf/core/primitives.go`: the keys in the order in which they were set, and
-- a map. The values are of any type, with the value that stands for Go's `nil`.
pub mod Validity
pub mod Tests
pub mod Entries
use unidoc.Prelude.{
  Bool, true, false, ◌||◌, List, [], ◌∷◌, ◌++◌, Option, none, some, bytes_eq, if◌then◌else◌,
}
use unidoc.Core.Decoding.{Bytes}

pub record PdfObjectDictionary (V : Type 0) : Type 0 where
  pub dict : Bytes → Option V
  pub keys : List Bytes

abbrev pub is_some : {V : Type 0} → Option V → Bool
is_some none = false
is_some (some v) = true

abbrev pub contains : List Bytes → Bytes → Bool
contains [] key = false
contains (k ∷ ks) key = bytes_eq k key || contains ks key

-- `append(d.keys[:idx], d.keys[idx+1:]...)` for the first index of the key
abbrev pub remove_first : List Bytes → Bytes → List Bytes
remove_first [] key = []
remove_first (k ∷ ks) key = if bytes_eq k key then ks else k ∷ remove_first ks key

module _ {V : Type 0} where
  -- An assignment `m[key] = val` and `delete(m, key)`.
  abbrev pub assign : Bytes → Option V → (Bytes → Option V) → Bytes → Option V
  assign key o m j = if bytes_eq key j then o else m j

  abbrev pub make_dict : PdfObjectDictionary V
  make_dict = record { dict = λ j. none; keys = [] }

  unfoldable pub set : PdfObjectDictionary V → Bytes → V → PdfObjectDictionary V
  set d key val = record {
    dict = assign key (some val) d.dict;
    keys = if is_some (d.dict key) then d.keys else d.keys ++ key ∷ [];
  }

  unfoldable pub clear : PdfObjectDictionary V → PdfObjectDictionary V
  clear d = make_dict

  unfoldable pub remove : PdfObjectDictionary V → Bytes → PdfObjectDictionary V
  remove d key =
      if contains d.keys key
      then record { dict = assign key none d.dict; keys = remove_first d.keys key }
      else d

  -- `SetIfNotNil`: the test is for a type that the switch names and for a pointer that is not nil.
  unfoldable pub set_if_not_nil :
      (V → Bool) → PdfObjectDictionary V → Bytes → V → PdfObjectDictionary V
  unfolding set
  set_if_not_nil not_nil d key val = if not_nil val then set d key val else d

module _ {V : Type 0} (nil : V) where
  abbrev pub value_or_nil : Option V → V
  value_or_nil none = nil
  value_or_nil (some v) = v

  unfoldable pub get : PdfObjectDictionary V → Bytes → V
  get d key = value_or_nil (d.dict key)

  -- The loop of `Merge` over the keys of the other dictionary.
  unfoldable pub merge_keys :
      List Bytes → PdfObjectDictionary V → PdfObjectDictionary V → PdfObjectDictionary V
  merge_keys [] d another = d
  merge_keys (k ∷ ks) d another = merge_keys ks (set d k (get another k)) another

  unfoldable pub merge : PdfObjectDictionary V → PdfObjectDictionary V → PdfObjectDictionary V
  merge d another = merge_keys another.keys d another
