-- ===== src/Core/Object.antt =====
-- The direct objects of `pdf/core/primitives.go`. An array is a list of objects; a dictionary is the list
-- of its entries, for which `Core/Dictionary/Entries` has the reason. Indirect objects and streams are no
-- direct objects.
use unidoc.Prelude.{Bool, bytes_eq, if◌then◌else◌}
use unidoc.Prelude.Int.{ℤ}
use unidoc.Core.Decoding.{Bytes}

-- `F` is the type of the values of `float64`.
mutual
  pub data PdfObject (F : Type 0) : Type 0 where
    null : PdfObject F
    boolean : Bool → PdfObject F
    integer : ℤ → PdfObject F
    real : F → PdfObject F
    text : (val : Bytes) (is_hex : Bool) → PdfObject F
    name : Bytes → PdfObject F
    array : Elements F → PdfObject F
    dictionary : Entries F → PdfObject F
    reference : (object_number generation_number : ℤ) → PdfObject F

  pub data Elements (F : Type 0) : Type 0 where
    nil : Elements F
    cons : PdfObject F → Elements F → Elements F

  pub data Entries (F : Type 0) : Type 0 where
    empty : Entries F
    entry : Bytes → PdfObject F → Entries F → Entries F

-- `PdfObjectArray.Append`
unfoldable pub append : {F : Type 0} → Elements F → PdfObject F → Elements F
append nil o = cons o nil
append (cons p es) o = cons p (append es o)

-- `PdfObjectDictionary.Set` on the entries
unfoldable pub set_entry : {F : Type 0} → Bytes → PdfObject F → Entries F → Entries F
set_entry k v empty = entry k v empty
set_entry k v (entry j w es) = if bytes_eq j k then entry j v es else entry j w (set_entry k v es)
