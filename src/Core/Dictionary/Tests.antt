-- ===== src/Core/Dictionary/Tests.antt =====
-- Runs of `PdfObjectDictionary` (`pdf/core/primitives.go`) at concrete inputs, and its theorems at
-- inputs that meet the hypotheses.
use unidoc.Prelude.{ℕ, ◌≡◌, refl, [], ◌∷◌, codes}
use unidoc.Core.Dictionary.{PdfObjectDictionary, make_dict, set, get, remove, merge, merge_keys}
use unidoc.Core.Dictionary.Validity.{IsValid, Built, made, key_set, key_removed, Built-IsValid}
use unidoc.Core.Dictionary.Entries.{entries, insert, erase, insert_all, look_up, dictionary-Entries}

abbrev two_keys : PdfObjectDictionary ℕ
two_keys = set (set make_dict (codes "Type") 1) (codes "Size") 2

abbrev one_key : PdfObjectDictionary ℕ
one_key = set make_dict (codes "Size") 3

two_keys-Built : Built 0 two_keys
two_keys-Built = key_set (codes "Size") 2 (key_set (codes "Type") 1 made)

Built-IsValid_example : IsValid (remove two_keys (codes "Type"))
Built-IsValid_example = Built-IsValid 0 (key_removed (codes "Type") two_keys-Built)

merged_size : get 0 (merge 0 two_keys one_key) (codes "Size") ≡ 3
unfolding get merge merge_keys set
merged_size = refl

merged_keys : (merge 0 two_keys one_key).keys ≡ codes "Type" ∷ codes "Size" ∷ []
unfolding merge merge_keys set
merged_keys = refl

dictionary-Entries_example :
    (get 0 two_keys (codes "Size") ≡ look_up 0 (codes "Size") (entries 0 two_keys))
    × (entries 0 (set two_keys (codes "Size") 5) ≡ insert (codes "Size") 5 (entries 0 two_keys))
    × (entries 0 (remove two_keys (codes "Size")) ≡ erase (codes "Size") (entries 0 two_keys))
    × (entries 0 (merge 0 two_keys one_key) ≡ insert_all (entries 0 one_key) (entries 0 two_keys))
dictionary-Entries_example =
    dictionary-Entries 0 two_keys one_key (codes "Size") 5 (Built-IsValid 0 two_keys-Built)
