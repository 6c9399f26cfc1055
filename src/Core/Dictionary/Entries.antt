-- ===== src/Core/Dictionary/Entries.antt =====
-- A `PdfObjectDictionary` (`pdf/core/primitives.go`) as the list of its entries: each operation is one
-- on this list.
use unidoc.Prelude.{
  ◌≡◌, refl, ap, sym, ◌∙◌, true, false, List, [], ◌∷◌, ◌++◌, none, some, bytes_eq, Bool-cases, inl,
  inr, if◌then◌else◌, arith, Option,
}
use unidoc.Core.Decoding.{Bytes}
use unidoc.Core.Dictionary.{
  PdfObjectDictionary, is_some, contains, remove_first, assign, set, remove, get, value_or_nil,
  merge_keys, merge,
}
use unidoc.Core.Dictionary.Validity.{
  bytes_eq_lem, bytes_eq_self, bytes_eq_comm, Nodup, IsValid, set-IsValid, contains_eq,
}

-- The specification: a list of entries in the order of their first insertion.
module _ {V : Type 0} where
  unfoldable pub insert : Bytes → V → List (Bytes × V) → List (Bytes × V)
  insert k v [] = (k, v) ∷ []
  insert k v ((j, w) ∷ es) = if bytes_eq j k then (j, v) ∷ es else (j, w) ∷ insert k v es

  unfoldable pub erase : Bytes → List (Bytes × V) → List (Bytes × V)
  erase k [] = []
  erase k ((j, w) ∷ es) = if bytes_eq j k then es else (j, w) ∷ erase k es

  unfoldable pub insert_all : List (Bytes × V) → List (Bytes × V) → List (Bytes × V)
  insert_all [] es = es
  insert_all ((k, v) ∷ new) es = insert_all new (insert k v es)

module _ {V : Type 0} (nil : V) where
  unfoldable pub look_up : Bytes → List (Bytes × V) → V
  look_up k [] = nil
  look_up k ((j, w) ∷ es) = if bytes_eq j k then w else look_up k es

  -- What a dictionary stands for.
  unfoldable pub entries_at : (Bytes → Option V) → List Bytes → List (Bytes × V)
  entries_at f [] = []
  entries_at f (k ∷ ks) = (k, value_or_nil nil (f k)) ∷ entries_at f ks

  unfoldable pub entries : PdfObjectDictionary V → List (Bytes × V)
  unfolding entries_at
  entries d = entries_at d.dict d.keys

  untouched :
      (f : Bytes → Option V) (k : Bytes) (o : Option V) (ks : List Bytes)
      → contains ks k ≡ false
      → entries_at (assign k o f) ks ≡ entries_at f ks
  unfolding entries_at
  untouched f k o [] h = refl
  untouched f k o (x ∷ ks) h = ground (arith, bytes_eq_comm x k, untouched f k o ks)

  replaced :
      (f : Bytes → Option V) (k : Bytes) (v : V) (ks : List Bytes)
      → Nodup ks
      → contains ks k ≡ true
      → entries_at (assign k (some v) f) ks ≡ insert k v (entries_at f ks)
  unfolding entries_at insert
  replaced f k v [] n h = cc
  replaced f k v (x ∷ ks) (m, n) h = elim (Bool-cases (bytes_eq x k)) [
    | inl e ↦
        rw (e, bytes_eq_comm k x, e)
          (ap (λ es. (x, v) ∷ es) (untouched f k (some v) ks (sym (contains_eq ks x k e) ∙ m)))
    | inr e ↦
        rw (e, bytes_eq_comm k x, e)
          (ap (λ es. (x, value_or_nil nil (f x)) ∷ es) (replaced f k v ks n (ground arith)))
  ]

  appended :
      (f : Bytes → Option V) (k : Bytes) (v : V) (ks : List Bytes)
      → contains ks k ≡ false
      → entries_at (assign k (some v) f) (ks ++ k ∷ []) ≡ insert k v (entries_at f ks)
  unfolding entries_at insert
  appended f k v [] h = rw (bytes_eq_self k) refl
  appended f k v (x ∷ ks) h = ground (arith, bytes_eq_comm x k, appended f k v ks)

  removed :
      (f : Bytes → Option V) (k : Bytes) (ks : List Bytes)
      → Nodup ks
      → entries_at (assign k none f) (remove_first ks k) ≡ erase k (entries_at f ks)
  unfolding entries_at erase
  removed f k [] n = refl
  removed f k (x ∷ ks) (m, n) = elim (Bool-cases (bytes_eq x k)) [
    | inl e ↦ rw e (untouched f k none ks (sym (contains_eq ks x k e) ∙ m))
    | inr e ↦
        rw (e, bytes_eq_comm k x, e)
          (ap (λ es. (x, value_or_nil nil (f x)) ∷ es) (removed f k ks n))
  ]

  absent :
      (f : Bytes → Option V) (k : Bytes) (ks : List Bytes)
      → contains ks k ≡ false
      → erase k (entries_at f ks) ≡ entries_at f ks
  unfolding entries_at erase
  absent f k [] h = refl
  absent f k (x ∷ ks) h = ground (arith, absent f k ks)

  found :
      (f : Bytes → Option V) (k : Bytes) (ks : List Bytes)
      → look_up k (entries_at f ks) ≡ (if contains ks k then value_or_nil nil (f k) else nil)
  unfolding entries_at look_up
  found f k [] = refl
  found f k (x ∷ ks) = ground (arith, bytes_eq_lem x k, found f k ks)

  set-insert :
      (d : PdfObjectDictionary V) (key : Bytes) (val : V)
      → IsValid d
      → entries (set d key val) ≡ insert key val (entries d)
  unfolding set entries
  set-insert d key val h = elim (Bool-cases (is_some (d.dict key))) [
    | inl e ↦ rw e (replaced d.dict key val d.keys h.nodup (h.known key ∙ e))
    | inr e ↦ rw e (appended d.dict key val d.keys (h.known key ∙ e))
  ]

  remove-erase :
      (d : PdfObjectDictionary V) (key : Bytes)
      → IsValid d
      → entries (remove d key) ≡ erase key (entries d)
  unfolding remove entries
  remove-erase d key h = elim (Bool-cases (contains d.keys key)) [
    | inl e ↦ rw e (removed d.dict key d.keys h.nodup)
    | inr e ↦ rw e (sym (absent d.dict key d.keys e))
  ]

  get-look_up :
      (d : PdfObjectDictionary V) (key : Bytes)
      → IsValid d
      → get nil d key ≡ look_up key (entries d)
  unfolding get entries
  get-look_up d key h = rw (found d.dict key d.keys) (missing (d.dict key) (h.known key))
    where
      missing :
          (o : Option V)
          → contains d.keys key ≡ is_some o
          → value_or_nil nil o ≡ (if contains d.keys key then value_or_nil nil o else nil)
      missing none e = rw e refl
      missing (some v) e = rw e refl

  merge_keys-insert_all :
      (ks : List Bytes) (d another : PdfObjectDictionary V)
      → IsValid d
      → entries (merge_keys nil ks d another) ≡ insert_all (entries_at another.dict ks) (entries d)
  unfolding merge_keys insert_all entries_at get
  merge_keys-insert_all [] d another h = refl
  merge_keys-insert_all (k ∷ ks) d another h =
      merge_keys-insert_all ks _ another (set-IsValid d k (get nil another k) h)
      ∙ ap (insert_all (entries_at another.dict ks)) (set-insert d k (get nil another k) h)

  -- A dictionary whose keys and map agree stands for a list of entries: Get looks a key up in it and
  -- gives nil for a key that is missing, Set replaces the value of the key where it stands or appends
  -- an entry, Remove deletes the entry of the key, and Merge sets the entries of the other one after
  -- the other.
  pub dictionary-Entries :
      (d another : PdfObjectDictionary V) (key : Bytes) (val : V)
      → IsValid d
      → (get nil d key ≡ look_up key (entries d))
        × (entries (set d key val) ≡ insert key val (entries d))
        × (entries (remove d key) ≡ erase key (entries d))
        × (entries (merge nil d another) ≡ insert_all (entries another) (entries d))
  unfolding merge entries
  dictionary-Entries d another key val h = (
    get-look_up d key h,
    set-insert d key val h,
    remove-erase d key h,
    merge_keys-insert_all another.keys d another h,
  )
