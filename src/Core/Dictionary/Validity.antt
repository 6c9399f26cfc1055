-- ===== src/Core/Dictionary/Validity.antt =====
-- The keys and the map of a `PdfObjectDictionary` (`pdf/core/primitives.go`) agree.
use unidoc.Prelude.{
  ◌≡◌, refl, ap, Bool, true, false, not, ◌&&◌, ◌||◌, List, [], ◌∷◌, ◌++◌, bytes_eq, Option,
  if◌then◌else◌, Bool-cases, inl, inr, arith,
}
use unidoc.Core.Decoding.{Bytes}
use unidoc.Core.Dictionary.{
  PdfObjectDictionary, is_some, contains, remove_first, assign, make_dict, set, clear, remove,
  set_if_not_nil, get, merge_keys, merge,
}

pub bytes_eq_lem : (a b : Bytes) → bytes_eq a b ≡ true → a ≡ b
bytes_eq_lem [] [] h = refl
bytes_eq_lem [] (y ∷ b) h = cc
bytes_eq_lem (x ∷ a) [] h = cc
bytes_eq_lem (x ∷ a) (y ∷ b) h = ground (arith, bytes_eq_lem a b)

pub bytes_eq_self : (a : Bytes) → bytes_eq a a ≡ true
bytes_eq_self [] = refl
bytes_eq_self (x ∷ a) = ground (arith, bytes_eq_self a)

pub bytes_eq_comm : (a b : Bytes) → bytes_eq a b ≡ bytes_eq b a
bytes_eq_comm [] [] = refl
bytes_eq_comm [] (y ∷ b) = refl
bytes_eq_comm (x ∷ a) [] = refl
bytes_eq_comm (x ∷ a) (y ∷ b) = ground (arith, bytes_eq_comm a b)

abbrev pub Nodup : List Bytes → Type 0
Nodup [] = Unit
Nodup (k ∷ ks) = (contains ks k ≡ false) × Nodup ks

-- No key is listed twice, and the listed keys are those of the map.
pub record IsValid {V : Type 0} (d : PdfObjectDictionary V) : Type 0 where
  pub nodup : Nodup d.keys
  pub known : (key : Bytes) → contains d.keys key ≡ is_some (d.dict key)

contains-snoc :
    (ks : List Bytes) (k j : Bytes) → contains (ks ++ k ∷ []) j ≡ (contains ks j || bytes_eq k j)
contains-snoc [] k j = ground arith
contains-snoc (x ∷ ks) k j = ground (arith, contains-snoc ks k j)

pub contains_eq :
    (ks : List Bytes) (k j : Bytes) → bytes_eq k j ≡ true → contains ks k ≡ contains ks j
contains_eq ks k j h = ap (contains ks) (bytes_eq_lem k j h)

Nodup-snoc : (ks : List Bytes) (k : Bytes) → Nodup ks → contains ks k ≡ false → Nodup (ks ++ k ∷ [])
Nodup-snoc [] k n h = (refl, tt)
Nodup-snoc (x ∷ ks) k (m, n) h =
    (ground (arith, contains-snoc ks k x, bytes_eq_comm k x), Nodup-snoc ks k n (ground arith))

contains-remove_first :
    (ks : List Bytes) (k j : Bytes)
    → Nodup ks
    → contains (remove_first ks k) j ≡ (contains ks j && not (bytes_eq k j))
contains-remove_first [] k j n = refl
contains-remove_first (x ∷ ks) k j (m, n) = elim (Bool-cases (bytes_eq x k)) [
  | inl e ↦ rw e (ground (arith, bytes_eq_lem x k e, contains_eq ks x j))
  | inr e ↦
      rw e (ground (arith, bytes_eq_lem x j, bytes_eq_comm k j, contains-remove_first ks k j n))
]

Nodup-remove_first : (ks : List Bytes) (k : Bytes) → Nodup ks → Nodup (remove_first ks k)
Nodup-remove_first [] k n = tt
Nodup-remove_first (x ∷ ks) k (m, n) = elim (Bool-cases (bytes_eq x k)) [
  | inl e ↦ rw e n
  | inr e ↦ rw e (ground (arith, contains-remove_first ks k x n), Nodup-remove_first ks k n)
]

module _ {V : Type 0} where
  make_dict-IsValid : IsValid (make_dict {V = V})
  make_dict-IsValid = record { nodup = tt; known = λ key. refl }

  assign_known :
      (f : Bytes → Option V) (key : Bytes) (o : Option V) (j : Bytes)
      → is_some (assign key o f j) ≡ (if bytes_eq key j then is_some o else is_some (f j))
  assign_known f key o j = ground arith

  pub set-IsValid :
      (d : PdfObjectDictionary V) (key : Bytes) (val : V) → IsValid d → IsValid (set d key val)
  unfolding set
  set-IsValid d key val v = elim (Bool-cases (is_some (d.dict key))) [
    | inl e ↦ rw e (record {
      nodup = v.nodup;
      known =
          λ j. ground (arith, v.known j, v.known key, bytes_eq_lem key j, contains_eq d.keys key j);
    })
    | inr e ↦ rw e (record {
      nodup = Nodup-snoc d.keys key v.nodup (ground (arith, v.known key));
      known = λ j. ground (arith, v.known j, contains-snoc d.keys key j);
    })
  ]

  remove-IsValid : (d : PdfObjectDictionary V) (key : Bytes) → IsValid d → IsValid (remove d key)
  unfolding remove
  remove-IsValid d key v = elim (Bool-cases (contains d.keys key)) [
    | inl e ↦ rw e (record {
      nodup = Nodup-remove_first d.keys key v.nodup;
      known = λ j. ground (arith, v.known j, contains-remove_first d.keys key j v.nodup);
    })
    | inr e ↦ rw e v
  ]

-- The dictionaries that the operations make, from `MakeDict` on.
pub data Built {V : Type 0} (nil : V) : PdfObjectDictionary V → Type 0 where
  made : Built nil make_dict
  key_set :
      {d : PdfObjectDictionary V} (key : Bytes) (val : V) → Built nil d → Built nil (set d key val)
  key_set_if :
      {d : PdfObjectDictionary V} (not_nil : V → Bool) (key : Bytes) (val : V)
      → Built nil d
      → Built nil (set_if_not_nil not_nil d key val)
  key_removed : {d : PdfObjectDictionary V} (key : Bytes) → Built nil d → Built nil (remove d key)
  cleared : {d : PdfObjectDictionary V} → Built nil d → Built nil (clear d)
  merged :
      {d another : PdfObjectDictionary V}
      → Built nil d
      → Built nil another
      → Built nil (merge nil d another)

module _ {V : Type 0} (nil : V) where
  conditionally :
      (c : Bool) {d e : PdfObjectDictionary V}
      → IsValid d
      → IsValid e
      → IsValid (if c then d else e)
  conditionally true p q = p
  conditionally false p q = q

  merge_keys-IsValid :
      (ks : List Bytes) (d another : PdfObjectDictionary V)
      → IsValid d
      → IsValid (merge_keys nil ks d another)
  unfolding merge_keys
  merge_keys-IsValid [] d another v = v
  merge_keys-IsValid (k ∷ ks) d another v =
      merge_keys-IsValid ks _ another (set-IsValid d k (get nil another k) v)

  -- In every dictionary that MakeDict, Set, SetIfNotNil, Remove, Clear and Merge make, in any order,
  -- no key is listed twice and the listed keys are exactly those of the map.
  pub Built-IsValid : {d : PdfObjectDictionary V} → Built nil d → IsValid d
  unfolding set_if_not_nil clear merge
  Built-IsValid made = make_dict-IsValid
  Built-IsValid (key_set {d} key val b) = set-IsValid d key val (Built-IsValid b)
  Built-IsValid (key_set_if {d} not_nil key val b) =
      conditionally (not_nil val) (set-IsValid d key val (Built-IsValid b)) (Built-IsValid b)
  Built-IsValid (key_removed {d} key b) = remove-IsValid d key (Built-IsValid b)
  Built-IsValid (cleared b) = make_dict-IsValid
  Built-IsValid (merged {d} {another} b c) =
      merge_keys-IsValid another.keys d another (Built-IsValid b)
