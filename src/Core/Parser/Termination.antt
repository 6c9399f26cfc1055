-- ===== src/Core/Parser/Termination.antt =====
-- `parseObject`, `parseArray` and `ParseDict` of `pdf/core/parser.go` end on every text without commas.
use unidoc.Prelude.{
  ℕ, zero, suc, ◌+◌, ◌*◌, ◌≤◌, ◌≡◌, ◌≢◌, false, ◌&&◌, [], ◌∷◌, Option, All, length, ◌==◌, if-both,
  arith,
}
use unidoc.Core.Decoding.{Bytes}
use unidoc.Core.Object.{PdfObject, Elements, nil, Entries, empty}
use unidoc.Core.Lexer.{out_of_fuel, Parsed, ok, err, panic, skip_spaces, skip_comments}
use unidoc.Core.Lexer.Tails.{
  Keeps, Keeps-and_then, skip_spaces-Keeps, skip_comments-Keeps, parse_name-Keeps,
}
use unidoc.Core.Parser.{
  kind_of, ends_with_null, array_round, entry_value, null_or_value, dict_entry, dict_round,
  parse_kind, parse_object, parse_array, parse_dict,
}
use unidoc.Core.Parser.Tails.{parse_kind-Keeps}

-- A tail of at most m bytes without a comma.
abbrev pub NoComma : ℕ → Type 0
NoComma b = (b == b',') ≡ false

abbrev Within : ℕ → Bytes → Type 0
Within m bs = (length bs ≤ m) × All NoComma bs

Within-tail : (m b : ℕ) (bs : Bytes) → Within m (b ∷ bs) → Within m bs
Within-tail m b bs (l, (n, h)) = (omega arith, h)

Within-more :
    {A : Type 0} {m n : ℕ} (r : Parsed A) → m ≤ n → Keeps (Within m) r → Keeps (Within n) r
Within-more (ok a rest) l (k, h) = (omega arith, h)
Within-more (err e) l h = h
Within-more panic l h = tt

module _ {F : Type 0} where
  array_round-Keeps :
      (object : Bytes → Parsed (PdfObject F)) (go : Elements F → Bytes → Parsed (Elements F))
      (es : Elements F) (m : ℕ) (bs : Bytes)
      → Within (suc m) bs
      → ((t : Bytes) → Within (suc m) t → 1 ≤ length t → Keeps (Within m) (object t))
      → ((acc : Elements F) (t : Bytes) → Within m t → Keeps (Within m) (go acc t))
      → Keeps (Within m) (array_round object go es bs)
  unfolding array_round
  array_round-Keeps object go es m [] h u v = λ e. cc
  array_round-Keeps object go es m (b ∷ bs) h u v =
      if-both (Keeps (Within m)) (b == b']') (λ _. (omega arith, h.1.1))
        (λ _.
          Keeps-and_then (Within m) (Within-tail m) _ _ (u (b ∷ bs) h (omega arith))
            (λ o rest k. v _ rest k))

  entry_value-Keeps :
      (object : Bytes → Parsed (PdfObject F)) (go : Entries F → Bytes → Parsed (Entries F))
      (es : Entries F) (m : ℕ) (key bs : Bytes)
      → Within m bs
      → ((t : Bytes) → Within m t → Keeps (Within m) (object t))
      → ((acc : Entries F) (t : Bytes) → Within m t → Keeps (Within m) (go acc t))
      → Keeps (Within m) (entry_value object go es key bs)
  unfolding entry_value
  entry_value-Keeps object go es m key bs h u v =
      Keeps-and_then (Within m) (Within-tail m) _ _ (u bs h) (λ o rest k. v _ rest k)

  null_or_value-Keeps :
      (object : Bytes → Parsed (PdfObject F)) (go : Entries F → Bytes → Parsed (Entries F))
      (es : Entries F) (m : ℕ) (key bs : Bytes)
      → Within m bs
      → ((t : Bytes) → Within m t → Keeps (Within m) (object t))
      → ((acc : Entries F) (t : Bytes) → Within m t → Keeps (Within m) (go acc t))
      → Keeps (Within m) (null_or_value object go es key bs)
  unfolding null_or_value
  null_or_value-Keeps object go es m key [] h u v = tt
  null_or_value-Keeps object go es m key (b ∷ bs) h u v =
      if-both (Keeps (Within m)) (b == b'/') (λ _. v _ (b ∷ bs) h)
        (λ _. entry_value-Keeps object go es m key (b ∷ bs) h u v)

  dict_round-Keeps :
      (object : Bytes → Parsed (PdfObject F)) (go : Entries F → Bytes → Parsed (Entries F))
      (es : Entries F) (m : ℕ) (bs : Bytes)
      → Within (suc m) bs
      → ((t : Bytes) → Within m t → Keeps (Within m) (object t))
      → ((acc : Entries F) (t : Bytes) → Within m t → Keeps (Within m) (go acc t))
      → Keeps (Within m) (dict_round object go es bs)
  unfolding dict_round dict_entry
  dict_round-Keeps object go es m [] h u v = λ e. cc
  dict_round-Keeps object go es m (a ∷ []) h u v = λ e. cc
  dict_round-Keeps object go es m (a ∷ b ∷ bs) (l, (p, (q, h))) u v =
      if-both (Keeps (Within m)) ((a == b'>') && (b == b'>')) (λ _. (omega arith, h))
        (λ _.
          Keeps-and_then (Within m) (Within-tail m) _ _
            (parse_name-Keeps (Within m) (Within-tail m) a (b ∷ bs) (omega arith, (q, h)))
            (λ key rest k.
              let k' = skip_spaces-Keeps (Within m) (Within-tail m) rest k in
              if-both (Keeps (Within m)) (ends_with_null key)
                (λ _. null_or_value-Keeps object go es m key _ k' u v)
                (λ _. entry_value-Keeps object go es m key _ k' u v)))

  array_at_end :
      (object : Bytes → Parsed (PdfObject F)) (go : Elements F → Bytes → Parsed (Elements F))
      (es : Elements F) (bs : Bytes)
      → Within 0 bs
      → Keeps (Within 0) (array_round object go es bs)
  unfolding array_round
  array_at_end object go es [] h = λ e. cc
  array_at_end object go es (b ∷ bs) h = absurd (omega arith)

  dict_at_end :
      (object : Bytes → Parsed (PdfObject F)) (go : Entries F → Bytes → Parsed (Entries F))
      (es : Entries F) (bs : Bytes)
      → Within 0 bs
      → Keeps (Within 0) (dict_round object go es bs)
  unfolding dict_round
  dict_at_end object go es [] h = λ e. cc
  dict_at_end object go es (b ∷ bs) h = absurd (omega arith)

module _ {F : Type 0} (zero_float : F) (parse_float : Bytes → Option F) where
  kind_of-Keeps :
      (arr : Bytes → Parsed (Elements F)) (dict : Bytes → Parsed (Entries F)) (m : ℕ) (bs : Bytes)
      → Within (suc m) bs
      → ((t : Bytes) → Within m t → Keeps (Within m) (arr t))
      → ((t : Bytes) → Within m t → Keeps (Within m) (dict t))
      → Keeps (Within m) (parse_kind zero_float parse_float arr dict (kind_of bs) bs)
  unfolding parse_kind kind_of
  kind_of-Keeps arr dict m [] h u v = λ e. cc
  kind_of-Keeps arr dict m (b ∷ bs) (l, (n, h)) u v =
      parse_kind-Keeps F (Within m) (Within-tail m) zero_float parse_float arr dict _ b bs u v n
        (omega arith, h)

  mutual
    unfolding parse_object

    object_ends :
        (n m : ℕ) (bs : Bytes)
        → Within (suc m) bs
        → 2 * m + 3 ≤ n
        → Keeps (Within m) (parse_object zero_float parse_float n bs)
    object_ends zero m bs h l = absurd (omega arith)
    object_ends (suc n) m bs h l =
        kind_of-Keeps _ _ m (skip_comments false bs)
          (skip_comments-Keeps (Within (suc m)) (Within-tail (suc m)) false bs h)
          (λ t k. array_ends n m nil t k (omega arith))
          (λ t k. dict_ends n m empty t k (omega arith))

    array_ends :
        (n m : ℕ) (es : Elements F) (bs : Bytes)
        → Within m bs
        → 2 * m + 2 ≤ n
        → Keeps (Within m) (parse_array zero_float parse_float n es bs)
    array_ends zero m es bs h l = absurd (omega arith)
    array_ends (suc n) zero es bs h l =
        array_at_end _ _ es (skip_spaces bs) (skip_spaces-Keeps (Within 0) (Within-tail 0) bs h)
    array_ends (suc n) (suc m) es bs h l = Within-more _ (omega arith) (
        array_round-Keeps _ _ es m (skip_spaces bs)
          (skip_spaces-Keeps (Within (suc m)) (Within-tail (suc m)) bs h)
          (λ t k i. object_ends n m t k (omega arith))
          (λ acc t k. array_ends n m acc t k (omega arith)))

    dict_ends :
        (n m : ℕ) (es : Entries F) (bs : Bytes)
        → Within m bs
        → 2 * m + 2 ≤ n
        → Keeps (Within m) (parse_dict zero_float parse_float n es bs)
    dict_ends zero m es bs h l = absurd (omega arith)
    dict_ends (suc n) zero es bs h l =
        dict_at_end _ _ es (skip_comments false bs)
          (skip_comments-Keeps (Within 0) (Within-tail 0) false bs h)
    dict_ends (suc n) (suc m) es bs h l = Within-more _ (omega arith) (
        dict_round-Keeps _ _ es m (skip_comments false bs)
          (skip_comments-Keeps (Within (suc m)) (Within-tail (suc m)) false bs h)
          (λ t k. object_ends n m t (omega arith, k.1) (omega arith))
          (λ acc t k. dict_ends n m acc t k (omega arith)))

  known : {A : Type 0} (m : ℕ) (r : Parsed A) → Keeps (Within m) r → r ≢ err out_of_fuel
  known m (ok a rest) h = λ e. cc
  known m (err x) h = λ e. h cc
  known m panic h = λ e. cc

  -- On every text without commas, parsing an object ends, with an object, an error of the code or a
  -- panic: twice as many rounds as the text has bytes, and three more, are enough.
  pub parse_object_ends :
      (bs : Bytes) (n : ℕ)
      → All NoComma bs
      → 2 * length bs + 3 ≤ n
      → parse_object zero_float parse_float n bs ≢ err out_of_fuel
  parse_object_ends bs n h l = known _ _ (object_ends n (length bs) bs (omega arith, h) l)
