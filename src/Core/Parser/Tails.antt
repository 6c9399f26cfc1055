-- ===== src/Core/Parser/Tails.antt =====
-- What the branches of `parseObject` (`pdf/core/parser.go`) leave of a text is a tail of it, without its first
-- byte unless this is a comma.
use unidoc.Prelude.{
  ℕ, ◌≡◌, true, false, [], ◌∷◌, Option, none, some, take, ◌==◌, if-both, arith, codes,
}
use unidoc.Text.{has_prefix}
use unidoc.Core.Decoding.{Bytes}
use unidoc.Core.Object.{Elements, Entries}
use unidoc.Core.Lexer.{Parsed, Scanned, scan_number}
use unidoc.Core.Lexer.Tails.{
  Keeps, Keeps-and_then, drop-Keeps, parse_name-Keeps, parse_string-Keeps, parse_hex_string-Keeps,
  scan_number-Keeps,
}
use unidoc.Core.Parser.{
  match_numeric, read_bytes, reference_of, parse_reference, number_of, Kind, at_end, name_kind,
  string_kind, array_kind, dict_kind, hex_kind, other, parse_number, number_or_reference,
  parse_other, parse_kind,
}

module _ (F : Type 0) (Q : Bytes → Type 0) (tail : (b : ℕ) (bs : Bytes) → Q (b ∷ bs) → Q bs) where
  read_bytes-Keeps : (d : ℕ) (bs : Bytes) → Q bs → Q (read_bytes d bs).1
  unfolding read_bytes
  read_bytes-Keeps d [] h = h
  read_bytes-Keeps d (b ∷ bs) h =
      if-both (λ (w : Bytes × Bytes). Q w.1) (b == d) (λ _. tail b bs h)
        (λ _. read_bytes-Keeps d bs (tail b bs h))

  first_read : (d b : ℕ) (bs : Bytes) → Q bs → Q (read_bytes d (b ∷ bs)).1
  unfolding read_bytes
  first_read d b bs h =
      if-both (λ (w : Bytes × Bytes). Q w.1) (b == d) (λ _. h) (λ _. read_bytes-Keeps d bs h)

  reference_of-Keeps :
      (o : Option (Bytes × Bytes)) (rest : Bytes) → Q rest → Keeps Q (reference_of {F = F} o rest)
  unfolding reference_of
  reference_of-Keeps none rest h = λ e. cc
  reference_of-Keeps (some (n, g)) rest h = h

  parse_reference-Keeps : (b : ℕ) (bs : Bytes) → Q bs → Keeps Q (parse_reference {F = F} (b ∷ bs))
  unfolding parse_reference
  parse_reference-Keeps b bs h = reference_of-Keeps _ _ (first_read b'R' b bs h)

  module _ (zero_float : F) (parse_float : Bytes → Option F) where
    number_of-Keeps : (s : Scanned) → Q s.unread → Keeps Q (number_of zero_float parse_float s)
    unfolding number_of
    number_of-Keeps s h = if-both (Keeps Q) s.is_float (λ _. h) (λ _. h)

    -- A text that `reNumeric` matches begins with a byte of a number or with a comma.
    number_read :
        (b : ℕ) (bs ahead : Bytes)
        → (b == b',') ≡ false
        → match_numeric (b ∷ ahead) ≡ true
        → Q bs
        → Q (scan_number true false [] (b ∷ bs)).unread
    unfolding scan_number match_numeric
    number_read b bs ahead n m h = ground (
      arith,
      n,
      m,
      h,
      scan_number-Keeps Q tail false false (b ∷ []) bs h,
      scan_number-Keeps Q tail true false (b ∷ []) bs h,
      scan_number-Keeps Q tail true true (b ∷ []) bs h,
    )

    number_or_reference-Keeps :
        (o : Option (Bytes × Bytes)) (ahead : Bytes) (b : ℕ) (bs : Bytes)
        → (b == b',') ≡ false
        → Q bs
        → Keeps Q (number_or_reference zero_float parse_float o (b ∷ ahead) (b ∷ bs))
    unfolding number_or_reference parse_number
    number_or_reference-Keeps (some r) ahead b bs n h = parse_reference-Keeps b bs h
    number_or_reference-Keeps none ahead b bs n h =
        if-both (Keeps Q) (match_numeric (b ∷ ahead))
          (λ m. number_of-Keeps _ (number_read b bs ahead n m h)) (λ _ e. cc)

    parse_other-Keeps :
        (ahead : Bytes) (b : ℕ) (bs : Bytes)
        → (b == b',') ≡ false
        → Q bs
        → Keeps Q (parse_other zero_float parse_float (b ∷ ahead) (b ∷ bs))
    unfolding parse_other
    parse_other-Keeps ahead b bs n h =
        if-both (Keeps Q) (has_prefix (codes "null") (b ∷ ahead)) (λ _. drop-Keeps Q tail 3 bs h)
          (λ _.
            if-both (Keeps Q) (has_prefix (codes "false") (b ∷ ahead))
              (λ _. drop-Keeps Q tail 4 bs h)
              (λ _.
                if-both (Keeps Q) (has_prefix (codes "true") (b ∷ ahead))
                  (λ _. drop-Keeps Q tail 3 bs h)
                  (λ _. number_or_reference-Keeps _ ahead b bs n h)))

    pub parse_kind-Keeps :
        (arr : Bytes → Parsed (Elements F)) (dict : Bytes → Parsed (Entries F)) (k : Kind) (b : ℕ)
        (bs : Bytes)
        → ((t : Bytes) → Q t → Keeps Q (arr t))
        → ((t : Bytes) → Q t → Keeps Q (dict t))
        → (b == b',') ≡ false
        → Q bs
        → Keeps Q (parse_kind zero_float parse_float arr dict k (b ∷ bs))
    unfolding parse_kind
    parse_kind-Keeps arr dict at_end b bs u v n h = λ e. cc
    parse_kind-Keeps arr dict name_kind b bs u v n h =
        Keeps-and_then Q tail _ _ (parse_name-Keeps Q tail b bs h) (λ a r k. k)
    parse_kind-Keeps arr dict string_kind b bs u v n h =
        Keeps-and_then Q tail _ _ (parse_string-Keeps Q tail b bs h) (λ a r k. k)
    parse_kind-Keeps arr dict array_kind b bs u v n h =
        Keeps-and_then Q tail _ _ (u bs h) (λ a r k. k)
    parse_kind-Keeps arr dict dict_kind b bs u v n h =
        Keeps-and_then Q tail _ _ (v _ (drop-Keeps Q tail 1 bs h)) (λ a r k. k)
    parse_kind-Keeps arr dict hex_kind b bs u v n h =
        Keeps-and_then Q tail _ _ (parse_hex_string-Keeps Q tail b bs h) (λ a r k. k)
    parse_kind-Keeps arr dict other b bs u v n h = parse_other-Keeps (take 14 bs) b bs n h
