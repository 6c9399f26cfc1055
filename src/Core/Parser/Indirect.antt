-- ===== src/Core/Parser/Indirect.antt =====
-- `parseObject` of `pdf/core/parser.go` on the texts of references.
use unidoc.Prelude.{
  ℕ, zero, suc, ◌^◌, ◌<◌, ◌≤◌, ◌≡◌, refl, sym, ◌∙◌, ap, false, [], ◌∷◌, ◌++◌, ◌==◌, Option, some,
  take, length, All, All-append, append_assoc, arith,
}
use unidoc.Prelude.Int.{pos}
use unidoc.Text.{has_prefix, read_unsigned, int_string}
use unidoc.Text.Numerals.{IsDigit, Numeral, decimal-Numeral}
use unidoc.Core.Decoding.{Bytes}
use unidoc.Core.Object.{reference}
use unidoc.Core.Lexer.{ok}
use unidoc.Core.WriteString.{write_reference}
use unidoc.Core.Parser.{
  match_reference, atoi, read_bytes, reference_of, parse_reference, number_or_reference,
  parse_other,
}
use unidoc.Core.Parser.References.{match_reference-some}

abbrev IsNoMark : ℕ → Type 0
IsNoMark c = (c == b'R') ≡ false

module _ {F : Type 0} (zero_float : F) (parse_float : Bytes → Option F) where
  -- A reference, where the regular expression sees all of it.
  read_through :
      (ds s : Bytes) → All IsNoMark ds → read_bytes b'R' (ds ++ b'R' ∷ s) ≡ (ds ++ b'R' ∷ [], s)
  unfolding read_bytes
  read_through [] s h = refl
  read_through (d ∷ ds) s (p, h) = rw (p, read_through ds s h) refl

  reads_reference :
      (bs word rest : Bytes) (m : Bytes × Bytes)
      → read_bytes b'R' bs ≡ (word, rest)
      → match_reference word ≡ some m
      → parse_reference {F = F} bs ≡ reference_of (some m) rest
  unfolding parse_reference
  reads_reference bs word rest m h e = rw (h, e) refl

  other_reference :
      (d : ℕ) (s : Bytes) (m : Bytes × Bytes)
      → IsDigit d
      → match_reference (take 15 (d ∷ s)) ≡ some m
      → parse_other zero_float parse_float (take 15 (d ∷ s)) (d ∷ s) ≡ parse_reference (d ∷ s)
  unfolding parse_other has_prefix number_or_reference
  other_reference d s m p e = ground (arith, e)

  parse_other_reference :
      (d : ℕ) (ds s : Bytes) (m : Bytes × Bytes)
      → IsDigit d
      → match_reference (take 15 (d ∷ ds ++ b'R' ∷ s)) ≡ some m
      → match_reference (d ∷ ds ++ b'R' ∷ []) ≡ some m
      → All IsNoMark (d ∷ ds)
      → parse_other zero_float parse_float (take 15 (d ∷ ds ++ b'R' ∷ s)) (d ∷ ds ++ b'R' ∷ s)
        ≡ reference_of (some m) s
  parse_other_reference d ds s m p e f h =
      other_reference d _ m p e ∙ reads_reference _ _ s m (read_through (d ∷ ds) s h) f

take-append : (k : ℕ) (w t : Bytes) → length w ≤ k → (j : ℕ) × (take k (w ++ t) ≡ w ++ take j t)
take-append k [] t h = (k, refl)
take-append zero (c ∷ w) t h = absurd (omega arith)
take-append (suc k) (c ∷ w) t h = let (j, p) = take-append k w t (omega arith) in (j, ap (◌∷◌ c) p)

atoi-Numeral : (n : ℕ) (s : Bytes) → n < 2 ^ 63 → Numeral n s → atoi s ≡ pos n
unfolding atoi read_unsigned
atoi-Numeral n [] h m = elim m [ ]
atoi-Numeral n (d ∷ ds) h (m, e) = rw e (ground arith)

digits-NoMark : (ds : Bytes) → All IsDigit ds → All IsNoMark ds
digits-NoMark [] h = tt
digits-NoMark (d ∷ ds) (p, h) = (ground arith, digits-NoMark ds h)

-- What stands before the mark of a reference.
abbrev before_mark : Bytes → Bytes → Bytes
before_mark s v = s ++ (b' ' ∷ v ++ b' ' ∷ [])

pub reference_text :
    (s v t : Bytes) → write_reference s v ++ t ≡ s ++ (b' ' ∷ v ++ (b' ' ∷ b'R' ∷ t))
unfolding write_reference
reference_text s v t = simp append_assoc

marked : (s v t : Bytes) → s ++ (b' ' ∷ v ++ (b' ' ∷ b'R' ∷ t)) ≡ before_mark s v ++ b'R' ∷ t
marked s v t = simp append_assoc

before_mark-NoMark : (s v : Bytes) → All IsDigit s → All IsDigit v → All IsNoMark (before_mark s v)
before_mark-NoMark s v h k =
    All-append IsNoMark s _ (digits-NoMark s h)
      (refl, All-append IsNoMark v _ (digits-NoMark v k) (refl, tt))

module _ (d : ℕ) (ds : Bytes) (g : ℕ) (gs t : Bytes) (h : All IsDigit (d ∷ ds))
    (k : All IsDigit (g ∷ gs)) where
  match_text : match_reference (write_reference (d ∷ ds) (g ∷ gs) ++ t) ≡ some (d ∷ ds, g ∷ gs)
  match_text = rw (reference_text (d ∷ ds) (g ∷ gs) t) (match_reference-some d ds g gs t h k)

  match_ahead :
      length (write_reference (d ∷ ds) (g ∷ gs)) ≤ 15
      → match_reference (take 15 (write_reference (d ∷ ds) (g ∷ gs) ++ t)) ≡ some (d ∷ ds, g ∷ gs)
  match_ahead l =
      let (j, p) = take-append 15 (write_reference (d ∷ ds) (g ∷ gs)) t l in
      ap match_reference p ∙ rest (take j t)
    where
      rest :
          (x : Bytes)
          → match_reference (write_reference (d ∷ ds) (g ∷ gs) ++ x) ≡ some (d ∷ ds, g ∷ gs)
      rest x = rw (reference_text (d ∷ ds) (g ∷ gs) x) (match_reference-some d ds g gs x h k)

  same_text : write_reference (d ∷ ds) (g ∷ gs) ++ t ≡ before_mark (d ∷ ds) (g ∷ gs) ++ b'R' ∷ t
  same_text = reference_text (d ∷ ds) (g ∷ gs) t ∙ marked (d ∷ ds) (g ∷ gs) t

  match_word : match_reference (before_mark (d ∷ ds) (g ∷ gs) ++ b'R' ∷ []) ≡ some (d ∷ ds, g ∷ gs)
  match_word = rw (← marked (d ∷ ds) (g ∷ gs) []) (match_reference-some d ds g gs [] h k)

module _ {F : Type 0} (zero_float : F) (parse_float : Bytes → Option F) where
  parses_reference :
      (d : ℕ) (ds : Bytes) (g : ℕ) (gs t : Bytes)
      → All IsDigit (d ∷ ds)
      → All IsDigit (g ∷ gs)
      → length (write_reference (d ∷ ds) (g ∷ gs)) ≤ 15
      → parse_other zero_float parse_float
          (take 15 (write_reference (d ∷ ds) (g ∷ gs) ++ t))
          (write_reference (d ∷ ds) (g ∷ gs) ++ t)
        ≡ reference_of (some (d ∷ ds, g ∷ gs)) t
  parses_reference d ds g gs t h k l =
      let e = same_text d ds g gs t h k in
      ap (λ X. parse_other zero_float parse_float (take 15 X) X) e
      ∙ parse_other_reference zero_float parse_float d (ds ++ (b' ' ∷ g ∷ gs ++ b' ' ∷ [])) t
          (d ∷ ds, g ∷ gs) h.0
          (ap (λ X. match_reference (take 15 X)) (sym e) ∙ match_ahead d ds g gs t h k l)
          (match_word d ds g gs t h k) (before_mark-NoMark (d ∷ ds) (g ∷ gs) h k)

  numerals :
      (n g : ℕ) (s v t : Bytes)
      → Numeral n s
      → Numeral g v
      → n < 2 ^ 63
      → g < 2 ^ 63
      → length (write_reference s v) ≤ 15
      → parse_other zero_float parse_float
          (take 15 (write_reference s v ++ t))
          (write_reference s v ++ t)
        ≡ ok (reference (pos n) (pos g)) t
  numerals n g [] v t a b p q l = elim a [ ]
  numerals n g (d ∷ ds) [] t a b p q l = elim b [ ]
  numerals n g (d ∷ ds) (e ∷ es) t a b p q l =
      parses_reference d ds e es t a.0 b.0 l
      ∙ (unfold reference_of in rw (atoi-Numeral n (d ∷ ds) p a, atoi-Numeral g (e ∷ es) q b) refl)

  -- A reference whose text the parser sees as a whole in its 15 bytes.
  pub parse_other-reference :
      (n g : ℕ) (t : Bytes)
      → n < 2 ^ 63
      → g < 2 ^ 63
      → length (write_reference (int_string (pos n)) (int_string (pos g))) ≤ 15
      → parse_other zero_float parse_float
          (take 15 (write_reference (int_string (pos n)) (int_string (pos g)) ++ t))
          (write_reference (int_string (pos n)) (int_string (pos g)) ++ t)
        ≡ ok (reference (pos n) (pos g)) t
  unfolding int_string
  parse_other-reference n g t p q l =
      numerals n g _ _ t (decimal-Numeral n (omega arith)) (decimal-Numeral g (omega arith)) p q l
