-- ===== src/Core/Parser/References.antt =====
-- What the regular expression `reReference` of `pdf/core/parser.go` finds in the 15 bytes at which
-- `parseObject` peeks.
use unidoc.Prelude.{
  ℕ, zero, suc, ◌≡◌, refl, ◌∙◌, ap, sym, Bool, true, false, [], ◌∷◌, ◌++◌, ◌⊎◌, inl, inr, Option,
  none, some, take, All, Bool-cases, arith, ◌==◌, if◌then◌else◌,
}
use unidoc.Core.Symbols.{is_decimal_digit}
use unidoc.Core.Decoding.{Bytes}
use unidoc.Text.Numerals.{IsDigit}
use unidoc.Core.Parser.{
  is_re_space, span, on_word, one_or_more, starts_with, match_end, match_generation,
  match_reference,
}

-- In a part of a text a word is cut short, or it is the same word.
span-take :
    (test : ℕ → Bool) (k : ℕ) (s : Bytes)
    → ((span test (take k s)).1 ≡ [])
      ⊎ ((j : ℕ) × ((span test (take k s)).0 ≡ (span test s).0)
          × ((span test (take k s)).1 ≡ take j (span test s).1))
unfolding span
span-take test zero s = inl refl
span-take test (suc k) [] = inl refl
span-take test (suc k) (b ∷ s) = elim (Bool-cases (test b)) [
  | inl e ↦
      rw e (elim (span-take test k s) [ inl h ↦ inl h | inr (j, p, q) ↦ inr (j, ap (◌∷◌ b) p, q) ])
  | inr e ↦ rw e (inr (suc k, refl, refl))
]

module _ {A : Type 0} where
  -- A test that fails on a text fails on each part of it, and on nothing.
  abbrev Shrinks : (Bytes → Option A) → Type 0
  Shrinks f = (f [] ≡ none) × ((k : ℕ) (s : Bytes) → f s ≡ none → f (take k s) ≡ none)

  on_word-nothing :
      (next : Bytes → Bytes → Option A)
      → ((w : Bytes) → next w [] ≡ none)
      → (w : Bytes) → on_word next (w, []) ≡ none
  on_word-nothing next h [] = refl
  on_word-nothing next h (b ∷ w) = h (b ∷ w)

  on_word-take :
      (next : Bytes → Bytes → Option A)
      → ((w : Bytes) (k : ℕ) (s : Bytes) → next w s ≡ none → next w (take k s) ≡ none)
      → (w : Bytes) (j : ℕ) (s : Bytes) → on_word next (w, s) ≡ none
      → on_word next (w, take j s) ≡ none
  on_word-take next h [] j s e = refl
  on_word-take next h (b ∷ w) j s e = h (b ∷ w) j s e

  one_or_more_parts :
      (test : ℕ → Bool) (s : Bytes) (next : Bytes → Bytes → Option A)
      → one_or_more test s next ≡ on_word next ((span test s).0, (span test s).1)
  unfolding one_or_more
  one_or_more_parts test s next = refl

  one_or_more-nil :
      (test : ℕ → Bool) (next : Bytes → Bytes → Option A) → one_or_more test [] next ≡ none
  unfolding one_or_more span
  one_or_more-nil test next = refl

  one_or_more-take :
      (test : ℕ → Bool) (next : Bytes → Bytes → Option A)
      → ((w : Bytes) → Shrinks (next w))
      → (k : ℕ) (s : Bytes) → one_or_more test s next ≡ none
      → one_or_more test (take k s) next ≡ none
  one_or_more-take test next h k s e =
      one_or_more_parts test (take k s) next ∙ (elim (span-take test k s) [
        | inl p ↦ rw p (on_word-nothing next (λ w. (h w).0) _)
        | inr (j, p, q) ↦
            rw (p, q)
              (on_word-take next (λ w. (h w).1) _ j _ (sym (one_or_more_parts test s next) ∙ e))
      ])

  one_or_more-Shrinks :
      (test : ℕ → Bool) (next : Bytes → Bytes → Option A)
      → ((w : Bytes) → Shrinks (next w))
      → Shrinks (λ s. one_or_more test s next)
  one_or_more-Shrinks test next h = (one_or_more-nil test next, one_or_more-take test next h)

marker-Shrinks :
    (w v u : Bytes)
    → Shrinks {A = Bytes × Bytes} (λ s. if starts_with b'R' s then some (w, v) else none)
marker-Shrinks w v u = (refl, part)
  where
    marked : Bytes → Option (Bytes × Bytes)
    marked s = if starts_with b'R' s then some (w, v) else none

    part : (k : ℕ) (s : Bytes) → marked s ≡ none → marked (take k s) ≡ none
    part zero s e = refl
    part (suc k) [] e = refl
    part (suc k) (b ∷ s) e = e

match_end-Shrinks : (w v : Bytes) → Shrinks (match_end w v)
unfolding match_end
match_end-Shrinks w v = one_or_more-Shrinks is_re_space _ (marker-Shrinks w v)

match_generation-Shrinks : (w : Bytes) → Shrinks (match_generation w)
unfolding match_generation
match_generation-Shrinks w =
    one_or_more-Shrinks is_re_space _
      (λ _. one_or_more-Shrinks is_decimal_digit _ (match_end-Shrinks w))

-- A text that begins with no space: the spaces of the expression are none.
pub span-none :
    (test : ℕ → Bool) (b : ℕ) (s : Bytes) → test b ≡ false → span test (b ∷ s) ≡ ([], b ∷ s)
unfolding span
span-none test b s h = rw h refl

span-All :
    (test : ℕ → Bool) (w s : Bytes)
    → All (λ c. test c ≡ true) w
    → span test s ≡ ([], s)
    → span test (w ++ s) ≡ (w, s)
unfolding span
span-All test [] s h e = e
span-All test (c ∷ w) s (p, h) e = rw (p, span-All test w s h e) refl

pub match_reference-take :
    (k b : ℕ) (s : Bytes)
    → is_re_space b ≡ false
    → match_reference (b ∷ s) ≡ none
    → match_reference (take k (b ∷ s)) ≡ none
unfolding match_reference
match_reference-take zero b s h e = unfold span in one_or_more-nil is_decimal_digit match_generation
match_reference-take (suc k) b s h e = rw (span-none is_re_space b (take k s) h) (
    one_or_more-take is_decimal_digit match_generation match_generation-Shrinks (suc k) (b ∷ s)
      (rw (span-none is_re_space b s h) at e))

-- No digit stands at the head.
abbrev pub EndsDigits : Bytes → Type 0
EndsDigits [] = Unit
EndsDigits (b ∷ s) = is_decimal_digit b ≡ false

span-EndsDigits : (s : Bytes) → EndsDigits s → span is_decimal_digit s ≡ ([], s)
span-EndsDigits [] h = unfold span in refl
span-EndsDigits (b ∷ s) h = span-none is_decimal_digit b s h

one_or_more-digits :
    {A : Type 0} (next : Bytes → Bytes → Option A) (d : ℕ) (ds s : Bytes)
    → All IsDigit (d ∷ ds)
    → EndsDigits s
    → one_or_more is_decimal_digit (d ∷ ds ++ s) next ≡ next (d ∷ ds) s
unfolding one_or_more
one_or_more-digits next d ds s h e =
    rw (span-All is_decimal_digit (d ∷ ds) s h (span-EndsDigits s e)) refl

one_or_more-none :
    {A : Type 0} (test : ℕ → Bool) (next : Bytes → Bytes → Option A) (b : ℕ) (s : Bytes)
    → test b ≡ false
    → one_or_more test (b ∷ s) next ≡ none
unfolding one_or_more
one_or_more-none test next b s h = rw (span-none test b s h) refl

-- A space and a byte that is no space.
pub one_or_more-space :
    {A : Type 0} (next : Bytes → Bytes → Option A) (b : ℕ) (s : Bytes)
    → is_re_space b ≡ false
    → one_or_more is_re_space (b' ' ∷ b ∷ s) next ≡ next (b' ' ∷ []) (b ∷ s)
unfolding one_or_more span
one_or_more-space next b s h = rw h refl

-- The texts that cannot stand behind the number of an object in a reference, and behind that of a
-- generation.
abbrev pub NoGeneration : Bytes → Type 0
NoGeneration t = (w : Bytes) → match_generation w t ≡ none

abbrev pub NoMark : Bytes → Type 0
NoMark t = (w v : Bytes) → match_end w v t ≡ none

module _ (b : ℕ) (s : Bytes) where
  pub NoMark-cons : is_re_space b ≡ false → NoMark (b ∷ s)
  unfolding match_end
  NoMark-cons h w v = one_or_more-none is_re_space _ b s h

  pub NoGeneration-cons : is_re_space b ≡ false → NoGeneration (b ∷ s)
  unfolding match_generation
  NoGeneration-cons h w = one_or_more-none is_re_space _ b s h

  pub NoMark-space : is_re_space b ≡ false → (b == b'R') ≡ false → NoMark (b' ' ∷ b ∷ s)
  unfolding match_end
  NoMark-space h k w v = one_or_more-space _ b s h ∙ rw k refl

  pub NoGeneration-space :
      is_re_space b ≡ false → is_decimal_digit b ≡ false → NoGeneration (b' ' ∷ b ∷ s)
  unfolding match_generation
  NoGeneration-space h k w =
      one_or_more-space _ b s h ∙ one_or_more-none is_decimal_digit (match_end w) b s k

  pub match_reference-none :
      is_re_space b ≡ false → is_decimal_digit b ≡ false → match_reference (b ∷ s) ≡ none
  unfolding match_reference
  match_reference-none h k =
      rw (span-none is_re_space b s h) (one_or_more-none is_decimal_digit match_generation b s k)

pub digit_is_no_space : (d : ℕ) → IsDigit d → is_re_space d ≡ false
digit_is_no_space d h = ground arith

pub NoMark-nil : NoMark []
unfolding match_end
NoMark-nil w v = one_or_more-nil is_re_space _

pub NoGeneration-nil : NoGeneration []
unfolding match_generation
NoGeneration-nil w = one_or_more-nil is_re_space _

module _ (d : ℕ) (ds s : Bytes) (h : All IsDigit (d ∷ ds)) (e : EndsDigits s) where
  -- An integer in front of a text.
  pub match_reference-digits : match_reference (d ∷ ds ++ s) ≡ match_generation (d ∷ ds) s
  unfolding match_reference
  match_reference-digits =
      rw (span-none is_re_space d (ds ++ s) (digit_is_no_space d h.0))
        (one_or_more-digits match_generation d ds s h e)

  match_generation-digits :
      (w : Bytes) → match_generation w (b' ' ∷ d ∷ ds ++ s) ≡ match_end w (d ∷ ds) s
  unfolding match_generation
  match_generation-digits w =
      one_or_more-space _ d (ds ++ s) (digit_is_no_space d h.0)
      ∙ one_or_more-digits (match_end w) d ds s h e

  pub NoGeneration-digits : NoMark s → NoGeneration (b' ' ∷ d ∷ ds ++ s)
  NoGeneration-digits m w = match_generation-digits w ∙ m w (d ∷ ds)

match_end-mark : (w v s : Bytes) → match_end w v (b' ' ∷ b'R' ∷ s) ≡ some (w, v)
unfolding match_end
match_end-mark w v s = one_or_more-space _ b'R' s refl

-- A reference in front of any text.
pub match_reference-some :
    (d : ℕ) (ds : Bytes) (g : ℕ) (gs s : Bytes)
    → All IsDigit (d ∷ ds)
    → All IsDigit (g ∷ gs)
    → match_reference (d ∷ ds ++ (b' ' ∷ g ∷ gs ++ (b' ' ∷ b'R' ∷ s))) ≡ some (d ∷ ds, g ∷ gs)
match_reference-some d ds g gs s h k =
    match_reference-digits d ds _ h refl
    ∙ match_generation-digits g gs _ k refl (d ∷ ds)
    ∙ match_end-mark (d ∷ ds) (g ∷ gs) s
