-- ===== src/Core/Lexer/Tails.antt =====
-- What the methods of `PdfParser` (`pdf/core/parser.go`) that read a token leave of a text is a tail of
-- it, and their loops end.
use unidoc.Prelude.{
  ℕ, zero, suc, ◌<◌, ◌≡◌, ◌≢◌, Bool, true, false, ◌||◌, [], ◌∷◌, ◌++◌, length, drop, ◌==◌, if-both,
  arith,
}
use unidoc.Core.Decoding.{Bytes}
use unidoc.Core.Symbols.{is_white_space}
use unidoc.Core.Lexer.{
  out_of_fuel, and_then, Parsed, ok, err, panic, skip_spaces, skip_comments, ends_name, read_code,
  name_round, read_name, name_after_comments, parse_name, scan_number, is_octal_digit, read_octal,
  read_escape, string_round, read_string, parse_string, read_hex, parse_hex_string,
}

-- The rest of the text has the property Q, or the code returns an error that it knows or panics.
abbrev pub Keeps : {A : Type 0} → (Bytes → Type 0) → Parsed A → Type 0
Keeps Q (ok a rest) = Q rest
Keeps Q (err e) = e ≢ out_of_fuel
Keeps Q panic = Unit

module _ (Q : Bytes → Type 0) (tail : (b : ℕ) (bs : Bytes) → Q (b ∷ bs) → Q bs) where
  pub drop-Keeps : (n : ℕ) (bs : Bytes) → Q bs → Q (drop n bs)
  drop-Keeps zero bs h = h
  drop-Keeps (suc n) [] h = h
  drop-Keeps (suc n) (b ∷ bs) h = drop-Keeps n bs (tail b bs h)

  pub skip_spaces-Keeps : (bs : Bytes) → Q bs → Q (skip_spaces bs)
  unfolding skip_spaces
  skip_spaces-Keeps [] h = h
  skip_spaces-Keeps (b ∷ bs) h =
      if-both Q (is_white_space b) (λ _. skip_spaces-Keeps bs (tail b bs h)) (λ _. h)

  pub skip_comments-Keeps : (inside : Bool) (bs : Bytes) → Q bs → Q (skip_comments inside bs)
  unfolding skip_comments
  skip_comments-Keeps inside [] h = h
  skip_comments-Keeps true (b ∷ bs) h =
      if-both Q ((b == 0x0D) || (b == 0x0A)) (λ _. skip_comments-Keeps false bs (tail b bs h))
        (λ _. skip_comments-Keeps true bs (tail b bs h))
  skip_comments-Keeps false (b ∷ bs) h =
      if-both Q (is_white_space b) (λ _. skip_comments-Keeps false bs (tail b bs h))
        (λ _. if-both Q (b == b'%') (λ _. skip_comments-Keeps true bs (tail b bs h)) (λ _. h))

  -- A loop of which any rest of fewer than m bytes is read.
  abbrev Loop : (Bytes → Bytes → Parsed Bytes) → ℕ → Type 0
  Loop go m = (r bs : Bytes) → length bs < m → Q bs → Keeps Q (go r bs)

  read_code-Keeps :
      (go : Bytes → Bytes → Parsed Bytes) (r bs : Bytes)
      → Loop go (length bs)
      → Q bs
      → Keeps Q (read_code go r bs)
  unfolding read_code
  read_code-Keeps go r (x ∷ y ∷ bs) l h = l _ bs (omega arith) (tail y bs (tail x (y ∷ bs) h))
  read_code-Keeps go r (x ∷ []) l h = λ e. cc
  read_code-Keeps go r [] l h = λ e. cc

  name_round-Keeps :
      (go : Bytes → Bytes → Parsed Bytes) (r bs : Bytes)
      → Loop go (length bs)
      → Q bs
      → Keeps Q (name_round go r bs)
  unfolding name_round
  name_round-Keeps go r [] l h = h
  name_round-Keeps go r (b ∷ bs) l h =
      if-both (Keeps Q) (ends_name b) (λ _. h)
        (λ _.
          if-both (Keeps Q) (b == b'#')
            (λ _. read_code-Keeps go r bs (λ a t k. l a t (omega arith)) (tail b bs h))
            (λ _. l _ bs (omega arith) (tail b bs h)))

  read_name-Keeps : (n : ℕ) → Loop (read_name n) n
  unfolding read_name
  read_name-Keeps zero r bs k h = absurd (omega arith)
  read_name-Keeps (suc n) r bs k h =
      name_round-Keeps (read_name n) r bs (λ a t j. read_name-Keeps n a t (omega arith)) h

  name_after_comments-Keeps : (b : ℕ) (bs : Bytes) → Q bs → Keeps Q (name_after_comments (b ∷ bs))
  unfolding name_after_comments
  name_after_comments-Keeps b bs h =
      if-both (Keeps Q) (b == b'/') (λ _. read_name-Keeps (suc (length bs)) [] bs (omega arith) h)
        (λ _ e. cc)

  name_after_any : (bs : Bytes) → Q bs → Keeps Q (name_after_comments bs)
  name_after_any [] h = unfold name_after_comments in h
  name_after_any (b ∷ bs) h = name_after_comments-Keeps b bs (tail b bs h)

  comment_begun :
      (b : ℕ) (bs : Bytes) → (b == b'%') ≡ true → Q bs → Q (skip_comments false (b ∷ bs))
  unfolding skip_comments
  comment_begun b bs e h =
      if-both Q (is_white_space b) (λ _. skip_comments-Keeps false bs h)
        (λ _. if-both Q (b == b'%') (λ _. skip_comments-Keeps true bs h) (λ f. absurd cc))

  -- The first byte is read in any case.
  pub parse_name-Keeps : (b : ℕ) (bs : Bytes) → Q bs → Keeps Q (parse_name (b ∷ bs))
  unfolding parse_name
  parse_name-Keeps b bs h =
      if-both (Keeps Q) (b == b'%') (λ e. name_after_any _ (comment_begun b bs e h))
        (λ _. name_after_comments-Keeps b bs h)

  read_octal-Keeps :
      (go : Bytes → Bytes → Parsed Bytes) (r : Bytes) (b : ℕ) (bs : Bytes)
      → Loop go (suc (length bs))
      → Q bs
      → Keeps Q (read_octal go r b bs)
  unfolding read_octal
  read_octal-Keeps go r b (x ∷ y ∷ bs) l h =
      let h' = tail x (y ∷ bs) h in
      if-both (Keeps Q) (is_octal_digit x)
        (λ _.
          if-both (Keeps Q) (is_octal_digit y) (λ _. l _ bs (omega arith) (tail y bs h'))
            (λ _. l _ (y ∷ bs) (omega arith) h'))
        (λ _. l _ (x ∷ y ∷ bs) (omega arith) h)
  read_octal-Keeps go r b (x ∷ []) l h = λ e. cc
  read_octal-Keeps go r b [] l h = λ e. cc

  read_escape-Keeps :
      (go : Bytes → Bytes → Parsed Bytes) (r bs : Bytes)
      → Loop go (suc (length bs))
      → Q bs
      → Keeps Q (read_escape go r bs)
  unfolding read_escape
  read_escape-Keeps go r [] l h = λ e. cc
  read_escape-Keeps go r (b ∷ bs) l h =
      if-both (Keeps Q) (is_octal_digit b)
        (λ _. read_octal-Keeps go r b bs (λ a t k. l a t (omega arith)) (tail b bs h))
        (λ _. l _ bs (omega arith) (tail b bs h))

  string_round-Keeps :
      (go : ℕ → Bytes → Bytes → Parsed Bytes) (count : ℕ) (r bs : Bytes)
      → ((c : ℕ) → Loop (go c) (length bs))
      → Q bs
      → Keeps Q (string_round go count r bs)
  unfolding string_round
  string_round-Keeps go count r [] l h = λ e. cc
  string_round-Keeps go count r (b ∷ bs) l h =
      let h' = tail b bs h in
      if-both (Keeps Q) (b == 0x5C) (λ _. read_escape-Keeps (go count) r bs (l count) h')
        (λ _.
          if-both (Keeps Q) (b == b'(') (λ _. l _ _ bs (omega arith) h')
            (λ _.
              if-both (Keeps Q) (b == b')')
                (λ _. if-both (Keeps Q) (count == 1) (λ _. h') (λ _. l _ _ bs (omega arith) h'))
                (λ _. l _ _ bs (omega arith) h')))

  read_string-Keeps : (n count : ℕ) → Loop (read_string n count) n
  unfolding read_string
  read_string-Keeps zero count r bs k h = absurd (omega arith)
  read_string-Keeps (suc n) count r bs k h =
      string_round-Keeps (read_string n) count r bs
        (λ c a t j. read_string-Keeps n c a t (omega arith)) h

  pub parse_string-Keeps : (b : ℕ) (bs : Bytes) → Q bs → Keeps Q (parse_string (b ∷ bs))
  unfolding parse_string
  parse_string-Keeps b bs h = read_string-Keeps (suc (length bs)) 1 [] bs (omega arith) h

  read_hex-Keeps : (bs r : Bytes) → Q bs → Keeps Q (read_hex r bs)
  unfolding read_hex
  read_hex-Keeps [] r h = λ e. cc
  read_hex-Keeps (b ∷ bs) r h =
      if-both (Keeps Q) (b == b'>') (λ _. tail b bs h) (λ _. read_hex-Keeps bs _ (tail b bs h))

  pub Keeps-and_then :
      {A B : Type 0} (r : Parsed A) (f : A → Bytes → Parsed B)
      → Keeps Q r
      → ((a : A) (rest : Bytes) → Q rest → Keeps Q (f a rest))
      → Keeps Q (and_then r f)
  Keeps-and_then (ok a rest) f h k = k a rest h
  Keeps-and_then (err e) f h k = h
  Keeps-and_then panic f h k = tt

  pub parse_hex_string-Keeps : (b : ℕ) (bs : Bytes) → Q bs → Keeps Q (parse_hex_string (b ∷ bs))
  unfolding parse_hex_string
  parse_hex_string-Keeps b bs h =
      Keeps-and_then (read_hex [] bs) _ (read_hex-Keeps bs [] h) (λ a rest k. k)

  pub scan_number-Keeps : (a f : Bool) (num bs : Bytes) → Q bs → Q (scan_number a f num bs).unread
  unfolding scan_number
  scan_number-Keeps a f num [] h = h
  scan_number-Keeps a f num (b ∷ bs) h =
      let h' = tail b bs h in
      let num' = num ++ b ∷ [] in
      ground (
        arith,
        h,
        scan_number-Keeps false f num' bs h',
        scan_number-Keeps a f num' bs h',
        scan_number-Keeps a true num' bs h',
        scan_number-Keeps true true num' bs h',
      )
