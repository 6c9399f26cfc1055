-- ===== src/Ps/Parser/Termination.antt =====
-- The loop of `parseFunction` of `pdf/ps/parser.go` ends on every text: each round reads a byte.
use unidoc.Prelude.{
  ℕ, zero, suc, ◌+◌, ◌<◌, ◌≤◌, ◌≡◌, ◌≢◌, refl, Bool, true, false, [], ◌∷◌, ◌++◌, Option, none, some,
  length, if-both, ◌||◌, ◌==◌, length-append, length-drop, drop, arith, ltb, codes,
}
use unidoc.Core.Decoding.{Bytes}
use unidoc.Prelude.Int.{ℤ}
use unidoc.Core.Symbols.{is_decimal_digit}
use unidoc.Ps.Object.{PsObject, real, integer, PsProgram, nil}
use unidoc.Ps.Parser.{
  ParseError, invalid_number, out_of_fuel, Parsed, ok, err, and_then, skip_spaces, Scanned,
  scan_number, number_of, parse_number, scan_word, operand_of, parse_operand, parse_bool,
  parse_word, Lead, at_end, closing, opening, number, word, peek, parse_round, parse_objects,
  parse_function, parse,
}
use unidoc.Text.{parse_int, has_prefix}

-- An error that the code knows, or fewer than m bytes are left.
abbrev LeavesBelow : {A : Type 0} → ℕ → Parsed A → Type 0
LeavesBelow m (ok a rest) = length rest < m
LeavesBelow m (err e) = e ≢ out_of_fuel

-- The code returns.
abbrev pub Returns : {A : Type 0} → Parsed A → Type 0
Returns (ok a rest) = Unit
Returns (err e) = e ≢ out_of_fuel

skip_spaces_shorter : (bs : Bytes) → length (skip_spaces bs) ≤ length bs
unfolding skip_spaces
skip_spaces_shorter [] = omega arith
skip_spaces_shorter (b ∷ bs) = ground (arith, skip_spaces_shorter bs)

below : {m n : ℕ} → m ≤ n → m ≤ suc n
below h = omega arith

scan_number_shorter :
    (a f : Bool) (num bs : Bytes) → length (scan_number a f num bs).unread ≤ length bs
unfolding scan_number
scan_number_shorter a f num [] = omega arith
scan_number_shorter a f num (b ∷ bs) =
    let num' = num ++ b ∷ [] in
    ground (
      arith,
      scan_number_shorter false f num' bs,
      scan_number_shorter a f num' bs,
      scan_number_shorter a true num' bs,
      scan_number_shorter true true num' bs,
    )

number_of_shorter :
    {F : Type 0} (parse_float : Bytes → Option F) (s : Scanned) (m : ℕ)
    → length s.unread < m
    → LeavesBelow m (number_of parse_float s)
unfolding number_of
number_of_shorter {F = F} parse_float s m h =
    if-both (LeavesBelow m) s.is_float (λ _. float_case (parse_float s.num_str))
      (λ _. int_case (parse_int s.num_str))
  where
    Below : Parsed (PsObject F) → Type 0
    Below = LeavesBelow m

    float_case :
        (o : Option F)
        → Below (elim o [ some x ↦ ok (real x) s.unread | none ↦ err invalid_number ])
    float_case (some x) = h
    float_case none = λ e. cc

    int_case :
        (o : Option ℤ)
        → Below (elim o [ some i ↦ ok (integer i) s.unread | none ↦ err invalid_number ])
    int_case (some i) = h
    int_case none = λ e. cc

nothing_leads : peek [] ≢ number
unfolding peek
nothing_leads h = cc

number_begins :
    (b : ℕ) (bs : Bytes) → peek (b ∷ bs) ≡ number → ((is_decimal_digit b || (b == b'-')) ≡ true)
unfolding peek
number_begins b [] h = cc
number_begins b (c ∷ bs) h = ground arith

first_byte :
    (b : ℕ) (bs : Bytes)
    → peek (b ∷ bs) ≡ number
    → length (scan_number true false [] (b ∷ bs)).unread < length (b ∷ bs)
unfolding scan_number
first_byte b bs h = ground (
  arith,
  number_begins b bs h,
  scan_number_shorter false false (b ∷ []) bs,
  scan_number_shorter true false (b ∷ []) bs,
)

parse_number_shorter :
    {F : Type 0} (parse_float : Bytes → Option F) (bs : Bytes)
    → peek bs ≡ number
    → LeavesBelow (length bs) (parse_number parse_float bs)
unfolding parse_number
parse_number_shorter parse_float [] h = absurd (nothing_leads h)
parse_number_shorter parse_float (b ∷ bs) h = number_of_shorter parse_float _ _ (first_byte b bs h)

length-scan_word :
    (w bs : Bytes) → length (scan_word w bs).0 + length (scan_word w bs).1 ≡ length w + length bs
unfolding scan_word
length-scan_word w [] = refl
length-scan_word w (b ∷ bs) =
    ground (arith, length-scan_word (w ++ b ∷ []) bs, length-append w (b ∷ []))

opening_read : (bs : Bytes) → peek bs ≡ opening → length (drop 1 bs) < length bs
unfolding peek
opening_read [] h = cc
opening_read (b ∷ bs) h = omega arith

at_least : (k n : ℕ) → ltb n k ≡ false → k ≤ n
at_least k n h = ground arith

drop_shorter : (k : ℕ) (bs : Bytes) → suc k ≤ length bs → length (drop (suc k) bs) < length bs
drop_shorter k bs h = omega (arith, length-drop (suc k) bs)

scan_word_all : (bs : Bytes) → length (scan_word [] bs).0 + length (scan_word [] bs).1 ≡ length bs
scan_word_all bs = omega (arith, length-scan_word [] bs)

module _ (F : Type 0) where
  parse_bool_shorter : (bs : Bytes) → LeavesBelow (length bs) (parse_bool {F = F} bs)
  unfolding parse_bool
  parse_bool_shorter bs =
      if-both Below (ltb (length bs) 4) (λ _. known cc)
        (λ h.
          if-both Below (has_prefix (codes "true") bs)
            (λ _. drop_shorter 3 bs (at_least 4 (length bs) h))
            (λ _.
              if-both Below (ltb (length bs) 5) (λ _. known cc)
                (λ k.
                  if-both Below (has_prefix (codes "false") bs)
                    (λ _. drop_shorter 4 bs (at_least 5 (length bs) k)) (λ _. known cc))))
    where
      Below : Parsed (PsObject F) → Type 0
      Below = LeavesBelow (length bs)

      known : {e : ParseError} → e ≢ out_of_fuel → Below (err e)
      known h = h

  operand_of_shorter :
      (w rest : Bytes) (m : ℕ)
      → length w + length rest ≡ m
      → LeavesBelow m (operand_of {F = F} (w, rest))
  operand_of_shorter [] rest m h = λ e. cc
  operand_of_shorter (c ∷ w) rest m h = omega arith

  parse_word_shorter : (bs : Bytes) → LeavesBelow (length bs) (parse_word {F = F} bs)
  unfolding parse_word parse_operand
  parse_word_shorter bs =
      if-both Below (has_prefix (codes "false") bs) (λ _. parse_bool_shorter bs)
        (λ _.
          if-both Below (has_prefix (codes "true") bs) (λ _. parse_bool_shorter bs)
            (λ _. operand_of_shorter _ _ (length bs) (scan_word_all bs)))
    where
      Below : Parsed (PsObject F) → Type 0
      Below = LeavesBelow (length bs)

module _ {F : Type 0} (parse_float : Bytes → Option F) where
  -- What a loop with enough fuel gives: no more bytes are left than there were.
  abbrev Loop : (PsProgram F → Bytes → Parsed (PsProgram F)) → ℕ → Type 0
  Loop go m =
      (acc : PsProgram F) (bs : Bytes) → length bs < m → LeavesBelow (suc (length bs)) (go acc bs)

  leaves_more : {m n : ℕ} (r : Parsed (PsProgram F)) → m ≤ n → LeavesBelow m r → LeavesBelow n r
  leaves_more (ok a rest) l h = omega arith
  leaves_more (err e) l h = h

  after_object :
      {A : Type 0} (go : PsProgram F → Bytes → Parsed (PsProgram F)) (m : ℕ) (r : Parsed A)
      (f : A → PsProgram F)
      → Loop go m
      → LeavesBelow m r
      → LeavesBelow (suc m) (and_then r (λ a. go (f a)))
  after_object go m (ok a rest) f l h = leaves_more _ (omega arith) (l (f a) rest h)
  after_object go m (err e) f l h = h

  parse_round_shorter :
      (go : PsProgram F → Bytes → Parsed (PsProgram F)) (k : Lead) (acc : PsProgram F) (bs : Bytes)
      → peek bs ≡ k
      → Loop go (length bs)
      → LeavesBelow (suc (length bs)) (parse_round parse_float go k acc bs)
  unfolding parse_round
  parse_round_shorter go at_end acc bs e l = omega arith
  parse_round_shorter go closing acc bs e l = omega (arith, length-drop 1 bs)
  parse_round_shorter go opening acc bs e l =
      after_object go (length bs) (go nil (drop 1 bs)) _ l
        (leaves_more _ (opening_read bs e) (l nil (drop 1 bs) (opening_read bs e)))
  parse_round_shorter go number acc bs e l =
      after_object go (length bs) _ _ l (parse_number_shorter parse_float bs e)
  parse_round_shorter go word acc bs e l =
      after_object go (length bs) _ _ l (parse_word_shorter F bs)

  parse_objects_shorter : (n : ℕ) → Loop (parse_objects parse_float n) n
  unfolding parse_objects
  parse_objects_shorter zero acc bs h = absurd (omega arith)
  parse_objects_shorter (suc n) acc bs h = leaves_more _ (omega (arith, skip_spaces_shorter bs)) (
      parse_round_shorter (parse_objects parse_float n) _ acc (skip_spaces bs) refl
        (λ a t k. parse_objects_shorter n a t (omega (arith, skip_spaces_shorter bs))))

  leaves-Returns : {A : Type 0} (m : ℕ) (r : Parsed A) → LeavesBelow m r → Returns r
  leaves-Returns m (ok a rest) h = tt
  leaves-Returns m (err e) h = h

  known : {e : ParseError} → e ≢ out_of_fuel → Returns {A = PsProgram F} (err e)
  known h = h

  function-Returns :
      (n : ℕ) (bs : Bytes) → length bs ≤ n → Returns (parse_function parse_float (suc n) bs)
  unfolding parse_function
  function-Returns n [] h = known cc
  function-Returns n (c ∷ bs) h =
      if-both Returns (c == b'{')
        (λ _. leaves-Returns _ _ (parse_objects_shorter (suc n) nil bs (omega arith)))
        (λ _. known cc)

  -- The parser returns a program or an error on every text: its loop ends within a round for each
  -- byte and one more.
  pub parse-Returns : (content : Bytes) → Returns (parse parse_float content)
  unfolding parse
  parse-Returns content =
      if-both Returns (ltb (length (skip_spaces content)) 2) (λ _. known cc)
        (λ _. function-Returns (length content) _ (skip_spaces_shorter content))
