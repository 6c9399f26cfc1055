-- ===== src/Ps/Parser/RoundTrip.antt =====
-- The text that `PSProgram.String` of `pdf/ps/object.go` prints is parsed to the same program.
use unidoc.Prelude.{
  ℕ, zero, suc, ◌≤◌, ◌≡◌, refl, ◌∙◌, Bool, true, false, [], ◌∷◌, ◌++◌, append_assoc, append-nil,
  subst, Option, length, length-append, arith,
}
use unidoc.Prelude.Int.{ℤ}
use unidoc.GoInt.{in_range}
use unidoc.Core.Decoding.{Bytes}
use unidoc.Ps.Object.{
  PsObject, integer, real, boolean, program, operand, PsProgram, nil, cons, append_object, concat,
  concat-nil, concat-append_object,
}
use unidoc.Ps.Parser.{
  Parsed, ok, skip_spaces, parse_number, parse_word, parse_round, peek, word, number, parse_objects,
  parse_function, parse,
}
use unidoc.Text.{int_string}
use unidoc.Ps.Printing.{bool_string, string, string_objects}
use unidoc.Ps.Parser.Words.{
  IsWord, parse_word-bool_string, parse_word-operand, peek_word, skip_word,
}
use unidoc.Ps.Parser.Numbers.{parse_number-int_string, peek-int_string, skip_spaces-int_string}

-- A round trip is claimed for these.
unfoldable mutual
  -- No reals; integers in the range of `int`; operands that are words.
  pub Printable : {F : Type 0} → PsObject F → Type 0
  Printable (integer n) = in_range n ≡ true
  Printable (real x) = ⊥
  Printable (boolean b) = Unit
  Printable (program p) = AllPrintable p
  Printable (operand w) = IsWord w

  pub AllPrintable : {F : Type 0} → PsProgram F → Type 0
  AllPrintable nil = Unit
  AllPrintable (cons o p) = Printable o × AllPrintable p

pub shorter : {n : ℕ} (xs ys : Bytes) → length (xs ++ b' ' ∷ ys) ≤ suc n → length xs ≤ n
shorter xs ys h = omega (arith, length-append xs (b' ' ∷ ys))

pub shorter_tail : {n : ℕ} (xs ys : Bytes) → length (xs ++ b' ' ∷ ys) ≤ suc n → length ys ≤ n
shorter_tail xs ys h = omega (arith, length-append xs (b' ' ∷ ys))

-- One round of the loop of `parseFunction`.
module _ {F : Type 0} (parse_float : Bytes → Option F) where
  abbrev pub Parses : ℕ → PsProgram F → Bytes → Parsed (PsProgram F) → Type 0
  Parses n acc bs r = parse_objects parse_float n acc bs ≡ r

  read_number :
      (n : ℕ) (acc : PsProgram F) (bs rest : Bytes) (o : PsObject F)
      → skip_spaces (b' ' ∷ bs) ≡ bs
      → peek bs ≡ number
      → parse_number parse_float bs ≡ ok o rest
      → parse_objects parse_float (suc n) acc (b' ' ∷ bs)
        ≡ parse_objects parse_float n (append_object acc o) rest
  unfolding parse_objects parse_round
  read_number n acc bs rest o s k e = rw s (rw k (rw e refl))

  read_word :
      (n : ℕ) (acc : PsProgram F) (bs rest : Bytes) (o : PsObject F)
      → skip_spaces (b' ' ∷ bs) ≡ bs
      → peek bs ≡ word
      → parse_word bs ≡ ok o rest
      → parse_objects parse_float (suc n) acc (b' ' ∷ bs)
        ≡ parse_objects parse_float n (append_object acc o) rest
  unfolding parse_objects parse_round
  read_word n acc bs rest o s k e = rw s (rw k (rw e refl))

  read_program :
      (n : ℕ) (acc q : PsProgram F) (bs rest : Bytes)
      → Parses n nil (b' ' ∷ bs) (ok q rest)
      → Parses
          (suc n)
          acc
          (b' ' ∷ b'{' ∷ b' ' ∷ bs)
          (parse_objects parse_float n (append_object acc (program q)) rest)
  unfolding parse_objects parse_round skip_spaces peek
  read_program n acc q bs rest e = rw e refl

  -- The closing brace is read, but as the last byte of the text.
  abbrev after : Bytes → Bytes
  after [] = b'}' ∷ []
  after (b ∷ bs) = b ∷ bs

  read_end :
      (n : ℕ) (acc : PsProgram F) (rest : Bytes)
      → Parses (suc n) acc (b' ' ∷ b'}' ∷ rest) (ok acc (after rest))
  unfolding parse_objects parse_round skip_spaces peek
  read_end n acc [] = refl
  read_end n acc (b ∷ rest) = refl

  read_operand :
      (n : ℕ) (acc : PsProgram F) (w t : Bytes)
      → IsWord w
      → Parses
          (suc n)
          acc
          (b' ' ∷ w ++ b' ' ∷ t)
          (parse_objects parse_float n (append_object acc (operand w)) (b' ' ∷ t))
  unfolding skip_spaces
  read_operand n acc w t (r, k, x, y) =
      read_word n acc _ (b' ' ∷ t) (operand w) (skip_word w t r k) (peek_word w t k)
        (parse_word-operand w t (r, k, x, y))

  read_integer :
      (n : ℕ) (acc : PsProgram F) (i : ℤ) (t : Bytes)
      → in_range i ≡ true
      → Parses
          (suc n)
          acc
          (b' ' ∷ int_string i ++ b' ' ∷ t)
          (parse_objects parse_float n (append_object acc (integer i)) (b' ' ∷ t))
  unfolding skip_spaces
  read_integer n acc i t h =
      read_number n acc _ (b' ' ∷ t) (integer i) (skip_spaces-int_string i t h)
        (peek-int_string i t h) (parse_number-int_string parse_float i t h)

  read_boolean :
      (n : ℕ) (acc : PsProgram F) (b : Bool) (t : Bytes)
      → Parses
          (suc n)
          acc
          (b' ' ∷ bool_string b ++ b' ' ∷ t)
          (parse_objects parse_float n (append_object acc (boolean b)) (b' ' ∷ t))
  unfolding skip_spaces bool_string peek
  read_boolean n acc true t =
      read_word n acc _ (b' ' ∷ t) (boolean true) refl refl (parse_word-bool_string true t)
  read_boolean n acc false t =
      read_word n acc _ (b' ' ∷ t) (boolean false) refl refl (parse_word-bool_string false t)

  module _ (format : F → Bytes) where
    -- The objects that are read between two spaces.
    text : PsProgram F → Bytes → Bytes
    text p t = string_objects format p ++ t

    mutual
      unfolding concat string string_objects text Printable AllPrintable

      pub read_object :
          (o : PsObject F) (n : ℕ) (acc : PsProgram F) (t : Bytes)
          → Printable o
          → length (string format o) ≤ n
          → Parses
              (suc n)
              acc
              (b' ' ∷ string format o ++ b' ' ∷ t)
              (parse_objects parse_float n (append_object acc o) (b' ' ∷ t))
      read_object (integer i) n acc t h l = read_integer n acc i t h
      read_object (real x) n acc t h l = elim h [ ]
      read_object (boolean b) n acc t h l = read_boolean n acc b t
      read_object (program q) n acc t h l =
          read_program n acc q (text q (b' ' ∷ t)) (b' ' ∷ t)
            (read_objects q n nil (b' ' ∷ t) h (omega arith))
      read_object (operand w) n acc t h l = read_operand n acc w t h

      read_objects :
          (p : PsProgram F) (n : ℕ) (acc : PsProgram F) (t : Bytes)
          → AllPrintable p
          → length (string_objects format p) ≤ n
          → Parses n acc (b' ' ∷ text p t) (ok (concat acc p) (after t))
      read_objects nil zero acc t h l = absurd (omega arith)
      read_objects nil (suc n) acc t h l = rw (concat-nil acc) (read_end n acc t)
      read_objects (cons o p) zero acc t h l =
          absurd (omega (arith, length-append (string format o) (b' ' ∷ string_objects format p)))
      read_objects (cons o p) (suc n) acc t (h, k) l =
          rw
            (
              append_assoc (string format o) (b' ' ∷ string_objects format p) t,
              ← concat-append_object acc o p,
            )
            (read_object o n acc (text p t) h (shorter (string format o) _ l)
              ∙ read_objects p n (append_object acc o) t k (shorter_tail (string format o) _ l))

    pub parse_open :
        (s : Bytes)
        → parse parse_float (b'{' ∷ b' ' ∷ s)
          ≡ parse_objects parse_float (suc (length (b'{' ∷ b' ' ∷ s))) nil (b' ' ∷ s)
    unfolding parse parse_function skip_spaces
    parse_open s = ground arith

    read_whole :
        (p : PsProgram F) (n : ℕ)
        → AllPrintable p
        → length (string_objects format p) ≤ n
        → Parses n nil (b' ' ∷ string_objects format p) (ok p (b'}' ∷ []))
    unfolding text concat
    read_whole p n h l =
        subst (λ s. Parses n nil (b' ' ∷ s) (ok p (b'}' ∷ []))) (append-nil _)
          (read_objects p n nil [] h l)

    -- Parsing the printed text of a program without reals gives the program back, if its integers
    -- are in the range of `int` and its operands are words that the parser takes for operands; the
    -- closing brace is left unread.
    pub parse-string :
        (p : PsProgram F)
        → AllPrintable p
        → parse parse_float (string format (program p)) ≡ ok p (b'}' ∷ [])
    unfolding string
    parse-string p h = parse_open _ ∙ read_whole p _ h (omega arith)
