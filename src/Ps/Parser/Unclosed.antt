-- ===== src/Ps/Parser/Unclosed.antt =====
-- `parseFunction` of `pdf/ps/parser.go` takes the end of the text for the end of the program.
use unidoc.Prelude.{
  ℕ, zero, suc, ◌<◌, ◌≡◌, refl, ◌∙◌, [], ◌∷◌, ◌++◌, Option, length, length-append, arith,
}
use unidoc.Core.Decoding.{Bytes}
use unidoc.Ps.Object.{PsProgram, nil, cons, append_object, concat, concat-nil, concat-append_object}
use unidoc.Ps.Printing.{string}
use unidoc.Ps.Parser.{ok, skip_spaces, parse_round, peek, parse_objects, parse}
use unidoc.Ps.Parser.RoundTrip.{AllPrintable, Parses, read_object, parse_open}

module _ {F : Type 0} (format : F → Bytes) where
  -- The objects without the closing brace.
  unfoldable pub unclosed : PsProgram F → Bytes
  unclosed nil = []
  unclosed (cons o p) = string format o ++ b' ' ∷ unclosed p

module _ {F : Type 0} (parse_float : Bytes → Option F) (format : F → Bytes) where
  read_end_of_text :
      (n : ℕ) (acc : PsProgram F) → Parses parse_float (suc n) acc (b' ' ∷ []) (ok acc [])
  unfolding parse_objects parse_round skip_spaces peek
  read_end_of_text n acc = refl

  read_unclosed :
      (p : PsProgram F) (n : ℕ) (acc : PsProgram F)
      → AllPrintable p
      → length (unclosed format p) < n
      → Parses parse_float n acc (b' ' ∷ unclosed format p) (ok (concat acc p) [])
  unfolding unclosed AllPrintable
  read_unclosed p zero acc h l = absurd (omega arith)
  read_unclosed nil (suc n) acc h l = rw (concat-nil acc) (read_end_of_text n acc)
  read_unclosed (cons o p) (suc n) acc (h, k) l = rw (← concat-append_object acc o p) (
      read_object parse_float format o n acc (unclosed format p) h
        (omega (arith, length-append (string format o) (b' ' ∷ unclosed format p)))
      ∙ read_unclosed p n (append_object acc o) k
          (omega (arith, length-append (string format o) (b' ' ∷ unclosed format p))))

  -- The text of a program whose last closing brace is missing is parsed to the same program, without
  -- an error; the program has no reals, its integers are in the range of int and its operands are
  -- words that the parser takes for operands.
  pub parse-unclosed :
      (p : PsProgram F)
      → AllPrintable p
      → parse parse_float (b'{' ∷ b' ' ∷ unclosed format p) ≡ ok p []
  unfolding concat
  parse-unclosed p h =
      parse_open parse_float format (unclosed format p) ∙ read_unclosed p _ nil h (omega arith)
