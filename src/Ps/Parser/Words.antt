-- ===== src/Ps/Parser/Words.antt =====
-- The last branch of `parseFunction` of `pdf/ps/parser.go` reads Booleans and operands.
use unidoc.Prelude.{◌≡◌, refl, Bool, true, false, [], ◌∷◌, ◌++◌, All, arith, codes}
use unidoc.Core.Decoding.{Bytes}
use unidoc.Ps.Object.{boolean, operand}
use unidoc.Ps.Parser.{
  ok, skip_spaces, parse_bool, parse_operand, parse_word, operand_of, peek, word,
}
use unidoc.Text.{has_prefix}
use unidoc.Ps.Printing.{bool_string}
use unidoc.Ps.Parser.Scan.{IsRegular, scan_word-regular, has_prefix-append}

-- A word that the parser takes for an operand.
abbrev pub IsWord : Bytes → Type 0
IsWord w =
    All IsRegular w
    × (peek (w ++ b' ' ∷ []) ≡ word)
    × (has_prefix (codes "false") w ≡ false)
    × (has_prefix (codes "true") w ≡ false)

letters_of_false : All IsRegular (codes "false")
letters_of_false = ground arith

letters_of_true : All IsRegular (codes "true")
letters_of_true = ground arith

module _ {F : Type 0} where
  pub parse_word-bool_string :
      (b : Bool) (t : Bytes)
      → parse_word {F = F} (bool_string b ++ b' ' ∷ t) ≡ ok (boolean b) (b' ' ∷ t)
  unfolding parse_word parse_bool has_prefix bool_string
  parse_word-bool_string true t = ground arith
  parse_word-bool_string false t = ground arith

  operand_nonempty :
      (w t : Bytes) → peek (w ++ b' ' ∷ []) ≡ word → operand_of {F = F} (w, t) ≡ ok (operand w) t
  unfolding peek
  operand_nonempty [] t h = cc
  operand_nonempty (c ∷ w) t h = refl

  pub parse_word-operand :
      (w t : Bytes) → IsWord w → parse_word {F = F} (w ++ b' ' ∷ t) ≡ ok (operand w) (b' ' ∷ t)
  unfolding parse_word parse_operand
  parse_word-operand w t (r, k, n, m) =
      rw
        (
          has_prefix-append (codes "false") w t letters_of_false n,
          has_prefix-append (codes "true") w t letters_of_true m,
          scan_word-regular [] w t r,
        )
        (operand_nonempty w (b' ' ∷ t) k)

pub peek_word : (w t : Bytes) → peek (w ++ b' ' ∷ []) ≡ word → peek (w ++ b' ' ∷ t) ≡ word
unfolding peek
peek_word [] t h = cc
peek_word (c ∷ []) t h = h
peek_word (c ∷ d ∷ w) t h = h

pub skip_word :
    (w t : Bytes)
    → All IsRegular w
    → peek (w ++ b' ' ∷ []) ≡ word
    → skip_spaces (w ++ b' ' ∷ t) ≡ w ++ b' ' ∷ t
unfolding skip_spaces peek
skip_word [] t r h = cc
skip_word (c ∷ w) t ((p, q), r) h = simp p
