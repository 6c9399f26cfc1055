-- ===== src/Ps/Printing.antt =====
-- The `String` methods of `pdf/ps/object.go`.
use unidoc.Prelude.{Bool, true, false, [], ◌∷◌, ◌++◌, codes}
use unidoc.Text.{int_string}
use unidoc.Core.Decoding.{Bytes}
use unidoc.Ps.Object.{PsObject, integer, real, boolean, program, operand, PsProgram, nil, cons}

unfoldable pub bool_string : Bool → Bytes
bool_string true = codes "true"
bool_string false = codes "false"

module _ {F : Type 0} (format : F → Bytes) where
  -- `String` of each type of object; `format` is `%.5f`.
  unfoldable mutual
    unfolding int_string bool_string

    pub string : PsObject F → Bytes
    string (integer n) = int_string n
    string (real x) = format x
    string (boolean b) = bool_string b
    string (program p) = b'{' ∷ b' ' ∷ string_objects p
    string (operand w) = w

    pub string_objects : PsProgram F → Bytes
    string_objects nil = b'}' ∷ []
    string_objects (cons o p) = string o ++ b' ' ∷ string_objects p
