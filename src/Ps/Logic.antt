-- ===== src/Ps/Logic.antt =====
-- The comparisons and the logical and bitwise operators of `pdf/ps/operations.go`.
pub mod Laws
use unidoc.Prelude.{Bool, true, false, not, ◌&&◌, ◌||◌, if◌then◌else◌}
use unidoc.Prelude.Int.{ℤ}
use unidoc.GoInt.{int_and, int_or, int_xor, int_not}
use unidoc.Ps.Object.{PsObject, integer, boolean, type_check, Float64}
use unidoc.Ps.Stack.{M, ◌>>=◌, ◌>>◌, fail, push, pop, expect_float, pop_number_as_float64}

unfoldable pub bool_eq : Bool → Bool → Bool
bool_eq true b = b
bool_eq false b = not b

-- Both operands are Booleans, or both are integers; the topmost comes first.
module _ {F : Type 0} where
  unfoldable pub connective :
      (Bool → Bool → Bool) → (ℤ → ℤ → ℤ) → PsObject F → PsObject F → M F (Unit {0})
  connective on_bool on_int (boolean a) (boolean b) = push (boolean (on_bool a b))
  connective on_bool on_int (integer a) (integer b) = push (integer (on_int a b))
  connective on_bool on_int _ _ = fail type_check

  unfoldable pub op_and : M F (Unit {0})
  op_and = do obj1 ← pop; obj2 ← pop; connective (λ a b. a && b) int_and obj1 obj2

  unfoldable pub op_or : M F (Unit {0})
  op_or = do obj1 ← pop; obj2 ← pop; connective (λ a b. a || b) int_or obj1 obj2

  unfoldable pub op_xor : M F (Unit {0})
  op_xor = do obj1 ← pop; obj2 ← pop; connective (λ a b. not (bool_eq a b)) int_xor obj1 obj2

  unfoldable pub negation : PsObject F → M F (Unit {0})
  negation (boolean b) = push (boolean (not b))
  negation (integer n) = push (integer (int_not n))
  negation _ = fail type_check

  unfoldable pub op_not : M F (Unit {0})
  op_not = do obj ← pop; negation obj

module _ {F : Type 0} ⦃fl : Float64 F⦄ where
  -- `math.Abs(a-b) < tolerance`
  unfoldable pub close : F → F → Bool
  close a b = fl.lt (fl.abs (fl.sub a b)) fl.tolerance

  -- Numbers are compared as floats.
  unfoldable pub eq_numbers : PsObject F → PsObject F → M F (Unit {0})
  eq_numbers obj1 obj2 = do
    val1 ← expect_float obj1
    val2 ← expect_float obj2
    push (boolean (if close val2 val1 then true else false))

  -- A Boolean equals no number, and nothing else that is not a Boolean.
  unfoldable pub eq_objects : PsObject F → PsObject F → M F (Unit {0})
  eq_objects (boolean a) (boolean b) = push (boolean (bool_eq a b))
  eq_objects (boolean a) _ = push (boolean false)
  eq_objects obj1 (boolean b) = push (boolean false)
  eq_objects obj1 obj2 = eq_numbers obj1 obj2

  unfoldable pub op_eq : M F (Unit {0})
  op_eq = do obj1 ← pop; obj2 ← pop; eq_objects obj1 obj2

  unfoldable pub op_ne : M F (Unit {0})
  op_ne = do op_eq; op_not

  unfoldable pub op_ge : M F (Unit {0})
  op_ge = do
    num2 ← pop_number_as_float64
    num1 ← pop_number_as_float64
    if close num1 num2
        then push (boolean true)
        else if fl.lt num2 num1
        then push (boolean true)
        else push (boolean false)

  unfoldable pub op_gt : M F (Unit {0})
  op_gt = do
    num2 ← pop_number_as_float64
    num1 ← pop_number_as_float64
    if close num1 num2
        then push (boolean false)
        else if fl.lt num2 num1
        then push (boolean true)
        else push (boolean false)

  unfoldable pub op_le : M F (Unit {0})
  op_le = do
    num2 ← pop_number_as_float64
    num1 ← pop_number_as_float64
    if close num1 num2
        then push (boolean true)
        else if fl.lt num1 num2
        then push (boolean true)
        else push (boolean false)

  unfoldable pub op_lt : M F (Unit {0})
  op_lt = do
    num2 ← pop_number_as_float64
    num1 ← pop_number_as_float64
    if close num1 num2
        then push (boolean false)
        else if fl.lt num1 num2
        then push (boolean true)
        else push (boolean false)
