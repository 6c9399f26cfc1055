-- ===== src/Ps/Arith.antt =====
-- The arithmetic operators of `pdf/ps/operations.go`: those that pop one or two numbers and push a
-- number.
pub mod Laws
use unidoc.Prelude.{ℕ, ◌≡◌, refl, Bool, true, false, List, [], ◌∷◌, ◌&&◌, if◌then◌else◌, ◌==◌}
use unidoc.Prelude.Int.{ℤ, pos, negsuc}
use unidoc.GoInt.{
  int_add, int_sub, int_mul, int_neg, int_abs, int_quo, int_rem, int_shl, int_shr, is_negative,
  magnitude,
}
use unidoc.Ps.Object.{
  PsObject, integer, real, boolean, program, operand, PsError, type_check, range_check,
  undefined_result, Float64,
}
use unidoc.Ps.Stack.{
  M, ◌>>=◌, ◌>>◌, return, fail, push, pop, expect_integer, pop_integer, pop_number_as_float64,
}

-- A popped number: the type assertions to `*PSInteger` and `*PSReal` that `add`, `sub`, `mul` and
-- `div` make.
pub data Number (F : Type 0) : Type 0 where
  int : ℤ → Number F
  float : F → Number F

unfoldable pub expect_number : {F : Type 0} → PsObject F → M F (Number F)
expect_number (integer n) s = return (int n) s
expect_number (real x) s = return (float x) s
expect_number (boolean b) s = fail type_check s
expect_number (program p) s = fail type_check s
expect_number (operand w) s = fail type_check s

unfoldable pub is_zero_int : ℤ → Bool
is_zero_int (pos n) = n == 0
is_zero_int (negsuc n) = false

module _ {F : Type 0} ⦃fl : Float64 F⦄ where
  unfoldable pub to_float : Number F → F
  to_float (int n) = fl.of_int n
  to_float (float x) = x

  unfoldable pub float_zero : F
  float_zero = fl.of_int (pos 0)

  -- Two integers give an integer, anything else a real; the topmost number comes first.
  unfoldable pub combine : (ℤ → ℤ → ℤ) → (F → F → F) → Number F → Number F → PsObject F
  combine on_int on_float (int a) (int b) = integer (on_int a b)
  combine on_int on_float (int a) (float y) = real (on_float (fl.of_int a) y)
  combine on_int on_float (float x) (int b) = real (on_float x (fl.of_int b))
  combine on_int on_float (float x) (float y) = real (on_float x y)

  unfoldable pub op_add : M F (Unit {0})
  op_add = do
    obj1 ← pop
    obj2 ← pop
    n1 ← expect_number obj1
    n2 ← expect_number obj2
    push (combine int_add fl.add n1 n2)

  unfoldable pub op_sub : M F (Unit {0})
  op_sub = do
    obj1 ← pop
    obj2 ← pop
    n1 ← expect_number obj1
    n2 ← expect_number obj2
    push (combine int_sub fl.sub n2 n1)

  unfoldable pub op_mul : M F (Unit {0})
  op_mul = do
    obj1 ← pop
    obj2 ← pop
    n1 ← expect_number obj1
    n2 ← expect_number obj2
    push (combine int_mul fl.mul n1 n2)

  -- The check of the divisor, before the dividend's type is looked at.
  unfoldable pub nonzero : Number F → M F (Unit {0})
  nonzero (int n) = if is_zero_int n then fail undefined_result else return tt
  nonzero (float x) = if fl.eq x float_zero then fail undefined_result else return tt

  unfoldable pub op_div : M F (Unit {0})
  op_div = do
    obj1 ← pop
    obj2 ← pop
    n1 ← expect_number obj1
    nonzero n1
    n2 ← expect_number obj2
    push (real (fl.div (to_float n2) (to_float n1)))

  unfoldable pub op_idiv : M F (Unit {0})
  op_idiv = do
    obj1 ← pop
    obj2 ← pop
    int1 ← expect_integer obj1
    if is_zero_int int1 then fail undefined_result else return tt
    int2 ← expect_integer obj2
    push (integer (int_quo int2 int1))

  unfoldable pub op_mod : M F (Unit {0})
  op_mod = do
    obj1 ← pop
    obj2 ← pop
    int1 ← expect_integer obj1
    if is_zero_int int1 then fail undefined_result else return tt
    int2 ← expect_integer obj2
    push (integer (int_rem int2 int1))

  -- Pops a number and pushes one of the same type: the shape of `abs`, `ceiling`, `floor`, `neg`,
  -- `round` and `truncate`.
  unfoldable pub same_type : (ℤ → ℤ) → (F → F) → Number F → PsObject F
  same_type on_int on_float (int n) = integer (on_int n)
  same_type on_int on_float (float x) = real (on_float x)

  unfoldable pub op_abs : M F (Unit {0})
  op_abs = do
    obj ← pop
    num ← expect_number obj
    push (same_type int_abs (λ x. if fl.lt x float_zero then fl.neg x else x) num)

  unfoldable pub op_ceiling : M F (Unit {0})
  op_ceiling = do obj ← pop; num ← expect_number obj; push (same_type (λ n. n) fl.ceil num)

  unfoldable pub op_floor : M F (Unit {0})
  op_floor = do obj ← pop; num ← expect_number obj; push (same_type (λ n. n) fl.floor num)

  unfoldable pub op_neg : M F (Unit {0})
  op_neg = do obj ← pop; num ← expect_number obj; push (same_type int_neg fl.neg num)

  unfoldable pub op_round : M F (Unit {0})
  op_round = do
    obj ← pop
    num ← expect_number obj
    push (same_type (λ n. n) (λ x. fl.floor (fl.add x fl.half)) num)

  unfoldable pub op_truncate : M F (Unit {0})
  op_truncate = do
    obj ← pop
    num ← expect_number obj
    push (same_type (λ n. n) (λ x. fl.of_int (fl.to_int x)) num)

  unfoldable pub op_cvi : M F (Unit {0})
  op_cvi = do
    obj ← pop
    num ← expect_number obj
    push (integer (elim num [ int n ↦ n | float x ↦ fl.to_int x ]))

  unfoldable pub op_cvr : M F (Unit {0})
  op_cvr = do obj ← pop; num ← expect_number obj; push (real (to_float num))

  -- The count of a negative shift is its magnitude, which `uint` holds also for minInt.
  unfoldable pub op_bitshift : M F (Unit {0})
  op_bitshift = do
    shift ← pop_integer
    int1 ← pop_integer
    push (
        integer (
          if is_negative shift
          then int_shr int1 (magnitude shift)
          else int_shl int1 (magnitude shift)))
