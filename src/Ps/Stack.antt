-- ===== src/Ps/Stack.antt =====
-- The operand stack of `pdf/ps/stack.go`, and the way its methods and the operators end: with a
-- result or an error, and in both cases with the stack as it is then, since a Go method that fails
-- has already popped what it popped. The model lists the stack from its top.
use unidoc.Prelude.{List, [], ◌∷◌, length, ltb, if◌then◌else◌}
use unidoc.Prelude.Int.{ℤ}
use unidoc.Ps.Object.{
  PsObject, integer, real, boolean, program, operand, PsError, stack_underflow, stack_overflow,
  type_check, Float64,
}

abbrev pub PsStack : Type 0 → Type 0
PsStack F = List (PsObject F)

-- `out_of_fuel` is the model's own: an execution that has not ended within its fuel.
pub data Outcome (F A : Type 0) : Type 0 where
  ok : A → PsStack F → Outcome F A
  err : PsError → PsStack F → Outcome F A
  out_of_fuel : Outcome F A

abbrev pub M : Type 0 → Type 0 → Type 0
M F A = PsStack F → Outcome F A

abbrev pub continue : {F A B : Type 0} → Outcome F A → (A → M F B) → Outcome F B
continue (ok a s) f = f a s
continue (err e s) f = err e s
continue out_of_fuel f = out_of_fuel

infixl 5 ◌>>=◌ ◌>>◌
abbrev pub ◌>>=◌ : {F A B : Type 0} → M F A → (A → M F B) → M F B
◌>>=◌ m f s = continue (m s) f

abbrev pub ◌>>◌ : {F B : Type 0} → M F (Unit {0}) → M F B → M F B
◌>>◌ m k s = continue (m s) (λ _. k)

abbrev pub return : {F A : Type 0} → A → M F A
return a s = ok a s

abbrev pub fail : {F A : Type 0} → PsError → M F A
fail e s = err e s

-- The stack that an outcome leaves.
abbrev pub stack_after : {F A : Type 0} → PsStack F → Outcome F A → PsStack F
stack_after d (ok a s) = s
stack_after d (err e s) = s
stack_after d out_of_fuel = d

unfoldable pub push : {F : Type 0} → PsObject F → M F (Unit {0})
push o s = if ltb 100 (length s) then err stack_overflow s else ok tt (o ∷ s)

unfoldable pub pop : {F : Type 0} → M F (PsObject F)
pop [] = err stack_underflow []
pop (o ∷ s) = ok o s

-- The type assertion `obj.(*PSInteger)`, an error if it fails.
unfoldable pub expect_integer : {F : Type 0} → PsObject F → M F ℤ
expect_integer (integer n) s = ok n s
expect_integer (real x) s = err type_check s
expect_integer (boolean b) s = err type_check s
expect_integer (program p) s = err type_check s
expect_integer (operand w) s = err type_check s

unfoldable pub pop_integer : {F : Type 0} → M F ℤ
pop_integer = do o ← pop; expect_integer o

-- The result is a `float64` also for an integer.
unfoldable pub expect_float : {F : Type 0} ⦃fl : Float64 F⦄ → PsObject F → M F F
expect_float (real x) s = ok x s
expect_float ⦃fl⦄ (integer n) s = ok (fl.of_int n) s
expect_float (boolean b) s = err type_check s
expect_float (program p) s = err type_check s
expect_float (operand w) s = err type_check s

unfoldable pub pop_number_as_float64 : {F : Type 0} ⦃fl : Float64 F⦄ → M F F
pop_number_as_float64 = do o ← pop; expect_float o
