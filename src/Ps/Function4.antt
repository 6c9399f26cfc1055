-- ===== src/Ps/Function4.antt =====
-- `PdfFunctionType4.Evaluate` of `pdf/model/functions.go`, which keeps one executor for all its
-- evaluations, and `PSObjectArrayToFloat64Array` of `pdf/ps/exec.go`.
pub mod History
use unidoc.Prelude.{
  ℕ, ◌≡◌, refl, sym, ◌∙◌, ap, Bool, true, false, List, [], ◌∷◌, ◌++◌, map, codes, Option, none,
  some, arith,
}
use unidoc.Prelude.Int.{pos}
use unidoc.Ps.Object.{
  PsObject, integer, real, boolean, program, operand, PsProgram, nil, cons, PsError, type_check,
  Float64,
}
use unidoc.Ps.Stack.{PsStack, Outcome, ok, err, out_of_fuel}
use unidoc.Ps.Exec.{PsExecutor, new_ps_executor, execute, finish, push_all, exec}

-- The numbers of a slice of objects; none is the error of a type check.
unfoldable pub ps_object_array_to_float64_array :
    {F : Type 0} ⦃fl : Float64 F⦄ → List F → List (PsObject F) → Option (List F)
ps_object_array_to_float64_array vals [] = some vals
ps_object_array_to_float64_array ⦃fl⦄ vals (integer n ∷ os) =
    ps_object_array_to_float64_array (vals ++ fl.of_int n ∷ []) os
ps_object_array_to_float64_array vals (real x ∷ os) =
    ps_object_array_to_float64_array (vals ++ x ∷ []) os
ps_object_array_to_float64_array vals (_ ∷ os) = none

-- What an evaluation returns; `endless` stands for fuel that was not enough.
pub data Evaluation (F : Type 0) : Type 0 where
  values : List F → Evaluation F
  failed : PsError → Evaluation F
  endless : Evaluation F

pub record PdfFunctionType4 (F : Type 0) : Type 0 where
  pub executor : Option (PsExecutor F)
  pub routine : PsProgram F

unfoldable pub to_floats : {F : Type 0} ⦃fl : Float64 F⦄ → List (PsObject F) → Evaluation F
unfolding ps_object_array_to_float64_array
to_floats outputs = elim (ps_object_array_to_float64_array [] outputs) [
  | none ↦ failed type_check
  | some vals ↦ values vals
]

-- The executor is made by the first evaluation.
unfoldable pub get_executor : {F : Type 0} → Option (PsExecutor F) → PsProgram F → PsExecutor F
unfolding new_ps_executor
get_executor none p = new_ps_executor p
get_executor (some e) p = e

-- The executor keeps the stack that `Execute` leaves, also after an error.
unfoldable pub evaluated :
    {F : Type 0} ⦃fl : Float64 F⦄
    → PdfFunctionType4 F
    → PsExecutor F
    → Outcome F (List (PsObject F))
    → Evaluation F × PdfFunctionType4 F
unfolding to_floats
evaluated f e (ok outputs s) =
    (to_floats outputs, record f { executor = some (record e { stack = s }) })
evaluated f e (err x s) = (failed x, record f { executor = some (record e { stack = s }) })
evaluated f e out_of_fuel = (endless, f)

unfoldable pub evaluate :
    {F : Type 0} ⦃fl : Float64 F⦄
    → ℕ
    → PdfFunctionType4 F
    → List F
    → Evaluation F × PdfFunctionType4 F
unfolding get_executor execute evaluated
evaluate fuel f x_vec =
    let e = get_executor f.executor f.routine in evaluated f e (execute fuel e (map real x_vec))
