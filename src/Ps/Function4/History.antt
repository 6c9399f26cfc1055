-- ===== src/Ps/Function4/History.antt =====
-- What earlier evaluations of a function mean for the next (`PdfFunctionType4.Evaluate` of
-- `pdf/model/functions.go` over `PSExecutor.Execute` of `pdf/ps/exec.go`).
use unidoc.Prelude.{ℕ, ◌≡◌, refl, ◌∙◌, ap, true, false, List, [], ◌∷◌, map, codes, none}
use unidoc.Prelude.Int.{pos}
use unidoc.Ps.Object.{PsObject, real, operand, PsProgram, nil, cons, range_check, Float64}
use unidoc.Ps.Stack.{
  Outcome, ok, err, out_of_fuel, continue, push, pop, pop_number_as_float64, expect_float,
}
use unidoc.Ps.Transcendental.{op_sqrt}
use unidoc.Ps.Exec.{
  PsExecutor, new_ps_executor, execute, finish, push_all, exec, exec_objects, exec_object,
  exec_command, exec_operator, command_of, find_command, command_table,
}
use unidoc.Ps.Function4.{
  PdfFunctionType4, values, failed, evaluate, evaluated, get_executor, to_floats,
  ps_object_array_to_float64_array,
}

-- A function as it is before its first evaluation.
abbrev pub new_function : {F : Type 0} → PsProgram F → PdfFunctionType4 F
new_function p = record { executor = none; routine = p }

-- The next evaluation starts as the first one does.
abbrev pub IsReady : {F : Type 0} → PdfFunctionType4 F → Type 0
IsReady f = get_executor f.executor f.routine ≡ new_ps_executor f.routine

module _ {F : Type 0} ⦃fl : Float64 F⦄ where
  evaluated_result :
      (f g : PdfFunctionType4 F) (e : PsExecutor F) (r : Outcome F (List (PsObject F)))
      → (evaluated f e r).0 ≡ (evaluated g e r).0
  unfolding evaluated
  evaluated_result f g e (ok o s) = refl
  evaluated_result f g e (err x s) = refl
  evaluated_result f g e out_of_fuel = refl

  evaluate-IsReady :
      (n : ℕ) (f : PdfFunctionType4 F) (xs : List F)
      → IsReady f
      → (evaluate n f xs).0 ≡ (evaluate n (new_function f.routine) xs).0
  unfolding evaluate get_executor
  evaluate-IsReady n f xs h =
      evaluated_result f (new_function f.routine) (get_executor f.executor f.routine)
        (execute n (get_executor f.executor f.routine) (map real xs))
      ∙ ap (λ e. (evaluated (new_function f.routine) e (execute n e (map real xs))).0) h

  finished-IsReady :
      (f : PdfFunctionType4 F) (e : PsExecutor F) (r : Outcome F (Unit {0})) (ys : List F)
      → e ≡ new_ps_executor f.routine
      → (evaluated f e (finish r)).0 ≡ values ys
      → IsReady (evaluated f e (finish r)).1 × ((evaluated f e (finish r)).1.routine ≡ f.routine)
  unfolding evaluated finish get_executor new_ps_executor
  finished-IsReady f e (ok u s) ys h k =
      (ap {A = PsExecutor F} (λ x. record x { stack = [] }) h, refl)
  finished-IsReady f e (err x s) ys h k = cc
  finished-IsReady f e out_of_fuel ys h k = cc

  success-IsReady :
      (n : ℕ) (f : PdfFunctionType4 F) (xs ys : List F)
      → IsReady f
      → (evaluate n f xs).0 ≡ values ys
      → IsReady (evaluate n f xs).1 × ((evaluate n f xs).1.routine ≡ f.routine)
  unfolding evaluate execute
  success-IsReady n f xs ys h k =
      let e = get_executor f.executor f.routine in
      finished-IsReady f e (continue (push_all (map real xs) e.stack) (λ _. exec n e.routine)) ys h
        k

  -- After an evaluation that returned values, the next evaluation of the same function returns what
  -- a new function with the same program returns.
  pub evaluate-after_success :
      (n m : ℕ) (f : PdfFunctionType4 F) (xs ys zs : List F)
      → IsReady f
      → (evaluate n f xs).0 ≡ values ys
      → (evaluate m (evaluate n f xs).1 zs).0 ≡ (evaluate m (new_function f.routine) zs).0
  evaluate-after_success n m f xs ys zs h k =
      let (ready, same) = success-IsReady n f xs ys h k in
      evaluate-IsReady m (evaluate n f xs).1 zs ready
      ∙ ap (λ p. (evaluate m (new_function p) zs).0) same

-- `{ sqrt }`
abbrev pub sqrt_program : {F : Type 0} → PsProgram F
sqrt_program = cons (operand (codes "sqrt")) nil

module _ {F : Type 0} ⦃fl : Float64 F⦄ where
  -- An evaluation of `{ sqrt }` on z and a negative x fails, and leaves z on the stack of the
  -- executor: the next evaluation, on y ≥ 0, returns z and the root, where a new function returns
  -- the root alone.
  pub evaluate-after_error :
      (z x y : F)
      → fl.lt x (fl.of_int (pos 0)) ≡ true
      → fl.lt y (fl.of_int (pos 0)) ≡ false
      → ((evaluate 1 (new_function sqrt_program) (z ∷ x ∷ [])).0 ≡ failed range_check)
        × ((evaluate 1 (evaluate 1 (new_function sqrt_program) (z ∷ x ∷ [])).1 (y ∷ [])).0
            ≡ values (z ∷ fl.sqrt y ∷ []))
        × ((evaluate 1 (new_function sqrt_program) (y ∷ [])).0 ≡ values (fl.sqrt y ∷ []))
  unfolding evaluate execute push_all exec exec_objects exec_object exec_command exec_operator
      command_of find_command command_table op_sqrt push pop pop_number_as_float64 expect_float
      finish evaluated get_executor new_ps_executor to_floats ps_object_array_to_float64_array
  evaluate-after_error z x y h k = (rw h refl, rw (h, k) refl, rw k refl)
