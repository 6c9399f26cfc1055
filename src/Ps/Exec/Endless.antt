-- ===== src/Ps/Exec/Endless.antt =====
-- Executions that do not end. A procedure on the stack can be duplicated and executed by `if`, so
-- that `PSProgram.Exec` (`pdf/ps/object.go`) and `ifCondition` (`pdf/ps/operations.go`) call each
-- other without end.
use unidoc.Prelude.{ℕ, zero, suc, ◌≤◌, ◌≡◌, refl, true, ◌∷◌, codes, length, arith}
use unidoc.Ps.Object.{boolean, program, operand, PsProgram, nil, cons, Float64, duplicate_lem}
use unidoc.Ps.Stack.{PsStack, out_of_fuel, push, pop}
use unidoc.Ps.Shuffle.{op_dup, op_exch}
use unidoc.Ps.Exec.{
  find_command, command_table, op_if, command_of, exec_operator, exec_command, exec_object,
  exec_objects, exec, expect_program, expect_boolean,
}

-- `dup true exch if`
abbrev pub again : {F : Type 0} → PsProgram F
again =
    cons (operand (codes "dup"))
      (cons (boolean true) (cons (operand (codes "exch")) (cons (operand (codes "if")) nil)))

module _ {F : Type 0} ⦃fl : Float64 F⦄ where
  again_endless :
      (fuel : ℕ) (s : PsStack F) → length s ≤ 98 → exec fuel again (program again ∷ s) ≡ out_of_fuel
  unfolding exec exec_objects exec_object exec_command exec_operator command_of op_dup op_exch op_if
      push pop expect_program expect_boolean find_command command_table
  again_endless zero s h = refl
  again_endless (suc fuel) s h =
      rw (duplicate_lem (program (again {F = F}))) (ground (arith, again_endless fuel s h))

  -- The program `{ dup true exch if } dup true exch if` ends on no stack of at most 98 objects,
  -- however deep the calls may go: neither a result nor an error, also not that of a full stack.
  pub exec-endless :
      (fuel : ℕ) (s : PsStack F)
      → length s ≤ 98
      → exec fuel (cons (program again) again) s ≡ out_of_fuel
  unfolding exec exec_objects exec_object push
  exec-endless zero s h = refl
  exec-endless (suc fuel) s h =
      let again_runs = again_endless (suc fuel) s h in ground (arith, again_runs)
