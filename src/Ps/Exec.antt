-- ===== src/Ps/Exec.antt =====
-- The execution of programs: `PSOperand.Exec` and `PSProgram.Exec` of `pdf/ps/object.go`, the
-- conditionals `if` and `ifelse` of `pdf/ps/operations.go`, and the executor of `pdf/ps/exec.go`.
-- A conditional executes a program that it popped, so that the recursion is on no structure: it is
-- given fuel, one unit for each level of nested executions.
pub mod Fuel
pub mod Structured
pub mod Endless
pub mod Depth
use mathlib.Core.List.{reverse}
use unidoc.Prelude.{
  ℕ, zero, suc, Bool, List, [], ◌∷◌, Option, none, some, codes, bytes_eq, if◌then◌else◌,
}
use unidoc.Ps.Object.{
  PsObject, integer, real, boolean, program, operand, PsProgram, nil, cons, type_check,
  unsupported_operand, Float64,
}
use unidoc.Ps.Stack.{
  PsStack, Outcome, ok, err, out_of_fuel, M, ◌>>=◌, ◌>>◌, return, fail, push, pop,
}
use unidoc.Ps.Arith.{
  op_abs, op_add, op_bitshift, op_ceiling, op_cvi, op_cvr, op_div, op_floor, op_idiv, op_mod,
  op_mul, op_neg, op_round, op_sub, op_truncate,
}
use unidoc.Ps.Transcendental.{op_atan, op_cos, op_exp, op_ln, op_log, op_sin, op_sqrt}
use unidoc.Ps.Logic.{op_and, op_eq, op_ge, op_gt, op_le, op_lt, op_ne, op_not, op_or, op_xor}
use unidoc.Ps.Shuffle.{op_copy, op_dup, op_exch, op_index, op_pop, op_roll}

-- The operators other than the two conditionals.
pub data Operator : Type 0 where
  abs add and atan bitshift ceiling copy cos cvi cvr div dup eq exch exp floor ge gt : Operator
  idiv index le log ln lt mod_ mul ne neg not or pop_ round roll sin sqrt sub truncate xor :
      Operator

pub data Command : Type 0 where
  plain : Operator → Command
  if_ ifelse : Command

-- The names that the `switch` of `PSOperand.Exec` tells apart.
unfoldable pub command_table : List (List ℕ × Command)
command_table =
    (codes "abs", plain abs)
    ∷ (codes "add", plain add)
    ∷ (codes "and", plain and)
    ∷ (codes "atan", plain atan)
    ∷ (codes "bitshift", plain bitshift)
    ∷ (codes "ceiling", plain ceiling)
    ∷ (codes "copy", plain copy)
    ∷ (codes "cos", plain cos)
    ∷ (codes "cvi", plain cvi)
    ∷ (codes "cvr", plain cvr)
    ∷ (codes "div", plain div)
    ∷ (codes "dup", plain dup)
    ∷ (codes "eq", plain eq)
    ∷ (codes "exch", plain exch)
    ∷ (codes "exp", plain exp)
    ∷ (codes "floor", plain floor)
    ∷ (codes "ge", plain ge)
    ∷ (codes "gt", plain gt)
    ∷ (codes "idiv", plain idiv)
    ∷ (codes "if", if_)
    ∷ (codes "ifelse", ifelse)
    ∷ (codes "index", plain index)
    ∷ (codes "le", plain le)
    ∷ (codes "log", plain log)
    ∷ (codes "ln", plain ln)
    ∷ (codes "lt", plain lt)
    ∷ (codes "mod", plain mod_)
    ∷ (codes "mul", plain mul)
    ∷ (codes "ne", plain ne)
    ∷ (codes "neg", plain neg)
    ∷ (codes "not", plain not)
    ∷ (codes "or", plain or)
    ∷ (codes "pop", plain pop_)
    ∷ (codes "round", plain round)
    ∷ (codes "roll", plain roll)
    ∷ (codes "sin", plain sin)
    ∷ (codes "sqrt", plain sqrt)
    ∷ (codes "sub", plain sub)
    ∷ (codes "truncate", plain truncate)
    ∷ (codes "xor", plain xor)
    ∷ []

unfoldable pub find_command : List ℕ → List (List ℕ × Command) → Option Command
find_command w [] = none
find_command w ((name, c) ∷ rest) = if bytes_eq w name then some c else find_command w rest

unfoldable pub command_of : List ℕ → Option Command
command_of w = find_command w command_table

module _ {F : Type 0} ⦃fl : Float64 F⦄ where
  unfoldable pub exec_operator : Operator → M F (Unit {0})
  exec_operator abs = op_abs
  exec_operator add = op_add
  exec_operator and = op_and
  exec_operator atan = op_atan
  exec_operator bitshift = op_bitshift
  exec_operator ceiling = op_ceiling
  exec_operator copy = op_copy
  exec_operator cos = op_cos
  exec_operator cvi = op_cvi
  exec_operator cvr = op_cvr
  exec_operator div = op_div
  exec_operator dup = op_dup
  exec_operator eq = op_eq
  exec_operator exch = op_exch
  exec_operator exp = op_exp
  exec_operator floor = op_floor
  exec_operator ge = op_ge
  exec_operator gt = op_gt
  exec_operator idiv = op_idiv
  exec_operator index = op_index
  exec_operator le = op_le
  exec_operator log = op_log
  exec_operator ln = op_ln
  exec_operator lt = op_lt
  exec_operator mod_ = op_mod
  exec_operator mul = op_mul
  exec_operator ne = op_ne
  exec_operator neg = op_neg
  exec_operator not = op_not
  exec_operator or = op_or
  exec_operator pop_ = op_pop
  exec_operator round = op_round
  exec_operator roll = op_roll
  exec_operator sin = op_sin
  exec_operator sqrt = op_sqrt
  exec_operator sub = op_sub
  exec_operator truncate = op_truncate
  exec_operator xor = op_xor

-- The type assertions `obj.(*PSProgram)` and `obj.(*PSBoolean)`.
module _ {F : Type 0} where
  unfoldable pub expect_program : PsObject F → M F (PsProgram F)
  expect_program (program p) = return p
  expect_program (integer n) = fail type_check
  expect_program (real x) = fail type_check
  expect_program (boolean b) = fail type_check
  expect_program (operand w) = fail type_check

  unfoldable pub expect_boolean : PsObject F → M F Bool
  expect_boolean (boolean b) = return b
  expect_boolean (integer n) = fail type_check
  expect_boolean (real x) = fail type_check
  expect_boolean (program p) = fail type_check
  expect_boolean (operand w) = fail type_check

-- `call` stands for `PSProgram.Exec` on a nested program.
module _ {F : Type 0} ⦃fl : Float64 F⦄ (call : PsProgram F → M F (Unit {0})) where
  unfoldable pub op_if : M F (Unit {0})
  op_if = do
    obj1 ← pop
    obj2 ← pop
    proc ← expect_program obj1
    condition ← expect_boolean obj2
    if condition then call proc else return tt

  unfoldable pub op_ifelse : M F (Unit {0})
  op_ifelse = do
    obj1 ← pop
    obj2 ← pop
    obj3 ← pop
    proc2 ← expect_program obj1
    proc1 ← expect_program obj2
    condition ← expect_boolean obj3
    call (if condition then proc1 else proc2)

  unfoldable pub exec_command : Option Command → M F (Unit {0})
  exec_command (some (plain o)) = exec_operator o
  exec_command (some if_) = op_if
  exec_command (some ifelse) = op_ifelse
  exec_command none = fail unsupported_operand

  -- One object of a program: an operand is executed, anything else is pushed.
  unfoldable pub exec_object : PsObject F → M F (Unit {0})
  exec_object (integer n) = push (integer n)
  exec_object (real x) = push (real x)
  exec_object (boolean b) = push (boolean b)
  exec_object (program p) = push (program p)
  exec_object (operand w) = exec_command (command_of w)

  unfoldable pub exec_objects : PsProgram F → M F (Unit {0})
  exec_objects nil = return tt
  exec_objects (cons o p) = do exec_object o; exec_objects p

module _ {F : Type 0} ⦃fl : Float64 F⦄ where
  unfoldable pub exec : ℕ → PsProgram F → M F (Unit {0})
  exec zero p s = out_of_fuel
  exec (suc fuel) p s = exec_objects (exec fuel) p s

-- `PSExecutor`: `Execute` pushes its arguments in order, and gives back the stack from its bottom.
pub record PsExecutor (F : Type 0) : Type 0 where
  pub stack : PsStack F
  pub routine : PsProgram F

unfoldable pub new_ps_executor : {F : Type 0} → PsProgram F → PsExecutor F
new_ps_executor p = record { stack = []; routine = p }

unfoldable pub push_all : {F : Type 0} → List (PsObject F) → M F (Unit {0})
push_all [] = return tt
push_all (o ∷ os) = do push o; push_all os

-- The result, with the stack that the executor has afterwards.
unfoldable pub finish : {F : Type 0} → Outcome F (Unit {0}) → Outcome F (List (PsObject F))
finish (ok _ s) = ok (reverse s) []
finish (err e s) = err e s
finish out_of_fuel = out_of_fuel

unfoldable pub execute :
    {F : Type 0} ⦃fl : Float64 F⦄
    → ℕ
    → PsExecutor F
    → List (PsObject F)
    → Outcome F (List (PsObject F))
execute fuel e args = finish ((do push_all args; exec fuel e.routine) e.stack)
