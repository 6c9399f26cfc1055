-- ===== src/Ps/Effect/Operators.antt =====
-- The stack effect of every operator of `pdf/ps/operations.go`.
use unidoc.Prelude.{ℕ, ◌≤◌, ◌≡◌, refl, length, drop, arith, subst, Option, none, some}
use unidoc.Ps.Object.{PsObject, integer, real, boolean, program, operand, Float64}
use unidoc.Ps.Stack.{PsStack, Outcome, ok, err, out_of_fuel, continue, pop}
use unidoc.Ps.Logic.{op_ne, op_not, negation}
use unidoc.Ps.Exec.{Operator, exec_operator}
use unidoc.Ps.Effect.{IsValue, Replaces, At-push}
use unidoc.Ps.Effect.Arith.{
  op_abs-Replaces, op_add-Replaces, op_atan-Replaces, op_bitshift-Replaces, op_ceiling-Replaces,
  op_cos-Replaces, op_cvi-Replaces, op_cvr-Replaces, op_div-Replaces, op_exp-Replaces,
  op_floor-Replaces, op_idiv-Replaces, op_ln-Replaces, op_log-Replaces, op_mod-Replaces,
  op_mul-Replaces, op_neg-Replaces, op_round-Replaces, op_sin-Replaces, op_sqrt-Replaces,
  op_sub-Replaces, op_truncate-Replaces,
}
use unidoc.Ps.Effect.Logic.{
  op_and-Replaces, op_eq-Replaces, op_ge-Replaces, op_gt-Replaces, op_le-Replaces, op_lt-Replaces,
  op_not-Replaces, op_or-Replaces, op_xor-Replaces,
}

-- The number of operands of an operator that computes a value; none for one that only rearranges
-- the stack.
abbrev pub arity : Operator → Option ℕ
arity Operator.abs = some 1
arity Operator.add = some 2
arity Operator.and = some 2
arity Operator.atan = some 2
arity Operator.bitshift = some 2
arity Operator.ceiling = some 1
arity Operator.copy = none
arity Operator.cos = some 1
arity Operator.cvi = some 1
arity Operator.cvr = some 1
arity Operator.div = some 2
arity Operator.dup = none
arity Operator.eq = some 2
arity Operator.exch = none
arity Operator.exp = some 2
arity Operator.floor = some 1
arity Operator.ge = some 2
arity Operator.gt = some 2
arity Operator.idiv = some 2
arity Operator.index = none
arity Operator.le = some 2
arity Operator.log = some 1
arity Operator.ln = some 1
arity Operator.lt = some 2
arity Operator.mod_ = some 2
arity Operator.mul = some 2
arity Operator.ne = some 2
arity Operator.neg = some 1
arity Operator.not = some 1
arity Operator.or = some 2
arity Operator.pop_ = none
arity Operator.round = some 1
arity Operator.roll = none
arity Operator.sin = some 1
arity Operator.sqrt = some 1
arity Operator.sub = some 2
arity Operator.truncate = some 1
arity Operator.xor = some 2

abbrev ReplacesSome : {F : Type 0} → Option ℕ → PsStack F → Outcome F (Unit {0}) → Type 0
ReplacesSome none s r = Unit
ReplacesSome (some n) s r = Replaces n s r

module _ {F : Type 0} ⦃fl : Float64 F⦄ where
  negation_value :
      (n : ℕ) (s : PsStack F) (r : PsObject F)
      → IsValue r
      → n ≤ length s
      → Replaces n s (negation r (drop n s))
  unfolding negation
  negation_value n s (integer i) v l = At-push n s _ tt l
  negation_value n s (real x) v l = (n, omega arith, refl)
  negation_value n s (boolean b) v l = At-push n s _ tt l
  negation_value n s (program p) v l = elim v [ ]
  negation_value n s (operand w) v l = elim v [ ]

  then_not :
      (n : ℕ) (s : PsStack F) (r : Outcome F (Unit {0}))
      → Replaces n s r
      → Replaces n s (continue r (λ _. op_not))
  unfolding op_not pop
  then_not n s (ok u t) (r, v, e, l, d) = rw e (negation_value n s r v l)
  then_not n s (err e t) h = h
  then_not n s out_of_fuel h = h

  op_ne-Replaces : (s : PsStack F) → Replaces 2 s (op_ne s)
  unfolding op_ne
  op_ne-Replaces s = then_not 2 s _ (op_eq-Replaces s)

  exec_operator-ReplacesSome :
      (o : Operator) (s : PsStack F) → ReplacesSome (arity o) s (exec_operator o s)
  unfolding exec_operator
  exec_operator-ReplacesSome Operator.abs s = op_abs-Replaces s
  exec_operator-ReplacesSome Operator.add s = op_add-Replaces s
  exec_operator-ReplacesSome Operator.and s = op_and-Replaces s
  exec_operator-ReplacesSome Operator.atan s = op_atan-Replaces s
  exec_operator-ReplacesSome Operator.bitshift s = op_bitshift-Replaces s
  exec_operator-ReplacesSome Operator.ceiling s = op_ceiling-Replaces s
  exec_operator-ReplacesSome Operator.copy s = tt
  exec_operator-ReplacesSome Operator.cos s = op_cos-Replaces s
  exec_operator-ReplacesSome Operator.cvi s = op_cvi-Replaces s
  exec_operator-ReplacesSome Operator.cvr s = op_cvr-Replaces s
  exec_operator-ReplacesSome Operator.div s = op_div-Replaces s
  exec_operator-ReplacesSome Operator.dup s = tt
  exec_operator-ReplacesSome Operator.eq s = op_eq-Replaces s
  exec_operator-ReplacesSome Operator.exch s = tt
  exec_operator-ReplacesSome Operator.exp s = op_exp-Replaces s
  exec_operator-ReplacesSome Operator.floor s = op_floor-Replaces s
  exec_operator-ReplacesSome Operator.ge s = op_ge-Replaces s
  exec_operator-ReplacesSome Operator.gt s = op_gt-Replaces s
  exec_operator-ReplacesSome Operator.idiv s = op_idiv-Replaces s
  exec_operator-ReplacesSome Operator.index s = tt
  exec_operator-ReplacesSome Operator.le s = op_le-Replaces s
  exec_operator-ReplacesSome Operator.log s = op_log-Replaces s
  exec_operator-ReplacesSome Operator.ln s = op_ln-Replaces s
  exec_operator-ReplacesSome Operator.lt s = op_lt-Replaces s
  exec_operator-ReplacesSome Operator.mod_ s = op_mod-Replaces s
  exec_operator-ReplacesSome Operator.mul s = op_mul-Replaces s
  exec_operator-ReplacesSome Operator.ne s = op_ne-Replaces s
  exec_operator-ReplacesSome Operator.neg s = op_neg-Replaces s
  exec_operator-ReplacesSome Operator.not s = op_not-Replaces s
  exec_operator-ReplacesSome Operator.or s = op_or-Replaces s
  exec_operator-ReplacesSome Operator.pop_ s = tt
  exec_operator-ReplacesSome Operator.round s = op_round-Replaces s
  exec_operator-ReplacesSome Operator.roll s = tt
  exec_operator-ReplacesSome Operator.sin s = op_sin-Replaces s
  exec_operator-ReplacesSome Operator.sqrt s = op_sqrt-Replaces s
  exec_operator-ReplacesSome Operator.sub s = op_sub-Replaces s
  exec_operator-ReplacesSome Operator.truncate s = op_truncate-Replaces s
  exec_operator-ReplacesSome Operator.xor s = op_xor-Replaces s

  -- An operator that computes a value replaces its n operands by one number or Boolean, if it
  -- succeeds, and then the depth is at most 101; if it fails, the stack has lost at most the n
  -- topmost objects, and nothing else has changed. It never runs on.
  pub exec_operator-Replaces :
      (o : Operator) (n : ℕ) (s : PsStack F) → arity o ≡ some n → Replaces n s (exec_operator o s)
  exec_operator-Replaces o n s e =
      subst (λ a. ReplacesSome a s (exec_operator o s)) e (exec_operator-ReplacesSome o s)
