-- ===== src/Ps/Exec/Depth.antt =====
-- The depth of the operand stack while a program without `copy` is executed (`pdf/ps/object.go`,
-- `pdf/ps/stack.go`): it stays within the limit that `Push` tests, and `copy` is what breaks it.
use unidoc.Prelude.{
  ℕ, zero, suc, ◌+◌, ◌≤◌, ◌≡◌, ◌≢◌, ap, true, false, [], ◌∷◌, ◌++◌, Option, none, some, length,
  length-append, length-take, take, All, arith,
}
use unidoc.Prelude.Int.{pos}
use unidoc.Ps.Object.{
  PsObject, integer, real, boolean, program, operand, PsProgram, nil, cons, Float64,
}
use unidoc.Ps.Stack.{
  PsStack, Outcome, ok, err, out_of_fuel, M, continue, push, pop, pop_integer, expect_integer,
}
use unidoc.Ps.Shuffle.{op_copy, copy_top}
use unidoc.Ps.Exec.{
  Operator, Command, plain, if_, ifelse, command_of, op_if, op_ifelse, exec_operator, exec_command,
  exec_object, exec_objects, exec, expect_program, expect_boolean,
}
use unidoc.Ps.Effect.{IsValue}
use unidoc.Ps.Effect.Keeps.{Keeps, Keeps-push, exec_operator-Keeps}
use unidoc.Ps.Effect.Depth.{Shallow, Shallow-push, exec_operator-Shallow}

-- No operand of the object, at any depth, is `copy`.
abbrev mutual
  pub IsCopyFree : {F : Type 0} → PsObject F → Type 0
  IsCopyFree (integer n) = Unit
  IsCopyFree (real x) = Unit
  IsCopyFree (boolean b) = Unit
  IsCopyFree (program p) = CopyFreeProgram p
  IsCopyFree (operand w) = command_of w ≢ some (plain Operator.copy)

  pub CopyFreeProgram : {F : Type 0} → PsProgram F → Type 0
  CopyFreeProgram nil = Unit
  CopyFreeProgram (cons o p) = IsCopyFree o × CopyFreeProgram p

-- At most 101 objects, none of which holds a `copy`.
abbrev pub IsBounded : {F : Type 0} → PsStack F → Type 0
IsBounded s = (length s ≤ 101) × All IsCopyFree s

abbrev pub LeavesBounded : {F : Type 0} → Outcome F (Unit {0}) → Type 0
LeavesBounded (ok _ s) = IsBounded s
LeavesBounded (err _ s) = IsBounded s
LeavesBounded out_of_fuel = Unit

module _ {F : Type 0} where
  value-IsCopyFree : (o : PsObject F) → IsValue o → IsCopyFree o
  value-IsCopyFree (integer n) v = tt
  value-IsCopyFree (real x) v = tt
  value-IsCopyFree (boolean b) v = tt
  value-IsCopyFree (program p) v = absurd v
  value-IsCopyFree (operand w) v = absurd v

  both : (r : Outcome F (Unit {0})) → Shallow r → Keeps IsCopyFree r → LeavesBounded r
  both (ok u s) h k = (h, k)
  both (err e s) h k = (h, k)
  both out_of_fuel h k = tt

  continue-Bounded :
      (r : Outcome F (Unit {0})) (f : Unit {0} → M F (Unit {0}))
      → LeavesBounded r
      → ((s : PsStack F) → IsBounded s → LeavesBounded (f tt s))
      → LeavesBounded (continue r f)
  continue-Bounded (ok u s) f h k = k s h
  continue-Bounded (err e s) f h k = h
  continue-Bounded out_of_fuel f h k = tt

module _ {F : Type 0} ⦃fl : Float64 F⦄ where
  push-Bounded :
      (o : PsObject F) (s : PsStack F) → IsCopyFree o → IsBounded s → LeavesBounded (push o s)
  push-Bounded o s c (l, h) =
      both (push o s) (Shallow-push o s l) (Keeps-push IsCopyFree value-IsCopyFree o s c h)

module _ {F : Type 0} ⦃fl : Float64 F⦄ (call : PsProgram F → M F (Unit {0}))
    (ind : (p : PsProgram F) (s : PsStack F)
      → CopyFreeProgram p
      → IsBounded s
      → LeavesBounded (call p s)) where
  op_if-Bounded : (s : PsStack F) → IsBounded s → LeavesBounded (op_if call s)
  unfolding op_if pop expect_program expect_boolean
  op_if-Bounded [] b = b
  op_if-Bounded (o ∷ []) (l, h) = (omega arith, tt)
  op_if-Bounded (program p ∷ boolean true ∷ s) (l, (c, (d, h))) = ind p s c (omega arith, h)
  op_if-Bounded (program p ∷ boolean false ∷ s) (l, (c, (d, h))) = (omega arith, h)
  op_if-Bounded (_ ∷ _ ∷ s) (l, (c, (d, h))) = (omega arith, h)

  op_ifelse-Bounded : (s : PsStack F) → IsBounded s → LeavesBounded (op_ifelse call s)
  unfolding op_ifelse pop expect_program expect_boolean
  op_ifelse-Bounded [] b = b
  op_ifelse-Bounded (o ∷ []) (l, h) = (omega arith, tt)
  op_ifelse-Bounded (o ∷ o' ∷ []) (l, h) = (omega arith, tt)
  op_ifelse-Bounded (program q ∷ program p ∷ boolean true ∷ s) (l, (c, (d, (e, h)))) =
      ind p s d (omega arith, h)
  op_ifelse-Bounded (program q ∷ program p ∷ boolean false ∷ s) (l, (c, (d, (e, h)))) =
      ind q s c (omega arith, h)
  op_ifelse-Bounded (_ ∷ _ ∷ _ ∷ s) (l, (c, (d, (e, h)))) = (omega arith, h)

  exec_command-Bounded :
      (c : Option Command) (s : PsStack F)
      → c ≢ some (plain Operator.copy)
      → IsBounded s
      → LeavesBounded (exec_command call c s)
  unfolding exec_command
  exec_command-Bounded none s n b = b
  exec_command-Bounded (some (plain o)) s n (l, h) =
      both (exec_operator o s) (exec_operator-Shallow o s (λ e. n (ap (λ x. some (plain x)) e)) l)
        (exec_operator-Keeps IsCopyFree value-IsCopyFree o s h)
  exec_command-Bounded (some if_) s n b = op_if-Bounded s b
  exec_command-Bounded (some ifelse) s n b = op_ifelse-Bounded s b

  exec_object-Bounded :
      (o : PsObject F) (s : PsStack F)
      → IsCopyFree o
      → IsBounded s
      → LeavesBounded (exec_object call o s)
  unfolding exec_object
  exec_object-Bounded (integer n) s c b = push-Bounded _ s c b
  exec_object-Bounded (real x) s c b = push-Bounded _ s c b
  exec_object-Bounded (boolean x) s c b = push-Bounded _ s c b
  exec_object-Bounded (program p) s c b = push-Bounded _ s c b
  exec_object-Bounded (operand w) s c b = exec_command-Bounded (command_of w) s c b

  exec_objects-Bounded :
      (p : PsProgram F) (s : PsStack F)
      → CopyFreeProgram p
      → IsBounded s
      → LeavesBounded (exec_objects call p s)
  unfolding exec_objects
  exec_objects-Bounded nil s c b = b
  exec_objects-Bounded (cons o p) s (c, d) b =
      continue-Bounded _ _ (exec_object-Bounded o s c b) (λ t k. exec_objects-Bounded p t d k)

module _ {F : Type 0} ⦃fl : Float64 F⦄ where
  -- A program without `copy`, run on a stack of at most 101 objects without `copy`, leaves at most
  -- 101 objects, whether it succeeds or fails.
  pub exec-Bounded :
      (fuel : ℕ) (p : PsProgram F) (s : PsStack F)
      → CopyFreeProgram p
      → IsBounded s
      → LeavesBounded (exec fuel p s)
  unfolding exec
  exec-Bounded zero p s c b = tt
  exec-Bounded (suc fuel) p s c b = exec_objects-Bounded (exec fuel) (exec-Bounded fuel) p s c b

module _ {F : Type 0} where
  -- `n copy` succeeds for every n up to the depth d, without a bound, and leaves d + n objects.
  pub op_copy-unbounded :
      (n : ℕ) (s : PsStack F)
      → n ≤ length s
      → (t : PsStack F) × (op_copy (integer (pos n) ∷ s) ≡ ok tt t) × (length t ≡ length s + n)
  unfolding op_copy copy_top pop_integer pop expect_integer
  op_copy-unbounded n s h =
      (take n s ++ s, ground arith, omega (arith, length-append (take n s) s, length-take n s))
