-- ===== src/Ps/Exec/Fuel.antt =====
-- The fuel of `exec`: what an execution gives with enough fuel does not depend on how much it is.
use Prim.Native.Nat.add
use unidoc.Prelude.{
  ℕ, zero, suc, ◌+◌, ◌-◌, ◌≤◌, ◌≡◌, ◌≢◌, refl, sym, ◌∙◌, true, false, [], ◌∷◌, Option, none, some,
  ◌⊎◌, inl, inr, arith, subst,
}
use unidoc.Ps.Object.{PsObject, boolean, program, operand, PsProgram, nil, cons, Float64}
use unidoc.Ps.Stack.{PsStack, Outcome, ok, err, out_of_fuel, M, continue, pop}
use unidoc.Ps.Exec.{
  Command, plain, if_, ifelse, command_of, op_if, op_ifelse, exec_command, exec_object,
  exec_objects, exec, expect_program, expect_boolean,
}

-- r' is r, unless r ran out of fuel.
abbrev Refines : {F A : Type 0} → Outcome F A → Outcome F A → Type 0
Refines r r' = (r ≡ out_of_fuel) ⊎ (r' ≡ r)

module _ {F : Type 0} where
  continue-Refines :
      {A B : Type 0} (r r' : Outcome F A) (f f' : A → M F B)
      → Refines r r'
      → ((a : A) (s : PsStack F) → Refines (f a s) (f' a s))
      → Refines (continue r f) (continue r' f')
  continue-Refines r r' f f' (inl e) k = inl (rw e)
  continue-Refines (ok a s) r' f f' (inr e) k = rw e (k a s)
  continue-Refines (err x s) r' f f' (inr e) k = inr (rw e)
  continue-Refines out_of_fuel r' f f' (inr e) k = inl refl

module _ {F : Type 0} ⦃fl : Float64 F⦄ (call call' : PsProgram F → M F (Unit {0}))
    (h : (p : PsProgram F) (s : PsStack F) → Refines (call p s) (call' p s)) where
  op_if-Refines : (s : PsStack F) → Refines (op_if call s) (op_if call' s)
  unfolding op_if pop expect_program expect_boolean
  op_if-Refines [] = inr refl
  op_if-Refines (o ∷ []) = inr refl
  op_if-Refines (program p ∷ boolean true ∷ s) = h p s
  op_if-Refines (program p ∷ boolean false ∷ s) = inr refl
  op_if-Refines (_ ∷ _ ∷ s) = inr refl

  op_ifelse-Refines : (s : PsStack F) → Refines (op_ifelse call s) (op_ifelse call' s)
  unfolding op_ifelse pop expect_program expect_boolean
  op_ifelse-Refines [] = inr refl
  op_ifelse-Refines (o ∷ []) = inr refl
  op_ifelse-Refines (o ∷ o' ∷ []) = inr refl
  op_ifelse-Refines (program q ∷ program p ∷ boolean true ∷ s) = h p s
  op_ifelse-Refines (program q ∷ program p ∷ boolean false ∷ s) = h q s
  op_ifelse-Refines (_ ∷ _ ∷ _ ∷ s) = inr refl

  exec_command-Refines :
      (c : Option Command) (s : PsStack F)
      → Refines (exec_command call c s) (exec_command call' c s)
  unfolding exec_command
  exec_command-Refines none s = inr refl
  exec_command-Refines (some (plain o)) s = inr refl
  exec_command-Refines (some if_) s = op_if-Refines s
  exec_command-Refines (some ifelse) s = op_ifelse-Refines s

  exec_object-Refines :
      (o : PsObject F) (s : PsStack F) → Refines (exec_object call o s) (exec_object call' o s)
  unfolding exec_object
  exec_object-Refines (operand w) s = exec_command-Refines (command_of w) s
  exec_object-Refines _ s = inr refl

  exec_objects-Refines :
      (p : PsProgram F) (s : PsStack F) → Refines (exec_objects call p s) (exec_objects call' p s)
  unfolding exec_objects
  exec_objects-Refines nil s = inr refl
  exec_objects-Refines (cons o p) s =
      continue-Refines _ _ _ _ (exec_object-Refines o s) (λ _ t. exec_objects-Refines p t)

module _ {F : Type 0} ⦃fl : Float64 F⦄ where
  exec-Refines-suc :
      (n : ℕ) (p : PsProgram F) (s : PsStack F) → Refines (exec n p s) (exec (suc n) p s)
  unfolding exec
  exec-Refines-suc zero p s = inl refl
  exec-Refines-suc (suc n) p s =
      exec_objects-Refines (exec n) (exec (suc n)) (exec-Refines-suc n) p s

  exec_more :
      (k n : ℕ) (p : PsProgram F) (s : PsStack F)
      → exec n p s ≢ out_of_fuel
      → exec (k + n) p s ≡ exec n p s
  exec_more zero n p s h = rw add.zero refl
  exec_more (suc k) n p s h = rw add.suc (elim (exec-Refines-suc (k + n) p s) [
    | inl e ↦ absurd (h (sym (exec_more k n p s h) ∙ e))
    | inr e ↦ e ∙ exec_more k n p s h
  ])

  -- Once an execution ends within some fuel, more fuel gives the same result and the same stack.
  pub exec_more_fuel :
      (n m : ℕ) (p : PsProgram F) (s : PsStack F)
      → exec n p s ≢ out_of_fuel
      → n ≤ m
      → exec m p s ≡ exec n p s
  exec_more_fuel n m p s h le =
      subst (λ k. exec k p s ≡ exec n p s) (omega arith) (exec_more (m - n) n p s h)
