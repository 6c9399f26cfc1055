-- ===== src/Ps/Exec/Structured.antt =====
-- Programs of the form that the PDF specification (ISO 32000-1, 7.10.5) allows in a Type 4 function:
-- a procedure stands only in front of `if`, or two in front of `ifelse`. `PSProgram.Exec` ends on
-- each of them, with a depth of calls that is the depth of nesting.
use unidoc.Prelude.{
  ℕ, suc, ◌≡◌, ◌≢◌, refl, true, false, List, [], ◌∷◌, Option, none, some, All, length, ltb, inl,
  inr, Bool-cases,
}
use unidoc.Ps.Object.{
  PsObject, integer, real, boolean, program, operand, PsProgram, nil, cons, Float64,
}
use unidoc.Ps.Stack.{PsStack, Outcome, ok, err, out_of_fuel, M, continue, push, pop}
use unidoc.Ps.Exec.{
  Command, plain, if_, ifelse, command_of, op_if, op_ifelse, exec_command, exec_object,
  exec_objects, exec, expect_program, expect_boolean,
}
use unidoc.Ps.Effect.{IsValue}
use unidoc.Ps.Effect.Keeps.{Keeps, Keeps-push, exec_operator-Keeps}

-- A number, a Boolean or an operand.
abbrev pub IsNoProgram : {F : Type 0} → PsObject F → Type 0
IsNoProgram (program p) = ⊥
IsNoProgram _ = Unit

-- An object that needs no procedure: not `if`, not `ifelse`, not a procedure.
abbrev pub IsSimple : {F : Type 0} → PsObject F → Type 0
IsSimple (program p) = ⊥
IsSimple (operand w) = (command_of w ≢ some if_) × (command_of w ≢ some ifelse)
IsSimple _ = Unit

-- `Structured d p`: p has the allowed form, with procedures nested at most d deep.
pub data Structured {F : Type 0} : ℕ → PsProgram F → Type 0 where
  done : {d : ℕ} → Structured d nil
  simple :
      {d : ℕ} {o : PsObject F} {p : PsProgram F}
      → IsSimple o
      → Structured d p
      → Structured d (cons o p)
  conditional :
      {d : ℕ} {w : List ℕ} {q p : PsProgram F}
      → command_of w ≡ some if_
      → Structured d q
      → Structured (suc d) p
      → Structured (suc d) (cons (program q) (cons (operand w) p))
  alternative :
      {d : ℕ} {w : List ℕ} {q r p : PsProgram F}
      → command_of w ≡ some ifelse
      → Structured d q
      → Structured d r
      → Structured (suc d) p
      → Structured (suc d) (cons (program q) (cons (program r) (cons (operand w) p)))

-- The execution has ended; if it succeeded, no procedure is on the stack.
abbrev pub Ends : {F : Type 0} → Outcome F (Unit {0}) → Type 0
Ends (ok _ s) = All IsNoProgram s
Ends (err _ s) = Unit
Ends out_of_fuel = ⊥

module _ {F : Type 0} where
  value-IsNoProgram : (o : PsObject F) → IsValue o → IsNoProgram o
  value-IsNoProgram (integer n) v = tt
  value-IsNoProgram (real x) v = tt
  value-IsNoProgram (boolean b) v = tt
  value-IsNoProgram (program p) v = v
  value-IsNoProgram (operand w) v = tt

  continue-Ends :
      (r : Outcome F (Unit {0})) (f : Unit {0} → M F (Unit {0}))
      → Ends r
      → ((s : PsStack F) → All IsNoProgram s → Ends (f tt s))
      → Ends (continue r f)
  continue-Ends (ok u s) f h k = k s h
  continue-Ends (err e s) f h k = tt
  continue-Ends out_of_fuel f h k = h

  Ends-of_Keeps : (r : Outcome F (Unit {0})) → Keeps IsNoProgram r → Ends r
  Ends-of_Keeps (ok u s) h = h
  Ends-of_Keeps (err e s) h = tt
  Ends-of_Keeps out_of_fuel h = h

module _ {F : Type 0} ⦃fl : Float64 F⦄ (call : PsProgram F → M F (Unit {0})) where
  exec_command-Ends :
      (c : Option Command) (s : PsStack F)
      → c ≢ some if_
      → c ≢ some ifelse
      → All IsNoProgram s
      → Ends (exec_command call c s)
  unfolding exec_command
  exec_command-Ends none s a b h = tt
  exec_command-Ends (some (plain o)) s a b h =
      Ends-of_Keeps _ (exec_operator-Keeps IsNoProgram value-IsNoProgram o s h)
  exec_command-Ends (some if_) s a b h = absurd (a refl)
  exec_command-Ends (some ifelse) s a b h = absurd (b refl)

  exec_object-Ends :
      (o : PsObject F) (s : PsStack F)
      → IsSimple o
      → All IsNoProgram s
      → Ends (exec_object call o s)
  unfolding exec_object
  exec_object-Ends (integer n) s i h =
      Ends-of_Keeps _ (Keeps-push IsNoProgram value-IsNoProgram _ s tt h)
  exec_object-Ends (real x) s i h =
      Ends-of_Keeps _ (Keeps-push IsNoProgram value-IsNoProgram _ s tt h)
  exec_object-Ends (boolean b) s i h =
      Ends-of_Keeps _ (Keeps-push IsNoProgram value-IsNoProgram _ s tt h)
  exec_object-Ends (program p) s i h = elim i [ ]
  exec_object-Ends (operand w) s (a, b) h = exec_command-Ends (command_of w) s a b h

  module _ (q : PsProgram F) (ends : (s : PsStack F) → All IsNoProgram s → Ends (call q s)) where
    if-Ends : (s : PsStack F) → All IsNoProgram s → Ends (op_if call (program q ∷ s))
    unfolding op_if pop expect_program expect_boolean
    if-Ends [] h = tt
    if-Ends (boolean true ∷ s) (p, h) = ends s h
    if-Ends (boolean false ∷ s) (p, h) = h
    if-Ends (_ ∷ s) h = tt

    -- a procedure is pushed and the conditional behind it is executed
    conditional-Ends :
        (w : List ℕ) (p : PsProgram F) (s : PsStack F)
        → command_of w ≡ some if_
        → ((t : PsStack F) → All IsNoProgram t → Ends (exec_objects call p t))
        → All IsNoProgram s
        → Ends (exec_objects call (cons (program q) (cons (operand w) p)) s)
    unfolding exec_objects exec_object exec_command push
    conditional-Ends w p s e next h = elim (Bool-cases (ltb 100 (length s))) [
      | inl full ↦ rw (full, Ends) tt
      | inr free ↦ rw (free, e) (continue-Ends _ _ (if-Ends s h) next)
    ]

  module _ (q r : PsProgram F) (q_ends : (s : PsStack F) → All IsNoProgram s → Ends (call q s))
      (r_ends : (s : PsStack F) → All IsNoProgram s → Ends (call r s)) where
    ifelse-Ends :
        (s : PsStack F) → All IsNoProgram s → Ends (op_ifelse call (program r ∷ program q ∷ s))
    unfolding op_ifelse pop expect_program expect_boolean
    ifelse-Ends [] h = tt
    ifelse-Ends (boolean true ∷ s) (p, h) = q_ends s h
    ifelse-Ends (boolean false ∷ s) (p, h) = r_ends s h
    ifelse-Ends (_ ∷ s) h = tt

    alternative-Ends :
        (w : List ℕ) (p : PsProgram F) (s : PsStack F)
        → command_of w ≡ some ifelse
        → ((t : PsStack F) → All IsNoProgram t → Ends (exec_objects call p t))
        → All IsNoProgram s
        → Ends (exec_objects call (cons (program q) (cons (program r) (cons (operand w) p))) s)
    unfolding exec_objects exec_object exec_command push
    alternative-Ends w p s e next h = elim (Bool-cases (ltb 100 (length s))) [
      | inl full ↦ rw (full, Ends) tt
      | inr free ↦ rw free (elim (Bool-cases (ltb 100 (suc (length s)))) [
        | inl full ↦ rw (full, Ends) tt
        | inr free' ↦ rw (free', e) (continue-Ends _ _ (ifelse-Ends s h) next)
      ])
    ]

module _ {F : Type 0} ⦃fl : Float64 F⦄ where
  exec_objects-Ends :
      {d : ℕ} {p : PsProgram F}
      → Structured d p
      → (s : PsStack F) → All IsNoProgram s
      → Ends (exec_objects (exec d) p s)
  unfolding exec_objects exec
  exec_objects-Ends done s h = h
  exec_objects-Ends {d} (simple {o = o} {p = p} i st) s h =
      continue-Ends _ _ (exec_object-Ends (exec d) o s i h) (λ t k. exec_objects-Ends st t k)
  exec_objects-Ends (conditional {d = d} {w = w} {q = q} {p = p} e sq sp) s h =
      conditional-Ends (exec (suc d)) q (λ t k. exec_objects-Ends sq t k) w p s e
        (exec_objects-Ends sp) h
  exec_objects-Ends (alternative {d = d} {w = w} {q = q} {r = r} {p = p} e sq sr sp) s h =
      alternative-Ends (exec (suc d)) q r (λ t k. exec_objects-Ends sq t k)
        (λ t k. exec_objects-Ends sr t k) w p s e (exec_objects-Ends sp) h

  -- A program of the allowed form with procedures nested at most d deep, run on a stack without
  -- procedures, ends within d + 1 levels of calls, with a result or an error; after a success no
  -- procedure is left on the stack.
  pub exec-Ends :
      {d : ℕ} {p : PsProgram F} (s : PsStack F)
      → Structured d p
      → All IsNoProgram s
      → Ends (exec (suc d) p s)
  unfolding exec
  exec-Ends s st h = exec_objects-Ends st s h
