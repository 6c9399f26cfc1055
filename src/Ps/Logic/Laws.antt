-- ===== src/Ps/Logic/Laws.antt =====
-- Laws of the comparisons and of `ne` of `pdf/ps/operations.go`.
use unidoc.Prelude.{◌≡◌, refl, Bool, false, not, [], ◌∷◌, arith}
use unidoc.Ps.Object.{PsObject, integer, real, boolean, Float64}
use unidoc.Ps.Stack.{PsStack, Outcome, ok, continue, push, pop, expect_float, pop_number_as_float64}
use unidoc.Ps.Logic.{
  eq_numbers, eq_objects, negation, close, op_eq, op_ne, op_not, op_ge, op_gt, op_le, op_lt,
}

-- The outcome with the Boolean on top flipped; any other outcome as it is.
abbrev pub negated : {F : Type 0} → Outcome F (Unit {0}) → Outcome F (Unit {0})
negated (ok u (boolean b ∷ s)) = ok u (boolean (not b) ∷ s)
negated r = r

module _ {F : Type 0} ⦃fl : Float64 F⦄ where
  negated-push :
      (b : Bool) (s : PsStack F)
      → continue (push (boolean b) s) (λ _. op_not) ≡ negated (push (boolean b) s)
  unfolding push op_not pop negation
  negated-push b s = ground arith

  eq_numbers-not :
      (a b : PsObject F) (s : PsStack F)
      → continue (eq_numbers a b s) (λ _. op_not) ≡ negated (eq_numbers a b s)
  unfolding eq_numbers expect_float
  eq_numbers-not (integer i) (integer j) s = negated-push _ s
  eq_numbers-not (integer i) (real y) s = negated-push _ s
  eq_numbers-not (real x) (integer j) s = negated-push _ s
  eq_numbers-not (real x) (real y) s = negated-push _ s
  eq_numbers-not _ _ s = refl

  eq_objects-not :
      (a b : PsObject F) (s : PsStack F)
      → continue (eq_objects a b s) (λ _. op_not) ≡ negated (eq_objects a b s)
  unfolding eq_objects
  eq_objects-not (boolean a) (boolean b) s = negated-push _ s
  eq_objects-not (boolean a) _ s = negated-push _ s
  eq_objects-not a (boolean b) s = negated-push false s
  eq_objects-not a b s = eq_numbers-not a b s

  -- `ne` gives on every stack what `eq` gives, with the Boolean flipped; errors are the same, and
  -- flipping never overflows the stack.
  pub op_ne-negated : (s : PsStack F) → op_ne s ≡ negated (op_eq s)
  unfolding op_ne op_eq pop
  op_ne-negated [] = refl
  op_ne-negated (a ∷ []) = refl
  op_ne-negated (a ∷ b ∷ s) = eq_objects-not a b s

  -- Where any two numbers that are not close are in order one way and not the other (which leaves
  -- out NaN), `ge` is the negation of `lt` and `gt` that of `le`.
  pub ge-lt-gt-le :
      (x y : F) (s : PsStack F)
      → (close x y ≡ false → fl.lt y x ≡ not (fl.lt x y))
      → (op_ge (real y ∷ real x ∷ s) ≡ negated (op_lt (real y ∷ real x ∷ s)))
        × (op_gt (real y ∷ real x ∷ s) ≡ negated (op_le (real y ∷ real x ∷ s)))
  unfolding op_ge op_lt op_gt op_le pop_number_as_float64 pop expect_float push
  ge-lt-gt-le x y s h = (ground arith, ground arith)
