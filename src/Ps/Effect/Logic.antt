-- ===== src/Ps/Effect/Logic.antt =====
-- The stack effect of the comparisons and of the logical operators of `pdf/ps/operations.go`.
use unidoc.Prelude.{refl, arith, Bool, true, false, if◌then◌else◌}
use unidoc.Prelude.Int.{ℤ}
use unidoc.Ps.Object.{PsObject, integer, boolean, Float64}
use unidoc.Ps.Stack.{PsStack, M, ◌>>=◌, pop, push}
use unidoc.Ps.Logic.{
  close, connective, negation, eq_objects, eq_numbers, op_and, op_eq, op_ge, op_gt, op_le, op_lt,
  op_not, op_or, op_xor,
}
use unidoc.Ps.Effect.{Replaces, At, At-pop, At-push, At-expect_float, At-if}
use unidoc.Ps.Effect.Arith.{two_floats}

module _ {F : Type 0} where
  -- any two objects, whatever is done with them
  two_objects :
      (s : PsStack F) (f : PsObject F → PsObject F → M F (Unit {0}))
      → ((a b : PsObject F) → At 2 s 2 (f a b))
      → Replaces 2 s ((do obj1 ← pop; obj2 ← pop; f obj1 obj2) s)
  two_objects s f next =
      At-pop 2 s 0 _ (omega arith) (λ a. At-pop 2 s 1 (f a) (omega arith) (next a)) (omega arith)

  At-connective :
      (s : PsStack F) (g : Bool → Bool → Bool) (h : ℤ → ℤ → ℤ) (a b : PsObject F)
      → At 2 s 2 (connective g h a b)
  unfolding connective
  At-connective s g h (boolean a) (boolean b) = At-push 2 s _ tt
  At-connective s g h (integer a) (integer b) = At-push 2 s _ tt
  At-connective s g h _ _ = λ l. (2, omega arith, refl)

  pub op_and-Replaces : (s : PsStack F) → Replaces 2 s (op_and s)
  unfolding op_and
  op_and-Replaces s = two_objects s _ (At-connective s _ _)

  pub op_or-Replaces : (s : PsStack F) → Replaces 2 s (op_or s)
  unfolding op_or
  op_or-Replaces s = two_objects s _ (At-connective s _ _)

  pub op_xor-Replaces : (s : PsStack F) → Replaces 2 s (op_xor s)
  unfolding op_xor
  op_xor-Replaces s = two_objects s _ (At-connective s _ _)

  At-negation : (s : PsStack F) (a : PsObject F) → At 1 s 1 (negation a)
  unfolding negation
  At-negation s (boolean a) = At-push 1 s _ tt
  At-negation s (integer a) = At-push 1 s _ tt
  At-negation s _ = λ l. (1, omega arith, refl)

  pub op_not-Replaces : (s : PsStack F) → Replaces 1 s (op_not s)
  unfolding op_not
  op_not-Replaces s = At-pop 1 s 0 _ (omega arith) (At-negation s) (omega arith)

module _ {F : Type 0} ⦃fl : Float64 F⦄ where
  At-eq_numbers : (s : PsStack F) (a b : PsObject F) → At 2 s 2 (eq_numbers a b)
  unfolding eq_numbers
  At-eq_numbers s a b =
      At-expect_float 2 s 2 a _ (omega arith)
        (λ x. At-expect_float 2 s 2 b _ (omega arith) (λ y. At-push 2 s _ tt))

  At-eq_objects : (s : PsStack F) (a b : PsObject F) → At 2 s 2 (eq_objects a b)
  unfolding eq_objects
  At-eq_objects s (boolean a) (boolean b) = At-push 2 s _ tt
  At-eq_objects s (boolean a) _ = At-push 2 s _ tt
  At-eq_objects s a (boolean b) = At-push 2 s _ tt
  At-eq_objects s a b = At-eq_numbers s a b

  pub op_eq-Replaces : (s : PsStack F) → Replaces 2 s (op_eq s)
  unfolding op_eq
  op_eq-Replaces s = two_objects s _ (At-eq_objects s)

  At-test3 :
      (s : PsStack F) (b c : Bool) (x y z : Bool)
      → At 2 s 2 (if b then push (boolean x) else if c then push (boolean y) else push (boolean z))
  At-test3 s b c x y z =
      At-if 2 s 2 b _ _ (At-push 2 s _ tt) (At-if 2 s 2 c _ _ (At-push 2 s _ tt) (At-push 2 s _ tt))

  pub op_ge-Replaces : (s : PsStack F) → Replaces 2 s (op_ge s)
  unfolding op_ge
  op_ge-Replaces s = two_floats s _ (λ y x. At-test3 s (close x y) (fl.lt y x) true true false)

  pub op_gt-Replaces : (s : PsStack F) → Replaces 2 s (op_gt s)
  unfolding op_gt
  op_gt-Replaces s = two_floats s _ (λ y x. At-test3 s (close x y) (fl.lt y x) false true false)

  pub op_le-Replaces : (s : PsStack F) → Replaces 2 s (op_le s)
  unfolding op_le
  op_le-Replaces s = two_floats s _ (λ y x. At-test3 s (close x y) (fl.lt x y) true true false)

  pub op_lt-Replaces : (s : PsStack F) → Replaces 2 s (op_lt s)
  unfolding op_lt
  op_lt-Replaces s = two_floats s _ (λ y x. At-test3 s (close x y) (fl.lt x y) false true false)
