-- ===== src/Ps/Effect/Arith.antt =====
-- The stack effect of the arithmetic operators of `pdf/ps/operations.go`.
use unidoc.Prelude.{refl, arith, Bool, true, false, Bool-cases, inl, inr, ◌&&◌, if◌then◌else◌}
use unidoc.Prelude.Int.{ℤ, pos}
use unidoc.GoInt.{int_quo, int_rem}
use unidoc.Ps.Object.{PsObject, integer, real, PsError, undefined_result, range_check, Float64}
use unidoc.Ps.Stack.{PsStack, M, ◌>>=◌, ◌>>◌, fail, return, pop, push, pop_number_as_float64}
use unidoc.Ps.Arith.{
  Number, int, float, expect_number, combine, nonzero, is_zero_int, float_zero, same_type, op_abs,
  op_add, op_bitshift, op_ceiling, op_cvi, op_cvr, op_div, op_floor, op_idiv, op_mod, op_mul,
  op_neg, op_round, op_sub, op_truncate,
}
use unidoc.Ps.Transcendental.{op_atan, op_cos, op_exp, op_ln, op_log, op_sin, op_sqrt}
use unidoc.Ps.Effect.{
  IsValue, Replaces, At, At-fail, At-pop, At-push, At-expect_integer, At-expect_number,
  At-pop_integer, At-pop_number, At-if,
}

module _ {F : Type 0} ⦃fl : Float64 F⦄ where
  combine-IsValue : (g : ℤ → ℤ → ℤ) (h : F → F → F) (a b : Number F) → IsValue (combine g h a b)
  unfolding combine
  combine-IsValue g h (int a) (int b) = tt
  combine-IsValue g h (int a) (float b) = tt
  combine-IsValue g h (float a) (int b) = tt
  combine-IsValue g h (float a) (float b) = tt

  same_type-IsValue : (g : ℤ → ℤ) (h : F → F) (a : Number F) → IsValue (same_type g h a)
  unfolding same_type
  same_type-IsValue g h (int a) = tt
  same_type-IsValue g h (float a) = tt

  -- the shapes that the operators share
  two_numbers :
      (s : PsStack F) (f : Number F → Number F → PsObject F)
      → ((a b : Number F) → IsValue (f a b))
      → Replaces 2 s (
          (do
            obj1 ← pop
            obj2 ← pop
            n1 ← expect_number obj1
            n2 ← expect_number obj2
            push (f n1 n2))
            s)
  two_numbers s f v =
      At-pop 2 s 0 _ (omega arith)
        (λ o1. At-pop 2 s 1 _ (omega arith) (λ o2.
          At-expect_number 2 s 2 o1 _ (omega arith)
            (λ a. At-expect_number 2 s 2 o2 _ (omega arith) (λ b. At-push 2 s _ (v a b)))))
        (omega arith)

  one_number :
      (s : PsStack F) (f : Number F → PsObject F)
      → ((a : Number F) → IsValue (f a))
      → Replaces 1 s ((do obj ← pop; num ← expect_number obj; push (f num)) s)
  one_number s f v =
      At-pop 1 s 0 _ (omega arith)
        (λ o. At-expect_number 1 s 1 o _ (omega arith) (λ a. At-push 1 s _ (v a))) (omega arith)

  one_float :
      (s : PsStack F) (f : F → M F (Unit {0}))
      → ((x : F) → At 1 s 1 (f x))
      → Replaces 1 s ((do x ← pop_number_as_float64; f x) s)
  one_float s f next = At-pop_number 1 s 0 f (omega arith) next (omega arith)

  pub two_floats :
      (s : PsStack F) (f : F → F → M F (Unit {0}))
      → ((x y : F) → At 2 s 2 (f x y))
      → Replaces 2 s ((do x ← pop_number_as_float64; y ← pop_number_as_float64; f x y) s)
  two_floats s f next =
      At-pop_number 2 s 0 _ (omega arith) (λ x. At-pop_number 2 s 1 (f x) (omega arith) (next x))
        (omega arith)

  pub op_add-Replaces : (s : PsStack F) → Replaces 2 s (op_add s)
  unfolding op_add
  op_add-Replaces s = two_numbers s _ (λ a b. combine-IsValue _ _ a b)

  pub op_sub-Replaces : (s : PsStack F) → Replaces 2 s (op_sub s)
  unfolding op_sub
  op_sub-Replaces s = two_numbers s _ (λ a b. combine-IsValue _ _ b a)

  pub op_mul-Replaces : (s : PsStack F) → Replaces 2 s (op_mul s)
  unfolding op_mul
  op_mul-Replaces s = two_numbers s _ (λ a b. combine-IsValue _ _ a b)

  pub op_abs-Replaces : (s : PsStack F) → Replaces 1 s (op_abs s)
  unfolding op_abs
  op_abs-Replaces s = one_number s _ (same_type-IsValue _ _)

  pub op_ceiling-Replaces : (s : PsStack F) → Replaces 1 s (op_ceiling s)
  unfolding op_ceiling
  op_ceiling-Replaces s = one_number s _ (same_type-IsValue _ _)

  pub op_floor-Replaces : (s : PsStack F) → Replaces 1 s (op_floor s)
  unfolding op_floor
  op_floor-Replaces s = one_number s _ (same_type-IsValue _ _)

  pub op_neg-Replaces : (s : PsStack F) → Replaces 1 s (op_neg s)
  unfolding op_neg
  op_neg-Replaces s = one_number s _ (same_type-IsValue _ _)

  pub op_round-Replaces : (s : PsStack F) → Replaces 1 s (op_round s)
  unfolding op_round
  op_round-Replaces s = one_number s _ (same_type-IsValue _ _)

  pub op_truncate-Replaces : (s : PsStack F) → Replaces 1 s (op_truncate s)
  unfolding op_truncate
  op_truncate-Replaces s = one_number s _ (same_type-IsValue _ _)

  pub op_cvi-Replaces : (s : PsStack F) → Replaces 1 s (op_cvi s)
  unfolding op_cvi
  op_cvi-Replaces s = one_number s _ (λ _. tt)

  pub op_cvr-Replaces : (s : PsStack F) → Replaces 1 s (op_cvr s)
  unfolding op_cvr
  op_cvr-Replaces s = one_number s _ (λ _. tt)

  At-nonzero :
      (s : PsStack F) (a : Number F) (m : M F (Unit {0})) → At 2 s 2 m → At 2 s 2 (nonzero a >> m)
  unfolding nonzero
  At-nonzero s (int n) m h = elim (Bool-cases (is_zero_int n)) [
    | inl e ↦ rw e (λ l. (2, omega arith, refl))
    | inr e ↦ rw e h
  ]
  At-nonzero s (float x) m h = elim (Bool-cases (fl.eq x float_zero)) [
    | inl e ↦ rw e (λ l. (2, omega arith, refl))
    | inr e ↦ rw e h
  ]

  pub op_div-Replaces : (s : PsStack F) → Replaces 2 s (op_div s)
  unfolding op_div
  op_div-Replaces s =
      At-pop 2 s 0 _ (omega arith)
        (λ o1. At-pop 2 s 1 _ (omega arith) (λ o2. At-expect_number 2 s 2 o1 _ (omega arith) (λ a.
          At-nonzero s a _ (At-expect_number 2 s 2 o2 _ (omega arith) (λ b. At-push 2 s _ tt)))))
        (omega arith)

  At-unless :
      (s : PsStack F) (b : Bool) (e : PsError) (m : M F (Unit {0}))
      → At 2 s 2 m
      → At 2 s 2 ((if b then fail e else return tt) >> m)
  At-unless s true e m h = At-fail 2 s 2 e (omega arith)
  At-unless s false e m h = h

  pub op_idiv-Replaces : (s : PsStack F) → Replaces 2 s (op_idiv s)
  unfolding op_idiv
  op_idiv-Replaces s =
      At-pop 2 s 0 _ (omega arith)
        (λ o1. At-pop 2 s 1 _ (omega arith) (λ o2. At-expect_integer 2 s 2 o1 _ (omega arith) (λ a.
          At-unless s (is_zero_int a) undefined_result _ (
            At-expect_integer 2 s 2 o2 (λ b. push (integer (int_quo b a))) (omega arith)
              (λ b. At-push 2 s (integer (int_quo b a)) tt)))))
        (omega arith)

  pub op_mod-Replaces : (s : PsStack F) → Replaces 2 s (op_mod s)
  unfolding op_mod
  op_mod-Replaces s =
      At-pop 2 s 0 _ (omega arith)
        (λ o1. At-pop 2 s 1 _ (omega arith) (λ o2. At-expect_integer 2 s 2 o1 _ (omega arith) (λ a.
          At-unless s (is_zero_int a) undefined_result _ (
            At-expect_integer 2 s 2 o2 (λ b. push (integer (int_rem b a))) (omega arith)
              (λ b. At-push 2 s (integer (int_rem b a)) tt)))))
        (omega arith)

  pub op_bitshift-Replaces : (s : PsStack F) → Replaces 2 s (op_bitshift s)
  unfolding op_bitshift
  op_bitshift-Replaces s =
      At-pop_integer 2 s 0 _ (omega arith)
        (λ a. At-pop_integer 2 s 1 _ (omega arith) (λ b. At-push 2 s _ tt)) (omega arith)

  pub op_cos-Replaces : (s : PsStack F) → Replaces 1 s (op_cos s)
  unfolding op_cos
  op_cos-Replaces s = one_float s _ (λ x. At-push 1 s _ tt)

  pub op_sin-Replaces : (s : PsStack F) → Replaces 1 s (op_sin s)
  unfolding op_sin
  op_sin-Replaces s = one_float s _ (λ x. At-push 1 s _ tt)

  pub op_log-Replaces : (s : PsStack F) → Replaces 1 s (op_log s)
  unfolding op_log
  op_log-Replaces s = one_float s _ (λ x. At-push 1 s _ tt)

  pub op_ln-Replaces : (s : PsStack F) → Replaces 1 s (op_ln s)
  unfolding op_ln
  op_ln-Replaces s = one_float s _ (λ x. At-push 1 s _ tt)

  pub op_sqrt-Replaces : (s : PsStack F) → Replaces 1 s (op_sqrt s)
  unfolding op_sqrt
  op_sqrt-Replaces s = one_float s _ (λ x.
      At-if 1 s 1 (fl.lt x (fl.of_int (pos 0))) (fail range_check) (push (real (fl.sqrt x)))
        (λ l. (1, omega arith, refl)) (At-push 1 s _ tt))

  pub op_exp-Replaces : (s : PsStack F) → Replaces 2 s (op_exp s)
  unfolding op_exp
  op_exp-Replaces s = two_floats s _ (λ x y.
      At-if 2 s 2 (fl.lt (fl.abs x) (fl.of_int (pos 1)) && fl.lt y (fl.of_int (pos 0)))
        (fail undefined_result) (push (real (fl.pow y x))) (λ l. (2, omega arith, refl))
        (At-push 2 s _ tt))

  pub op_atan-Replaces : (s : PsStack F) → Replaces 2 s (op_atan s)
  unfolding op_atan
  op_atan-Replaces s = two_floats s _ (λ x y.
      At-if 2 s 2 (fl.eq x (fl.of_int (pos 0)))
        (push (real (fl.of_int (if fl.lt y (fl.of_int (pos 0)) then pos 270 else pos 90))))
        (push (real (fl.div (fl.mul (fl.atan (fl.div y x)) (fl.of_int (pos 180))) fl.pi)))
        (At-push 2 s _ tt) (At-push 2 s _ tt))
