-- ===== src/Ps/Arith/Laws.antt =====
-- Laws of the integer operators of `pdf/ps/operations.go`, where Go's `int` wraps around.
use unidoc.Prelude.{◌-◌, ◌^◌, ◌≤◌, ◌≡◌, ◌≢◌, refl, ◌∙◌, ap, true, false, ◌∷◌, length, arith}
use unidoc.Prelude.Int.{ℤ, pos, negsuc, ◌+ℤ◌, ◌*ℤ◌}
use unidoc.GoInt.{in_range, int_add, int_sub, int_quo, int_rem}
use unidoc.GoInt.Laws.{int_sub-add, int_quo-rem, int_add_comm}
use unidoc.Ps.Object.{integer, Float64}
use unidoc.Ps.Stack.{PsStack, ok, ◌>>◌, push, pop, expect_integer}
use unidoc.Ps.Arith.{expect_number, combine, is_zero_int, op_add, op_sub, op_idiv, op_mod}

is_zero-false : (b : ℤ) → b ≢ pos 0 → is_zero_int b ≡ false
unfolding is_zero_int
is_zero-false (pos b) h = ground arith
is_zero-false (negsuc b) h = refl

module _ {F : Type 0} ⦃fl : Float64 F⦄ where
  -- For an integer a of 64 bits and an integer b, on a stack of at most 99 other objects, `b add b sub`
  -- leaves a where a was, also when the sum wraps around.
  pub op_sub-add :
      (a b : ℤ) (s : PsStack F)
      → in_range a ≡ true
      → length s ≤ 99
      → (do op_add; push (integer b); op_sub) (integer b ∷ integer a ∷ s) ≡ ok tt (integer a ∷ s)
  unfolding op_add op_sub push pop expect_number combine
  op_sub-add a b s r h = ground (arith, sum_back)
    where
      sum_back : int_sub (int_add b a) b ≡ a
      sum_back = ap (λ c. int_sub c b) (int_add_comm b a) ∙ int_sub-add a b r

  -- On integers a of 64 bits and b ≠ 0 with at most 100 other objects on the stack, `idiv` and `mod`
  -- push a quotient q and a remainder r with q * b + r = a exactly, but for a = -2^63 and b = -1.
  pub op_idiv-mod :
      (a b : ℤ) (s : PsStack F)
      → in_range a ≡ true
      → b ≢ pos 0
      → (a ≡ negsuc (2 ^ 63 - 1) → b ≢ negsuc 0)
      → length s ≤ 100
      → (q : ℤ) × (r : ℤ) × (op_idiv (integer b ∷ integer a ∷ s) ≡ ok tt (integer q ∷ s))
        × (op_mod (integer b ∷ integer a ∷ s) ≡ ok tt (integer r ∷ s))
        × (q *ℤ b +ℤ r ≡ a)
  unfolding op_idiv op_mod push pop expect_integer
  op_idiv-mod a b s h z e l = (
    int_quo a b,
    int_rem a b,
    ground (arith, is_zero-false b z),
    ground (arith, is_zero-false b z),
    int_quo-rem a b h z e,
  )
