-- ===== src/Ps/Effect.antt =====
-- The stack effect of the operators that compute a value (`pdf/ps/operations.go`): a judgement on
-- the steps of an operator, with a rule for each primitive; the children apply them.
pub mod Arith
pub mod Logic
pub mod Operators
pub mod Depth
pub mod Keeps
use unidoc.Prelude.{
  ℕ, zero, suc, ◌+◌, ◌≤◌, ◌<◌, ◌≡◌, refl, Bool, true, false, List, [], ◌∷◌, drop, length,
  length-drop, arith, if◌then◌else◌, ap, sym, ◌⊎◌, inl, inr, ltb, Bool-cases,
}
use unidoc.Prelude.Int.{ℤ}
use unidoc.Ps.Object.{PsObject, integer, real, boolean, program, operand, PsError, Float64}
use unidoc.Ps.Stack.{
  PsStack, Outcome, ok, err, out_of_fuel, continue, M, ◌>>=◌, ◌>>◌, return, fail, push, pop,
  expect_integer, pop_integer, expect_float, pop_number_as_float64,
}
use unidoc.Ps.Arith.{Number, int, float, expect_number}

abbrev pub IsValue : {F : Type 0} → PsObject F → Type 0
IsValue (integer n) = Unit
IsValue (real x) = Unit
IsValue (boolean b) = Unit
IsValue (program p) = ⊥
IsValue (operand w) = ⊥

-- The n topmost objects are replaced by one value; on an error at most they are gone.
abbrev pub Replaces : {F : Type 0} → ℕ → PsStack F → Outcome F (Unit {0}) → Type 0
Replaces {F} n s (ok _ s') =
    (r : PsObject F) × IsValue r × (s' ≡ r ∷ drop n s) × (n ≤ length s) × (length s' ≤ 101)
Replaces n s (err e s') = (k : ℕ) × (k ≤ n) × (s' ≡ drop k s)
Replaces n s out_of_fuel = ⊥

-- The rest m of an operator with n operands, run when k of them are popped.
abbrev pub At : {F : Type 0} → ℕ → PsStack F → ℕ → M F (Unit {0}) → Type 0
At n s k m = k ≤ length s → Replaces n s (m (drop k s))

module _ {F : Type 0} where
  drop_nil : (k : ℕ) → drop {A = PsObject F} k [] ≡ []
  drop_nil zero = refl
  drop_nil (suc k) = refl

  -- what a pop finds k objects below the top
  drop-cases :
      (s : PsStack F) (k : ℕ)
      → k ≤ length s
      → ((length s ≡ k) × (drop k s ≡ []))
        ⊎ ((o : PsObject F) × (drop k s ≡ o ∷ drop (suc k) s) × (suc k ≤ length s))
  drop-cases [] zero h = inl (refl, refl)
  drop-cases [] (suc k) h = absurd (omega arith)
  drop-cases (o ∷ s) zero h = inr (o, refl, omega arith)
  drop-cases (o ∷ s) (suc k) h = elim (drop-cases s k (omega arith)) [
    | inl (e, d) ↦ inl (ap suc e, d)
    | inr (x, d, l) ↦ inr (x, d, omega arith)
  ]

  pub At-fail : (n : ℕ) (s : PsStack F) (k : ℕ) (e : PsError) → k ≤ n → At n s k (fail e)
  At-fail n s k e h l = (k, h, refl)

  pub At-pop :
      (n : ℕ) (s : PsStack F) (k : ℕ) (f : PsObject F → M F (Unit {0}))
      → k < n
      → ((o : PsObject F) → At n s (suc k) (f o))
      → At n s k (pop >>= f)
  unfolding pop
  At-pop n s k f h next l = elim (drop-cases s k l) [
    | inl (e, d) ↦ rw d (k, omega arith, sym d)
    | inr (o, d, l') ↦ rw d (next o l')
  ]

  pub At-push : (n : ℕ) (s : PsStack F) (o : PsObject F) → IsValue o → At n s n (push o)
  unfolding push
  At-push n s o v l = elim (Bool-cases (ltb 100 (length (drop n s)))) [
    | inl full ↦ rw full (n, omega arith, refl)
    | inr free ↦ rw free (o, v, refl, l, ground arith)
  ]

  -- the type assertions, whichever way they go
  pub At-expect_integer :
      (n : ℕ) (s : PsStack F) (k : ℕ) (o : PsObject F) (f : ℤ → M F (Unit {0}))
      → k ≤ n
      → ((i : ℤ) → At n s k (f i))
      → At n s k (expect_integer o >>= f)
  unfolding expect_integer
  At-expect_integer n s k (integer i) f h next l = next i l
  At-expect_integer n s k (real x) f h next l = (k, h, refl)
  At-expect_integer n s k (boolean b) f h next l = (k, h, refl)
  At-expect_integer n s k (program p) f h next l = (k, h, refl)
  At-expect_integer n s k (operand w) f h next l = (k, h, refl)

  pub At-expect_number :
      (n : ℕ) (s : PsStack F) (k : ℕ) (o : PsObject F) (f : Number F → M F (Unit {0}))
      → k ≤ n
      → ((x : Number F) → At n s k (f x))
      → At n s k (expect_number o >>= f)
  unfolding expect_number
  At-expect_number n s k (integer i) f h next l = next (int i) l
  At-expect_number n s k (real x) f h next l = next (float x) l
  At-expect_number n s k (boolean b) f h next l = (k, h, refl)
  At-expect_number n s k (program p) f h next l = (k, h, refl)
  At-expect_number n s k (operand w) f h next l = (k, h, refl)

  pub At-expect_float :
      ⦃fl : Float64 F⦄ (n : ℕ) (s : PsStack F) (k : ℕ) (o : PsObject F) (f : F → M F (Unit {0}))
      → k ≤ n
      → ((x : F) → At n s k (f x))
      → At n s k (expect_float o >>= f)
  unfolding expect_float
  At-expect_float ⦃fl⦄ n s k (integer i) f h next l = next (fl.of_int i) l
  At-expect_float n s k (real x) f h next l = next x l
  At-expect_float n s k (boolean b) f h next l = (k, h, refl)
  At-expect_float n s k (program p) f h next l = (k, h, refl)
  At-expect_float n s k (operand w) f h next l = (k, h, refl)

  continue_assoc :
      {A B : Type 0} (r : Outcome F A) (f : A → M F B) (g : B → M F (Unit {0}))
      → continue (continue r f) g ≡ continue r (λ a. f a >>= g)
  continue_assoc (ok a s) f g = refl
  continue_assoc (err e s) f g = refl
  continue_assoc out_of_fuel f g = refl

  pub At-pop_integer :
      (n : ℕ) (s : PsStack F) (k : ℕ) (f : ℤ → M F (Unit {0}))
      → k < n
      → ((i : ℤ) → At n s (suc k) (f i))
      → At n s k (pop_integer >>= f)
  unfolding pop_integer
  At-pop_integer n s k f h next l =
      rw continue_assoc
        (At-pop n s k _ h (λ o. At-expect_integer n s (suc k) o f (omega arith) next) l)

  pub At-pop_number :
      ⦃fl : Float64 F⦄ (n : ℕ) (s : PsStack F) (k : ℕ) (f : F → M F (Unit {0}))
      → k < n
      → ((x : F) → At n s (suc k) (f x))
      → At n s k (pop_number_as_float64 >>= f)
  unfolding pop_number_as_float64
  At-pop_number n s k f h next l =
      rw continue_assoc
        (At-pop n s k _ h (λ o. At-expect_float n s (suc k) o f (omega arith) next) l)

  -- either branch of a test
  pub At-if :
      (n : ℕ) (s : PsStack F) (k : ℕ) (b : Bool) (m m' : M F (Unit {0}))
      → At n s k m
      → At n s k m'
      → At n s k (if b then m else m')
  At-if n s k true m m' h h' = h
  At-if n s k false m m' h h' = h'
