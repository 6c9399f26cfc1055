-- ===== src/Ps/Effect/Depth.antt =====
-- The depth of the stack under the operators of `pdf/ps/operations.go`.
use unidoc.Prelude.{
  ℕ, zero, suc, ◌-◌, ◌≤◌, ◌≡◌, ◌≢◌, refl, [], ◌∷◌, ◌++◌, length, take, drop, length-append,
  length-take, length-drop, arith, inl, inr, Option-cases, none, get_elem?,
}
use unidoc.Prelude.Int.{ℤ, pos, negsuc}
use unidoc.Ps.Object.{duplicate, PsObject, integer, Float64}
use unidoc.Ps.Stack.{PsStack, Outcome, ok, err, out_of_fuel, push, pop, expect_integer}
use unidoc.Ps.Shuffle.{
  rounds, rotate, roll_once, roll_rounds, roll_by, op_roll, push_nth, op_index, op_dup, op_exch,
  op_pop,
}
use unidoc.Ps.Exec.{Operator, exec_operator}
use unidoc.Ps.Effect.{Replaces}
use unidoc.Ps.Effect.Operators.{arity, exec_operator-Replaces}

-- The depth is at most 101, after a success as after an error.
abbrev pub Shallow : {F : Type 0} → Outcome F (Unit {0}) → Type 0
Shallow (ok _ s) = length s ≤ 101
Shallow (err _ s) = length s ≤ 101
Shallow out_of_fuel = Unit

module _ {F : Type 0} ⦃fl : Float64 F⦄ where
  -- Rolling rearranges: the depth stays.
  length-roll_once :
      (n : ℕ) (j : ℤ) (s : PsStack F) → n ≤ length s → length (roll_once n j s) ≡ length s
  unfolding roll_once rotate
  length-roll_once n (pos j) s h = omega (
    arith,
    length-append (drop 1 (take n s) ++ take 1 (take n s)) (drop n s),
    length-append (drop 1 (take n s)) (take 1 (take n s)),
    length-drop 1 (take n s),
    length-take 1 (take n s),
    length-take n s,
    length-drop n s,
  )
  length-roll_once n (negsuc j) s h = omega (
    arith,
    length-append (drop (n - 1) (take n s) ++ take (n - 1) (take n s)) (drop n s),
    length-append (drop (n - 1) (take n s)) (take (n - 1) (take n s)),
    length-drop (n - 1) (take n s),
    length-take (n - 1) (take n s),
    length-take n s,
    length-drop n s,
  )

  pub length-roll_rounds :
      (k n : ℕ) (j : ℤ) (s : PsStack F) → n ≤ length s → length (roll_rounds k n j s) ≡ length s
  unfolding roll_rounds
  length-roll_rounds zero n j s h = refl
  length-roll_rounds (suc k) n j s h = omega (
    arith,
    length-roll_once n j s h,
    length-roll_rounds k n j (roll_once n j s) (omega (arith, length-roll_once n j s h)),
  )

  pub Shallow-push : (o : PsObject F) (s : PsStack F) → length s ≤ 101 → Shallow (push o s)
  unfolding push
  Shallow-push o s h = ground arith

  Shallow-roll_by : (j n : ℤ) (s : PsStack F) → length s ≤ 101 → Shallow (roll_by j n s)
  unfolding roll_by
  Shallow-roll_by j (negsuc n) s h = h
  Shallow-roll_by j (pos n) s h = ground (arith, length-roll_rounds (rounds j) n j s)

  Shallow-roll : (s : PsStack F) → length s ≤ 101 → Shallow (op_roll s)
  unfolding op_roll pop expect_integer
  Shallow-roll [] h = h
  Shallow-roll (a ∷ []) h = omega arith
  Shallow-roll (integer j ∷ integer n ∷ s) h = Shallow-roll_by j n s (omega arith)
  Shallow-roll (a ∷ b ∷ s) h = omega arith

  Shallow-push_nth : (n : ℤ) (s : PsStack F) → length s ≤ 101 → Shallow (push_nth n s)
  unfolding push_nth
  Shallow-push_nth (negsuc n) s h = h
  Shallow-push_nth (pos n) s h = elim (Option-cases (get_elem? s n)) [
    | inl e ↦ rw (e, Shallow) h
    | inr (o, e) ↦ rw (e, Shallow) (Shallow-push (duplicate o) s h)
  ]

  Shallow-index : (s : PsStack F) → length s ≤ 101 → Shallow (op_index s)
  unfolding op_index pop expect_integer
  Shallow-index [] h = h
  Shallow-index (integer n ∷ s) h = Shallow-push_nth n s (omega arith)
  Shallow-index (a ∷ s) h = omega arith

  Shallow-dup : (s : PsStack F) → length s ≤ 101 → Shallow (op_dup s)
  unfolding op_dup pop push
  Shallow-dup [] h = h
  Shallow-dup (a ∷ s) h = ground arith

  Shallow-exch : (s : PsStack F) → length s ≤ 101 → Shallow (op_exch s)
  unfolding op_exch pop push
  Shallow-exch [] h = h
  Shallow-exch (a ∷ []) h = omega arith
  Shallow-exch (a ∷ b ∷ s) h = ground arith

  Shallow-pop : (s : PsStack F) → length s ≤ 101 → Shallow (op_pop s)
  unfolding op_pop pop
  Shallow-pop [] h = h
  Shallow-pop (a ∷ s) h = omega arith

  Shallow-Replaces :
      (n : ℕ) (s : PsStack F) (r : Outcome F (Unit {0}))
      → length s ≤ 101
      → Replaces n s r
      → Shallow r
  Shallow-Replaces n s (ok u t) h (r, v, e, l, d) = d
  Shallow-Replaces n s (err e t) h (k, l, d) = rw d (omega (arith, length-drop k s))
  Shallow-Replaces n s out_of_fuel h k = tt

  Shallow-rearranging :
      (o : Operator) (s : PsStack F)
      → arity o ≡ none
      → o ≢ Operator.copy
      → length s ≤ 101
      → Shallow (exec_operator o s)
  unfolding exec_operator
  Shallow-rearranging Operator.dup s e c h = Shallow-dup s h
  Shallow-rearranging Operator.exch s e c h = Shallow-exch s h
  Shallow-rearranging Operator.index s e c h = Shallow-index s h
  Shallow-rearranging Operator.pop_ s e c h = Shallow-pop s h
  Shallow-rearranging Operator.roll s e c h = Shallow-roll s h
  Shallow-rearranging Operator.copy s e c h = absurd (c refl)
  Shallow-rearranging _ s e c h = cc

  -- Every operator but `copy` leaves at most 101 objects where there were at most 101.
  pub exec_operator-Shallow :
      (o : Operator) (s : PsStack F)
      → o ≢ Operator.copy
      → length s ≤ 101
      → Shallow (exec_operator o s)
  exec_operator-Shallow o s c h = elim (Option-cases (arity o)) [
    | inl e ↦ Shallow-rearranging o s e c h
    | inr (n, e) ↦ Shallow-Replaces n s (exec_operator o s) h (exec_operator-Replaces o n s e)
  ]
