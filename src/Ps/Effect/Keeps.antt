-- ===== src/Ps/Effect/Keeps.antt =====
-- A property of all objects on the stack under the operators of `pdf/ps/operations.go`.
use unidoc.Prelude.{
  ℕ, zero, suc, ◌-◌, ◌≡◌, [], ◌∷◌, length, take, All, All-append, All-take, All-drop, All-get_elem?,
  Bool-cases, ltb, arith, inl, inr, Option-cases, none, get_elem?,
}
use unidoc.Prelude.Int.{ℤ, pos, negsuc}
use unidoc.Ps.Object.{duplicate, duplicate_lem, PsObject, integer, Float64}
use unidoc.Ps.Stack.{PsStack, Outcome, ok, err, out_of_fuel, push, pop, expect_integer, pop_integer}
use unidoc.Ps.Shuffle.{
  rounds, rotate, roll_once, roll_rounds, roll_by, op_roll, copy_top, op_copy, push_nth, op_index,
  op_dup, op_exch, op_pop,
}
use unidoc.Ps.Exec.{Operator, exec_operator}
use unidoc.Ps.Effect.{IsValue, Replaces}
use unidoc.Ps.Effect.Operators.{arity, exec_operator-Replaces}

-- All objects of the stack that is left have P.
abbrev pub Keeps : {F : Type 0} → (PsObject F → Type 0) → Outcome F (Unit {0}) → Type 0
Keeps P (ok _ s) = All P s
Keeps P (err _ s) = All P s
Keeps P out_of_fuel = ⊥

module _ {F : Type 0} ⦃fl : Float64 F⦄ (P : PsObject F → Type 0)
    (value : (o : PsObject F) → IsValue o → P o) where
  pub Keeps-push : (o : PsObject F) (s : PsStack F) → P o → All P s → Keeps P (push o s)
  unfolding push
  Keeps-push o s p h = elim (Bool-cases (ltb 100 (length s))) [
    | inl e ↦ rw (e, Keeps) h
    | inr e ↦ rw (e, Keeps) (p, h)
  ]

  All-roll_once : (n : ℕ) (j : ℤ) (s : PsStack F) → All P s → All P (roll_once n j s)
  unfolding roll_once rotate
  All-roll_once n (pos j) s h =
      let t = All-take P n s h in
      All-append P _ _ (All-append P _ _ (All-drop P 1 _ t) (All-take P 1 _ t)) (All-drop P n s h)
  All-roll_once n (negsuc j) s h =
      let t = All-take P n s h in
      All-append P _ _ (All-append P _ _ (All-drop P (n - 1) _ t) (All-take P (n - 1) _ t))
        (All-drop P n s h)

  All-roll_rounds : (k n : ℕ) (j : ℤ) (s : PsStack F) → All P s → All P (roll_rounds k n j s)
  unfolding roll_rounds
  All-roll_rounds zero n j s h = h
  All-roll_rounds (suc k) n j s h = All-roll_rounds k n j (roll_once n j s) (All-roll_once n j s h)

  Keeps-roll_by : (j n : ℤ) (s : PsStack F) → All P s → Keeps P (roll_by j n s)
  unfolding roll_by
  Keeps-roll_by j (negsuc n) s h = h
  Keeps-roll_by j (pos n) s h = ground (arith, All-roll_rounds (rounds j) n j s h)

  Keeps-roll : (s : PsStack F) → All P s → Keeps P (op_roll s)
  unfolding op_roll pop expect_integer
  Keeps-roll [] h = h
  Keeps-roll (a ∷ []) h = tt
  Keeps-roll (integer j ∷ integer n ∷ s) (p, (q, h)) = Keeps-roll_by j n s h
  Keeps-roll (a ∷ b ∷ s) (p, (q, h)) = h

  Keeps-copy_top : (n : ℤ) (s : PsStack F) → All P s → Keeps P (copy_top n s)
  unfolding copy_top
  Keeps-copy_top (negsuc n) s h = h
  Keeps-copy_top (pos n) s h = ground (arith, All-append P (take n s) s (All-take P n s h) h)

  Keeps-copy : (s : PsStack F) → All P s → Keeps P (op_copy s)
  unfolding op_copy pop_integer pop expect_integer
  Keeps-copy [] h = h
  Keeps-copy (integer n ∷ s) (p, h) = Keeps-copy_top n s h
  Keeps-copy (a ∷ s) (p, h) = h

  Keeps-push_nth : (n : ℤ) (s : PsStack F) → All P s → Keeps P (push_nth n s)
  unfolding push_nth
  Keeps-push_nth (negsuc n) s h = h
  Keeps-push_nth (pos n) s h = elim (Option-cases (get_elem? s n)) [
    | inl e ↦ rw (e, Keeps) h
    | inr (o, e) ↦
        rw (e, Keeps)
          (Keeps-push (duplicate o) s (rw (duplicate_lem o) (All-get_elem? P s n o h e)) h)
  ]

  Keeps-index : (s : PsStack F) → All P s → Keeps P (op_index s)
  unfolding op_index pop expect_integer
  Keeps-index [] h = h
  Keeps-index (integer n ∷ s) (p, h) = Keeps-push_nth n s h
  Keeps-index (a ∷ s) (p, h) = h

  Keeps-dup : (s : PsStack F) → All P s → Keeps P (op_dup s)
  unfolding op_dup pop push
  Keeps-dup [] h = h
  Keeps-dup (a ∷ s) (p, h) = rw (duplicate_lem a) (ground arith)

  Keeps-exch : (s : PsStack F) → All P s → Keeps P (op_exch s)
  unfolding op_exch pop push
  Keeps-exch [] h = h
  Keeps-exch (a ∷ []) h = tt
  Keeps-exch (a ∷ b ∷ s) (p, (q, h)) = ground arith

  Keeps-pop : (s : PsStack F) → All P s → Keeps P (op_pop s)
  unfolding op_pop pop
  Keeps-pop [] h = h
  Keeps-pop (a ∷ s) (p, h) = h

  Keeps-Replaces :
      (n : ℕ) (s : PsStack F) (r : Outcome F (Unit {0})) → All P s → Replaces n s r → Keeps P r
  Keeps-Replaces n s (ok u t) h (r, v, e, l, d) = rw e (value r v, All-drop P n s h)
  Keeps-Replaces n s (err e t) h (k, l, d) = rw d (All-drop P k s h)
  Keeps-Replaces n s out_of_fuel h k = k

  Keeps-rearranging :
      (o : Operator) (s : PsStack F) → arity o ≡ none → All P s → Keeps P (exec_operator o s)
  unfolding exec_operator
  Keeps-rearranging Operator.dup s e h = Keeps-dup s h
  Keeps-rearranging Operator.exch s e h = Keeps-exch s h
  Keeps-rearranging Operator.index s e h = Keeps-index s h
  Keeps-rearranging Operator.pop_ s e h = Keeps-pop s h
  Keeps-rearranging Operator.roll s e h = Keeps-roll s h
  Keeps-rearranging Operator.copy s e h = Keeps-copy s h
  Keeps-rearranging _ s e h = cc

  -- A property that numbers and Booleans have is kept by every operator.
  pub exec_operator-Keeps : (o : Operator) (s : PsStack F) → All P s → Keeps P (exec_operator o s)
  exec_operator-Keeps o s h = elim (Option-cases (arity o)) [
    | inl e ↦ Keeps-rearranging o s e h
    | inr (n, e) ↦ Keeps-Replaces n s (exec_operator o s) h (exec_operator-Replaces o n s e)
  ]
