-- ===== src/Ps/Tests.antt =====
-- Runs of the calculator of `pdf/ps` at concrete inputs, and its theorems at inputs that meet their
-- hypotheses. The floating-point values are integers here.
use unidoc.Prelude.{
  ℕ, ◌≡◌, refl, true, false, List, [], ◌∷◌, ◌++◌, length, codes, arith, none, some, Bool, ◌==◌,
  if◌then◌else◌,
}
use unidoc.Prelude.Int.{ℤ, pos, negsuc, ◌+ℤ◌, ◌-ℤ◌, ◌*ℤ◌, ltb_ℤ}
use unidoc.GoInt.{int_quo, int_abs, wrap, to_word, of_word}
use unidoc.Ps.Object.{
  PsObject, integer, real, boolean, program, operand, PsProgram, nil, cons, range_check, Float64,
}
use unidoc.Ps.Stack.{PsStack, ok, out_of_fuel, ◌>>◌, push, pop}
use unidoc.GoInt.{int_add}
use unidoc.Ps.Arith.{expect_number, combine, op_add, op_sub, op_idiv, op_mod}
use unidoc.Ps.Arith.Laws.{op_sub-add, op_idiv-mod}
use unidoc.Ps.Logic.{op_ge, op_gt, op_le, op_lt}
use unidoc.Ps.Logic.Laws.{negated, ge-lt-gt-le}
use unidoc.Ps.Shuffle.{rotate, roll_once, roll_rounds, rounds, roll_by, op_roll, op_copy}
use unidoc.Ps.Shuffle.Roll.{op_roll-rotate, op_roll-back}
use unidoc.Ps.Stack.{expect_integer}
use unidoc.Prelude.{◌%◌, ◌≢◌}
use unidoc.Ps.Exec.{
  Operator, Command, plain, ifelse, command_of, find_command, command_table, op_ifelse,
  exec_operator, exec_command, exec_object, exec_objects, exec, expect_program, expect_boolean,
}
use unidoc.Ps.Exec.Structured.{IsSimple, Structured, done, simple, alternative, Ends, exec-Ends}
use unidoc.Ps.Exec.Depth.{CopyFreeProgram, LeavesBounded, exec-Bounded, op_copy-unbounded}
use unidoc.Ps.Exec.Endless.{again, exec-endless}
use unidoc.Ps.Effect.{Replaces}
use unidoc.Ps.Effect.Operators.{exec_operator-Replaces}
use unidoc.Ps.Function4.{values, failed, evaluate, get_executor}
use unidoc.Ps.Function4.History.{
  new_function, sqrt_program, evaluate-after_success, evaluate-after_error,
}

abbrev eq_ℤ : ℤ → ℤ → Bool
eq_ℤ (pos a) (pos b) = a == b
eq_ℤ (negsuc a) (negsuc b) = a == b
eq_ℤ _ _ = false

instance abbrev int_floats : Float64 ℤ
int_floats = record {
  of_int = λ n. n;
  to_int = λ n. n;
  half = pos 0;
  tolerance = pos 1;
  pi = pos 3;
  neg = λ a. pos 0 -ℤ a;
  add = ◌+ℤ◌;
  sub = ◌-ℤ◌;
  mul = ◌*ℤ◌;
  div = int_quo;
  eq = eq_ℤ;
  lt = ltb_ℤ;
  abs = λ a. if ltb_ℤ a (pos 0) then pos 0 -ℤ a else a;
  ceil = λ a. a;
  floor = λ a. a;
  sqrt = λ a. a;
  sin = λ a. a;
  cos = λ a. a;
  atan = λ a. a;
  pow = λ a b. a;
  log10 = λ a. a;
  ln = λ a. a;
}

abbrev int : ℕ → PsObject ℤ
int n = integer (pos n)

-- `{ 3 copy add }` and the like, as lists of objects
abbrev routine : List (PsObject ℤ) → PsProgram ℤ
routine [] = nil
routine (o ∷ os) = cons o (routine os)

-- `true { 1 } { 2 dup } ifelse 5 add`
abbrev branching : PsProgram ℤ
branching = routine (
    boolean true
    ∷ program (routine (int 1 ∷ []))
    ∷ program (routine (int 2 ∷ operand (codes "dup") ∷ []))
    ∷ operand (codes "ifelse")
    ∷ int 5
    ∷ operand (codes "add")
    ∷ [])

-- The operand names that a concrete structured program needs are looked up by computation.
looks_up :
    (command_of (codes "ifelse") ≡ some ifelse)
    × (command_of (codes "dup") ≡ some (plain Operator.dup))
    × (command_of (codes "add") ≡ some (plain Operator.add))
    × (command_of (codes "foo") ≡ none)
unfolding command_of find_command command_table
looks_up = (refl, refl, refl, refl)

plain_word :
    (w : List ℕ) (o : Operator) → command_of w ≡ some (plain o) → IsSimple {F = ℤ} (operand w)
plain_word w o e = (cc, cc)

branching-Structured : Structured 1 branching
branching-Structured = simple tt (
    alternative looks_up.0 (simple tt done) (simple tt (simple (plain_word _ _ looks_up.1) done))
      (simple tt (simple (plain_word _ _ looks_up.2) done)))

branching_result : exec 2 branching [] ≡ ok tt (int 6 ∷ [])
unfolding exec exec_objects exec_object exec_command exec_operator command_of find_command
    command_table op_ifelse op_add push pop expect_program expect_boolean expect_number combine
    int_add wrap to_word of_word ◌+ℤ◌
branching_result = refl

exec-Ends_example : Ends (exec 2 branching (int 7 ∷ []))
exec-Ends_example = exec-Ends (int 7 ∷ []) branching-Structured (tt, tt)

-- the operands `dup` and `add` are not `copy`
not_copy :
    (w : List ℕ) (c : Command)
    → command_of w ≡ some c
    → c ≢ plain Operator.copy
    → command_of w ≢ some (plain Operator.copy)
not_copy w c e h k = h (cc)

branching-CopyFree : CopyFreeProgram branching
branching-CopyFree = (
  tt,
  (
    (tt, tt),
    (
      (tt, (not_copy _ _ looks_up.1 cc, tt)),
      (not_copy _ _ looks_up.0 cc, (tt, (not_copy _ _ looks_up.2 cc, tt))),
    ),
  ),
)

exec-Bounded_example : LeavesBounded (exec 2 branching (int 7 ∷ []))
exec-Bounded_example =
    exec-Bounded 2 branching (int 7 ∷ []) branching-CopyFree (omega arith, (tt, tt))

exec_operator-Replaces_example :
    Replaces 2
      (int 1 ∷ int 2 ∷ boolean true ∷ [])
      (exec_operator Operator.sub (int 1 ∷ int 2 ∷ boolean true ∷ []))
exec_operator-Replaces_example =
    exec_operator-Replaces Operator.sub 2 (int 1 ∷ int 2 ∷ boolean true ∷ []) refl

exec-endless_example : exec 5 (cons (program again) again) (int 1 ∷ []) ≡ out_of_fuel
exec-endless_example = exec-endless 5 (int 1 ∷ []) (omega arith)

abbrev three : PsStack ℤ
three = int 9 ∷ int 8 ∷ int 7 ∷ []

op_roll-rotate_example :
    op_roll (int 1 ∷ int 3 ∷ (three ++ int 0 ∷ [])) ≡ ok tt (rotate (1 % 3) three ++ int 0 ∷ [])
op_roll-rotate_example = op_roll-rotate 1 three (int 0 ∷ []) (omega arith)

-- `7 8 9 3 1 roll -> 9 7 8`, from the comment of the source
rolled : op_roll (int 1 ∷ int 3 ∷ three) ≡ ok tt (int 8 ∷ int 7 ∷ int 9 ∷ [])
unfolding op_roll pop expect_integer roll_by roll_rounds rounds roll_once rotate int_abs
rolled = refl

op_roll-back_example :
    op_roll (integer (negsuc 0) ∷ int 3 ∷ int 8 ∷ int 7 ∷ int 9 ∷ []) ≡ ok tt (three ++ [])
op_roll-back_example =
    op_roll-back 0 three [] (int 8 ∷ int 7 ∷ int 9 ∷ []) (omega arith) (omega arith) rolled

op_copy-unbounded_example : (t : PsStack ℤ) × (op_copy (int 2 ∷ three) ≡ ok tt t) × (length t ≡ 5)
op_copy-unbounded_example = op_copy-unbounded 2 three (omega arith)

ge-lt-gt-le_example :
    (op_ge (real (pos 2) ∷ real (pos 5) ∷ []) ≡ negated (op_lt (real (pos 2) ∷ real (pos 5) ∷ [])))
    × (op_gt (real (pos 2) ∷ real (pos 5) ∷ [])
        ≡ negated (op_le (real (pos 2) ∷ real (pos 5) ∷ [])))
ge-lt-gt-le_example = ge-lt-gt-le (pos 5) (pos 2) [] (λ _. refl)

op_sub-add_example : (do op_add; push (int 4); op_sub) (int 4 ∷ int 3 ∷ []) ≡ ok tt (int 3 ∷ [])
op_sub-add_example = op_sub-add (pos 3) (pos 4) [] refl (omega arith)

op_idiv-mod_example :
    (q : ℤ) × (r : ℤ) × (op_idiv (integer (negsuc 2) ∷ int 25 ∷ []) ≡ ok tt (integer q ∷ []))
    × (op_mod (integer (negsuc 2) ∷ int 25 ∷ []) ≡ ok tt (integer r ∷ []))
    × (q *ℤ negsuc 2 +ℤ r ≡ pos 25)
op_idiv-mod_example = op_idiv-mod (pos 25) (negsuc 2) [] refl (cc) (λ e. absurd (cc)) (omega arith)

abbrev negative_five : ℤ
negative_five = negsuc 4

first_evaluation : (evaluate 1 (new_function sqrt_program) (pos 4 ∷ [])).0 ≡ values (pos 4 ∷ [])
first_evaluation = (evaluate-after_error (pos 1) negative_five (pos 4) refl refl).2

evaluate-after_success_example :
    (evaluate 1 (evaluate 1 (new_function sqrt_program) (pos 4 ∷ [])).1 (pos 9 ∷ [])).0
    ≡ (evaluate 1 (new_function sqrt_program) (pos 9 ∷ [])).0
evaluate-after_success_example =
    evaluate-after_success 1 1 (new_function sqrt_program) (pos 4 ∷ []) (pos 4 ∷ []) (pos 9 ∷ [])
      (unfold get_executor in refl) first_evaluation

evaluate-after_error_example :
    ((evaluate 1 (new_function sqrt_program) (pos 1 ∷ negative_five ∷ [])).0 ≡ failed range_check)
    × ((evaluate 1
          (evaluate 1 (new_function sqrt_program) (pos 1 ∷ negative_five ∷ [])).1
          (pos 4 ∷ [])).0
        ≡ values (pos 1 ∷ pos 4 ∷ []))
    × ((evaluate 1 (new_function sqrt_program) (pos 4 ∷ [])).0 ≡ values (pos 4 ∷ []))
evaluate-after_error_example = evaluate-after_error (pos 1) negative_five (pos 4) refl refl
