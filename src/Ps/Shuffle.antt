-- ===== src/Ps/Shuffle.antt =====
-- The operators of `pdf/ps/operations.go` that rearrange the stack: `copy`, `dup`, `exch`, `index`,
-- `pop` and `roll`.
pub mod Roll
use unidoc.Prelude.{
  ℕ, zero, suc, ◌-◌, ◌||◌, List, ◌++◌, length, take, drop, get_elem?, none, some, ltb, ◌==◌,
  if◌then◌else◌,
}
use unidoc.Prelude.Int.{ℤ, pos, negsuc}
use unidoc.GoInt.{int_abs}
use unidoc.Ps.Object.{duplicate, stack_underflow, range_check}
use unidoc.Ps.Stack.{M, ◌>>=◌, ◌>>◌, return, fail, push, pop, expect_integer, pop_integer}

-- The first k elements move behind the others.
unfoldable pub rotate {ℓ} : {A : Type ℓ} → ℕ → List A → List A
rotate k xs = drop k xs ++ take k xs

-- One round of `roll` on the topmost n objects: with j > 0 the top goes to the bottom, otherwise
-- the bottom goes to the top.
unfoldable pub roll_once {ℓ} : {A : Type ℓ} → ℕ → ℤ → List A → List A
roll_once n (pos j) s = rotate 1 (take n s) ++ drop n s
roll_once n (negsuc j) s = rotate (n - 1) (take n s) ++ drop n s

-- `for i := 0; i < rounds; i++`
unfoldable pub roll_rounds {ℓ} : {A : Type ℓ} → ℕ → ℕ → ℤ → List A → List A
roll_rounds zero n j s = s
roll_rounds (suc k) n j s = roll_rounds k n j (roll_once n j s)

-- The bound of the loop: a negative `abs(j)`, as of minInt, makes no round.
unfoldable pub rounds : ℤ → ℕ
rounds j = elim (int_abs j) [ pos k ↦ k | negsuc k ↦ 0 ]

module _ {F : Type 0} where
  unfoldable pub roll_by : ℤ → ℤ → M F (Unit {0})
  roll_by j (negsuc n) s = fail range_check s
  roll_by j (pos n) s =
      if (n == 0) || (n == 1)
      then return tt s
      else if ltb (length s) n
      then fail stack_underflow s
      else return tt (roll_rounds (rounds j) n j s)

  unfoldable pub op_roll : M F (Unit {0})
  op_roll = do obj1 ← pop; obj2 ← pop; j ← expect_integer obj1; n ← expect_integer obj2; roll_by j n

  -- The copies are appended with no test of the depth.
  unfoldable pub copy_top : ℤ → M F (Unit {0})
  copy_top (negsuc n) s = fail range_check s
  copy_top (pos n) s = if ltb (length s) n then fail range_check s else return tt (take n s ++ s)

  unfoldable pub op_copy : M F (Unit {0})
  op_copy = do n ← pop_integer; copy_top n

  -- `n > len(*stack)-1` holds exactly where there is no object n below the top.
  unfoldable pub push_nth : ℤ → M F (Unit {0})
  push_nth (negsuc n) s = fail range_check s
  push_nth (pos n) s = elim (get_elem? s n) [
    | none ↦ fail stack_underflow s
    | some o ↦ push (duplicate o) s
  ]

  unfoldable pub op_index : M F (Unit {0})
  op_index = do obj ← pop; n ← expect_integer obj; push_nth n

  unfoldable pub op_dup : M F (Unit {0})
  op_dup = do obj ← pop; push obj; push (duplicate obj)

  unfoldable pub op_exch : M F (Unit {0})
  op_exch = do top ← pop; next ← pop; push top; push next

  unfoldable pub op_pop : M F (Unit {0})
  op_pop = do obj ← pop; return tt
