-- ===== src/GoInt/Laws.antt =====
-- Laws of the `int` operations of the module above.
use native.Mathlib.Nat.{div-add-mod'}
use unidoc.Prelude.{ℕ, ap, ◌+◌, ◌*◌, ◌^◌, ◌-◌, ◌≤◌, ◌/◌, ◌≢◌, ◌≡◌, refl, true, arith}
use unidoc.Prelude.Int.{ℤ, pos, negsuc, ◌*ℤ◌, ◌+ℤ◌, +ℤ_comm}
use unidoc.GoInt.{int_quo, int_rem, to_word, of_word, wrap, in_range, int_add, int_sub, int_not}

-- A value in range is stored as itself.
pub wrap-in_range : (z : ℤ) → in_range z ≡ true → wrap z ≡ z
unfolding wrap
wrap-in_range (pos n) h = ground arith
wrap-in_range (negsuc n) h = ground arith

pub in_range-wrap : (z : ℤ) → in_range (wrap z) ≡ true
unfolding wrap
in_range-wrap (pos n) = ground arith
in_range-wrap (negsuc n) = ground arith

pub int_not-not : (z : ℤ) → int_not (int_not z) ≡ z
unfolding int_not
int_not-not (pos n) = refl
int_not-not (negsuc n) = refl

-- Wrap-around subtraction undoes wrap-around addition.
pub int_sub-add : (a b : ℤ) → in_range a ≡ true → int_sub (int_add a b) b ≡ a
unfolding int_sub int_add
int_sub-add (pos a) (pos b) h = ground arith
int_sub-add (pos a) (negsuc b) h = ground arith
int_sub-add (negsuc a) (pos b) h = ground arith
int_sub-add (negsuc a) (negsuc b) h = ground arith

quo_bound : (m n : ℕ) → m / n ≤ m
quo_bound m n = grind arith

quo_half : (m n : ℕ) → 2 ≤ n → m / n * 2 ≤ m
quo_half m n h = grind (arith, div-add-mod' m n)

-- Go's division: the quotient times the divisor and the remainder make the dividend, exactly, but
-- for minInt / -1.
pub int_quo-rem :
    (a b : ℤ)
    → in_range a ≡ true
    → b ≢ pos 0
    → (a ≡ negsuc (2 ^ 63 - 1) → b ≢ negsuc 0)
    → int_quo a b *ℤ b +ℤ int_rem a b ≡ a
unfolding int_quo int_rem ◌*ℤ◌ ◌+ℤ◌ wrap to_word of_word
int_quo-rem (pos m) (pos n) h z e = ground (arith, quo_bound m n, div-add-mod' m n)
int_quo-rem (pos m) (negsuc n) h z e = ground (arith, quo_bound m (n + 1), div-add-mod' m (n + 1))
int_quo-rem (negsuc m) (pos n) h z e = ground (arith, quo_bound (m + 1) n, div-add-mod' (m + 1) n)
int_quo-rem (negsuc m) (negsuc n) h z e =
    ground
      (arith, quo_half (m + 1) (n + 1), quo_bound (m + 1) (n + 1), div-add-mod' (m + 1) (n + 1))

pub int_add_comm : (a b : ℤ) → int_add a b ≡ int_add b a
unfolding int_add
int_add_comm a b = ap wrap (+ℤ_comm a b)
