-- ===== src/GoInt.antt =====
-- Go's `int` on a 64-bit platform: an integer between -2^63 and 2^63 - 1 whose arithmetic wraps
-- around. The operators that `pdf/ps/operations.go` applies to `int` values and `abs` of
-- `pdf/ps/utils.go`.
pub mod Laws
use Prim.Native.Nat.{bit_and, bit_or, bit_xor}
use unidoc.Prelude.{
  ℕ, ◌+◌, ◌-◌, ◌*◌, ◌/◌, ◌%◌, ◌^◌, ◌≡◌, refl, Bool, true, false, ltb, leb, ◌==◌, if◌then◌else◌,
}
use unidoc.Prelude.Int.{ℤ, pos, negsuc, pos_part, neg_part, sub_ℕ, ◌+ℤ◌, ◌-ℤ◌, ◌*ℤ◌, ltb_ℤ}

-- The bit pattern of an integer, and the integer that a bit pattern stands for.
unfoldable pub to_word : ℤ → ℕ
to_word (pos n) = n % 2 ^ 64
to_word (negsuc n) = 2 ^ 64 - 1 - n % 2 ^ 64

unfoldable pub of_word : ℕ → ℤ
of_word w = if ltb w (2 ^ 63) then pos w else negsuc (2 ^ 64 - 1 - w)

-- The value that an exact result is stored as.
unfoldable pub wrap : ℤ → ℤ
unfolding to_word of_word
wrap z = of_word (to_word z)

-- `minInt <= z <= maxInt`.
abbrev pub in_range : ℤ → Bool
in_range (pos n) = ltb n (2 ^ 63)
in_range (negsuc n) = ltb n (2 ^ 63)

unfoldable pub int_add : ℤ → ℤ → ℤ
unfolding wrap ◌+ℤ◌
int_add a b = wrap (a +ℤ b)

unfoldable pub int_sub : ℤ → ℤ → ℤ
unfolding wrap ◌-ℤ◌
int_sub a b = wrap (a -ℤ b)

unfoldable pub int_mul : ℤ → ℤ → ℤ
unfolding wrap ◌*ℤ◌
int_mul a b = wrap (a *ℤ b)

unfoldable pub int_neg : ℤ → ℤ
unfolding wrap ◌-ℤ◌
int_neg a = wrap (pos 0 -ℤ a)

-- `^a`: all bits are flipped.
unfoldable pub int_not : ℤ → ℤ
int_not (pos n) = negsuc n
int_not (negsuc n) = pos n

unfoldable pub int_and : ℤ → ℤ → ℤ
unfolding to_word of_word
int_and a b = of_word (bit_and (to_word a) (to_word b))

unfoldable pub int_or : ℤ → ℤ → ℤ
unfolding to_word of_word
int_or a b = of_word (bit_or (to_word a) (to_word b))

unfoldable pub int_xor : ℤ → ℤ → ℤ
unfolding to_word of_word
int_xor a b = of_word (bit_xor (to_word a) (to_word b))

-- `a << k` for a `uint` count k.
unfoldable pub int_shl : ℤ → ℕ → ℤ
unfolding to_word of_word
int_shl a k = if leb 64 k then pos 0 else of_word ((to_word a * 2 ^ k) % 2 ^ 64)

-- `a >> k` for a `uint` count k: the sign fills the places that become free.
unfoldable pub int_shr : ℤ → ℕ → ℤ
int_shr (pos n) k = if leb 64 k then pos 0 else pos (n / 2 ^ k)
int_shr (negsuc n) k = if leb 64 k then negsuc 0 else negsuc (n / 2 ^ k)

-- n or -n, as an exact integer.
abbrev pub signed : Bool → ℕ → ℤ
signed negative n = if negative then sub_ℕ 0 n else pos n

abbrev pub is_negative : ℤ → Bool
is_negative (pos n) = false
is_negative (negsuc n) = true

abbrev pub magnitude : ℤ → ℕ
magnitude (pos n) = n
magnitude (negsuc n) = n + 1

-- `a / b` rounds towards zero; the caller excludes b = 0, and minInt / -1 wraps to minInt.
unfoldable pub int_quo : ℤ → ℤ → ℤ
unfolding wrap
int_quo (pos m) b = wrap (signed (is_negative b) (m / magnitude b))
int_quo (negsuc m) b = wrap (signed (if is_negative b then false else true) ((m + 1) / magnitude b))

-- `a % b` has the sign of a.
unfoldable pub int_rem : ℤ → ℤ → ℤ
unfolding wrap
int_rem a b = wrap (signed (is_negative a) (magnitude a % magnitude b))

-- `abs`: minInt is its own negation.
unfoldable pub int_abs : ℤ → ℤ
unfolding int_neg
int_abs x = if is_negative x then int_neg x else x
