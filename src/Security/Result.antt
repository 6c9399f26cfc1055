-- ===== src/Security/Result.antt =====
-- What a function of `pdf/core/security` returns, slices of bytes, and the random source.
use unidoc.Prelude.{ℕ, ◌≤◌, ◌≡◌, ◌&&◌, length, take, drop, leb, if◌then◌else◌, arith}
use unidoc.Core.Decoding.{Bytes}

-- `out_of_fuel` is the model's own, for a loop that has not ended within its fuel.
pub data SecurityError : Type 0 where
  invalid_field invalid_cipher no_random hash_length invalid_r invalid_permissions : SecurityError
  permissions_differ invalid_flag metadata_differs short_buffer partial_block : SecurityError
  invalid_pad unknown_filter missing_entry invalid_length invalid_id out_of_fuel : SecurityError

-- A value, an error, or a run-time panic.
pub data Result {ℓ} (A : Type ℓ) : Type ℓ where
  ok : A → Result A
  err : SecurityError → Result A
  panic : Result A

infixl 5 ◌>>=◌
abbrev pub ◌>>=◌ {ℓ κ} : {A : Type ℓ} {B : Type κ} → Result A → (A → Result B) → Result B
ok a >>= f = f a
err e >>= f = err e
panic >>= f = panic

-- `bs[0:n]`
unfoldable pub prefix : ℕ → Bytes → Result Bytes
prefix n bs = if leb n (length bs) then ok (take n bs) else panic

-- `bs[m:n]`
unfoldable pub slice : ℕ → ℕ → Bytes → Result Bytes
slice m n bs = if leb m n && leb n (length bs) then ok (drop m (take n bs)) else panic

-- The random source is the list of the bytes that it will give; it fails when they are used up.
unfoldable pub read_random : ℕ → Bytes → Result (Bytes × Bytes)
read_random n s = if leb n (length s) then ok (take n s, drop n s) else err no_random

pub prefix-ok : (n : ℕ) (bs : Bytes) → n ≤ length bs → prefix n bs ≡ ok (take n bs)
unfolding prefix
prefix-ok n bs h = ground arith

pub slice-ok :
    (m n : ℕ) (bs : Bytes) → m ≤ n → n ≤ length bs → slice m n bs ≡ ok (drop m (take n bs))
unfolding slice
slice-ok m n bs h k = ground arith

pub read_random-ok : (n : ℕ) (s : Bytes) → n ≤ length s → read_random n s ≡ ok (take n s, drop n s)
unfolding read_random
read_random-ok n s h = ground arith
