-- ===== src/Security/Hash.antt =====
-- `repeat` and `alg2b` of `pdf/core/security/standard_r6.go`.
pub mod Repeat
pub mod Rounds
use unidoc.Prelude.{
  ℕ, zero, suc, ◌+◌, ◌-◌, ◌*◌, ◌%◌, Bool, ◌&&◌, [], ◌∷◌, ◌++◌, length, take, drop, replicate,
  get_or, leb, ltb, ◌==◌, if◌then◌else◌,
}
use unidoc.Core.Decoding.{Bytes}
use unidoc.Security.Result.{out_of_fuel, Result, ok, err, panic, ◌>>=◌, prefix, slice}
use unidoc.Security.Primitives.{Primitives}

-- `copy(buf[bp:], buf[:bp])`
unfoldable pub copy_forward : ℕ → Bytes → Bytes
copy_forward bp buf = take bp buf ++ take (length buf - bp) (take bp buf) ++ drop (bp + bp) buf

-- The loop of `repeat`, whose variable `bp` doubles.
unfoldable pub repeat_rounds : ℕ → ℕ → Bytes → Result Bytes
unfolding copy_forward
repeat_rounds zero bp buf = err out_of_fuel
repeat_rounds (suc fuel) bp buf =
    let rest = repeat_rounds fuel (bp * 2) (copy_forward bp buf) in
    if ltb bp (length buf) then rest else ok buf

unfoldable pub repeat : Bytes → ℕ → Result Bytes
repeat buf n = repeat_rounds (suc (length buf)) n buf

-- The sum of the first n bytes, each modulo 3.
unfoldable pub sum_mod3 : ℕ → Bytes → ℕ
sum_mod3 zero bs = 0
sum_mod3 (suc n) [] = 0
sum_mod3 (suc n) (b ∷ bs) = b % 3 + sum_mod3 n bs

abbrev pub last_byte : Bytes → ℕ
last_byte bs = get_or bs (length bs - 1) 0

module _ (prim : Primitives) where
  -- The hash that step c selects.
  unfoldable pub select_hash : ℕ → Bytes → Bytes
  select_hash b e =
      if b % 3 == 0 then prim.sha256 e else if b % 3 == 1 then prim.sha384 e else prim.sha512 e

  -- The buffer of a round has room for 64 * (127 + 64 + 48) bytes; its contents behind the first part do
  -- not matter.
  unfoldable pub hash_round : Bytes → Bytes → Bytes → Result (Bytes × Bytes)
  unfolding select_hash
  hash_round pwd user_key k =
      let part = pwd ++ k ++ user_key in
      let n = length part in
      if ltb (127 + 64 + 48) n
      then panic
      else (repeat (part ++ replicate (n * 63) 0) n >>= λ k1. prefix 16 k >>= λ key.
          slice 16 32 k >>= λ iv.
          let e = prim.cbc_encrypt key iv k1 in ok (e, select_hash (sum_mod3 16 e) e))

  -- The loop of `alg2b`; round i is next.
  unfoldable pub hash_loop : ℕ → ℕ → Bytes → Bytes → Bytes → Result Bytes
  hash_loop zero i pwd user_key k = err out_of_fuel
  hash_loop (suc fuel) i pwd user_key k = hash_round pwd user_key k >>= λ (e, k').
      let i' = i + 1 in
      let rest = hash_loop fuel i' pwd user_key k' in
      if leb 64 i' && leb (last_byte e % 256) ((i' - 32) % 256) then prefix 32 k' else rest

  unfoldable pub alg2b_r6 : Bytes → Bytes → Bytes → Result Bytes
  alg2b_r6 bs pwd user_key = hash_loop 287 0 pwd user_key (prim.sha256 bs)

  unfoldable pub alg2b : ℕ → Bytes → Bytes → Bytes → Result Bytes
  alg2b r bs pwd user_key = if r == 5 then ok (prim.sha256 bs) else alg2b_r6 bs pwd user_key
