-- ===== src/Security/Dict.antt =====
-- `StdEncryptDict` of `pdf/core/security/handlers.go` and `Permissions` of `permissions.go`.
use Prim.Native.Nat.{bit_and}
use unidoc.Prelude.{
  ℕ, ◌^◌, ◌-◌, ◌/◌, ◌%◌, ◌*◌, ◌+◌, ◌<◌, ◌≡◌, Bool, [], ◌∷◌, length, ltb, ◌==◌, if◌then◌else◌, arith,
}
use unidoc.Core.Decoding.{Bytes}
use unidoc.Security.Result.{Result, ok, err, invalid_field}

pub record StdEncryptDict : Type 0 where
  pub r : ℕ
  pub p : ℕ
  pub encrypt_metadata : Bool
  pub o : Bytes
  pub u : Bytes
  pub oe : Bytes
  pub ue : Bytes
  pub perms : Bytes

-- `PermOwner`
abbrev pub perm_owner : ℕ
perm_owner = 2 ^ 32 - 1

unfoldable pub allowed : ℕ → ℕ → Bool
allowed p p2 = bit_and p p2 == p2

unfoldable pub check_at_least : ℕ → Bytes → Result (Unit {0})
check_at_least exp b = if ltb (length b) exp then err invalid_field else ok tt

-- `binary.LittleEndian.PutUint32` and `Uint32`
abbrev pub put_uint32 : ℕ → Bytes
put_uint32 v = (v % 256) ∷ ((v / 256) % 256) ∷ ((v / 65536) % 256) ∷ ((v / 16777216) % 256) ∷ []

abbrev pub uint32 : Bytes → ℕ
uint32 (a ∷ b ∷ c ∷ d ∷ bs) = a + b * 256 + c * 65536 + d * 16777216
uint32 _ = 0

pub uint32-put_uint32 : (v : ℕ) → v < 2 ^ 32 → uint32 (put_uint32 v) ≡ v
uint32-put_uint32 v h = omega arith
