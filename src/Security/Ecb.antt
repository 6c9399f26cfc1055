-- ===== src/Security/Ecb.antt =====
-- The electronic codebook mode of `pdf/core/security/ecb.go`, with blocks of 16 bytes.
use unidoc.Prelude.{
  ℕ, zero, suc, ◌/◌, ◌%◌, ◌≡◌, refl, not, [], ◌++◌, append-nil, length, take, drop, take_all, ◌==◌,
  if◌then◌else◌, arith,
}
use unidoc.Core.Decoding.{Bytes}
use unidoc.Security.Result.{Result, ok, panic}

-- The loop of `CryptBlocks` over the blocks, each with `b.Encrypt` or `b.Decrypt`.
unfoldable pub crypt_each : (Bytes → Bytes) → ℕ → Bytes → Bytes
crypt_each block zero src = []
crypt_each block (suc n) src = block (take 16 src) ++ crypt_each block n (drop 16 src)

unfoldable pub crypt_blocks : (Bytes → Bytes) → Bytes → Result Bytes
crypt_blocks block src =
    if not (length src % 16 == 0) then panic else ok (crypt_each block (length src / 16) src)

pub crypt_blocks-one :
    (block : Bytes → Bytes) (src : Bytes)
    → length src ≡ 16
    → crypt_blocks block src ≡ ok (block src)
unfolding crypt_blocks crypt_each
crypt_blocks-one block src e = rw (e, take_all 16 src (omega arith), append-nil (block src)) refl
