-- ===== src/Core/Decoding.antt =====
-- The result of a decoder of `pdf/core/encoding.go`, and the bytes that it reads.
use unidoc.Prelude.{ℕ, ◌<◌, List, All}

abbrev pub Bytes : Type 0
Bytes = List ℕ

abbrev pub IsByte : ℕ → Type 0
IsByte b = b < 256

abbrev pub AreBytes : Bytes → Type 0
AreBytes = All IsByte

-- `out_of_fuel` is the model's own, for a loop that has not ended within its fuel.
pub data DecodeError : Type 0 where
  unexpected_eof invalid_character odd_length out_of_fuel : DecodeError

pub data Decoded {ℓ} (A : Type ℓ) : Type ℓ where
  ok : A → Decoded A
  err : DecodeError → Decoded A

infixl 5 ◌>>=◌
abbrev pub ◌>>=◌ {ℓ κ} : {A : Type ℓ} {B : Type κ} → Decoded A → (A → Decoded B) → Decoded B
ok a >>= f = f a
err e >>= f = err e
