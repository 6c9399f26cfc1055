-- ===== src/Security/HandlerR6/Keys.antt =====
-- The entries `U` and `O` of `pdf/core/security/standard_r6.go`: a hash, a validation salt and a key salt;
-- and the hash as a function.
use unidoc.Prelude.{
  ℕ, ◌≤◌, ◌≡◌, refl, ap, ◌∙◌, [], ◌++◌, append_assoc, length, length-append, length-take, take,
  drop, take_all, take_front, drop_front, ltb, if-both, arith,
}
use unidoc.Core.Decoding.{Bytes}
use unidoc.Security.Result.{Result, ok, err, panic, slice, slice-ok, prefix, prefix-ok}
use unidoc.Security.Primitives.{Primitives, IsSound}
use unidoc.Security.Dict.{check_at_least}
use unidoc.Security.Hash.{alg2b}
use unidoc.Security.Hash.Rounds.{IsHash, alg2b-IsHash}
use unidoc.Security.HandlerR6.{truncated, encrypt_key, no_vector}

pub check_at_least-ok : (n : ℕ) (b : Bytes) → n ≤ length b → check_at_least n b ≡ ok tt
unfolding check_at_least
check_at_least-ok n b h = ground arith

pub length-truncated : (pass : Bytes) → length (truncated pass) ≤ 127
length-truncated pass =
    if-both (λ (q : Bytes). length q ≤ 127) (ltb 127 (length pass))
      (λ h. omega (arith, length-take 127 pass)) (λ h. ground arith)

-- An entry of 48 bytes.
module _ (h vs ks : Bytes) (a : length h ≡ 32) (b : length vs ≡ 8) (c : length ks ≡ 8) where
  pub entry_length : length (h ++ vs ++ ks) ≡ 48
  entry_length = omega (arith, length-append (h ++ vs) ks, length-append h vs)

  pub entry_hash : take 32 (h ++ vs ++ ks) ≡ h
  entry_hash = ap (take 32) (append_assoc h vs ks) ∙ take_front 32 h (vs ++ ks) a

  pub entry_validation_salt : slice 32 40 (h ++ vs ++ ks) ≡ ok vs
  entry_validation_salt =
      slice-ok 32 40 (h ++ vs ++ ks) (omega arith) (omega (arith, entry_length))
      ∙ ap (λ bs. ok (drop 32 bs)) (take_front 40 (h ++ vs) ks (omega (arith, length-append h vs)))
      ∙ ap ok (drop_front 32 h vs a)

  pub entry_key_salt : slice 40 48 (h ++ vs ++ ks) ≡ ok ks
  entry_key_salt =
      slice-ok 40 48 (h ++ vs ++ ks) (omega arith) (omega (arith, entry_length))
      ∙ ap (λ bs. ok (drop 40 bs)) entry_whole
      ∙ ap ok (drop_front 40 (h ++ vs) ks (omega (arith, length-append h vs)))
    where
      entry_whole : take 48 (h ++ vs ++ ks) ≡ h ++ vs ++ ks
      entry_whole = take_all 48 (h ++ vs ++ ks) (omega (arith, entry_length))

-- The value of a hash that has one.
abbrev value_of : Result Bytes → Bytes
value_of (ok h) = h
value_of (err e) = []
value_of panic = []

value_of-ok : (r : Result Bytes) → IsHash r → (r ≡ ok (value_of r)) × (length (value_of r) ≡ 32)
value_of-ok (ok h) e = (refl, e)
value_of-ok (err x) e = elim e [ ]
value_of-ok panic e = elim e [ ]

module _ (prim : Primitives) (sound : IsSound prim) where
  unfoldable pub hash_of : ℕ → Bytes → Bytes → Bytes → Bytes
  hash_of r bs pwd user_key = value_of (alg2b prim r bs pwd user_key)

  module _ (r : ℕ) (bs pwd user_key : Bytes) (p : length pwd ≤ 127) (q : length user_key ≤ 48) where
    pub alg2b-hash_of : alg2b prim r bs pwd user_key ≡ ok (hash_of r bs pwd user_key)
    unfolding hash_of
    alg2b-hash_of = (value_of-ok _ (alg2b-IsHash prim sound r bs pwd user_key p q)).0

    pub length-hash_of : length (hash_of r bs pwd user_key) ≡ 32
    unfolding hash_of
    length-hash_of = (value_of-ok _ (alg2b-IsHash prim sound r bs pwd user_key p q)).1

    pub prefix-hash_of : prefix 32 (hash_of r bs pwd user_key) ≡ ok (hash_of r bs pwd user_key)
    prefix-hash_of =
        prefix-ok 32 _ (omega (arith, length-hash_of))
        ∙ ap ok (take_all 32 _ (omega (arith, length-hash_of)))

  pub encrypt_key-ok :
      (h ekey : Bytes)
      → length h ≡ 32
      → length ekey ≡ 32
      → encrypt_key prim h ekey ≡ ok (prim.cbc_encrypt h no_vector ekey)
  unfolding encrypt_key
  encrypt_key-ok h ekey a b =
      rw
        (
          prefix-ok 32 h (omega (arith, a)),
          take_all 32 h (omega (arith, a)),
          take_all 32 ekey (omega (arith, b)),
        )
        refl
