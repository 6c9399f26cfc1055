-- ===== src/Security/Hash/Rounds.antt =====
-- The loop of `alg2b` of `pdf/core/security/standard_r6.go`.
use unidoc.Prelude.{
  ℕ, zero, suc, ◌+◌, ◌-◌, ◌*◌, ◌%◌, ◌≤◌, ◌≡◌, refl, ◌&&◌, false, ◌++◌, length, length-append,
  length-replicate, length-take, replicate, take, drop, leb, ltb, ◌==◌, if-both, arith,
}
use unidoc.Core.Decoding.{Bytes}
use unidoc.Security.Result.{Result, ok, err, panic, prefix-ok, slice-ok}
use unidoc.Security.Primitives.{Primitives, IsSound}
use unidoc.Security.Hash.{sum_mod3, last_byte, select_hash, hash_round, hash_loop, alg2b_r6, alg2b}
use unidoc.Security.Hash.Repeat.{doubled, repeat-doubled}

-- A hash of 32 bytes, and neither an error nor a panic.
abbrev pub IsHash : Result Bytes → Type 0
IsHash (ok h) = length h ≡ 32
IsHash (err e) = ⊥
IsHash panic = ⊥

module _ (prim : Primitives) (sound : IsSound prim) where
  select_hash-within :
      (b : ℕ) (e : Bytes)
      → (32 ≤ length (select_hash prim b e)) × (length (select_hash prim b e) ≤ 64)
  unfolding select_hash
  select_hash-within b e =
      if-both Within (b % 3 == 0)
        (λ _. within 32 (prim.sha256 e) (sound.sha256_length e) (omega arith) (omega arith))
        (λ _.
          if-both Within (b % 3 == 1)
            (λ _. within 48 (prim.sha384 e) (sound.sha384_length e) (omega arith) (omega arith))
            (λ _. within 64 (prim.sha512 e) (sound.sha512_length e) (omega arith) (omega arith)))
    where
      Within : Bytes → Type 0
      Within h = (32 ≤ length h) × (length h ≤ 64)

      within : (n : ℕ) (h : Bytes) → length h ≡ n → 32 ≤ n → n ≤ 64 → Within h
      within n h e l u = (omega arith, omega arith)

  module _ (pwd user_key : Bytes) (p : length pwd ≤ 127) (q : length user_key ≤ 48) where
    encrypted : Bytes → Bytes
    encrypted k =
        prim.cbc_encrypt (take 16 k) (drop 16 (take 32 k)) (doubled 6 (pwd ++ k ++ user_key))

    rehash : Bytes → Bytes
    rehash k = select_hash prim (sum_mod3 16 (encrypted k)) (encrypted k)

    length-part :
        (k : Bytes) → length (pwd ++ k ++ user_key) ≡ length pwd + length k + length user_key
    length-part k = omega (arith, length-append (pwd ++ k) user_key, length-append pwd k)

    hash_round-rehash :
        (k : Bytes)
        → 32 ≤ length k
        → length k ≤ 64
        → hash_round prim pwd user_key k ≡ ok (encrypted k, rehash k)
    unfolding hash_round encrypted rehash
    hash_round-rehash k l u =
        let part = pwd ++ k ++ user_key in
        rw
          (
            fits (length part) (omega (arith, length-part k)),
            repeat-doubled (length part) part (replicate (length part * 63) 0) refl
                (omega (arith, length-part k)) (length-replicate (length part * 63) 0),
            prefix-ok 16 k (omega arith),
            slice-ok 16 32 k (omega arith) l,
          )
          refl
      where
        fits : (n : ℕ) → n ≤ 239 → ltb (127 + 64 + 48) n ≡ false
        fits n h = ground arith

    rehash-within : (k : Bytes) → (32 ≤ length (rehash k)) × (length (rehash k) ≤ 64)
    unfolding rehash
    rehash-within k = select_hash-within (sum_mod3 16 (encrypted k)) (encrypted k)

    -- In round 287 the byte is compared with 255.
    must_end :
        (i x : ℕ)
        → i ≤ 286
        → (leb 64 (i + 1) && leb (x % 256) ((i + 1 - 32) % 256)) ≡ false
        → i + 1 ≤ 286
    must_end i x b n = ground arith

    first_part : (h : Bytes) → 32 ≤ length h → length (take 32 h) ≡ 32
    first_part h l = omega (arith, length-take 32 h)

    hash_loop-IsHash :
        (fuel i : ℕ) (k : Bytes)
        → i ≤ 286
        → 287 ≤ fuel + i
        → 32 ≤ length k
        → length k ≤ 64
        → IsHash (hash_loop prim fuel i pwd user_key k)
    unfolding hash_loop
    hash_loop-IsHash zero i k b f l u = absurd (omega arith)
    hash_loop-IsHash (suc fuel) i k b f l u =
        let (l', u') = rehash-within k in
        rw (hash_round-rehash k l u) (
          if-both IsHash
            (leb 64 (i + 1) && leb (last_byte (encrypted k) % 256) ((i + 1 - 32) % 256))
            (λ _. rw (prefix-ok 32 (rehash k) l') (first_part (rehash k) l'))
            (λ n.
              hash_loop-IsHash fuel (i + 1) (rehash k) (must_end i (last_byte (encrypted k)) b n)
                (omega arith) l' u'))

  -- The hash of revision 6 ends within 287 rounds, without an error or a panic, and has 32 bytes, for
  -- every text to be hashed, every password of at most 127 bytes and every user key of at most 48: in
  -- round 287 the last byte is compared with 255. The hashes of Go have their lengths.
  pub alg2b_r6-IsHash :
      (bs pwd user_key : Bytes)
      → length pwd ≤ 127
      → length user_key ≤ 48
      → IsHash (alg2b_r6 prim bs pwd user_key)
  unfolding alg2b_r6
  alg2b_r6-IsHash bs pwd user_key p q =
      let e = sound.sha256_length bs in
      hash_loop-IsHash pwd user_key p q 287 0 (prim.sha256 bs) (omega arith) (omega arith)
        (omega (arith, e)) (omega (arith, e))

  pub alg2b-IsHash :
      (r : ℕ) (bs pwd user_key : Bytes)
      → length pwd ≤ 127
      → length user_key ≤ 48
      → IsHash (alg2b prim r bs pwd user_key)
  unfolding alg2b
  alg2b-IsHash r bs pwd user_key p q =
      if-both IsHash (r == 5) (λ _. sound.sha256_length bs)
        (λ _. alg2b_r6-IsHash bs pwd user_key p q)
