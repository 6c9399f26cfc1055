-- ===== src/Security/Hash/Repeat.antt =====
-- `repeat` of `pdf/core/security/standard_r6.go` fills a buffer with copies of its first part, whatever
-- stands behind it.
use unidoc.Prelude.{
  ℕ, zero, suc, ◌+◌, ◌-◌, ◌*◌, ◌≤◌, ◌<◌, ◌≡◌, refl, ap, [], ◌∷◌, ◌++◌, append-nil, length,
  length-append, length-drop, drop, take_all, take_front, drop_front, ltb, true, false, arith,
}
use unidoc.Core.Decoding.{Bytes}
use unidoc.Security.Result.{ok}
use unidoc.Security.Hash.{copy_forward, repeat_rounds, repeat}

-- A text doubled j times, and its length.
unfoldable pub doubled : ℕ → Bytes → Bytes
doubled zero w = w
doubled (suc j) w = doubled j (w ++ w)

abbrev pub doubled_length : ℕ → ℕ → ℕ
doubled_length zero bp = bp
doubled_length (suc j) bp = doubled_length j (bp * 2)

pub length-doubled :
    (j bp : ℕ) (w : Bytes) → length w ≡ bp → length (doubled j w) ≡ doubled_length j bp
unfolding doubled
length-doubled zero bp w e = e
length-doubled (suc j) bp w e =
    length-doubled j (bp * 2) (w ++ w) (omega (arith, length-append w w, e))

doubled_length_least : (j bp : ℕ) → bp ≤ doubled_length j bp
doubled_length_least zero bp = omega arith
doubled_length_least (suc j) bp = omega (arith, doubled_length_least j (bp * 2))

drop_more : (n m k : ℕ) (xs : Bytes) → n + m ≡ k → drop k xs ≡ drop m (drop n xs)
drop_more zero m k xs e = let e' : k ≡ m = omega arith in ap (λ i. drop i xs) e'
drop_more (suc n) m zero xs e = absurd (omega arith)
drop_more (suc n) zero (suc k) [] e = refl
drop_more (suc n) (suc m) (suc k) [] e = refl
drop_more (suc n) m (suc k) (x ∷ xs) e = drop_more n m k xs (omega arith)

copy_forward-doubled :
    (bp : ℕ) (w rest : Bytes)
    → length w ≡ bp
    → bp ≤ length rest
    → copy_forward bp (w ++ rest) ≡ (w ++ w) ++ drop bp rest
unfolding copy_forward
copy_forward-doubled bp w rest e h =
    rw
      (
        take_front bp w rest e,
        take_all (length (w ++ rest) - bp) w (omega (arith, length-append w rest)),
        drop_more bp bp (bp + bp) (w ++ rest) refl,
        drop_front bp w rest e,
      )
      refl

more_left :
    (bp : ℕ) (w rest : Bytes) → length w ≡ bp → 1 ≤ length rest → ltb bp (length (w ++ rest)) ≡ true
more_left bp w rest e h = ground (arith, length-append w rest)

repeat_rounds-doubled :
    (j fuel bp : ℕ) (w rest : Bytes)
    → j < fuel
    → length w ≡ bp
    → 1 ≤ bp
    → length rest + bp ≡ doubled_length j bp
    → repeat_rounds fuel bp (w ++ rest) ≡ ok (doubled j w)
unfolding repeat_rounds doubled
repeat_rounds-doubled j zero bp w rest f e i l = absurd (omega arith)
repeat_rounds-doubled zero (suc fuel) bp w [] f e i l =
    rw (append-nil w, nothing_left bp (length w) e) refl
  where
    nothing_left : (n m : ℕ) → m ≡ n → ltb n m ≡ false
    nothing_left n m h = ground arith
repeat_rounds-doubled zero (suc fuel) bp w (x ∷ rest) f e i l = absurd (omega arith)
repeat_rounds-doubled (suc j) (suc fuel) bp w rest f e i l =
    let h = doubled_length_least j (bp * 2) in
    rw
      (
        more_left bp w rest e (omega (arith, h)),
        copy_forward-doubled bp w rest e (omega (arith, h)),
      )
      (repeat_rounds-doubled j fuel (bp * 2) (w ++ w) (drop bp rest) (omega arith)
        (omega (arith, length-append w w, e)) (omega arith)
        (omega (arith, length-drop bp rest, h, l)))

-- A buffer 64 times as long as its first part.
pub repeat-doubled :
    (n : ℕ) (part rest : Bytes)
    → length part ≡ n
    → 1 ≤ n
    → length rest ≡ n * 63
    → repeat (part ++ rest) n ≡ ok (doubled 6 part)
unfolding repeat
repeat-doubled n part rest e i l =
    repeat_rounds-doubled 6 (suc (length (part ++ rest))) n part rest
      (omega (arith, length-append part rest)) e i (omega arith)
