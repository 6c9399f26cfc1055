-- ===== src/Ps/Shuffle/Roll.antt =====
-- `roll` of `pdf/ps/operations.go` against a rotation of the topmost objects.
use native.Mathlib.Nat.{add-mod_left}
use unidoc.Prelude.{
  ℕ, zero, suc, ◌+◌, ◌-◌, ◌%◌, ◌^◌, ◌≤◌, ◌<◌, ◌≡◌, refl, sym, ◌∙◌, ap, List, [], ◌∷◌, ◌++◌, length,
  take, drop, length-append, append_assoc, append-nil, length-take, length-drop, arith, dec_lt,
}
use unidoc.Prelude.Int.{ℤ, pos, negsuc, ◌-ℤ◌}
use unidoc.GoInt.{int_abs, int_neg, wrap, to_word, of_word}
use unidoc.Ps.Object.{integer}
use unidoc.Ps.Stack.{PsStack, ok, stack_after, pop, expect_integer}
use unidoc.Ps.Shuffle.{rotate, roll_once, roll_rounds, rounds, roll_by, op_roll}

mod_next : (n m k : ℕ) → suc m < n → (suc m + k) % n ≡ (m + suc k) % n
mod_next n m k h = ap (λ i. i % n) (omega arith)

mod_wrap : (n m k : ℕ) → suc m ≡ n → (0 + k) % n ≡ (m + suc k) % n
mod_wrap n m k h =
    ap (λ i. i % n) {x = 0 + k} {y = k} (omega arith)
    ∙ sym (add-mod_left n k)
    ∙ ap (λ i. i % n) {x = n + k} {y = m + suc k} (omega arith)

module _ {ℓ} {A : Type ℓ} where
  drop-append : (ys zs : List A) → drop (length ys) (ys ++ zs) ≡ zs
  drop-append [] zs = refl
  drop-append (y ∷ ys) zs = drop-append ys zs

  take-append : (ys zs : List A) → take (length ys) (ys ++ zs) ≡ ys
  take-append [] zs = refl
  take-append (y ∷ ys) zs = ap (λ l. y ∷ l) (take-append ys zs)

  rotate-append : (ys zs : List A) → rotate (length ys) (ys ++ zs) ≡ zs ++ ys
  unfolding rotate
  rotate-append ys zs = rw (drop-append ys zs, take-append ys zs)

  length-rotate : (k : ℕ) (xs : List A) → length (rotate k xs) ≡ length xs
  unfolding rotate
  length-rotate k xs =
      omega (arith, length-append (drop k xs) (take k xs), length-drop k xs, length-take k xs)

  -- one more element moves
  drop_one :
      (m : ℕ) (xs : List A)
      → m < length xs
      → (x : A) × (drop m xs ≡ x ∷ drop (suc m) xs) × (take (suc m) xs ≡ take m xs ++ x ∷ [])
  drop_one m [] h = absurd (omega arith)
  drop_one zero (x ∷ xs) h = (x, refl, refl)
  drop_one (suc m) (x ∷ xs) h =
      let (y, d, t) = drop_one m xs (omega arith) in (y, d, ap (λ l. x ∷ l) t)

  rotate_step : (m : ℕ) (xs : List A) → m < length xs → rotate 1 (rotate m xs) ≡ rotate (suc m) xs
  unfolding rotate
  rotate_step m xs h =
      let (x, d, t) = drop_one m xs h in
      rw (d, t) (append_assoc (drop (suc m) xs) (take m xs) (x ∷ []))

  drop_all : (xs : List A) → drop (length xs) xs ≡ []
  drop_all [] = refl
  drop_all (x ∷ xs) = drop_all xs

  take_all : (xs : List A) → take (length xs) xs ≡ xs
  take_all [] = refl
  take_all (x ∷ xs) = ap (λ l. x ∷ l) (take_all xs)

  rotate_all : (xs : List A) → rotate (length xs) xs ≡ rotate 0 xs
  unfolding rotate
  rotate_all xs = rw (drop_all xs, take_all xs) (sym (append-nil xs))

  -- a round on the topmost n objects, which are xs
  roll_once-pos :
      (n j : ℕ) (xs rest : List A)
      → length xs ≡ n
      → roll_once n (pos j) (xs ++ rest) ≡ rotate 1 xs ++ rest
  unfolding roll_once
  roll_once-pos n j xs rest e = rw (← e, take-append xs rest, drop-append xs rest)

  roll_once-negsuc :
      (n j : ℕ) (xs rest : List A)
      → length xs ≡ n
      → roll_once n (negsuc j) (xs ++ rest) ≡ rotate (n - 1) xs ++ rest
  unfolding roll_once
  roll_once-negsuc n j xs rest e = rw (← e, take-append xs rest, drop-append xs rest)

  pub roll_rounds-rotate :
      (k n m j : ℕ) (xs rest : List A)
      → length xs ≡ n
      → m < n
      → roll_rounds k n (pos j) (rotate m xs ++ rest) ≡ rotate ((m + k) % n) xs ++ rest
  unfolding roll_rounds
  roll_rounds-rotate zero n m j xs rest e h = ap (λ i. rotate i xs ++ rest) (grind arith)
  roll_rounds-rotate (suc k) n m j xs rest e h =
      rw
        (
          roll_once-pos n j (rotate m xs) rest (length-rotate m xs ∙ e),
          rotate_step m xs (omega arith),
        )
        (elim (dec_lt (suc m) n) [
          | yes l ↦
              roll_rounds-rotate k n (suc m) j xs rest e l
              ∙ ap (λ i. rotate i xs ++ rest) (mod_next n m k l)
          | no l ↦
              (let full : suc m ≡ n = omega arith in
                rw (full, ← e, rotate_all xs, e)
                  (roll_rounds-rotate k n 0 j xs rest e (omega arith)
                    ∙ ap (λ i. rotate i xs ++ rest) (mod_wrap n m k full)))
        ])

  -- back one round after one round forth
  rotate_back : (x : A) (xs : List A) → rotate (length xs) (rotate 1 (x ∷ xs)) ≡ x ∷ xs
  unfolding rotate
  rotate_back x xs = rotate-append xs (x ∷ [])

  back_forth : (n : ℕ) (xs : List A) → length xs ≡ n → 0 < n → rotate (n - 1) (rotate 1 xs) ≡ xs
  back_forth n [] e h = absurd (omega arith)
  back_forth n (x ∷ xs) e h =
      ap (λ i. rotate i (rotate 1 (x ∷ xs))) {x = n - 1} {y = length xs} (omega arith)
      ∙ rotate_back x xs

  forth_back : (n : ℕ) (xs : List A) → length xs ≡ n → 0 < n → rotate 1 (rotate (n - 1) xs) ≡ xs
  forth_back n xs e h =
      rotate_step (n - 1) xs (omega arith)
      ∙ ap (λ i. rotate i xs) {x = suc (n - 1)} {y = length xs} (omega arith)
      ∙ rotate_all xs
      ∙ unfold rotate in append-nil xs

  -- a round does not lose the topmost n objects
  roll_once-split :
      (n : ℕ) (j : ℤ) (xs rest : List A)
      → length xs ≡ n
      → (ys : List A) × (roll_once n j (xs ++ rest) ≡ ys ++ rest) × (length ys ≡ n)
  roll_once-split n (pos j) xs rest e =
      (rotate 1 xs, roll_once-pos n j xs rest e, length-rotate 1 xs ∙ e)
  roll_once-split n (negsuc j) xs rest e =
      (rotate (n - 1) xs, roll_once-negsuc n j xs rest e, length-rotate (n - 1) xs ∙ e)

  -- the last round of a roll may be taken apart too
  roll_rounds-last :
      (k n : ℕ) (j : ℤ) (s : List A)
      → roll_rounds (suc k) n j s ≡ roll_once n j (roll_rounds k n j s)
  unfolding roll_rounds
  roll_rounds-last zero n j s = refl
  roll_rounds-last (suc k) n j s = roll_rounds-last k n j (roll_once n j s)

  roll_rounds-split :
      (k n : ℕ) (j : ℤ) (xs rest : List A)
      → length xs ≡ n
      → (ys : List A) × (roll_rounds k n j (xs ++ rest) ≡ ys ++ rest) × (length ys ≡ n)
  unfolding roll_rounds
  roll_rounds-split zero n j xs rest e = (xs, refl, e)
  roll_rounds-split (suc k) n j xs rest e =
      let (ys, d, l) = roll_once-split n j xs rest e in rw d (roll_rounds-split k n j ys rest l)

  once_back :
      (n i j : ℕ) (xs rest : List A)
      → length xs ≡ n
      → 0 < n
      → roll_once n (negsuc i) (roll_once n (pos j) (xs ++ rest)) ≡ xs ++ rest
  once_back n i j xs rest e h = rw (
    roll_once-pos n j xs rest e,
    roll_once-negsuc n i (rotate 1 xs) rest (length-rotate 1 xs ∙ e),
    back_forth n xs e h,
  )

  unfold_back :
      (k n i : ℕ) (s : List A)
      → roll_rounds (suc k) n (negsuc i) s ≡ roll_rounds k n (negsuc i) (roll_once n (negsuc i) s)
  unfolding roll_rounds
  unfold_back k n i s = refl

  pub rounds_back :
      (k n i j : ℕ) (xs rest : List A)
      → length xs ≡ n
      → 0 < n
      → roll_rounds k n (negsuc i) (roll_rounds k n (pos j) (xs ++ rest)) ≡ xs ++ rest
  rounds_back zero n i j xs rest e h = unfold roll_rounds in refl
  rounds_back (suc k) n i j xs rest e h =
      let (ys, d, l) = roll_rounds-split k n (pos j) xs rest e in
      let step : roll_rounds (suc k) n (pos j) (xs ++ rest) ≡ roll_once n (pos j) (ys ++ rest) =
        roll_rounds-last k n (pos j) (xs ++ rest) ∙ ap (roll_once n (pos j)) d in
      rw step (
        unfold_back k n i (roll_once n (pos j) (ys ++ rest))
        ∙ ap (roll_rounds k n (negsuc i)) (once_back n i j ys rest l h ∙ sym d)
        ∙ rounds_back k n i j xs rest e h)

rounds-pos : (j : ℕ) → rounds (pos j) ≡ j
unfolding rounds int_abs
rounds-pos j = refl

rounds-negsuc : (j : ℕ) → suc j < 2 ^ 63 → rounds (negsuc j) ≡ suc j
unfolding rounds int_abs int_neg wrap to_word of_word ◌-ℤ◌
rounds-negsuc j h = ground arith

module _ {F : Type 0} where
  roll_by-enough :
      (j : ℤ) (n : ℕ) (s : PsStack F)
      → 2 ≤ n
      → n ≤ length s
      → roll_by j (pos n) s ≡ ok tt (roll_rounds (rounds j) n j s)
  unfolding roll_by
  roll_by-enough j n s h l = ground arith

  -- With n ≥ 2 objects xs on top, `n j roll` for j ≥ 0 moves j mod n of them, from the top, below the
  -- others, and leaves the rest of the stack.
  pub op_roll-rotate :
      (j : ℕ) (xs rest : PsStack F)
      → 2 ≤ length xs
      → op_roll (integer (pos j) ∷ integer (pos (length xs)) ∷ (xs ++ rest))
        ≡ ok tt (rotate (j % length xs) xs ++ rest)
  unfolding op_roll pop expect_integer rotate
  op_roll-rotate j xs rest h =
      roll_by-enough (pos j) (length xs) (xs ++ rest) h (omega (arith, length-append xs rest))
      ∙ ap (ok tt) (
          ap (λ k. roll_rounds k (length xs) (pos j) (xs ++ rest)) (rounds-pos j)
          ∙ ap (λ l. roll_rounds j (length xs) (pos j) (l ++ rest)) (sym (append-nil xs))
          ∙ roll_rounds-rotate j (length xs) 0 j xs rest refl (omega arith)
          ∙ ap (λ i. rotate (i % length xs) xs ++ rest) {x = 0 + j} {y = j} (omega arith))

  op_roll-enough :
      (j : ℤ) (n : ℕ) (s : PsStack F)
      → 2 ≤ n
      → n ≤ length s
      → op_roll (integer j ∷ integer (pos n) ∷ s) ≡ ok tt (roll_rounds (rounds j) n j s)
  unfolding op_roll pop expect_integer
  op_roll-enough j n s h l = roll_by-enough j n s h l

  -- Rolling n ≥ 2 objects by j > 0 and then by -j gives the stack back, for every j below 2^63.
  pub op_roll-back :
      (j : ℕ) (xs rest t : PsStack F)
      → 2 ≤ length xs
      → suc j < 2 ^ 63
      → op_roll (integer (pos (suc j)) ∷ integer (pos (length xs)) ∷ (xs ++ rest)) ≡ ok tt t
      → op_roll (integer (negsuc j) ∷ integer (pos (length xs)) ∷ t) ≡ ok tt (xs ++ rest)
  op_roll-back j xs rest t h b e =
      let n = length xs in
      let (ys, d, l) = roll_rounds-split (suc j) n (pos (suc j)) xs rest refl in
      let same : roll_rounds (suc j) n (pos (suc j)) (xs ++ rest) ≡ t =
        ap (λ k. roll_rounds k n (pos (suc j)) (xs ++ rest)) (sym (rounds-pos (suc j)))
        ∙ ap (stack_after []) (
            sym
              (op_roll-enough (pos (suc j)) n (xs ++ rest) h (omega (arith, length-append xs rest)))
            ∙ e) in
      let deep : n ≤ length t = omega (arith, ap length (sym same ∙ d), length-append ys rest) in
      op_roll-enough (negsuc j) n t h deep
      ∙ ap (ok tt) (
          ap (λ k. roll_rounds k n (negsuc j) t) (rounds-negsuc j b)
          ∙ ap (roll_rounds (suc j) n (negsuc j)) (sym same)
          ∙ rounds_back (suc j) n j (suc j) xs rest refl (omega arith))
