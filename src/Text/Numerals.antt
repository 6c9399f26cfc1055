-- ===== src/Text/Numerals.antt =====
-- The integers that `%d` prints are the ones that `strconv.ParseInt` reads.
use unidoc.Prelude.{
  ℕ, zero, suc, ◌+◌, ◌*◌, ◌/◌, ◌%◌, ◌^◌, ◌<◌, ◌≤◌, ◌≡◌, refl, sym, ap, ◌∙◌, true, [], ◌∷◌, ◌++◌,
  append_assoc, append-nil, some, All, All-append, arith, dec_lt, subst, ltb→lt, tests,
}
use unidoc.Prelude.Int.{ℤ, pos, negsuc}
use unidoc.GoInt.{in_range}
use unidoc.Core.Symbols.{is_decimal_digit}
use unidoc.Core.Decoding.{Bytes}
use unidoc.Text.{decimal, int_string, read_decimal, read_unsigned, positive, parse_int}

abbrev pub IsDigit : ℕ → Type 0
IsDigit c = is_decimal_digit c ≡ true

unfoldable pub power_of_ten : ℕ → ℕ
power_of_ten zero = 1
power_of_ten (suc k) = 10 * power_of_ten k

decimal_small : (k n : ℕ) → n < 10 → decimal (suc k) n ≡ (b'0' + n) ∷ []
unfolding decimal
decimal_small k n h = ground arith

decimal_large : (k n : ℕ) → 10 ≤ n → decimal (suc k) n ≡ decimal k (n / 10) ++ (b'0' + n % 10) ∷ []
unfolding decimal
decimal_large k n h = ground arith

pub decimal-digits : (k n : ℕ) → All IsDigit (decimal k n)
decimal-digits zero n = unfold decimal in tt
decimal-digits (suc k) n = elim (dec_lt n 10) [
  | yes h ↦ subst (All IsDigit) (sym (decimal_small k n h)) (ground arith, tt)
  | no h ↦
      subst (All IsDigit) (sym (decimal_large k n (omega arith)))
        (All-append IsDigit (decimal k (n / 10)) _ (decimal-digits k (n / 10)) (ground arith, tt))
]

read_digit :
    (n d : ℕ) (s : Bytes) → d < 10 → read_decimal n ((b'0' + d) ∷ s) ≡ read_decimal (n * 10 + d) s
unfolding read_decimal
read_digit n d s h = ground arith

read_decimal-decimal :
    (k n : ℕ) (s : Bytes)
    → n < power_of_ten k
    → read_decimal 0 (decimal k n ++ s) ≡ read_decimal n s
unfolding power_of_ten
read_decimal-decimal zero n s h = unfold decimal in ap (λ m. read_decimal m s) (omega arith)
read_decimal-decimal (suc k) n s h = elim (dec_lt n 10) [
  | yes p ↦ rw (decimal_small k n p) (read_digit 0 n s p ∙ ap (λ m. read_decimal m s) (omega arith))
  | no p ↦
      rw (decimal_large k n (omega arith), append_assoc)
        (read_decimal-decimal k (n / 10) _ (omega arith)
          ∙ read_digit (n / 10) (n % 10) s (omega arith)
          ∙ ap (λ m. read_decimal m s) (omega arith))
]

unsigned_snoc : (xs : Bytes) (x : ℕ) → read_unsigned (xs ++ x ∷ []) ≡ read_decimal 0 (xs ++ x ∷ [])
unfolding read_unsigned
unsigned_snoc [] x = refl
unsigned_snoc (c ∷ xs) x = refl

read_unsigned-read_decimal :
    (k n : ℕ) → read_unsigned (decimal (suc k) n) ≡ read_decimal 0 (decimal (suc k) n)
read_unsigned-read_decimal k n = elim (dec_lt n 10) [
  | yes p ↦ rw (decimal_small k n p) (unsigned_snoc [] _)
  | no p ↦ rw (decimal_large k n (omega arith)) (unsigned_snoc (decimal k (n / 10)) _)
]

read_nothing : (n : ℕ) → read_decimal n [] ≡ some n
unfolding read_decimal
read_nothing n = refl

pub read_unsigned-decimal :
    (k n : ℕ) → n < power_of_ten (suc k) → read_unsigned (decimal (suc k) n) ≡ some n
read_unsigned-decimal k n h =
    read_unsigned-read_decimal k n
    ∙ ap (read_decimal 0) (sym (append-nil (decimal (suc k) n)))
    ∙ read_decimal-decimal (suc k) n [] h
    ∙ read_nothing n

-- Digits that stand for n.
abbrev pub Numeral : ℕ → Bytes → Type 0
Numeral n [] = ⊥
Numeral n (d ∷ ds) = All IsDigit (d ∷ ds) × (read_unsigned (d ∷ ds) ≡ some n)

read_unsigned-Numeral : (n : ℕ) (s : Bytes) → All IsDigit s → read_unsigned s ≡ some n → Numeral n s
unfolding read_unsigned
read_unsigned-Numeral n [] h e = cc
read_unsigned-Numeral n (d ∷ ds) h e = (h, e)

pub decimal-Numeral : (n : ℕ) → n ≤ 2 ^ 63 → Numeral n (decimal 20 n)
decimal-Numeral n h =
    read_unsigned-Numeral n _ (decimal-digits 20 n)
      (read_unsigned-decimal 19 n (unfold power_of_ten in (omega arith)))

parse_unsigned :
    (d : ℕ) (ds : Bytes) → IsDigit d → parse_int (d ∷ ds) ≡ positive (read_unsigned (d ∷ ds))
unfolding parse_int
parse_unsigned d ds h = ground arith

parse_positive : (n : ℕ) (s : Bytes) → n < 2 ^ 63 → Numeral n s → parse_int s ≡ some (pos n)
parse_positive n [] b h = elim h [ ]
parse_positive n (d ∷ ds) b ((p, q), e) = parse_unsigned d ds p ∙ rw e (ground arith)

parse_negative :
    (n : ℕ) (s : Bytes) → n < 2 ^ 63 → Numeral (n + 1) s → parse_int (b'-' ∷ s) ≡ some (negsuc n)
unfolding parse_int
parse_negative n [] b h = elim h [ ]
parse_negative n (d ∷ ds) b (h, e) = rw e (ground arith)

pub parse_int-int_string : (i : ℤ) → in_range i ≡ true → parse_int (int_string i) ≡ some i
unfolding int_string
parse_int-int_string (pos n) h = parse_positive n _ (ltb→lt _ _ h) (decimal-Numeral n (omega tests))
parse_int-int_string (negsuc n) h =
    parse_negative n _ (ltb→lt _ _ h) (decimal-Numeral (n + 1) (omega tests))
