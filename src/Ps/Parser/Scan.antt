-- ===== src/Ps/Parser/Scan.antt =====
-- What the loops of `pdf/ps/parser.go` read from printed numbers and words.
use unidoc.Prelude.{
  ℕ, ◌≡◌, refl, sym, ap, ◌∙◌, Bool, true, false, [], ◌∷◌, ◌++◌, ◌&&◌, append_assoc, append-nil, All,
  arith, ◌==◌,
}
use unidoc.Core.Symbols.{is_white_space, is_delimiter}
use unidoc.Core.Decoding.{Bytes}
use unidoc.Text.{has_prefix}
use unidoc.Text.Numerals.{IsDigit}
use unidoc.Ps.Parser.{scan_number, scan_word}

-- Neither white space nor a delimiter.
abbrev pub IsRegular : ℕ → Type 0
IsRegular c = (is_white_space c ≡ false) × (is_delimiter c ≡ false)

scan_digit :
    (allow_signs : Bool) (num : Bytes) (d : ℕ) (t : Bytes)
    → IsDigit d
    → scan_number allow_signs false num (d ∷ t) ≡ scan_number allow_signs false (num ++ d ∷ []) t
unfolding scan_number
scan_digit a num d t h = ground arith

scan_space :
    (allow_signs : Bool) (num t : Bytes)
    → scan_number allow_signs false num (b' ' ∷ t)
      ≡ record { num_str = num; is_float = false; unread = b' ' ∷ t }
unfolding scan_number
scan_space true num t = refl
scan_space false num t = refl

pub scan_sign :
    (t : Bytes) → scan_number true false [] (b'-' ∷ t) ≡ scan_number false false (b'-' ∷ []) t
unfolding scan_number
scan_sign t = refl

pub scan_number-digits :
    (allow_signs : Bool) (num ds t : Bytes)
    → All IsDigit ds
    → scan_number allow_signs false num (ds ++ b' ' ∷ t)
      ≡ record { num_str = num ++ ds; is_float = false; unread = b' ' ∷ t }
scan_number-digits a num [] t h = rw (append-nil num) (scan_space a num t)
scan_number-digits a num (d ∷ ds) t (p, h) =
    scan_digit a num d _ p ∙ scan_number-digits a (num ++ d ∷ []) ds t h ∙ simp append_assoc

scan_regular :
    (w : Bytes) (c : ℕ) (t : Bytes) → IsRegular c → scan_word w (c ∷ t) ≡ scan_word (w ++ c ∷ []) t
unfolding scan_word
scan_regular w c t (p, q) = simp (p, q)

pub scan_word-regular :
    (w v t : Bytes) → All IsRegular v → scan_word w (v ++ b' ' ∷ t) ≡ (w ++ v, b' ' ∷ t)
scan_word-regular w [] t h = unfold scan_word in ap (λ v. (v, b' ' ∷ t)) (sym (append-nil w))
scan_word-regular w (c ∷ v) t (p, h) =
    scan_regular w c _ p ∙ scan_word-regular (w ++ c ∷ []) v t h ∙ simp append_assoc

still_false : (x y z : Bool) → (x && y) ≡ false → (y ≡ false → z ≡ false) → (x && z) ≡ false
still_false true y z h f = f h
still_false false y z h f = refl

pub has_prefix-append :
    (ps w t : Bytes)
    → All IsRegular ps
    → has_prefix ps w ≡ false
    → has_prefix ps (w ++ b' ' ∷ t) ≡ false
unfolding has_prefix
has_prefix-append [] w t r h = h
has_prefix-append (p ∷ ps) [] t (r, rs) h = ground arith
has_prefix-append (p ∷ ps) (b ∷ w) t (r, rs) h =
    still_false (p == b) _ _ h (has_prefix-append ps w t rs)
