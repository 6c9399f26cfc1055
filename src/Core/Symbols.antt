-- ===== src/Core/Symbols.antt =====
-- The character classes of `pdf/core/symbols.go`.
use unidoc.Prelude.{ℕ, Bool, ◌&&◌, ◌||◌, leb, ◌==◌}

abbrev pub is_white_space : ℕ → Bool
is_white_space ch =
    (ch == 0x00) || (ch == 0x09) || (ch == 0x0A) || (ch == 0x0C) || (ch == 0x0D) || (ch == 0x20)

abbrev pub is_decimal_digit : ℕ → Bool
is_decimal_digit c = leb b'0' c && leb c b'9'

abbrev pub is_delimiter : ℕ → Bool
is_delimiter c =
    (c == b'(')
    || (c == b')')
    || (c == b'<')
    || (c == b'>')
    || (c == b'[')
    || (c == b']')
    || (c == b'{')
    || (c == b'}')
    || (c == b'/')
    || (c == b'%')
