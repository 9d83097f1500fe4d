-- ===== src/Lexer/Chars.antt =====
-- Character classes of compiler/src/lexer.c. A byte is its unsigned value; the classes hold ASCII
-- characters only, so the sign of `char` does not matter to them.
use q.Common.{ℕ, ◌+◌, ◌-◌, Bool, ◌&&◌, ◌||◌, leb, ◌==◌, if◌then◌else◌}

unfoldable pub is_alpha : ℕ → Bool
is_alpha c = leb b'a' c && leb c b'z' || leb b'A' c && leb c b'Z' || c == b'_'

unfoldable pub is_digit : ℕ → Bool
is_digit c = leb b'0' c && leb c b'9'

unfoldable pub is_hex_digit : ℕ → Bool
unfolding is_digit
is_hex_digit c = is_digit c || leb b'a' c && leb c b'f' || leb b'A' c && leb c b'F'

unfoldable pub is_bin_digit : ℕ → Bool
is_bin_digit c = c == b'0' || c == b'1'

unfoldable pub is_oct_digit : ℕ → Bool
is_oct_digit c = leb b'0' c && leb c b'7'

unfoldable pub is_alnum : ℕ → Bool
unfolding is_alpha is_digit
is_alnum c = is_alpha c || is_digit c

-- The test of `skip_whitespace`.
unfoldable pub is_space : ℕ → Bool
is_space c = c == b' ' || c == b'\t' || c == b'\r' || c == b'\n'

-- The value of a hexadecimal digit, as both `lex_number` and `lex_escape` compute it.
unfoldable pub hex_value : ℕ → ℕ
hex_value c =
    if leb b'0' c && leb c b'9'
    then c - b'0'
    else if leb b'a' c && leb c b'f'
    then c - b'a' + 10
    else c - b'A' + 10
