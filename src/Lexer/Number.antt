-- ===== src/Lexer/Number.antt =====
-- Integer and float literals: `lex_number` of compiler/src/lexer.c.
use q.Common.{
  ℕ, zero, suc, ◌+◌, ◌-◌, ◌*◌, ◌%◌, Bool, true, false, not, ◌&&◌, ◌||◌, [], ◌∷◌, Bytes, codes,
  u64_mod, length, get_or, slice, ltb, ◌==◌, if◌then◌else◌,
}
use q.Lexer.Chars.{is_digit, is_hex_digit, is_bin_digit, is_oct_digit, hex_value}
use q.Lexer.State.{
  Lexer, Token, int_lit, float_lit, peek, peek_at, bump, move_to, make_token, make_error_token,
  left, skip_while,
}
use q.Token.Kind.{TokenKind, IntBase, dec, hex, bin, oct}

-- A loop `while (test(peek) || peek == '_') { c = advance; if (c == '_') continue; value = value *
-- base + digit(c); }`: the cursor and the value, a u64. NUL passes no such test, so the loop stays
-- inside the content.
unfoldable pub read_digits : ℕ → (ℕ → Bool) → (ℕ → ℕ) → ℕ → Bytes → ℕ → ℕ → ℕ × ℕ
read_digits zero test digit base content cursor value = (cursor, value)
read_digits (suc fuel) test digit base content cursor value =
    let c : ℕ = get_or content cursor 0 in
    let next : ℕ = if c == b'_' then value else (value * base + digit c) % u64_mod in
    let rest = read_digits fuel test digit base content (cursor + 1) next in
    if ltb cursor (length content) && (test c || c == b'_') then rest else (cursor, value)

-- `c - '0'`.
abbrev pub decimal_value : ℕ → ℕ
decimal_value c = c - b'0'

-- The branch of one base prefix, with the factor that its loop multiplies by.
unfoldable pub lex_prefixed : Lexer → ℕ → IntBase → ℕ → (ℕ → Bool) → (ℕ → ℕ) → Bytes → Token × Lexer
unfolding peek
lex_prefixed lex start base factor test digit message =
    let body = bump 2 lex in
    if not (test (peek body))
    then make_error_token body start message
    else (let r = read_digits (left body) test digit factor body.content body.cursor 0 in
        let after = move_to body r.0 in
        (make_token TokenKind.int_literal (int_lit r.1 base) after start, after))

abbrev pub digit_or_bar : ℕ → Bool
digit_or_bar c = is_digit c || c == b'_'

-- The decimal point: not where a range `..` follows.
unfoldable pub lex_fraction : Lexer → Bool × Lexer
unfolding peek peek_at
lex_fraction lex =
    if peek lex == b'.' && not (peek_at lex 1 == b'.')
    then (true, skip_while digit_or_bar (bump 1 lex))
    else (false, lex)

-- What the exponent part comes to.
pub data Exponent : Type 0 where
  no_exponent has_exponent bad_exponent : Exponent

-- The sign of the exponent.
unfoldable pub skip_sign : Lexer → Lexer
unfolding peek
skip_sign lex = if peek lex == b'+' || peek lex == b'-' then bump 1 lex else lex

-- Its digits.
unfoldable pub exponent_digits : Lexer → Exponent × Lexer
unfolding peek
exponent_digits lex =
    if not (is_digit (peek lex))
    then (bad_exponent, lex)
    else (has_exponent, skip_while digit_or_bar lex)

unfoldable pub lex_exponent : Lexer → Exponent × Lexer
unfolding peek
lex_exponent lex =
    if peek lex == b'e' || peek lex == b'E'
    then exponent_digits (skip_sign (bump 1 lex))
    else (no_exponent, lex)

-- The copy into `buf`.
unfoldable pub without_bars : Bytes → Bytes
without_bars [] = []
without_bars (c ∷ cs) = if not (c == b'_') then c ∷ without_bars cs else without_bars cs

abbrev float_token : Lexer → ℕ → Token
float_token lex start =
    make_token TokenKind.float_literal
      (float_lit (without_bars (slice lex.content start lex.cursor))) lex start

unfoldable pub finish_decimal : ℕ → ℕ → Bool → Exponent → Lexer → Token × Lexer
finish_decimal start value fraction bad_exponent lex =
    make_error_token lex start (codes "expected digit in exponent")
finish_decimal start value fraction has_exponent lex = (float_token lex start, lex)
finish_decimal start value true no_exponent lex = (float_token lex start, lex)
finish_decimal start value false no_exponent lex =
    (make_token TokenKind.int_literal (int_lit value dec) lex start, lex)

-- From the decimal digits on.
unfoldable pub lex_decimal : Lexer → Token × Lexer
lex_decimal lex =
    let r = read_digits (left lex) is_digit decimal_value 10 lex.content lex.cursor 0 in
    let f = lex_fraction (move_to lex r.0) in
    let e = lex_exponent f.1 in finish_decimal lex.cursor r.1 f.0 e.0 e.1

-- `lex_number`.
unfoldable pub lex_number : Lexer → Token × Lexer
unfolding peek peek_at
lex_number lex =
    let next : ℕ = peek_at lex 1 in
    if peek lex == b'0' && ltb (lex.cursor + 1) (length lex.content)
    then (if next == b'x' || next == b'X'
        then lex_prefixed lex lex.cursor hex 16 is_hex_digit hex_value
            (codes "expected hex digit after '0x'")
        else if next == b'b' || next == b'B'
        then lex_prefixed lex lex.cursor bin 2 is_bin_digit decimal_value
            (codes "expected binary digit after '0b'")
        else if next == b'o' || next == b'O'
        then lex_prefixed lex lex.cursor oct 8 is_oct_digit decimal_value
            (codes "expected octal digit after '0o'")
        else lex_decimal lex)
    else lex_decimal lex
