-- ===== src/Lexer/Literal.antt =====
-- String and character literals: `lex_escape`, `lex_string` and `lex_char` of compiler/src/lexer.c.
use Prim.Native.Nat.{bit_or}
use q.Common.{
  ℕ, zero, suc, ◌+◌, ◌-◌, ◌*◌, ◌%◌, Bool, true, false, not, ◌&&◌, ◌||◌, Bytes, codes, u32_mod,
  length, get_or, slice, ltb, ◌==◌, if◌then◌else◌,
}
use q.Lexer.Chars.{is_hex_digit, hex_value}
use q.Lexer.State.{
  Lexer, Token, str_lit, char_lit, peek, peek_at, advance, bump, move_to, make_token,
  make_error_token, left, skip_while,
}
use q.Token.Kind.{TokenKind}

-- `(u32)c` for a `char`, which is signed on the compiler's targets (x86).
unfoldable pub u32_of_char : ℕ → ℕ
u32_of_char c = if ltb c 128 then c else c + (u32_mod - 256)

-- The two digits of `\xNN`.
unfoldable pub lex_hex_escape : Lexer → ℕ × Lexer
unfolding peek peek_at
lex_hex_escape lex =
    if not (is_hex_digit (peek lex)) || not (is_hex_digit (peek_at lex 1))
    then (b'?', lex)
    else (let h = advance lex in
        let l = advance h.1 in (bit_or (hex_value h.0 * 16 % u32_mod) (hex_value l.0), l.1))

-- The switch of `lex_escape`, on the byte that was read.
unfoldable pub escape_value : ℕ → Lexer → ℕ × Lexer
unfolding u32_of_char
escape_value c lex =
    if c == b'n'
    then (b'\n', lex)
    else if c == b't'
    then (b'\t', lex)
    else if c == b'r'
    then (b'\r', lex)
    else if c == b'\\'
    then (b'\\', lex)
    else if c == b'\''
    then (b'\'', lex)
    else if c == b'"'
    then (b'"', lex)
    else if c == b'0'
    then (0, lex)
    else if c == b'x'
    then lex_hex_escape lex
    else (u32_of_char c, lex)

-- `lex_escape`, behind the backslash.
unfoldable pub lex_escape : Lexer → ℕ × Lexer
lex_escape lex = let r = advance lex in escape_value r.0 r.1

-- One round of the loop over a regular string: where the cursor stands after it.
unfoldable pub string_step : Bytes → ℕ → ℕ
unfolding is_hex_digit
string_step content cursor =
    if get_or content cursor 0 == b'\\'
    then (if ltb (cursor + 1) (length content)
        then (if get_or content (cursor + 1) 0 == b'x'
            then (let first : ℕ =
                  (if is_hex_digit (get_or content (cursor + 2) 0)
                    then cursor + 3
                    else cursor + 2) in
                if is_hex_digit (get_or content first 0) then first + 1 else first)
            else cursor + 2)
        else cursor + 1)
    else cursor + 1

-- That loop; each round moves the cursor, so the bytes left are fuel enough.
unfoldable pub string_end : ℕ → Bytes → ℕ → ℕ
string_end zero content cursor = cursor
string_end (suc fuel) content cursor =
    let rest = string_end fuel content (string_step content cursor) in
    if ltb cursor (length content) && not (get_or content cursor 0 == b'"') then rest else cursor

-- Where the content of a string ends.
unfoldable pub string_body : Bool → Lexer → Lexer
string_body true lex = skip_while (λ c. not (c == b'"')) lex
string_body false lex = move_to lex (string_end (left lex) lex.content lex.cursor)

abbrev pub string_kind : Bool → TokenKind
string_kind true = TokenKind.raw_string_literal
string_kind false = TokenKind.string_literal

-- `lex_string`.
unfoldable pub lex_string : Lexer → Bool → Token × Lexer
unfolding peek
lex_string lex is_raw =
    let open_quote = bump (if is_raw then 2 else 1) lex in
    let body = string_body is_raw open_quote in
    if not (peek body == b'"')
    then make_error_token body lex.cursor (codes "unterminated string literal")
    else (let after = bump 1 body in
        (
          make_token (string_kind is_raw)
              (str_lit (slice lex.content open_quote.cursor body.cursor) is_raw) after lex.cursor,
          after,
        ))

-- The end of `lex_char`, on the value read.
unfoldable pub close_char : ℕ → ℕ → Lexer → Token × Lexer
unfolding peek
close_char start value lex =
    if not (peek lex == b'\'')
    then (let skipped = skip_while (λ c. not (c == b'\'') && not (c == b'\n')) lex in
        let after = if peek skipped == b'\'' then bump 1 skipped else skipped in
        make_error_token after start (codes "character literal too long or unterminated"))
    else (let after = bump 1 lex in
        (make_token TokenKind.char_literal (char_lit value) after start, after))

-- `lex_char`, which `lexer_next_token` also calls behind the `b` of a byte literal.
unfoldable pub lex_char : Lexer → Token × Lexer
unfolding peek
lex_char lex =
    let body = bump 1 lex in
    if peek body == b'\\'
    then (let r = lex_escape (bump 1 body) in close_char lex.cursor r.0 r.1)
    else if peek body == b'\''
    then make_error_token body lex.cursor (codes "empty character literal")
    else (let r = advance body in close_char lex.cursor r.0 r.1)
