-- ===== src/Lexer/Operator.antt =====
-- Operators and delimiters: `lex_operator` of compiler/src/lexer.c. Each case of its switch is a tree
-- of `match_char` tests, run by `munch`.
use q.Common.{ℕ, List, [], ◌∷◌, Option, none, some, codes, ◌==◌, if◌then◌else◌}
use q.Lexer.State.{Lexer, Token, no_payload, advance, match_char, make_token, make_error_token}
use q.Token.Kind.{TokenKind}

-- `return make_token(kind)`, or `if (match_char(c)) a` and otherwise `b`.
pub data Munch : Type 0 where
  token : TokenKind → Munch
  on : ℕ → Munch → Munch → Munch

-- `if (match_char(lex, c)) return make_token(a); return make_token(b);`
abbrev pub alt : ℕ → TokenKind → TokenKind → Munch
alt c a b = on c (token a) (token b)

-- The cases of the switch, in order.
abbrev pub operator_cases : List (ℕ × Munch)
operator_cases =
    (b'(', token TokenKind.lparen)
    ∷ (b')', token TokenKind.rparen)
    ∷ (b'{', token TokenKind.lbrace)
    ∷ (b'}', token TokenKind.rbrace)
    ∷ (b'[', token TokenKind.lbracket)
    ∷ (b']', token TokenKind.rbracket)
    ∷ (b',', token TokenKind.comma)
    ∷ (b';', token TokenKind.semicolon)
    ∷ (b'~', token TokenKind.tilde)
    ∷ (b'@', token TokenKind.at)
    ∷ (b'?', token TokenKind.question)
    ∷ (b'#', token TokenKind.hash)
    ∷ (b'+', alt b'=' TokenKind.plus_eq TokenKind.plus)
    ∷ (b'-', on b'=' (token TokenKind.minus_eq) (alt b'>' TokenKind.arrow TokenKind.minus))
    ∷ (b'*', alt b'=' TokenKind.star_eq TokenKind.star)
    ∷ (b'/', alt b'=' TokenKind.slash_eq TokenKind.slash)
    ∷ (b'%', alt b'=' TokenKind.percent_eq TokenKind.percent)
    ∷ (b'&', alt b'=' TokenKind.amp_eq TokenKind.amp)
    ∷ (b'|', alt b'=' TokenKind.pipe_eq TokenKind.pipe)
    ∷ (b'^', alt b'=' TokenKind.caret_eq TokenKind.caret)
    ∷ (b'=', on b'=' (token TokenKind.eq_eq) (alt b'>' TokenKind.fat_arrow TokenKind.eq))
    ∷ (b'!', alt b'=' TokenKind.not_eq TokenKind.bang)
    ∷ (
      b'<',
      on b'<' (alt b'=' TokenKind.shl_eq TokenKind.shl) (alt b'=' TokenKind.lt_eq TokenKind.lt),
    )
    ∷ (
      b'>',
      on b'>' (alt b'=' TokenKind.shr_eq TokenKind.shr) (alt b'=' TokenKind.gt_eq TokenKind.gt),
    )
    ∷ (b':', alt b':' TokenKind.colon_colon TokenKind.colon)
    ∷ (b'.', on b'.' (alt b'=' TokenKind.dot_dot_eq TokenKind.dot_dot) (token TokenKind.dot))
    ∷ []

-- `switch (c)`; `none` is the default.
unfoldable pub find_case : ℕ → List (ℕ × Munch) → Option Munch
find_case c [] = none
find_case c ((d, m) ∷ rows) = if c == d then some m else find_case c rows

unfoldable pub munch : ℕ → Munch → Lexer → Token × Lexer
unfolding match_char
munch start (token kind) lex = (make_token kind no_payload lex start, lex)
munch start (on c a b) lex =
    let r = match_char lex c in
    let matched = munch start a r.1 in
    let other = munch start b r.1 in if r.0 then matched else other

unfoldable pub run_case : ℕ → Option Munch → Lexer → Token × Lexer
run_case start (some m) lex = munch start m lex
run_case start none lex = make_error_token lex start (codes "unexpected character")

-- `lex_operator`.
unfoldable pub lex_operator : Lexer → Token × Lexer
unfolding advance
lex_operator lex = let r = advance lex in run_case lex.cursor (find_case r.0 operator_cases) r.1
