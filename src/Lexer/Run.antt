-- ===== src/Lexer/Run.antt =====
-- `lexer_next_token` and `lexer_lex_all` of compiler/src/lexer.c. The array that `lexer_lex_all`
-- grows is the list of its tokens, with the u32 that holds its capacity.
use q.Common.{
  ℕ, zero, suc, ◌+◌, true, false, ◌&&◌, List, [], ◌∷◌, length, leb, ltb, u32_inc, u32_mod, ◌*◌, ◌%◌,
  ◌==◌, if◌then◌else◌,
}
use q.Lexer.Chars.{is_alpha, is_digit}
use q.Lexer.Literal.{lex_string, lex_char}
use q.Lexer.Number.{lex_number}
use q.Lexer.Operator.{lex_operator}
use q.Lexer.State.{Lexer, Token, no_payload, peek, peek_at, bump, make_token, left}
use q.Lexer.Trivia.{skip_trivia}
use q.Lexer.Word.{lex_identifier}
use q.Token.Kind.{TokenKind, kind_eq}

-- The part of `lexer_next_token` behind the test for the end.
unfoldable pub dispatch : Lexer → Token × Lexer
unfolding peek peek_at
dispatch lex =
    let c : ℕ = peek lex in
    let d : ℕ = peek_at lex 1 in
    if is_alpha c
    then (if c == b'r' && d == b'"'
        then lex_string lex true
        else if c == b'b' && d == b'\''
        then lex_char (bump 1 lex)
        else lex_identifier lex)
    else if is_digit c
    then lex_number lex
    else if c == b'"'
    then lex_string lex false
    else if c == b'\''
    then lex_char lex
    else lex_operator lex

-- The end of input, or a token.
unfoldable pub token_at : Lexer → Token × Lexer
token_at lex =
    if leb (length lex.content) lex.cursor
    then (make_token TokenKind.eof no_payload lex lex.cursor, lex)
    else dispatch lex

-- `lexer_next_token`.
unfoldable pub lexer_next_token : Lexer → Token × Lexer
lexer_next_token lex = token_at (skip_trivia lex)

-- What `lexer_lex_all` comes to: the tokens, their count as the u32 that it hands out, and the lexer; a
-- write behind the end of the array; or a round that the fuel did not reach.
pub data Lexed : Type 0 where
  lexed : List Token → ℕ → Lexer → Lexed
  overrun no_fuel : Lexed

abbrev pub push_token : Token → Lexed → Lexed
push_token tok (lexed toks count lex) = lexed (tok ∷ toks) count lex
push_token tok overrun = overrun
push_token tok no_fuel = no_fuel

-- The capacity, a u32, when `count` tokens are in the array and one more is to come.
unfoldable pub grow : ℕ → ℕ → ℕ
grow count capacity = if leb capacity count then capacity * 2 % u32_mod else capacity

-- The loop of `lexer_lex_all`, from a count and a capacity.
unfoldable pub lex_rounds : ℕ → ℕ → ℕ → Lexer → Lexed
lex_rounds zero count capacity lex = no_fuel
lex_rounds (suc fuel) count capacity lex =
    let room : ℕ = grow count capacity in
    let r = lexer_next_token lex in
    elim (ltb count room) [
      | false ↦ overrun
      | true ↦ elim (kind_eq r.0.kind TokenKind.eof) [
        | true ↦ lexed (r.0 ∷ []) (u32_inc count) r.1
        | false ↦ push_token r.0 (lex_rounds fuel (u32_inc count) room r.1)
      ]
    ]

-- `lexer_lex_all`: one round more than bytes is fuel enough (Lexer/Tokens).
unfoldable pub lexer_lex_all : Lexer → Lexed
lexer_lex_all lex = lex_rounds (left lex + 1) 0 1024 lex
