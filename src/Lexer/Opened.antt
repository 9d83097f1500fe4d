-- ===== src/Lexer/Opened.antt =====
-- The lexer's functions under one name, for runs.
use q.Diagnostic.{diag_emit}
use q.Lexer.Chars.{
  is_alpha, is_digit, is_hex_digit, is_bin_digit, is_oct_digit, is_alnum, is_space, hex_value,
}
use q.Lexer.Literal.{
  u32_of_char, lex_hex_escape, escape_value, lex_escape, string_step, string_end, string_body,
  lex_string, close_char, lex_char,
}
use q.Lexer.Number.{
  read_digits, lex_prefixed, lex_fraction, lex_exponent, skip_sign, exponent_digits, without_bars,
  finish_decimal, lex_decimal, lex_number,
}
use q.Lexer.Operator.{find_case, munch, run_case, lex_operator}
use q.Lexer.Run.{dispatch, token_at, lexer_next_token, grow, lex_rounds, lexer_lex_all}
use q.Lexer.State.{
  lexer_init, peek, peek_at, advance, match_char, make_error_token, scan_while, skip_while,
}
use q.Lexer.Trivia.{
  skip_whitespace, block_end, close_comment, skip_comment, trivia_rounds, skip_trivia,
}
use q.Lexer.Word.{lex_identifier}
use q.Token.Keyword.{keyword_lookup}
use q.Token.Kind.{kind_eq}

unfoldable pub opened : Unit {0}
unfolding diag_emit is_alpha is_digit is_hex_digit is_bin_digit is_oct_digit is_alnum is_space
    hex_value u32_of_char lex_hex_escape escape_value lex_escape string_step string_end string_body
    lex_string close_char lex_char read_digits lex_prefixed lex_fraction lex_exponent skip_sign
    exponent_digits without_bars finish_decimal lex_decimal lex_number find_case munch run_case
    lex_operator dispatch token_at lexer_next_token grow lex_rounds lexer_lex_all lexer_init peek
    peek_at advance match_char make_error_token scan_while skip_while skip_whitespace block_end
    close_comment skip_comment trivia_rounds skip_trivia lex_identifier keyword_lookup kind_eq
opened = tt
