-- ===== src/Lexer/Word.antt =====
-- Identifiers and keywords: `lex_identifier` of compiler/src/lexer.c.
use q.Common.{slice, if◌then◌else◌}
use q.Lexer.Chars.{is_alnum}
use q.Lexer.State.{Lexer, Token, no_payload, ident, make_token, skip_while}
use q.Token.Keyword.{keyword_lookup}
use q.Token.Kind.{TokenKind, kind_eq}

unfoldable pub lex_identifier : Lexer → Token × Lexer
lex_identifier lex =
    let after = skip_while is_alnum lex in
    let text = slice lex.content lex.cursor after.cursor in
    let kind = keyword_lookup text in
    (
      make_token kind (if kind_eq kind TokenKind.identifier then ident text else no_payload) after
          lex.cursor,
      after,
    )
