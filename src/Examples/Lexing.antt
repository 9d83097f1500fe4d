-- ===== src/Examples/Lexing.antt =====
-- The lexer's theorems at small texts.
use q.Common.{
  ◌+◌, ◌%◌, ◌<◌, drop, u64_mod, ◌∷◌, List, [], ◌≡◌, ◌⊎◌, refl, arith, codes, length, get_or,
}
use q.Diagnostic.{no_diagnostics}
use q.Lexer.Operator.{lex_operator}
use q.Lexer.Opened.{opened}
use q.Lexer.Run.{lexed, lexer_lex_all}
use q.Lexer.Standing.{NoOperator}
use q.Lexer.Spelling.{IsLongest, lex_operator-IsLongest}
use q.Lexer.Number.{lex_number}
use q.Lexer.Value.{numeral, radix, index_of, digit_value, small_x, lex_number-numeral}
use q.Lexer.State.{Lexer, Token, lexer_init, int_lit}
use q.Lexer.Tokens.{Tiles, lexer_lex_all-Tiles}
use q.Source.{SourceFile}
use q.Token.Keyword.{keyword_lookup}
use q.Token.Kind.{TokenKind, IntBase}
use q.Token.Lookup.{looked_up, keyword_lookup-looked_up}

abbrev small_file : SourceFile
small_file = record {
  id = 3;
  path = codes "a.qp";
  content = codes "fn f() { return 0x1F; } // end";
  line_offsets = 0 ∷ [];
  line_count = 1;
}

lexer_lex_all-Tiles_example :
    (toks : List Token) × (after : Lexer) × (lexer_lex_all (lexer_init small_file no_diagnostics)
      ≡ lexed toks (length toks) after)
    × Tiles (length small_file.content) 3 0 toks
    × (after.cursor ≡ length small_file.content)
lexer_lex_all-Tiles_example = lexer_lex_all-Tiles small_file no_diagnostics (omega arith)

abbrev shift_text : Lexer
shift_text = record { content = codes "a <<= b"; cursor = 2; source_id = 0; diag = no_diagnostics }

lex_operator-IsLongest_example :
    IsLongest shift_text (lex_operator shift_text).0
    ⊎ (NoOperator shift_text.content shift_text.cursor
        × ((lex_operator shift_text).0.kind ≡ TokenKind.error))
lex_operator-IsLongest_example = lex_operator-IsLongest shift_text (omega arith)

lex_operator_shift : (lex_operator shift_text).0.kind ≡ TokenKind.shl_eq
unfolding opened
lex_operator_shift = refl

keyword_lookup-looked_up_example :
    keyword_lookup (codes "interrupt") ≡ looked_up (codes "interrupt")
keyword_lookup-looked_up_example = keyword_lookup-looked_up (codes "interrupt")

keyword_lookup_alias : keyword_lookup (codes "alias") ≡ TokenKind.identifier
unfolding opened
keyword_lookup_alias = refl

keyword_lookup_alloc : keyword_lookup (codes "alloc") ≡ TokenKind.kw_alloc
unfolding opened
keyword_lookup_alloc = refl

abbrev hex_text : Lexer
hex_text = record { content = codes "0xF_f;"; cursor = 0; source_id = 0; diag = no_diagnostics }

hex_digit_here : digit_value (get_or hex_text.content (0 + 2) 0) < radix IntBase.hex
unfolding digit_value index_of radix
hex_digit_here = omega arith

lex_number-numeral_example :
    (lex_number hex_text).0.payload
    ≡ int_lit (numeral (radix IntBase.hex) (drop (0 + 2) hex_text.content) 0 % u64_mod) IntBase.hex
lex_number-numeral_example =
    lex_number-numeral IntBase.hex b'x' hex_text small_x refl refl hex_digit_here

numeral_value : numeral (radix IntBase.hex) (drop 2 hex_text.content) 0 ≡ 255
unfolding numeral radix digit_value index_of
numeral_value = refl
