-- ===== src/Lexer/Tests.antt =====
-- Runs of the lexer on small inputs.
use q.Common.{true, false, List, [], ◌∷◌, Bytes, codes, ◌≡◌, refl, map}
use q.Diagnostic.{no_diagnostics}
use q.Lexer.Opened.{opened}
use q.Lexer.Run.{Lexed, lexed, overrun, no_fuel, lexer_lex_all}
use q.Lexer.State.{Lexer, Payload, no_payload, int_lit, float_lit, str_lit, char_lit, ident}
use q.Token.Kind.{TokenKind, IntBase}

abbrev on_text : Bytes → Lexer
on_text text = record { content = text; cursor = 0; source_id = 0; diag = no_diagnostics }

abbrev kinds : Lexed → List TokenKind
kinds (lexed toks count lex) = map (λ t. t.kind) toks
kinds overrun = []
kinds no_fuel = []

abbrev payloads : Lexed → List Payload
payloads (lexed toks count lex) = map (λ t. t.payload) toks
payloads overrun = []
payloads no_fuel = []

function_kinds :
    kinds
      (lexer_lex_all (on_text (codes "pub fn f /* a /* b */ */ (x) -> u8 { x <<= 0x1F; } // end")))
    ≡ TokenKind.kw_pub ∷ TokenKind.kw_fn ∷ TokenKind.identifier ∷ TokenKind.lparen
      ∷ TokenKind.identifier ∷ TokenKind.rparen ∷ TokenKind.arrow ∷ TokenKind.kw_u8
      ∷ TokenKind.lbrace ∷ TokenKind.identifier ∷ TokenKind.shl_eq ∷ TokenKind.int_literal
      ∷ TokenKind.semicolon ∷ TokenKind.rbrace ∷ TokenKind.eof ∷ []
unfolding opened
function_kinds = refl

literal_payloads :
    payloads
      (lexer_lex_all (on_text (codes "1_000 0b1010 3.5e-1_0 1..2 'a' b'\\n' \"a\\\"b\" r\"\\\" x")))
    ≡ int_lit 1000 IntBase.dec
      ∷ int_lit 10 IntBase.bin
      ∷ float_lit (codes "3.5e-10")
      ∷ int_lit 1 IntBase.dec
      ∷ no_payload
      ∷ int_lit 2 IntBase.dec
      ∷ char_lit 97
      ∷ char_lit 10
      ∷ str_lit (codes "a\\\"b") false
      ∷ str_lit (codes "\\") true
      ∷ ident (codes "x")
      ∷ no_payload
      ∷ []
unfolding opened
literal_payloads = refl
