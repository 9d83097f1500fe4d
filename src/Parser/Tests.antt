-- ===== src/Parser/Tests.antt =====
-- Runs of the parser on small texts.
use q.Common.{ℕ, Bytes, codes, Option, some, none, ◌≡◌, refl}
use q.Diagnostic.{no_diagnostics}
use q.Lexer.State.{no_payload}
use q.Parser.Decl.{parser_parse}
use q.Parser.Opened.{parser_opened}
use q.Parser.State.{Parser, Outcome, done, overrun, no_fuel, parser_init}
use q.Token.Kind.{TokenKind}

abbrev start_of : Bytes → Parser
start_of text =
    parser_init (record { content = text; cursor = 0; source_id = 0; diag = no_diagnostics })
      (record {
        kind = TokenKind.eof;
        span = record { start = 0; end = 0; source_id = 0 };
        payload = no_payload;
      })

-- The number of errors of a run.
abbrev errors_of : {A : Type 0} → Outcome A → Option ℕ
errors_of (done a p) = some p.lexer.diag.error_count
errors_of overrun = none
errors_of no_fuel = none

parses : errors_of (parser_parse (start_of (codes "fn f(a: u8) { return a + 2 * 3; }"))) ≡ some 0
unfolding parser_opened
parses = refl

misses_colon : errors_of (parser_parse (start_of (codes "fn f(a u8) {}"))) ≡ some 1
unfolding parser_opened
misses_colon = refl

-- A parameter that is no name fills the array.
runs_over : parser_parse (start_of (codes "fn f(1)")) ≡ overrun
unfolding parser_opened
runs_over = refl
