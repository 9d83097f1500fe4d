-- ===== src/Examples/Parsing.antt =====
-- The parser's theorems at small texts.
use q.Ast.{AstNode, null_node, bin_add, assign_shl}
use q.Common.{◌<◌, Bytes, codes, true, false, ◌||◌, ◌≡◌, ◌⊎◌, ◌↔◌, refl, arith, u32_mod, length}
use q.Diagnostic.{no_diagnostics}
use q.Lexer.State.{Lexer, Token, no_payload}
use q.Parser.Decl.{parser_parse}
use q.Parser.Expr.{get_precedence, token_to_binop}
use q.Parser.Knot.{routines}
use q.Parser.Opened.{parser_opened}
use q.Parser.Operators.{binop_token, assign_token, token_to_binop_iff, token_to_assign_iff}
use q.Parser.Precedence.{Parsed, parse_binary-Parsed}
use q.Parser.Recovery.{synchronize-stops}
use q.Parser.State.{
  Parser, Outcome, done, overrun, no_fuel, check, parser_init, in_sync, synchronize,
}
use q.Parser.Steps.{Steps}
use q.Parser.Stmt.{is_assign_op, token_to_assign}
use q.Parser.Stray.{Stray, params_from, params_from-overrun}
use q.Parser.Whole.{Whole, parser_init-IsParser, parser_parse-returns}
use q.Token.Kind.{TokenKind, kind_eq}

abbrev lexer_of : Bytes → Lexer
lexer_of text = record { content = text; cursor = 0; source_id = 0; diag = no_diagnostics }

abbrev no_token : Token
no_token = record {
  kind = TokenKind.eof;
  span = record { start = 0; end = 0; source_id = 0 };
  payload = no_payload;
}

abbrev start_of : Bytes → Parser
start_of text = parser_init (lexer_of text) no_token

abbrev small_program : Bytes
small_program = codes "fn f(a: u8) { return a + 2; } const N: u32 = 3;"

parser_parse-returns_example :
    (parser_parse (start_of small_program) ≡ overrun)
    ⊎ ((n : AstNode) × (q : Parser) × (parser_parse (start_of small_program) ≡ done n q)
        × Steps (start_of small_program) q
        × Whole (start_of small_program) n q
        × (q.lexer.cursor < u32_mod))
parser_parse-returns_example =
    parser_parse-returns (lexer_of small_program) no_token (omega arith) (omega arith)

abbrev sum : Parser
sum = start_of (codes "a + b * c == d;")

-- What a run comes to.
abbrev node_of : Outcome AstNode → AstNode
node_of (done n q) = n
node_of overrun = null_node
node_of no_fuel = null_node

abbrev after : Parser → Outcome AstNode → Parser
after p (done n q) = q
after p overrun = p
after p no_fuel = p

abbrev sum_run : Outcome AstNode
sum_run = (routines 20).parse_binary 0 sum

sum_run_is : sum_run ≡ done (node_of sum_run) (after sum sum_run)
unfolding parser_opened
sum_run_is = refl

parse_binary-Parsed_example : Parsed 0 sum (node_of sum_run) (after sum sum_run)
parse_binary-Parsed_example = parse_binary-Parsed 20 0 sum_run_is

sum_small : length sum.lexer.content < u32_mod
unfolding parser_opened
sum_small = omega arith

synchronize-stops_example :
    (q : Parser) × (synchronize sum ≡ done tt q)
    × (q.panic_mode ≡ false)
    × ((check TokenKind.eof q || in_sync q) ≡ true)
    × Steps sum q
    × (q.lexer.cursor < u32_mod)
synchronize-stops_example =
    synchronize-stops sum
      (parser_init-IsParser (lexer_of (codes "a + b * c == d;")) no_token (omega arith)) sum_small

abbrev number : Parser
number = start_of (codes "1)")

number-Stray : Stray number
unfolding parser_opened
number-Stray = record { unused = refl; no_type = refl }

params_from-overrun_example : params_from 2 64 true number ≡ overrun
params_from-overrun_example = params_from-overrun 2 number number-Stray

token_to_binop_iff_example :
    ((0 < get_precedence TokenKind.plus)
      × (kind_eq TokenKind.plus TokenKind.kw_as ≡ false)
      × (token_to_binop TokenKind.plus ≡ bin_add))
    ↔ (TokenKind.plus ≡ binop_token bin_add)
token_to_binop_iff_example = token_to_binop_iff TokenKind.plus bin_add

token_to_assign_iff_example :
    ((is_assign_op TokenKind.shl_eq ≡ true) × (token_to_assign TokenKind.shl_eq ≡ assign_shl))
    ↔ (TokenKind.shl_eq ≡ assign_token assign_shl)
token_to_assign_iff_example = token_to_assign_iff TokenKind.shl_eq assign_shl
