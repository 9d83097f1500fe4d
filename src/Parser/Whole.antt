-- ===== src/Parser/Whole.antt =====
-- `parser_init` and `parser_parse` of compiler/src/parser.c, as a whole.
use q.Ast.{AstNode, program}
use q.Common.{true, false, List, ◌≡◌, refl, ◌⊎◌, inl, inr, arith, length, u32_mod, ◌<◌}
use q.Lexer.Bounds.Moves.{IsInside}
use q.Lexer.State.{Lexer, Token}
use q.Lexer.Tokens.{lexer_next_token-Moves}
use q.Parser.Decl.{parse_declaration, parse_fuel, parser_parse}
use q.Parser.Ends.Whole.{parser_parse-Fine}
use q.Parser.Ends.{Fine, finished, beyond}
use q.Parser.Knot.{routines}
use q.Parser.Loops.{closes, capped_list, node_array}
use q.Parser.Recovery.{Steps-cursor}
use q.Parser.Returns.{OnDone, bind-OnDone, from-OnDone, capped_list-OnDone}
use q.Parser.State.{Parser, Outcome, done, overrun, check, advance, parser_init}
use q.Parser.Steps.{IsParser, Steps, advance-Advanced}
use q.Token.Kind.{TokenKind, kind_eq}

-- A program of a parser: its declarations reach to the end of the input, or fill the array.
pub record Whole (p : Parser) (n : AstNode) (q : Parser) : Type 0 where
  pub decls : List AstNode
  pub is_program : n ≡ program p.current.span (node_array decls)
  pub reaches : (check TokenKind.eof q ≡ true) ⊎ (length decls ≡ 1024)

parser_parse-OnDone : (p : Parser) → OnDone (Whole p) (parser_parse p)
unfolding parser_parse closes
parser_parse-OnDone p =
    let elem = parse_declaration (routines (parse_fuel p)) in
    bind-OnDone (Whole p) (capped_list 1024 TokenKind.eof elem p) _ λ decls q e. record {
      decls = decls;
      is_program = refl;
      reaches = elim (from-OnDone _ (capped_list-OnDone 1024 TokenKind.eof elem p) e) [
        | inl at ↦ inl (ground (arith, at))
        | inr full ↦ inr full
      ];
    }

settle :
    {A : Type 0} {P : A → Parser → Type 0} {p : Parser} {o : Outcome A}
    → Fine p o
    → OnDone P o
    → length p.lexer.content < u32_mod
    → (o ≡ overrun)
      ⊎ ((a : A) × (q : Parser) × (o ≡ done a q) × Steps p q × P a q × (q.lexer.cursor < u32_mod))
settle beyond h small = inl refl
settle (finished {a} {q} s) h small = inr (a, q, refl, s, h, Steps-cursor s small)

pub parser_init-IsParser :
    (lexer : Lexer) (before : Token) → IsInside lexer → IsParser (parser_init lexer before)
unfolding parser_init advance check kind_eq
parser_init-IsParser lexer before h =
    let start : Parser = record {
      lexer = lexer;
      current = record before { kind = TokenKind.semicolon };
      previous = before;
      source_id = lexer.source_id;
      had_error = false;
      panic_mode = false;
    } in
    let ordered : IsParser start = record {
      inside = h;
      at_end = λ e. absurd (ground (arith, e));
      flagged = λ e. absurd (ground (arith, e));
    } in
    let s = (advance-Advanced start ordered).steps.still in
    record { inside = s.inside; at_end = s.at_end; flagged = s.flagged }

-- On every lexer inside a source below 4 GiB, the fuel of `parser_parse` is enough: never out of it,
-- `parser_init` and `parser_parse` write behind the end of a local array, or they return a program and a
-- parser in order, over the same source, not further back, with no error forgotten, with a cursor that
-- fits its u32, that stands at the end of the input, unless the array of 1024 declarations is full.
pub parser_parse-returns :
    (lexer : Lexer) (before : Token)
    → IsInside lexer
    → length lexer.content < u32_mod
    → (parser_parse (parser_init lexer before) ≡ overrun)
      ⊎ ((n : AstNode) × (q : Parser) × (parser_parse (parser_init lexer before) ≡ done n q)
          × Steps (parser_init lexer before) q
          × Whole (parser_init lexer before) n q
          × (q.lexer.cursor < u32_mod))
unfolding parser_init advance
parser_parse-returns lexer before h small =
    let p = parser_init lexer before in
    let ordered = parser_init-IsParser lexer before h in
    settle (parser_parse-Fine p ordered) (parser_parse-OnDone p)
      (rw (lexer_next_token-Moves lexer h).content small)
