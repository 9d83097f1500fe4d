-- ===== src/Parser/Ends/Stmt.antt =====
-- `parse_statement` and `parse_block` of compiler/src/parser.c come to an end.
use q.Ast.{AstNode}
use q.Common.{ℕ, ◌≤◌, ◌<◌, true, false, ◌≡◌, refl, arith}
use q.Parser.Ends.Types.{Ready}
use q.Parser.Ends.{
  Fine, Ends, bind-Ends, then-Ends, pure-Ends, look-Ends, when-Ends, on_check-Ends, on_match-Ends,
  first_match-Ends, AllEnd, ◌&◌, no_rows, none_at_eof, step-Ends, expect-Ends, capped_list-Ends,
  after_token, kind_eq-other,
}
use q.Parser.State.{Parser, check, rank, matches, expect}
use q.Parser.Steps.{IsParser}
use q.Parser.Stmt.{
  is_assign_op, end_of_statement, let_type, parse_let_stmt, return_body, jump_body, defer_body,
  expression_statement, statement_rows, parse_statement, block_rest, block_body,
}
use q.Parser.Types.{Routines}
use q.Token.Kind.{TokenKind, kind_eq, Span}

module _ {b : ℕ} where
  pub matches-Ends : (kind : TokenKind) → kind_eq kind TokenKind.eof ≡ false → Ends b (matches kind)
  matches-Ends kind e = on_match-Ends kind e (λ c k. pure-Ends) pure-Ends

  pub end_of_statement-Ends : Ends b end_of_statement
  end_of_statement-Ends = expect-Ends _ _

module _ {b : ℕ} {r : Routines} where
  let_type-Ends : ((c : ℕ) → c < b → Ready c r) → Ends b (let_type r)
  unfolding kind_eq
  let_type-Ends h = on_match-Ends _ refl (λ c k. (h c k).type) pure-Ends

  parse_let_stmt-Ends : ((c : ℕ) → c ≤ b → Ready c r) → Ends b (parse_let_stmt r)
  unfolding kind_eq
  parse_let_stmt-Ends h = look-Ends λ p. bind-Ends (matches-Ends _ refl) λ is_mut. look-Ends λ q.
      then-Ends (expect-Ends _ _) (
        bind-Ends (let_type-Ends (λ c k. h c (omega (arith, k)))) λ type.
          then-Ends (expect-Ends _ _) (
            bind-Ends ((h b (omega arith)).binary 0)
              λ init. then-Ends end_of_statement-Ends pure-Ends))

module _ {b : ℕ} (r : Routines) (start : Span)
    (h : (min_prec : ℕ) → Ends b (r.parse_binary min_prec)) where
  return_body-Ends : Ends b (return_body r start)
  return_body-Ends =
      bind-Ends (on_check-Ends _ pure-Ends (h 0)) λ e. then-Ends (expect-Ends _ _) pure-Ends

  defer_body-Ends : Ends b (defer_body r start)
  defer_body-Ends = bind-Ends (h 0) λ e. then-Ends end_of_statement-Ends pure-Ends

  expression_statement-Ends : Ends b (expression_statement r start)
  expression_statement-Ends = bind-Ends (h 0) λ e. look-Ends λ p.
      when-Ends (is_assign_op p.current.kind)
        (look-Ends λ q.
          then-Ends step-Ends (bind-Ends (h 0) λ value. then-Ends end_of_statement-Ends pure-Ends))
        (then-Ends end_of_statement-Ends pure-Ends)

module _ {b : ℕ} (r : Routines) (start : Span) (n : AstNode) where
  jump_body-Ends : Ends b (jump_body r start n)
  jump_body-Ends = then-Ends end_of_statement-Ends pure-Ends

-- What a statement needs: expressions with as many tokens, and all with less.
pub record Below (b : ℕ) (r : Routines) : Type 0 where
  pub here : (min_prec : ℕ) → Ends b (r.parse_binary min_prec)
  pub less : (c : ℕ) → c < b → Ready c r

module _ {b : ℕ} {r : Routines} (h : Below b r) where
  statement_rows-AllEnd : (start : Span) (c : ℕ) → c < b → AllEnd c (statement_rows r start)
  statement_rows-AllEnd start c k =
      parse_let_stmt-Ends (λ d l. h.less d (omega (arith, k, l)))
      & return_body-Ends r start (h.less c k).binary
      & jump_body-Ends r start _
      & jump_body-Ends r start _
      & defer_body-Ends r start (h.less c k).binary
      & no_rows

  pub parse_statement-Ends : Ends b (parse_statement r)
  unfolding parse_statement kind_eq none_at_eof
  parse_statement-Ends = look-Ends λ p.
      first_match-Ends (statement_rows r p.current.span) refl (statement_rows-AllEnd p.current.span)
        (expression_statement-Ends r p.current.span h.here)

module _ {b : ℕ} {r : Routines} where
  block_rest-Ends : (start : Span) → Below b r → Ends b (block_rest r start)
  block_rest-Ends start h =
      bind-Ends (capped_list-Ends 512 _ (parse_statement-Ends h))
        λ stmts. then-Ends (expect-Ends _ _) pure-Ends

  pub block_body-Ends : Below b r → Ends b (block_body r)
  unfolding block_body
  block_body-Ends h = look-Ends λ p. then-Ends (expect-Ends _ _) (block_rest-Ends p.current.span h)

module _ {b : ℕ} {r : Routines} where
  -- At its brace, a block takes a token first.
  pub block_body-opens :
      ((c : ℕ) → c < b → Below c r)
      → (p : Parser) → IsParser p
      → rank p ≤ b
      → check TokenKind.lbrace p ≡ true
      → Fine p (block_body r p)
  unfolding block_body expect check kind_eq
  block_body-opens h p i j e = rw e (
      after_token {f = block_rest r p.current.span} (λ c k. block_rest-Ends p.current.span (h c k))
        p i j (kind_eq-other p.current.kind TokenKind.lbrace e refl))
