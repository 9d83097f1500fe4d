-- ===== src/Parser/Stmt.antt =====
-- `parse_block` and `parse_statement` of compiler/src/parser.c.
use q.Ast.{
  AstNode, null_node, AstType, null_type, AssignOp, assign_eq, assign_add, assign_sub, assign_mul,
  assign_div, assign_mod, assign_bit_and, assign_bit_or, assign_bit_xor, assign_shl, assign_shr,
  block, let_stmt, expr_stmt, return_stmt, break_stmt, continue_stmt, defer_stmt, assign_stmt,
}
use q.Common.{Bool, List, [], ◌∷◌, codes, if◌then◌else◌}
use q.Parser.Loops.{capped_list, node_array}
use q.Parser.State.{
  Parse, ◌>>=◌, ◌>>◌, pure, look, step, on_match, on_check, first_match, matches, expect,
  name_or_error,
}
use q.Parser.Types.{Routines, parse_expression, one_of}
use q.Token.Kind.{TokenKind, Span}

-- `is_assign_op`.
abbrev pub assign_kinds : List TokenKind
assign_kinds =
    TokenKind.eq ∷ TokenKind.plus_eq ∷ TokenKind.minus_eq ∷ TokenKind.star_eq ∷ TokenKind.slash_eq
    ∷ TokenKind.percent_eq ∷ TokenKind.amp_eq ∷ TokenKind.pipe_eq ∷ TokenKind.caret_eq
    ∷ TokenKind.shl_eq ∷ TokenKind.shr_eq ∷ []

unfoldable pub is_assign_op : TokenKind → Bool
is_assign_op k = one_of k assign_kinds

-- `token_to_assign`.
unfoldable pub token_to_assign : TokenKind → AssignOp
token_to_assign TokenKind.eq = assign_eq
token_to_assign TokenKind.plus_eq = assign_add
token_to_assign TokenKind.minus_eq = assign_sub
token_to_assign TokenKind.star_eq = assign_mul
token_to_assign TokenKind.slash_eq = assign_div
token_to_assign TokenKind.percent_eq = assign_mod
token_to_assign TokenKind.amp_eq = assign_bit_and
token_to_assign TokenKind.pipe_eq = assign_bit_or
token_to_assign TokenKind.caret_eq = assign_bit_xor
token_to_assign TokenKind.shl_eq = assign_shl
token_to_assign TokenKind.shr_eq = assign_shr
token_to_assign _ = assign_eq

abbrev pub end_of_statement : Parse (Unit {0})
end_of_statement = expect TokenKind.semicolon (codes "expected ';'")

module _ (r : Routines) where
  -- `parse_let_stmt`, behind the keyword.
  abbrev pub let_type : Parse AstType
  let_type = on_match TokenKind.colon r.parse_type (pure null_type)

  abbrev pub parse_let_stmt : Parse AstNode
  parse_let_stmt = look λ p. do
    is_mut ← matches TokenKind.kw_mut
    look λ q. do
      expect TokenKind.identifier (codes "expected variable name")
      type ← let_type
      expect TokenKind.eq (codes "expected '=' in let")
      init ← parse_expression r
      end_of_statement
      pure (let_stmt p.previous.span (name_or_error q) type init is_mut)

  module _ (start : Span) where
    abbrev pub return_value : Parse AstNode
    return_value = on_check TokenKind.semicolon (pure null_node) (parse_expression r)

    abbrev pub return_body : Parse AstNode
    return_body = do
      e ← return_value
      expect TokenKind.semicolon (codes "expected ';' after return")
      pure (return_stmt start e)

    abbrev pub jump_body : AstNode → Parse AstNode
    jump_body n = do end_of_statement; pure n

    abbrev pub defer_body : Parse AstNode
    defer_body = do e ← parse_expression r; end_of_statement; pure (defer_stmt start e)

    -- An assignment, behind its target, at its operator.
    abbrev pub assign_body : AstNode → Parse AstNode
    assign_body target = look λ p. do
      step
      value ← parse_expression r
      end_of_statement
      pure (assign_stmt start target value (token_to_assign p.current.kind))

    abbrev pub plain_statement : AstNode → Parse AstNode
    plain_statement e = do end_of_statement; pure (expr_stmt start e)

    abbrev pub expression_statement : Parse AstNode
    expression_statement = do
      e ← parse_expression r
      look λ p. if is_assign_op p.current.kind then assign_body e else plain_statement e

    abbrev pub statement_rows : List (TokenKind × Parse AstNode)
    statement_rows =
        (TokenKind.kw_let, parse_let_stmt)
        ∷ (TokenKind.kw_return, return_body)
        ∷ (TokenKind.kw_break, jump_body (break_stmt start []))
        ∷ (TokenKind.kw_continue, jump_body (continue_stmt start []))
        ∷ (TokenKind.kw_defer, defer_body)
        ∷ []

  -- `parse_statement`.
  unfoldable pub parse_statement : Parse AstNode
  parse_statement =
      look λ p. first_match (statement_rows p.current.span) (expression_statement p.current.span)

  -- `parse_block`, with its array of 512 statements: what follows the brace, and the whole.
  abbrev pub block_rest : Span → Parse AstNode
  block_rest start = do
    stmts ← capped_list 512 TokenKind.rbrace parse_statement
    expect TokenKind.rbrace (codes "expected '}'")
    pure (block start (node_array stmts) null_node)

  unfoldable pub block_body : Parse AstNode
  block_body = look λ p. expect TokenKind.lbrace (codes "expected '{'") >> block_rest p.current.span
