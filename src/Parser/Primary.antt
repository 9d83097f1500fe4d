-- ===== src/Parser/Primary.antt =====
-- `parse_primary` of compiler/src/parser.c.
use q.Ast.{
  AstNode, null_node, UnaryOp, unary_neg, unary_bit_not, unary_log_not, unary_ref, unary_ref_mut,
  unary_deref, int_lit, float_lit, string_lit, char_lit, bool_lit, null_lit, ident, path, unary_op,
  if_expr, for_loop, while_loop, loop_expr, array_lit, unsafe_block, asm_expr, no_nodes,
}
use q.Common.{
  ◌+◌, ℕ, zero, suc, Bool, true, false, List, [], ◌∷◌, Bytes, codes, ◌||◌, if◌then◌else◌,
}
use q.Lexer.State.{Payload}
use q.Lexer.State
use q.Parser.Loops.{comma_list, closes, node_array, push}
use q.Parser.State.{
  Parser, done, overrun, Parse, ◌>>=◌, ◌>>◌, pure, look, advance, step, check, on_match, on_check,
  first_match, error_current, expect, rank, skip_until, current_text, name_or_kind,
}
use q.Parser.Types.{Routines, parse_expression}
use q.Token.Kind.{TokenKind, IntBase, Span}

-- The node of a literal's token. A token has the payload of its kind.
unfoldable pub literal : Span → Payload → AstNode
literal start (State.int_lit value base) = int_lit start value base
literal start (State.float_lit text) = float_lit start text
literal start (State.str_lit text is_raw) = string_lit start text is_raw
literal start (State.char_lit value) = char_lit start value
literal start _ = null_node

module _ (r : Routines) (start : Span) where
  -- A literal, behind its token.
  abbrev pub literal_expr : Parse AstNode
  literal_expr = look λ p. pure (literal start p.previous.payload)

  abbrev pub paren_expr : Parse AstNode
  paren_expr = do e ← parse_expression r; expect TokenKind.rparen (codes "expected ')'"); pure e

  -- `else`, with another `if` or a block.
  abbrev pub else_part : Parse AstNode
  else_part =
      on_match TokenKind.kw_else (on_check TokenKind.kw_if r.parse_primary r.parse_block)
        (pure null_node)

  abbrev pub if_body : Parse AstNode
  if_body = do
    c ← parse_expression r
    then_block ← r.parse_block
    else_block ← else_part
    pure (if_expr start c then_block else_block)

  abbrev pub loop_body : Parse AstNode
  loop_body = do body ← r.parse_block; pure (loop_expr start body [])

  abbrev pub while_body : Parse AstNode
  while_body = do c ← parse_expression r; body ← r.parse_block; pure (while_loop start c body [])

  abbrev pub for_body : Parse AstNode
  for_body = look λ p. do
    expect TokenKind.identifier (codes "expected variable name in for")
    expect TokenKind.kw_in (codes "expected 'in' after for variable")
    iterable ← parse_expression r
    body ← r.parse_block
    pure (for_loop start (current_text p) iterable body [])

  abbrev pub unsafe_body : Parse AstNode
  unsafe_body = do body ← r.parse_block; pure (unsafe_block start body)

  -- A prefix operator, whose operand is a primary expression.
  abbrev pub prefix_expr : UnaryOp → Parse AstNode
  prefix_expr op = do e ← r.parse_primary; pure (unary_op start op e)

  -- `&e` and `&mut e`.
  abbrev pub reference_expr : Parse AstNode
  reference_expr = on_match TokenKind.kw_mut (prefix_expr unary_ref_mut) (prefix_expr unary_ref)

  -- `[value; count]`, behind the semicolon.
  abbrev pub repeat_expr : AstNode → Parse AstNode
  repeat_expr value = do
    count ← parse_expression r
    expect TokenKind.rbracket (codes "expected ']'")
    pure (array_lit start no_nodes value count)

  -- The elements behind the first one.
  abbrev pub more_elements : AstNode → Parse AstNode
  more_elements first = do
    rest ← comma_list 255 TokenKind.rbracket (codes "expected ','") (parse_expression r) false
    expect TokenKind.rbracket (codes "expected ']'")
    pure (array_lit start (node_array (first ∷ rest)) null_node null_node)

  -- An array literal, behind the bracket.
  abbrev pub array_body : Parse AstNode
  array_body = look λ p.
      if closes TokenKind.rbracket p
      then (do
        expect TokenKind.rbracket (codes "expected ']'")
        pure (array_lit start no_nodes null_node null_node))
      else (do
        first ← parse_expression r
        on_match TokenKind.semicolon (repeat_expr first) (more_elements first))

  -- The macro's template, which is left out if it is no string.
  abbrev pub template : Parse Bytes
  template = on_check TokenKind.string_literal (look λ p. step >> pure (current_text p)) (pure [])

  -- A macro, behind the `!`: its other arguments are skipped.
  abbrev pub macro_body : Parse AstNode
  macro_body = do
    expect TokenKind.lparen (codes "expected '(' after macro name")
    text ← template
    (λ p. skip_until (rank p + 1) (check TokenKind.rparen) p)
    expect TokenKind.rparen (codes "expected ')'")
    pure (asm_expr start text)

  -- `while (match(p, TOK_COLON_COLON))`, over an array of 32 segments.
  unfoldable pub segments : ℕ → Parse (List Bytes)
  segments zero p = if check TokenKind.colon_colon p then overrun else done [] p
  segments (suc room) p =
      on_match TokenKind.colon_colon (look λ q. step >> push (name_or_kind q) (segments room))
        (pure []) p

  -- A name, behind its token: a macro, a path or an identifier.
  abbrev pub name_body : Bytes → Parse AstNode
  name_body name = on_match TokenKind.bang macro_body (
      on_check TokenKind.colon_colon (do rest ← segments 31; pure (path start (name ∷ rest)))
        (pure (ident start name)))

  abbrev pub name_expr : Parse AstNode
  name_expr = look λ p. step >> name_body (name_or_kind p)

  -- No expression: the token is skipped. The base of the node that is returned is no base at all.
  abbrev pub no_expr : Parse AstNode
  no_expr p =
      done (int_lit start 0 IntBase.dec) (advance (error_current (codes "expected expression") p))

  -- The run of `match` from `if` on.
  abbrev pub keyword_rows : List (TokenKind × Parse AstNode)
  keyword_rows =
      (TokenKind.kw_if, if_body)
      ∷ (TokenKind.kw_loop, loop_body)
      ∷ (TokenKind.kw_while, while_body)
      ∷ (TokenKind.kw_for, for_body)
      ∷ (TokenKind.kw_unsafe, unsafe_body)
      ∷ (TokenKind.minus, prefix_expr unary_neg)
      ∷ (TokenKind.tilde, prefix_expr unary_bit_not)
      ∷ (TokenKind.kw_not, prefix_expr unary_log_not)
      ∷ (TokenKind.star, prefix_expr unary_deref)
      ∷ (TokenKind.amp, reference_expr)
      ∷ (TokenKind.lbracket, array_body)
      ∷ []

  -- The run of `match` up to the parenthesis.
  abbrev pub literal_rows : List (TokenKind × Parse AstNode)
  literal_rows =
      (TokenKind.int_literal, literal_expr)
      ∷ (TokenKind.float_literal, literal_expr)
      ∷ (TokenKind.string_literal, literal_expr)
      ∷ (TokenKind.raw_string_literal, literal_expr)
      ∷ (TokenKind.char_literal, literal_expr)
      ∷ (TokenKind.kw_true, pure (bool_lit start true))
      ∷ (TokenKind.kw_false, pure (bool_lit start false))
      ∷ (TokenKind.kw_null, pure (null_lit start))
      ∷ (TokenKind.lparen, paren_expr)
      ∷ []

  -- The kinds that name something.
  unfoldable pub names : Parser → Bool
  names p =
      check TokenKind.identifier p
      || check TokenKind.kw_self p
      || check TokenKind.kw_kernel p
      || check TokenKind.kw_port p
      || check TokenKind.kw_asm p

  abbrev pub if_name : Parse AstNode
  if_name = look λ p. if names p then name_expr else no_expr

-- `parse_primary`.
unfoldable pub primary_body : Routines → Parse AstNode
primary_body r = look λ p.
    let start = p.current.span in
    first_match (literal_rows r start) (
      on_check TokenKind.lbrace r.parse_block
        (first_match (keyword_rows r start) (if_name r start)))
