-- ===== src/Parser/Expr.antt =====
-- `parse_postfix` and `parse_binary` of compiler/src/parser.c.
use q.Ast.{
  AstNode, span_of, BinaryOp, bin_add, bin_sub, bin_mul, bin_div, bin_mod, bin_bit_and, bin_bit_or,
  bin_bit_xor, bin_shl, bin_shr, bin_eq, bin_neq, bin_lt, bin_gt, bin_lt_eq, bin_gt_eq, bin_and,
  bin_or, bin_range, bin_range_inclusive, binary_op, call, method_call, field_access, index, cast,
  error_prop,
}
use q.Common.{ℕ, zero, suc, ◌+◌, true, List, [], ◌∷◌, Bytes, codes, leb, if◌then◌else◌}
use q.Parser.Loops.{comma_list, node_array}
use q.Parser.State.{
  done, no_fuel, Parse, ◌>>=◌, ◌>>◌, pure, look, step, on_match, first_match, expect, rank,
  name_or_kind,
}
use q.Parser.Types.{Routines, parse_expression}
use q.Token.Kind.{TokenKind, Span}

-- `get_precedence`.
unfoldable pub get_precedence : TokenKind → ℕ
get_precedence TokenKind.kw_or = 1
get_precedence TokenKind.kw_and = 2
get_precedence TokenKind.eq_eq = 3
get_precedence TokenKind.not_eq = 3
get_precedence TokenKind.lt = 4
get_precedence TokenKind.gt = 4
get_precedence TokenKind.lt_eq = 4
get_precedence TokenKind.gt_eq = 4
get_precedence TokenKind.pipe = 5
get_precedence TokenKind.caret = 6
get_precedence TokenKind.amp = 7
get_precedence TokenKind.shl = 8
get_precedence TokenKind.shr = 8
get_precedence TokenKind.dot_dot = 9
get_precedence TokenKind.dot_dot_eq = 9
get_precedence TokenKind.plus = 10
get_precedence TokenKind.minus = 10
get_precedence TokenKind.star = 11
get_precedence TokenKind.slash = 11
get_precedence TokenKind.percent = 11
get_precedence TokenKind.kw_as = 12
get_precedence _ = 0

-- `token_to_binop`.
unfoldable pub token_to_binop : TokenKind → BinaryOp
token_to_binop TokenKind.plus = bin_add
token_to_binop TokenKind.minus = bin_sub
token_to_binop TokenKind.star = bin_mul
token_to_binop TokenKind.slash = bin_div
token_to_binop TokenKind.percent = bin_mod
token_to_binop TokenKind.amp = bin_bit_and
token_to_binop TokenKind.pipe = bin_bit_or
token_to_binop TokenKind.caret = bin_bit_xor
token_to_binop TokenKind.shl = bin_shl
token_to_binop TokenKind.shr = bin_shr
token_to_binop TokenKind.eq_eq = bin_eq
token_to_binop TokenKind.not_eq = bin_neq
token_to_binop TokenKind.lt = bin_lt
token_to_binop TokenKind.gt = bin_gt
token_to_binop TokenKind.lt_eq = bin_lt_eq
token_to_binop TokenKind.gt_eq = bin_gt_eq
token_to_binop TokenKind.kw_and = bin_and
token_to_binop TokenKind.kw_or = bin_or
token_to_binop TokenKind.dot_dot = bin_range
token_to_binop TokenKind.dot_dot_eq = bin_range_inclusive
token_to_binop _ = bin_add

module _ (r : Routines) where
  -- The arguments of a call, behind the parenthesis, in an array of 128.
  abbrev pub call_args : Parse (List AstNode)
  call_args = do
    args ← comma_list 128 TokenKind.rparen (codes "expected ','") (parse_expression r) true
    expect TokenKind.rparen (codes "expected ')'")
    pure args

  -- The suffixes, each behind its first token.
  abbrev pub call_suffix : Span → AstNode → Parse AstNode
  call_suffix start e = do args ← call_args; pure (call start e (node_array args))

  abbrev pub member_suffix : Span → AstNode → Bytes → Parse AstNode
  member_suffix start e name =
      on_match TokenKind.lparen
        (do args ← call_args; pure (method_call start e name (node_array args)))
        (pure (field_access start e name))

  abbrev pub dot_suffix : Span → AstNode → Parse AstNode
  dot_suffix start e = look λ p. step >> member_suffix start e (name_or_kind p)

  abbrev pub index_suffix : Span → AstNode → Parse AstNode
  index_suffix start e = do
    idx ← parse_expression r
    expect TokenKind.rbracket (codes "expected ']'")
    pure (index start e idx)

  abbrev pub postfix_rows :
      Span → AstNode → (AstNode → Parse AstNode) → List (TokenKind × Parse AstNode)
  postfix_rows start e again =
      (TokenKind.lparen, call_suffix start e >>= again)
      ∷ (TokenKind.dot, dot_suffix start e >>= again)
      ∷ (TokenKind.lbracket, index_suffix start e >>= again)
      ∷ (TokenKind.question, again (error_prop start e))
      ∷ []

  -- The loop of `parse_postfix`. Every round takes a token.
  unfoldable pub postfix_loop : ℕ → AstNode → Parse AstNode
  postfix_loop zero e = λ p. no_fuel
  postfix_loop (suc fuel) e =
      look λ p. first_match (postfix_rows p.current.span e (postfix_loop fuel)) (pure e)

  -- `parse_postfix`.
  unfoldable pub parse_postfix : Parse AstNode
  parse_postfix = do e ← r.parse_primary; look λ p. postfix_loop (rank p + 1) e

  -- The loop of `parse_binary`. Every round takes a token.
  unfoldable pub binary_loop : ℕ → ℕ → AstNode → Parse AstNode
  binary_loop zero min_prec left p = no_fuel
  binary_loop (suc fuel) min_prec left p =
      let kind = p.current.kind in
      let prec = get_precedence kind in
      if leb prec min_prec
      then done left p
      else on_match TokenKind.kw_as
          (r.parse_type >>= λ target. binary_loop fuel min_prec (cast (span_of left) left target))
          (step
            >> (r.parse_binary prec >>= λ right.
                binary_loop fuel min_prec
                  (binary_op (span_of left) (token_to_binop kind) left right)))
          p

  -- `parse_binary`.
  unfoldable pub binary_body : ℕ → Parse AstNode
  binary_body min_prec = do left ← parse_postfix; look λ p. binary_loop (rank p + 1) min_prec left
