-- ===== src/Parser/Operators.antt =====
-- The tables of operators of compiler/src/parser.c, against the tokens of the operators of
-- compiler/include/qpc/ast.h.
use q.Ast.{
  BinaryOp, bin_add, bin_sub, bin_mul, bin_div, bin_mod, bin_bit_and, bin_bit_or, bin_bit_xor,
  bin_shl, bin_shr, bin_eq, bin_neq, bin_lt, bin_gt, bin_lt_eq, bin_gt_eq, bin_and, bin_or,
  bin_range, bin_range_inclusive, AssignOp, assign_eq, assign_add, assign_sub, assign_mul,
  assign_div, assign_mod, assign_bit_and, assign_bit_or, assign_bit_xor, assign_shl, assign_shr,
}
use q.Common.{◌<◌, true, false, ◌≡◌, sym, ap, ◌∙◌, ◌↔◌, arith}
use q.Parser.Expr.{get_precedence, token_to_binop}
use q.Parser.Stmt.{is_assign_op, token_to_assign}
use q.Token.Kind.{TokenKind, kind_eq}

-- The token in which an operator is written.
abbrev pub binop_token : BinaryOp → TokenKind
binop_token bin_add = TokenKind.plus
binop_token bin_sub = TokenKind.minus
binop_token bin_mul = TokenKind.star
binop_token bin_div = TokenKind.slash
binop_token bin_mod = TokenKind.percent
binop_token bin_bit_and = TokenKind.amp
binop_token bin_bit_or = TokenKind.pipe
binop_token bin_bit_xor = TokenKind.caret
binop_token bin_shl = TokenKind.shl
binop_token bin_shr = TokenKind.shr
binop_token bin_eq = TokenKind.eq_eq
binop_token bin_neq = TokenKind.not_eq
binop_token bin_lt = TokenKind.lt
binop_token bin_gt = TokenKind.gt
binop_token bin_lt_eq = TokenKind.lt_eq
binop_token bin_gt_eq = TokenKind.gt_eq
binop_token bin_and = TokenKind.kw_and
binop_token bin_or = TokenKind.kw_or
binop_token bin_range = TokenKind.dot_dot
binop_token bin_range_inclusive = TokenKind.dot_dot_eq

abbrev pub assign_token : AssignOp → TokenKind
assign_token assign_eq = TokenKind.eq
assign_token assign_add = TokenKind.plus_eq
assign_token assign_sub = TokenKind.minus_eq
assign_token assign_mul = TokenKind.star_eq
assign_token assign_div = TokenKind.slash_eq
assign_token assign_mod = TokenKind.percent_eq
assign_token assign_bit_and = TokenKind.amp_eq
assign_token assign_bit_or = TokenKind.pipe_eq
assign_token assign_bit_xor = TokenKind.caret_eq
assign_token assign_shl = TokenKind.shl_eq
assign_token assign_shr = TokenKind.shr_eq

binop_back :
    (kind : TokenKind)
    → 0 < get_precedence kind
    → kind_eq kind TokenKind.kw_as ≡ false
    → binop_token (token_to_binop kind) ≡ kind
unfolding get_precedence token_to_binop kind_eq
binop_back kind h k = ground arith

binop_forth :
    (op : BinaryOp)
    → (0 < get_precedence (binop_token op))
      × (kind_eq (binop_token op) TokenKind.kw_as ≡ false)
      × (token_to_binop (binop_token op) ≡ op)
unfolding get_precedence token_to_binop kind_eq
binop_forth op = ground arith

-- A token has a precedence, is not `as` and is read as an operator if and only if it is the token in
-- which that operator is written: no token of a precedence falls to the default of `token_to_binop`, and
-- every binary operator can be parsed.
pub token_to_binop_iff :
    (kind : TokenKind) (op : BinaryOp)
    → ((0 < get_precedence kind)
        × (kind_eq kind TokenKind.kw_as ≡ false)
        × (token_to_binop kind ≡ op))
      ↔ (kind ≡ binop_token op)
token_to_binop_iff kind op =
    ((λ (h, k, e). sym (binop_back kind h k) ∙ ap binop_token e), (λ e. rw e (binop_forth op)))

-- The same for the tokens that `is_assign_op` accepts and the operators of an assignment.
pub token_to_assign_iff :
    (kind : TokenKind) (op : AssignOp)
    → ((is_assign_op kind ≡ true) × (token_to_assign kind ≡ op)) ↔ (kind ≡ assign_token op)
unfolding is_assign_op token_to_assign kind_eq
token_to_assign_iff kind op = ground arith
