-- ===== src/Security/Unsafe.antt =====
-- An unsafe context never adds an error of compiler/src/security.c.
use q.Ast.{
  AstNode, unary_op, binary_op, cast, call, method_call, index, field_access, block, unsafe_block,
  asm_expr, if_expr, match_expr, match_arm, for_loop, while_loop, loop_expr, array_lit, error_prop,
  let_stmt, assign_stmt, expr_stmt, return_stmt, defer_stmt, fn_decl, driver_decl, syscall_decl,
  impl_block, Nodes, no_nodes, node,
}
use q.Common.{refl, codes, bytes_eq, ◌≤◌, Bool, true, false, not, ◌&&◌, ◌||◌, arith}
use q.Security.State.{SecurityAnalyzer, first_segment}
use q.Diagnostic.Counts.{errors_in}
use q.Token.Kind.{Span}
use q.Security.Scan.{sec_expr}
use q.Security.Sound.{sec_expr-Reports}
use q.Security.Errors.{
  one_if, errors_expr, errors_exprs, errors_arms, errors_stmt, errors_stmts, errors_decl,
  errors_decls,
}

one_if-safe : (b : Bool) → one_if (b && not true) ≤ one_if (b && not false)
one_if-safe true = omega arith
one_if-safe false = omega arith

-- The body of a function: unsafe by its flag, or by its place.
body_le :
    (body : AstNode) (is_unsafe : Bool)
    → errors_expr body true ≤ errors_expr body false
    → errors_expr body (is_unsafe || true) ≤ errors_expr body (is_unsafe || false)
body_le body true h = omega arith
body_le body false h = h

mutual
  unfolding errors_expr

  pub errors_expr_le : (n : AstNode) → errors_expr n true ≤ errors_expr n false
  errors_expr_le (unary_op span op e) = omega (arith, errors_expr_le e)
  errors_expr_le (binary_op span op l r) = omega (arith, errors_expr_le l, errors_expr_le r)
  errors_expr_le (cast span e target) = errors_expr_le e
  errors_expr_le (call span callee args) = omega (
    arith,
    one_if-safe (bytes_eq (first_segment callee) (codes "port")),
    errors_expr_le callee,
    errors_exprs_le args,
  )
  errors_expr_le (method_call span object name args) =
      omega (arith, errors_expr_le object, errors_exprs_le args)
  errors_expr_le (index span object idx) = omega (arith, errors_expr_le object, errors_expr_le idx)
  errors_expr_le (field_access span object name) = errors_expr_le object
  errors_expr_le (block span stmts final) =
      omega (arith, errors_stmts_le stmts, errors_expr_le final)
  errors_expr_le (unsafe_block span body) = omega arith
  errors_expr_le (asm_expr span template) = omega (arith, one_if-safe true)
  errors_expr_le (if_expr span c t e) =
      omega (arith, errors_expr_le c, errors_expr_le t, errors_expr_le e)
  errors_expr_le (match_expr span e arms) = omega (arith, errors_expr_le e, errors_arms_le arms)
  errors_expr_le (for_loop span var iterable body label) =
      omega (arith, errors_expr_le iterable, errors_expr_le body)
  errors_expr_le (while_loop span c body label) =
      omega (arith, errors_expr_le c, errors_expr_le body)
  errors_expr_le (loop_expr span body label) = errors_expr_le body
  errors_expr_le (array_lit span elements value count) =
      omega (arith, errors_exprs_le elements, errors_expr_le value, errors_expr_le count)
  errors_expr_le (error_prop span e) = errors_expr_le e
  errors_expr_le _ = omega arith

  pub errors_exprs_le : (n : Nodes) → errors_exprs n true ≤ errors_exprs n false
  errors_exprs_le no_nodes = omega arith
  errors_exprs_le (node n rest) = omega (arith, errors_expr_le n, errors_exprs_le rest)

  pub errors_arms_le : (n : Nodes) → errors_arms n true ≤ errors_arms n false
  errors_arms_le no_nodes = omega arith
  errors_arms_le (node (match_arm span pat guard body) rest) =
      omega (arith, errors_expr_le guard, errors_expr_le body, errors_arms_le rest)
  errors_arms_le (node _ rest) = errors_arms_le rest

  pub errors_stmt_le : (n : AstNode) → errors_stmt n true ≤ errors_stmt n false
  errors_stmt_le (let_stmt span name type init is_mut) = omega (arith, errors_expr_le init)
  errors_stmt_le (assign_stmt span target value op) =
      omega (arith, errors_expr_le target, errors_expr_le value)
  errors_stmt_le (expr_stmt span e) = errors_expr_le e
  errors_stmt_le (return_stmt span e) = errors_expr_le e
  errors_stmt_le (defer_stmt span e) = errors_expr_le e
  errors_stmt_le (fn_decl span name ps return_type body attribs flags) =
      body_le body flags.is_unsafe (errors_expr_le body)
  errors_stmt_le (driver_decl span name fs methods is_pub) = errors_decls_le methods
  errors_stmt_le (syscall_decl span name ps return_type body) = errors_expr_le body
  errors_stmt_le (impl_block span target trait_name methods) = errors_decls_le methods
  errors_stmt_le _ = omega arith

  pub errors_stmts_le : (n : Nodes) → errors_stmts n true ≤ errors_stmts n false
  errors_stmts_le no_nodes = omega arith
  errors_stmts_le (node n rest) = omega (arith, errors_stmt_le n, errors_stmts_le rest)

  pub errors_decl_le : (n : AstNode) → errors_decl n true ≤ errors_decl n false
  errors_decl_le (fn_decl span name ps return_type body attribs flags) =
      body_le body flags.is_unsafe (errors_expr_le body)
  errors_decl_le (driver_decl span name fs methods is_pub) = errors_decls_le methods
  errors_decl_le (syscall_decl span name ps return_type body) = errors_expr_le body
  errors_decl_le (impl_block span target trait_name methods) = errors_decls_le methods
  errors_decl_le _ = omega arith

  pub errors_decls_le : (n : Nodes) → errors_decls n true ≤ errors_decls n false
  errors_decls_le no_nodes = omega arith
  errors_decls_le (node n rest) = omega (arith, errors_decl_le n, errors_decls_le rest)

wrapped_le :
    (span : Span) (e : AstNode) (u : Bool) → errors_expr (unsafe_block span e) u ≤ errors_expr e u
unfolding errors_expr
wrapped_le span e true = omega arith
wrapped_le span e false = errors_expr_le e

-- Wrapping any expression in an `unsafe` block never makes the analyzer print more errors, whatever
-- the state it starts from.
pub unsafe_block-fewer_errors :
    (span : Span) (e : AstNode) (sa : SecurityAnalyzer)
    → errors_in (sec_expr (unsafe_block span e) sa).diag.emitted
      ≤ errors_in (sec_expr e sa).diag.emitted
unsafe_block-fewer_errors span e sa = omega (
  arith,
  (sec_expr-Reports (unsafe_block span e) sa.in_unsafe sa refl).printed,
  (sec_expr-Reports e sa.in_unsafe sa refl).printed,
  wrapped_le span e sa.in_unsafe,
)
