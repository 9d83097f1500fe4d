-- ===== src/Security/Errors.antt =====
-- The specification of the analyzer's errors: how many places of a tree the four error rules of
-- compiler/src/security.c reject, given whether the tree stands in an unsafe context. Warnings, the
-- state and the order of the walk do not enter.
use q.Ast.{
  AstNode, unary_op, binary_op, cast, call, method_call, index, field_access, block, unsafe_block,
  asm_expr, if_expr, match_expr, match_arm, for_loop, while_loop, loop_expr, array_lit, error_prop,
  let_stmt, assign_stmt, expr_stmt, return_stmt, defer_stmt, fn_decl, driver_decl, syscall_decl,
  impl_block, Nodes, no_nodes, node,
}
use q.Common.{ℕ, ◌+◌, Bool, true, not, ◌&&◌, ◌||◌, codes, bytes_eq, if◌then◌else◌}
use q.Security.Checks.{is_deref}
use q.Security.State.{type_is_raw_ptr, is_null_lit, is_node, first_segment}

abbrev pub one_if : Bool → ℕ
one_if b = if b then 1 else 0

unfoldable mutual
  -- In an expression: a dereferenced null, a call of `port::` or inline assembly in a safe context.
  pub errors_expr : AstNode → Bool → ℕ
  errors_expr (unary_op span op e) u = one_if (is_deref op && is_null_lit e) + errors_expr e u
  errors_expr (binary_op span op l r) u = errors_expr l u + errors_expr r u
  errors_expr (cast span e target) u = errors_expr e u
  errors_expr (call span callee args) u =
      one_if (bytes_eq (first_segment callee) (codes "port") && not u)
      + errors_expr callee u
      + errors_exprs args u
  errors_expr (method_call span object name args) u = errors_expr object u + errors_exprs args u
  errors_expr (index span object idx) u = errors_expr object u + errors_expr idx u
  errors_expr (field_access span object name) u = errors_expr object u
  errors_expr (block span stmts final) u = errors_stmts stmts u + errors_expr final u
  errors_expr (unsafe_block span body) u = errors_expr body true
  errors_expr (asm_expr span template) u = one_if (not u)
  errors_expr (if_expr span c t e) u = errors_expr c u + errors_expr t u + errors_expr e u
  errors_expr (match_expr span e arms) u = errors_expr e u + errors_arms arms u
  errors_expr (for_loop span var iterable body label) u =
      errors_expr iterable u + errors_expr body u
  errors_expr (while_loop span c body label) u = errors_expr c u + errors_expr body u
  errors_expr (loop_expr span body label) u = errors_expr body u
  errors_expr (array_lit span elements value count) u =
      errors_exprs elements u + errors_expr value u + errors_expr count u
  errors_expr (error_prop span e) u = errors_expr e u
  errors_expr _ u = 0

  pub errors_exprs : Nodes → Bool → ℕ
  errors_exprs no_nodes u = 0
  errors_exprs (node n rest) u = errors_expr n u + errors_exprs rest u

  pub errors_arms : Nodes → Bool → ℕ
  errors_arms no_nodes u = 0
  errors_arms (node (match_arm span pat guard body) rest) u =
      errors_expr guard u + errors_expr body u + errors_arms rest u
  errors_arms (node _ rest) u = errors_arms rest u

  -- In a statement: also a raw pointer that is declared with no initial value.
  pub errors_stmt : AstNode → Bool → ℕ
  errors_stmt (let_stmt span name type init is_mut) u =
      one_if (type_is_raw_ptr type && not (is_node init)) + errors_expr init u
  errors_stmt (assign_stmt span target value op) u = errors_expr target u + errors_expr value u
  errors_stmt (expr_stmt span e) u = errors_expr e u
  errors_stmt (return_stmt span e) u = errors_expr e u
  errors_stmt (defer_stmt span e) u = errors_expr e u
  errors_stmt (fn_decl span name ps return_type body attribs flags) u =
      errors_expr body (flags.is_unsafe || u)
  errors_stmt (driver_decl span name fs methods is_pub) u = errors_decls methods u
  errors_stmt (syscall_decl span name ps return_type body) u = errors_expr body u
  errors_stmt (impl_block span target trait_name methods) u = errors_decls methods u
  errors_stmt _ u = 0

  pub errors_stmts : Nodes → Bool → ℕ
  errors_stmts no_nodes u = 0
  errors_stmts (node n rest) u = errors_stmt n u + errors_stmts rest u

  -- In a declaration: the bodies of functions, system calls, drivers and implementations.
  pub errors_decl : AstNode → Bool → ℕ
  errors_decl (fn_decl span name ps return_type body attribs flags) u =
      errors_expr body (flags.is_unsafe || u)
  errors_decl (driver_decl span name fs methods is_pub) u = errors_decls methods u
  errors_decl (syscall_decl span name ps return_type body) u = errors_expr body u
  errors_decl (impl_block span target trait_name methods) u = errors_decls methods u
  errors_decl _ u = 0

  pub errors_decls : Nodes → Bool → ℕ
  errors_decls no_nodes u = 0
  errors_decls (node n rest) u = errors_decl n u + errors_decls rest u
