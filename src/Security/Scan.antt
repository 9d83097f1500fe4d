-- ===== src/Security/Scan.antt =====
-- The walk over the tree (compiler/src/security.c): `sec_expr`, `sec_stmt`, `sec_decl` and
-- `security_analyze`. The default of `sec_stmt` is `sec_decl`; its cases stand in both functions here,
-- since a recursion has to go down, and Security/Agree shows that they are the same.
use q.Ast.{
  program, fn_decl, struct_decl, impl_block, static_decl, driver_decl, syscall_decl, let_stmt,
  expr_stmt, return_stmt, defer_stmt, assign_stmt, binary_op, unary_op, call, method_call,
  field_access, index, cast, block, if_expr, match_expr, match_arm, for_loop, while_loop, loop_expr,
  array_lit, unsafe_block, asm_expr, error_prop, no_nodes, node, AstNode, Nodes,
}
use q.Common.{Bool, false, ◌==◌}
use q.Security.Checks.{
  check_unary, check_cast, check_call, check_index, check_asm, in_unsafe_block, check_pointer,
  check_stack, check_assign, check_static, sec_fn, sec_driver, sec_syscall, sec_fields,
}
use q.Security.State.{SecurityAnalyzer, sec_type}

unfoldable mutual
  -- `sec_expr`.
  pub sec_expr : AstNode → SecurityAnalyzer → SecurityAnalyzer
  sec_expr (unary_op span op operand) sa = sec_expr operand (check_unary span op operand sa)
  sec_expr (binary_op span op left right) sa = sec_expr right (sec_expr left sa)
  sec_expr (cast span e target) sa = sec_expr e (check_cast span target sa)
  sec_expr (call span callee args) sa = sec_exprs args (sec_expr callee (check_call span callee sa))
  sec_expr (method_call span object name args) sa = sec_exprs args (sec_expr object sa)
  sec_expr (index span object idx) sa =
      sec_expr idx (sec_expr object (check_index span object idx sa))
  sec_expr (field_access span object name) sa = sec_expr object sa
  sec_expr (block span stmts final) sa = sec_expr final (sec_stmts stmts sa)
  sec_expr (unsafe_block span body) sa = in_unsafe_block (sec_expr body) sa
  sec_expr (asm_expr span template) sa = check_asm span sa
  sec_expr (if_expr span condition then_block else_block) sa =
      sec_expr else_block (sec_expr then_block (sec_expr condition sa))
  sec_expr (match_expr span e arms) sa = sec_arms arms (sec_expr e sa)
  sec_expr (for_loop span var iterable body label) sa = sec_expr body (sec_expr iterable sa)
  sec_expr (while_loop span condition body label) sa = sec_expr body (sec_expr condition sa)
  sec_expr (loop_expr span body label) sa = sec_expr body sa
  sec_expr (array_lit span elements value count) sa =
      sec_expr count (sec_expr value (sec_exprs elements sa))
  sec_expr (error_prop span e) sa = sec_expr e sa
  sec_expr _ sa = sa

  -- The loops over arguments and elements.
  pub sec_exprs : Nodes → SecurityAnalyzer → SecurityAnalyzer
  sec_exprs no_nodes sa = sa
  sec_exprs (node n rest) sa = sec_exprs rest (sec_expr n sa)

  -- The loop over the arms of a `match`.
  pub sec_arms : Nodes → SecurityAnalyzer → SecurityAnalyzer
  sec_arms no_nodes sa = sa
  sec_arms (node (match_arm span pat guard body) rest) sa =
      sec_arms rest (sec_expr body (sec_expr guard sa))
  sec_arms (node _ rest) sa = sec_arms rest sa

  -- `sec_stmt`.
  pub sec_stmt : AstNode → SecurityAnalyzer → SecurityAnalyzer
  sec_stmt (let_stmt span name type init is_mut) sa =
      sec_expr init (sec_type type (check_stack span type (check_pointer span type init sa)))
  sec_stmt (assign_stmt span target value op) sa =
      sec_expr value (sec_expr target (check_assign span target sa))
  sec_stmt (expr_stmt span e) sa = sec_expr e sa
  sec_stmt (return_stmt span e) sa = sec_expr e sa
  sec_stmt (defer_stmt span e) sa = sec_expr e sa
  sec_stmt (fn_decl span name ps return_type body attribs flags) sa =
      sec_fn flags (sec_expr body) sa
  sec_stmt (driver_decl span name fs methods is_pub) sa = sec_driver (sec_decls methods) sa
  sec_stmt (syscall_decl span name ps return_type body) sa = sec_syscall ps (sec_expr body) sa
  sec_stmt (struct_decl span name fs attribs is_pub) sa = sec_fields fs sa
  sec_stmt (impl_block span target trait_name methods) sa = sec_decls methods sa
  sec_stmt (static_decl span name type value is_pub is_mut) sa = check_static span is_mut sa
  sec_stmt _ sa = sa

  -- The statements of a block.
  pub sec_stmts : Nodes → SecurityAnalyzer → SecurityAnalyzer
  sec_stmts no_nodes sa = sa
  sec_stmts (node n rest) sa = sec_stmts rest (sec_stmt n sa)

  -- `sec_decl`.
  pub sec_decl : AstNode → SecurityAnalyzer → SecurityAnalyzer
  sec_decl (fn_decl span name ps return_type body attribs flags) sa =
      sec_fn flags (sec_expr body) sa
  sec_decl (driver_decl span name fs methods is_pub) sa = sec_driver (sec_decls methods) sa
  sec_decl (syscall_decl span name ps return_type body) sa = sec_syscall ps (sec_expr body) sa
  sec_decl (struct_decl span name fs attribs is_pub) sa = sec_fields fs sa
  sec_decl (impl_block span target trait_name methods) sa = sec_decls methods sa
  sec_decl (static_decl span name type value is_pub is_mut) sa = check_static span is_mut sa
  sec_decl _ sa = sa

  -- The loops over methods and declarations.
  pub sec_decls : Nodes → SecurityAnalyzer → SecurityAnalyzer
  sec_decls no_nodes sa = sa
  sec_decls (node n rest) sa = sec_decls rest (sec_decl n sa)

-- `security_analyze`: the verdict, and the state.
unfoldable pub security_analyze : AstNode → SecurityAnalyzer → Bool × SecurityAnalyzer
security_analyze (program span decls) sa = let r = sec_decls decls sa in (r.error_count == 0, r)
security_analyze _ sa = (false, sa)
