-- ===== src/Security/Sound.antt =====
-- The walk of compiler/src/security.c reports exactly the errors that Security/Errors counts, and
-- leaves the contexts as they were.
use q.Ast.{
  fn_decl, struct_decl, impl_block, static_decl, driver_decl, syscall_decl, let_stmt, expr_stmt,
  return_stmt, defer_stmt, assign_stmt, binary_op, unary_op, call, method_call, field_access, index,
  cast, block, if_expr, match_expr, match_arm, for_loop, while_loop, loop_expr, array_lit,
  unsafe_block, asm_expr, error_prop, no_nodes, node, AstNode, Nodes,
}
use q.Common.{Bool, true, ◌≡◌, ◌∙◌}
use q.Security.Errors.{
  errors_expr, errors_exprs, errors_arms, errors_stmt, errors_stmts, errors_decl, errors_decls,
}
use q.Security.Reports.{Reports, Reports-refl, Reports-next, Reports-quiet, Reports-then}
use q.Security.Rules.{
  check_unary-Reports, check_cast-Reports, check_call-Reports, check_index-Reports,
  check_asm-Reports, check_pointer-Reports, check_stack-Reports, check_assign-Reports,
  check_static-Reports, sec_type-same, sec_fields-same, in_unsafe_block-Reports, sec_fn-Reports,
  sec_driver-Reports, sec_syscall-Reports,
}
use q.Security.Scan.{sec_expr, sec_exprs, sec_arms, sec_stmt, sec_stmts, sec_decl, sec_decls}
use q.Security.State.{SecurityAnalyzer}

mutual
  unfolding sec_expr errors_expr

  pub sec_expr-Reports :
      (n : AstNode) (u : Bool) (sa : SecurityAnalyzer)
      → sa.in_unsafe ≡ u
      → Reports (errors_expr n u) sa (sec_expr n sa)
  sec_expr-Reports (unary_op span op operand) u sa h =
      Reports-next h (check_unary-Reports span op operand sa) (sec_expr-Reports operand u _)
  sec_expr-Reports (binary_op span op left right) u sa h =
      Reports-next h (sec_expr-Reports left u sa h) (sec_expr-Reports right u _)
  sec_expr-Reports (cast span e target) u sa h =
      let q = check_cast-Reports span target sa in
      Reports-quiet q (sec_expr-Reports e u _ (q.unsafe_kept ∙ h))
  sec_expr-Reports (call span callee args) u sa h =
      Reports-next h
        (Reports-next h (check_call-Reports span callee u sa h) (sec_expr-Reports callee u _))
        (sec_exprs-Reports args u _)
  sec_expr-Reports (method_call span object name args) u sa h =
      Reports-next h (sec_expr-Reports object u sa h) (sec_exprs-Reports args u _)
  sec_expr-Reports (index span object idx) u sa h =
      let q = check_index-Reports span object idx sa in
      Reports-quiet q (
        Reports-next (q.unsafe_kept ∙ h) (sec_expr-Reports object u _ (q.unsafe_kept ∙ h))
          (sec_expr-Reports idx u _))
  sec_expr-Reports (field_access span object name) u sa h = sec_expr-Reports object u sa h
  sec_expr-Reports (block span stmts final) u sa h =
      Reports-next h (sec_stmts-Reports stmts u sa h) (sec_expr-Reports final u _)
  sec_expr-Reports (unsafe_block span body) u sa h =
      in_unsafe_block-Reports (sec_expr body) sa (sec_expr-Reports body true)
  sec_expr-Reports (asm_expr span template) u sa h = check_asm-Reports span u sa h
  sec_expr-Reports (if_expr span condition then_block else_block) u sa h =
      Reports-next h
        (Reports-next h (sec_expr-Reports condition u sa h) (sec_expr-Reports then_block u _))
        (sec_expr-Reports else_block u _)
  sec_expr-Reports (match_expr span e arms) u sa h =
      Reports-next h (sec_expr-Reports e u sa h) (sec_arms-Reports arms u _)
  sec_expr-Reports (for_loop span var iterable body label) u sa h =
      Reports-next h (sec_expr-Reports iterable u sa h) (sec_expr-Reports body u _)
  sec_expr-Reports (while_loop span condition body label) u sa h =
      Reports-next h (sec_expr-Reports condition u sa h) (sec_expr-Reports body u _)
  sec_expr-Reports (loop_expr span body label) u sa h = sec_expr-Reports body u sa h
  sec_expr-Reports (array_lit span elements value count) u sa h =
      Reports-next h
        (Reports-next h (sec_exprs-Reports elements u sa h) (sec_expr-Reports value u _))
        (sec_expr-Reports count u _)
  sec_expr-Reports (error_prop span e) u sa h = sec_expr-Reports e u sa h
  sec_expr-Reports _ u sa h = Reports-refl sa

  pub sec_exprs-Reports :
      (ns : Nodes) (u : Bool) (sa : SecurityAnalyzer)
      → sa.in_unsafe ≡ u
      → Reports (errors_exprs ns u) sa (sec_exprs ns sa)
  sec_exprs-Reports no_nodes u sa h = Reports-refl sa
  sec_exprs-Reports (node n rest) u sa h =
      Reports-next h (sec_expr-Reports n u sa h) (sec_exprs-Reports rest u _)

  pub sec_arms-Reports :
      (ns : Nodes) (u : Bool) (sa : SecurityAnalyzer)
      → sa.in_unsafe ≡ u
      → Reports (errors_arms ns u) sa (sec_arms ns sa)
  sec_arms-Reports no_nodes u sa h = Reports-refl sa
  sec_arms-Reports (node (match_arm span pat guard body) rest) u sa h =
      Reports-next h (Reports-next h (sec_expr-Reports guard u sa h) (sec_expr-Reports body u _))
        (sec_arms-Reports rest u _)
  sec_arms-Reports (node _ rest) u sa h = sec_arms-Reports rest u sa h

  pub sec_stmt-Reports :
      (n : AstNode) (u : Bool) (sa : SecurityAnalyzer)
      → sa.in_unsafe ≡ u
      → Reports (errors_stmt n u) sa (sec_stmt n sa)
  sec_stmt-Reports (let_stmt span name type init is_mut) u sa h = rw (sec_type-same type) (
      Reports-next h
        (Reports-then (check_pointer-Reports span type init sa) (check_stack-Reports span type _))
        (sec_expr-Reports init u _))
  sec_stmt-Reports (assign_stmt span target value op) u sa h =
      let q = check_assign-Reports span target sa in
      Reports-quiet q (
        Reports-next (q.unsafe_kept ∙ h) (sec_expr-Reports target u _ (q.unsafe_kept ∙ h))
          (sec_expr-Reports value u _))
  sec_stmt-Reports (expr_stmt span e) u sa h = sec_expr-Reports e u sa h
  sec_stmt-Reports (return_stmt span e) u sa h = sec_expr-Reports e u sa h
  sec_stmt-Reports (defer_stmt span e) u sa h = sec_expr-Reports e u sa h
  sec_stmt-Reports (fn_decl span name ps return_type body attribs flags) u sa h =
      sec_fn-Reports (sec_expr body) sa flags u h (sec_expr-Reports body _)
  sec_stmt-Reports (driver_decl span name fs methods is_pub) u sa h =
      sec_driver-Reports (sec_decls methods) sa (λ a k. sec_decls-Reports methods u a (k ∙ h))
  sec_stmt-Reports (syscall_decl span name ps return_type body) u sa h =
      sec_syscall-Reports (sec_expr body) sa ps (λ a k. sec_expr-Reports body u a (k ∙ h))
  sec_stmt-Reports (struct_decl span name fs attribs is_pub) u sa h =
      rw (sec_fields-same fs sa) (Reports-refl sa)
  sec_stmt-Reports (impl_block span target trait_name methods) u sa h =
      sec_decls-Reports methods u sa h
  sec_stmt-Reports (static_decl span name type value is_pub is_mut) u sa h =
      check_static-Reports span is_mut sa
  sec_stmt-Reports _ u sa h = Reports-refl sa

  pub sec_stmts-Reports :
      (ns : Nodes) (u : Bool) (sa : SecurityAnalyzer)
      → sa.in_unsafe ≡ u
      → Reports (errors_stmts ns u) sa (sec_stmts ns sa)
  sec_stmts-Reports no_nodes u sa h = Reports-refl sa
  sec_stmts-Reports (node n rest) u sa h =
      Reports-next h (sec_stmt-Reports n u sa h) (sec_stmts-Reports rest u _)

  pub sec_decl-Reports :
      (n : AstNode) (u : Bool) (sa : SecurityAnalyzer)
      → sa.in_unsafe ≡ u
      → Reports (errors_decl n u) sa (sec_decl n sa)
  sec_decl-Reports (fn_decl span name ps return_type body attribs flags) u sa h =
      sec_fn-Reports (sec_expr body) sa flags u h (sec_expr-Reports body _)
  sec_decl-Reports (driver_decl span name fs methods is_pub) u sa h =
      sec_driver-Reports (sec_decls methods) sa (λ a k. sec_decls-Reports methods u a (k ∙ h))
  sec_decl-Reports (syscall_decl span name ps return_type body) u sa h =
      sec_syscall-Reports (sec_expr body) sa ps (λ a k. sec_expr-Reports body u a (k ∙ h))
  sec_decl-Reports (struct_decl span name fs attribs is_pub) u sa h =
      rw (sec_fields-same fs sa) (Reports-refl sa)
  sec_decl-Reports (impl_block span target trait_name methods) u sa h =
      sec_decls-Reports methods u sa h
  sec_decl-Reports (static_decl span name type value is_pub is_mut) u sa h =
      check_static-Reports span is_mut sa
  sec_decl-Reports _ u sa h = Reports-refl sa

  pub sec_decls-Reports :
      (ns : Nodes) (u : Bool) (sa : SecurityAnalyzer)
      → sa.in_unsafe ≡ u
      → Reports (errors_decls ns u) sa (sec_decls ns sa)
  sec_decls-Reports no_nodes u sa h = Reports-refl sa
  sec_decls-Reports (node n rest) u sa h =
      Reports-next h (sec_decl-Reports n u sa h) (sec_decls-Reports rest u _)
