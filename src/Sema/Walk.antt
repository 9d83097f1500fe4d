-- ===== src/Sema/Walk.antt =====
-- The two passes of compiler/src/sema.c: `sema_expr`, `sema_stmt`, `sema_decl_pass2`,
-- `sema_decl_pass1` and `sema_analyze`. The default of `sema_stmt` is `sema_decl_pass2`; its cases
-- stand in both functions here, since a recursion has to go down.
use q.Ast.{
  AstNode, program, fn_decl, struct_decl, enum_decl, impl_block, const_decl, static_decl,
  type_alias, driver_decl, syscall_decl, let_stmt, expr_stmt, return_stmt, break_stmt,
  continue_stmt, defer_stmt, assign_stmt, ident, binary_op, unary_op, call, method_call,
  field_access, index, cast, block, if_expr, match_expr, match_arm, for_loop, while_loop, loop_expr,
  struct_lit, array_lit, unsafe_block, asm_expr, error_prop, Nodes, no_nodes, node, Variants,
  no_variants, variant, null_type,
}
use q.Common.{Bool, false, not, ◌&&◌, ◌==◌, Option, none, some, Bytes, codes, ◌++◌, if◌then◌else◌}
use q.Sema.Bodies.{
  sema_type, in_scope, in_loop_body, in_unsafe_body, check_asm_place, check_jump, check_redeclared,
  is_empty, sema_fn, sema_syscall, sema_fields, sema_for,
}
use q.Sema.State.{Sema, symtab_insert, sema_error, is_declared, check_name}
use q.Sema.Table.{
  SymKind, sym_fn, sym_struct, sym_enum, sym_driver, sym_syscall, sym_const, sym_static,
  sym_type_alias, sym_local,
}
use q.Token.Kind.{Span}

unfoldable mutual
  -- `sema_expr`.
  pub sema_expr : AstNode → Sema → Sema
  sema_expr (ident span name) s = check_name span name s
  sema_expr (binary_op span op left right) s = sema_expr right (sema_expr left s)
  sema_expr (unary_op span op operand) s = sema_expr operand s
  sema_expr (call span callee args) s = sema_exprs args (sema_expr callee s)
  sema_expr (method_call span object name args) s = sema_exprs args (sema_expr object s)
  sema_expr (field_access span object name) s = sema_expr object s
  sema_expr (index span object idx) s = sema_expr idx (sema_expr object s)
  sema_expr (cast span e target) s = sema_type target (sema_expr e s)
  sema_expr (block span stmts final) s = in_scope (λ a. sema_expr final (sema_stmts stmts a)) s
  sema_expr (if_expr span condition then_block else_block) s =
      sema_expr else_block (sema_expr then_block (sema_expr condition s))
  sema_expr (match_expr span e arms) s = sema_arms arms (sema_expr e s)
  sema_expr (for_loop span var iterable body label) s =
      sema_for (for_loop span var iterable body label) var (sema_expr iterable) (sema_expr body) s
  sema_expr (while_loop span condition body label) s =
      in_loop_body (sema_expr body) (sema_expr condition s)
  sema_expr (loop_expr span body label) s = in_loop_body (sema_expr body) s
  sema_expr (unsafe_block span body) s = in_unsafe_body (sema_expr body) s
  sema_expr (array_lit span elements value count) s =
      sema_expr count (sema_expr value (sema_exprs elements s))
  sema_expr (struct_lit span type names values) s = sema_exprs values s
  sema_expr (asm_expr span template) s = check_asm_place span s
  sema_expr (error_prop span e) s = sema_expr e s
  sema_expr _ s = s

  -- The loops over arguments, elements and field values.
  pub sema_exprs : Nodes → Sema → Sema
  sema_exprs no_nodes s = s
  sema_exprs (node n rest) s = sema_exprs rest (sema_expr n s)

  -- The loop over the arms of a `match`.
  pub sema_arms : Nodes → Sema → Sema
  sema_arms no_nodes s = s
  sema_arms (node (match_arm span pat guard body) rest) s =
      sema_arms rest (sema_expr body (sema_expr guard s))
  sema_arms (node _ rest) s = sema_arms rest s

  -- `sema_stmt`.
  pub sema_stmt : AstNode → Sema → Sema
  sema_stmt (let_stmt span name type init is_mut) s =
      symtab_insert name sym_local (let_stmt span name type init is_mut) type
        (sema_expr init (sema_type type (check_redeclared span name s)))
  sema_stmt (assign_stmt span target value op) s = sema_expr value (sema_expr target s)
  sema_stmt (expr_stmt span e) s = sema_expr e s
  sema_stmt (return_stmt span e) s = sema_expr e s
  sema_stmt (break_stmt span label) s = check_jump span s
  sema_stmt (continue_stmt span label) s = check_jump span s
  sema_stmt (defer_stmt span e) s = sema_expr e s
  sema_stmt (fn_decl span name ps return_type body attribs flags) s =
      sema_fn (fn_decl span name ps return_type body attribs flags) ps return_type (sema_expr body)
        s
  sema_stmt (struct_decl span name fs attribs is_pub) s = sema_fields fs s
  sema_stmt (enum_decl span name vs repr is_pub) s = sema_variants vs (sema_type repr s)
  sema_stmt (const_decl span name type value is_pub is_mut) s = sema_expr value (sema_type type s)
  sema_stmt (static_decl span name type value is_pub is_mut) s = sema_expr value (sema_type type s)
  sema_stmt (type_alias span name target is_pub) s = sema_type target s
  sema_stmt (driver_decl span name fs methods is_pub) s =
      in_scope (λ a. sema_decls methods (sema_fields fs a)) s
  sema_stmt (syscall_decl span name ps return_type body) s =
      sema_syscall (syscall_decl span name ps return_type body) ps return_type (sema_expr body) s
  sema_stmt (impl_block span target trait_name methods) s =
      in_scope (sema_decls methods) (sema_type target s)
  sema_stmt _ s = s

  -- The statements of a block.
  pub sema_stmts : Nodes → Sema → Sema
  sema_stmts no_nodes s = s
  sema_stmts (node n rest) s = sema_stmts rest (sema_stmt n s)

  -- The discriminants of an enum.
  pub sema_variants : Variants → Sema → Sema
  sema_variants no_variants s = s
  sema_variants (variant name ts discriminant span rest) s =
      sema_variants rest (sema_expr discriminant s)

  -- `sema_decl_pass2`.
  pub sema_decl_pass2 : AstNode → Sema → Sema
  sema_decl_pass2 (fn_decl span name ps return_type body attribs flags) s =
      sema_fn (fn_decl span name ps return_type body attribs flags) ps return_type (sema_expr body)
        s
  sema_decl_pass2 (struct_decl span name fs attribs is_pub) s = sema_fields fs s
  sema_decl_pass2 (enum_decl span name vs repr is_pub) s = sema_variants vs (sema_type repr s)
  sema_decl_pass2 (const_decl span name type value is_pub is_mut) s =
      sema_expr value (sema_type type s)
  sema_decl_pass2 (static_decl span name type value is_pub is_mut) s =
      sema_expr value (sema_type type s)
  sema_decl_pass2 (type_alias span name target is_pub) s = sema_type target s
  sema_decl_pass2 (driver_decl span name fs methods is_pub) s =
      in_scope (λ a. sema_decls methods (sema_fields fs a)) s
  sema_decl_pass2 (syscall_decl span name ps return_type body) s =
      sema_syscall (syscall_decl span name ps return_type body) ps return_type (sema_expr body) s
  sema_decl_pass2 (impl_block span target trait_name methods) s =
      in_scope (sema_decls methods) (sema_type target s)
  sema_decl_pass2 _ s = s

  -- The loops over methods and declarations.
  pub sema_decls : Nodes → Sema → Sema
  sema_decls no_nodes s = s
  sema_decls (node n rest) s = sema_decls rest (sema_decl_pass2 n s)

-- The `switch` of `sema_decl_pass1`: what a declaration declares.
unfoldable pub declares : AstNode → Option (Bytes × SymKind)
declares (fn_decl span name ps return_type body attribs flags) = some (name, sym_fn)
declares (struct_decl span name fs attribs is_pub) = some (name, sym_struct)
declares (enum_decl span name vs repr is_pub) = some (name, sym_enum)
declares (driver_decl span name fs methods is_pub) = some (name, sym_driver)
declares (syscall_decl span name ps return_type body) = some (name, sym_syscall)
declares (const_decl span name type value is_pub is_mut) = some (name, sym_const)
declares (static_decl span name type value is_pub is_mut) = some (name, sym_static)
declares (type_alias span name target is_pub) = some (name, sym_type_alias)
declares _ = none

abbrev node_span : AstNode → Span
node_span (fn_decl span _ _ _ _ _ _) = span
node_span (struct_decl span _ _ _ _) = span
node_span (enum_decl span _ _ _ _) = span
node_span (driver_decl span _ _ _ _) = span
node_span (syscall_decl span _ _ _ _) = span
node_span (const_decl span _ _ _ _ _) = span
node_span (static_decl span _ _ _ _ _) = span
node_span (type_alias span _ _ _) = span
node_span _ = record { start = 0; end = 0; source_id = 0 }

-- What `sema_decl_pass1` does behind its `switch`.
unfoldable pub register_name : AstNode → Bytes → SymKind → Sema → Sema
register_name n name kind s =
    if not (is_empty name) && is_declared s.scope name
    then sema_error (node_span n)
        (codes "duplicate declaration: '" ++ name ++ codes "' is already defined in this module") s
    else if not (is_empty name)
    then symtab_insert name kind n null_type s
    else s

abbrev pub register_if : AstNode → Option (Bytes × SymKind) → Sema → Sema
register_if n none s = s
register_if n (some d) s = register_name n d.0 d.1 s

-- `sema_decl_pass1`.
unfoldable pub sema_decl_pass1 : AstNode → Sema → Sema
sema_decl_pass1 n s = register_if n (declares n) s

-- The first loop of `sema_analyze`.
unfoldable pub register_decls : Nodes → Sema → Sema
register_decls no_nodes s = s
register_decls (node n rest) s = register_decls rest (sema_decl_pass1 n s)

-- `sema_analyze`: the verdict, and the state.
unfoldable pub sema_analyze : AstNode → Sema → Bool × Sema
sema_analyze (program span decls) s =
    let r = sema_decls decls (register_decls decls s) in (r.error_count == 0, r)
sema_analyze _ s = (false, s)
