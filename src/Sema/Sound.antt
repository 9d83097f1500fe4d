-- ===== src/Sema/Sound.antt =====
-- The walk of compiler/src/sema.c reports exactly the errors that Sema/Errors counts, with the tables
-- and contexts that it goes by.
use q.Ast.{
  AstNode, fn_decl, struct_decl, enum_decl, impl_block, const_decl, static_decl, type_alias,
  driver_decl, syscall_decl, let_stmt, expr_stmt, return_stmt, break_stmt, continue_stmt,
  defer_stmt, assign_stmt, ident, binary_op, unary_op, call, method_call, field_access, index, cast,
  block, if_expr, match_expr, match_arm, for_loop, while_loop, loop_expr, struct_lit, array_lit,
  unsafe_block, asm_expr, error_prop, Nodes, no_nodes, node, Variants, no_variants, variant,
}
use q.Common.{Bool, true, List, [], ◌∷◌, Bytes}
use q.Sema.Errors.{
  declared_after, faults_expr, faults_exprs, faults_arms, faults_stmt, faults_stmts,
  faults_variants, faults_decl, faults_decls,
}
use q.Sema.Params.{sema_fn-Walks, sema_syscall-Walks, sema_for-Walks}
use q.Sema.Rules.{
  check_name-Walks, sema_type-Walks, sema_fields-Walks, check_asm_place-Walks, check_jump-Walks,
  check_redeclared-Walks, in_scope-Walks, in_loop_body-Walks, in_unsafe_body-Walks,
}
use q.Sema.State.{Sema}
use q.Sema.Steps.{In, Walks, Walks-refl, Walks-next, Walks-quiet, Walks-then, symtab_insert-Walks}
use q.Sema.Table.{sym_local}
use q.Sema.Walk.{
  sema_expr, sema_exprs, sema_arms, sema_stmt, sema_stmts, sema_variants, sema_decl_pass2,
  sema_decls,
}

-- The names of a block after its statements.
abbrev names_after : Nodes → List Bytes → List Bytes
names_after no_nodes seen = seen
names_after (node n rest) seen = names_after rest (declared_after n seen)

mutual
  unfolding sema_expr faults_expr

  pub sema_expr-Walks :
      (n : AstNode) (u l : Bool) (names : List (List Bytes)) (s : Sema)
      → In u l names s
      → Walks (faults_expr n u l) u l names s (sema_expr n s)
  sema_expr-Walks (ident span name) u l names s h = check_name-Walks span name s h
  sema_expr-Walks (binary_op span op left right) u l names s h =
      Walks-next (sema_expr-Walks left u l names s h) (sema_expr-Walks right u l names _)
  sema_expr-Walks (unary_op span op operand) u l names s h = sema_expr-Walks operand u l names s h
  sema_expr-Walks (call span callee args) u l names s h =
      Walks-next (sema_expr-Walks callee u l names s h) (sema_exprs-Walks args u l names _)
  sema_expr-Walks (method_call span object name args) u l names s h =
      Walks-next (sema_expr-Walks object u l names s h) (sema_exprs-Walks args u l names _)
  sema_expr-Walks (field_access span object name) u l names s h =
      sema_expr-Walks object u l names s h
  sema_expr-Walks (index span object idx) u l names s h =
      Walks-next (sema_expr-Walks object u l names s h) (sema_expr-Walks idx u l names _)
  sema_expr-Walks (cast span e target) u l names s h =
      Walks-then (sema_expr-Walks e u l names s h) (sema_type-Walks target _)
  sema_expr-Walks (block span stmts final) u l names s h =
      in_scope-Walks _ s h (λ a k.
        Walks-next (sema_stmts-Walks stmts u l [] names a k) (sema_expr-Walks final u l _ _))
  sema_expr-Walks (if_expr span condition then_block else_block) u l names s h =
      Walks-next
        (Walks-next (sema_expr-Walks condition u l names s h)
          (sema_expr-Walks then_block u l names _))
        (sema_expr-Walks else_block u l names _)
  sema_expr-Walks (match_expr span e arms) u l names s h =
      Walks-next (sema_expr-Walks e u l names s h) (sema_arms-Walks arms u l names _)
  sema_expr-Walks (for_loop span var iterable body label) u l names s h =
      sema_for-Walks (for_loop span var iterable body label) (sema_expr body) s var
        (sema_expr iterable) h (sema_expr-Walks iterable u l) (sema_expr-Walks body u true)
  sema_expr-Walks (while_loop span condition body label) u l names s h =
      Walks-next (sema_expr-Walks condition u l names s h)
        (λ k. in_loop_body-Walks (sema_expr body) _ k (sema_expr-Walks body u true names))
  sema_expr-Walks (loop_expr span body label) u l names s h =
      in_loop_body-Walks (sema_expr body) s h (sema_expr-Walks body u true names)
  sema_expr-Walks (unsafe_block span body) u l names s h =
      in_unsafe_body-Walks (sema_expr body) s h (sema_expr-Walks body true l names)
  sema_expr-Walks (array_lit span elements value count) u l names s h =
      Walks-next
        (Walks-next (sema_exprs-Walks elements u l names s h) (sema_expr-Walks value u l names _))
        (sema_expr-Walks count u l names _)
  sema_expr-Walks (struct_lit span type fs values) u l names s h =
      sema_exprs-Walks values u l names s h
  sema_expr-Walks (asm_expr span template) u l names s h = check_asm_place-Walks span s h
  sema_expr-Walks (error_prop span e) u l names s h = sema_expr-Walks e u l names s h
  sema_expr-Walks _ u l names s h = Walks-refl h

  pub sema_exprs-Walks :
      (ns : Nodes) (u l : Bool) (names : List (List Bytes)) (s : Sema)
      → In u l names s
      → Walks (faults_exprs ns u l) u l names s (sema_exprs ns s)
  sema_exprs-Walks no_nodes u l names s h = Walks-refl h
  sema_exprs-Walks (node n rest) u l names s h =
      Walks-next (sema_expr-Walks n u l names s h) (sema_exprs-Walks rest u l names _)

  pub sema_arms-Walks :
      (ns : Nodes) (u l : Bool) (names : List (List Bytes)) (s : Sema)
      → In u l names s
      → Walks (faults_arms ns u l) u l names s (sema_arms ns s)
  sema_arms-Walks no_nodes u l names s h = Walks-refl h
  sema_arms-Walks (node (match_arm span pat guard body) rest) u l names s h =
      Walks-next
        (Walks-next (sema_expr-Walks guard u l names s h) (sema_expr-Walks body u l names _))
        (sema_arms-Walks rest u l names _)
  sema_arms-Walks (node _ rest) u l names s h = sema_arms-Walks rest u l names s h

  pub sema_stmt-Walks :
      (n : AstNode) (u l : Bool) (seen : List Bytes) (outer : List (List Bytes)) (s : Sema)
      → In u l (seen ∷ outer) s
      → Walks (faults_stmt n seen u l) u l (declared_after n seen ∷ outer) s (sema_stmt n s)
  sema_stmt-Walks (let_stmt span name type init is_mut) u l seen outer s h =
      Walks-next (check_redeclared-Walks seen span name s h) (λ k.
        Walks-then
          (Walks-quiet (sema_type-Walks type _ k) (sema_expr-Walks init u l (seen ∷ outer) _))
          (symtab_insert-Walks name sym_local _ type))
  sema_stmt-Walks (assign_stmt span target value op) u l seen outer s h =
      Walks-next (sema_expr-Walks target u l (seen ∷ outer) s h)
        (sema_expr-Walks value u l (seen ∷ outer) _)
  sema_stmt-Walks (expr_stmt span e) u l seen outer s h = sema_expr-Walks e u l (seen ∷ outer) s h
  sema_stmt-Walks (return_stmt span e) u l seen outer s h = sema_expr-Walks e u l (seen ∷ outer) s h
  sema_stmt-Walks (break_stmt span label) u l seen outer s h = check_jump-Walks span s h
  sema_stmt-Walks (continue_stmt span label) u l seen outer s h = check_jump-Walks span s h
  sema_stmt-Walks (defer_stmt span e) u l seen outer s h = sema_expr-Walks e u l (seen ∷ outer) s h
  sema_stmt-Walks (fn_decl span name ps return_type body attribs flags) u l seen outer s h =
      sema_fn-Walks _ (sema_expr body) s ps return_type h (sema_expr-Walks body u l)
  sema_stmt-Walks (struct_decl span name fs attribs is_pub) u l seen outer s h =
      sema_fields-Walks fs s h
  sema_stmt-Walks (enum_decl span name vs repr is_pub) u l seen outer s h =
      Walks-quiet (sema_type-Walks repr s h) (sema_variants-Walks vs u l (seen ∷ outer) _)
  sema_stmt-Walks (const_decl span name type value is_pub is_mut) u l seen outer s h =
      Walks-quiet (sema_type-Walks type s h) (sema_expr-Walks value u l (seen ∷ outer) _)
  sema_stmt-Walks (static_decl span name type value is_pub is_mut) u l seen outer s h =
      Walks-quiet (sema_type-Walks type s h) (sema_expr-Walks value u l (seen ∷ outer) _)
  sema_stmt-Walks (type_alias span name target is_pub) u l seen outer s h =
      sema_type-Walks target s h
  sema_stmt-Walks (driver_decl span name fs methods is_pub) u l seen outer s h =
      in_scope-Walks _ s h
        (λ a k. Walks-quiet (sema_fields-Walks fs a k) (sema_decls-Walks methods u l _ _))
  sema_stmt-Walks (syscall_decl span name ps return_type body) u l seen outer s h =
      sema_syscall-Walks _ (sema_expr body) s ps return_type h (sema_expr-Walks body u l)
  sema_stmt-Walks (impl_block span target trait_name methods) u l seen outer s h =
      Walks-quiet (sema_type-Walks target s h)
        (λ k. in_scope-Walks (sema_decls methods) _ k (sema_decls-Walks methods u l _))
  sema_stmt-Walks _ u l seen outer s h = Walks-refl h

  pub sema_stmts-Walks :
      (ns : Nodes) (u l : Bool) (seen : List Bytes) (outer : List (List Bytes)) (s : Sema)
      → In u l (seen ∷ outer) s
      → Walks (faults_stmts ns seen u l) u l (names_after ns seen ∷ outer) s (sema_stmts ns s)
  sema_stmts-Walks no_nodes u l seen outer s h = Walks-refl h
  sema_stmts-Walks (node n rest) u l seen outer s h =
      Walks-next (sema_stmt-Walks n u l seen outer s h) (sema_stmts-Walks rest u l _ outer _)

  pub sema_variants-Walks :
      (vs : Variants) (u l : Bool) (names : List (List Bytes)) (s : Sema)
      → In u l names s
      → Walks (faults_variants vs u l) u l names s (sema_variants vs s)
  sema_variants-Walks no_variants u l names s h = Walks-refl h
  sema_variants-Walks (variant name ts discriminant span rest) u l names s h =
      Walks-next (sema_expr-Walks discriminant u l names s h) (sema_variants-Walks rest u l names _)

  pub sema_decl_pass2-Walks :
      (n : AstNode) (u l : Bool) (names : List (List Bytes)) (s : Sema)
      → In u l names s
      → Walks (faults_decl n u l) u l names s (sema_decl_pass2 n s)
  sema_decl_pass2-Walks (fn_decl span name ps return_type body attribs flags) u l names s h =
      sema_fn-Walks _ (sema_expr body) s ps return_type h (sema_expr-Walks body u l)
  sema_decl_pass2-Walks (struct_decl span name fs attribs is_pub) u l names s h =
      sema_fields-Walks fs s h
  sema_decl_pass2-Walks (enum_decl span name vs repr is_pub) u l names s h =
      Walks-quiet (sema_type-Walks repr s h) (sema_variants-Walks vs u l names _)
  sema_decl_pass2-Walks (const_decl span name type value is_pub is_mut) u l names s h =
      Walks-quiet (sema_type-Walks type s h) (sema_expr-Walks value u l names _)
  sema_decl_pass2-Walks (static_decl span name type value is_pub is_mut) u l names s h =
      Walks-quiet (sema_type-Walks type s h) (sema_expr-Walks value u l names _)
  sema_decl_pass2-Walks (type_alias span name target is_pub) u l names s h =
      sema_type-Walks target s h
  sema_decl_pass2-Walks (driver_decl span name fs methods is_pub) u l names s h =
      in_scope-Walks _ s h
        (λ a k. Walks-quiet (sema_fields-Walks fs a k) (sema_decls-Walks methods u l _ _))
  sema_decl_pass2-Walks (syscall_decl span name ps return_type body) u l names s h =
      sema_syscall-Walks _ (sema_expr body) s ps return_type h (sema_expr-Walks body u l)
  sema_decl_pass2-Walks (impl_block span target trait_name methods) u l names s h =
      Walks-quiet (sema_type-Walks target s h)
        (λ k. in_scope-Walks (sema_decls methods) _ k (sema_decls-Walks methods u l _))
  sema_decl_pass2-Walks _ u l names s h = Walks-refl h

  pub sema_decls-Walks :
      (ns : Nodes) (u l : Bool) (names : List (List Bytes)) (s : Sema)
      → In u l names s
      → Walks (faults_decls ns u l) u l names s (sema_decls ns s)
  sema_decls-Walks no_nodes u l names s h = Walks-refl h
  sema_decls-Walks (node n rest) u l names s h =
      Walks-next (sema_decl_pass2-Walks n u l names s h) (sema_decls-Walks rest u l names _)
