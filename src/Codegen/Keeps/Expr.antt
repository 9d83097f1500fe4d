-- ===== src/Codegen/Keeps/Expr.antt =====
-- `cg_expr` of compiler/src/codegen.c keeps the state.
use q.Ast.{
  AstNode, null_node, BinaryOp, int_lit, float_lit, string_lit, char_lit, bool_lit, null_lit, ident,
  path, binary_op, unary_op, call, method_call, field_access, index, cast, block, if_expr,
  match_expr, match_arm, for_loop, while_loop, loop_expr, struct_lit, array_lit, unsafe_block,
  asm_expr, error_prop, Nodes, no_nodes, node,
}
use q.Codegen.Expr.{
  path_text, is_range, binary_emit, expr_list, more_args, is_if, else_emit, is_wildcard, arm_emit,
  arms_emit, elements_emit, named_values, expr_emit,
}
use q.Codegen.Keeps.{
  skip-Keeps, put-Keeps, putf-Keeps, newline-Keeps, ◌then◌, nested-Keeps, if-Keeps, Balanced,
  comma-Keeps, block-Keeps,
}
use q.Codegen.Balance.{Keeps}
use q.Codegen.Shape.{Placed, weight, NodesPlaced, nodes_weight}
use q.Codegen.State.{is_null}
use q.Codegen.Types.{Emitters}
use q.Common.{ℕ, ◌+◌, ◌≤◌, ◌<◌, arith, Bool, true, false, List, [], ◌∷◌, Bytes, ◌||◌}

path_text-Keeps : (segments : List Bytes) (first : Bool) → Keeps (path_text segments first)
path_text-Keeps [] first = skip-Keeps
path_text-Keeps (s ∷ segments) first =
    if-Keeps first skip-Keeps (put-Keeps _) then putf-Keeps _ then path_text-Keeps segments false

module _ {b : ℕ} {r : Emitters} (h : Balanced b r) where
  binary_emit-Keeps :
      (op : BinaryOp) (a c : AstNode)
      → Placed a
      → Placed c
      → weight a + weight c < b
      → Keeps (binary_emit r op a c)
  unfolding Placed weight
  binary_emit-Keeps op a c pa pc w = if-Keeps (is_range op) (h.expr a pa (omega arith)) (
      put-Keeps _
      then h.expr a pa (omega arith)
      then putf-Keeps _
      then h.expr c pc (omega arith)
      then put-Keeps _)

  expr_list-Keeps :
      (ns : Nodes) (first : Bool)
      → NodesPlaced ns
      → nodes_weight ns < b
      → Keeps (expr_list r ns first)
  unfolding Placed weight
  expr_list-Keeps no_nodes first p w = skip-Keeps
  expr_list-Keeps (node n ns) first p w =
      comma-Keeps h first
      then h.expr n p.0 (omega arith)
      then expr_list-Keeps ns false p.1 (omega arith)

  more_args-Keeps : (ns : Nodes) → NodesPlaced ns → nodes_weight ns < b → Keeps (more_args r ns)
  unfolding Placed weight
  more_args-Keeps no_nodes p w = skip-Keeps
  more_args-Keeps (node n ns) p w =
      put-Keeps _ then h.expr n p.0 (omega arith) then more_args-Keeps ns p.1 (omega arith)

  else_emit-Keeps : (n : AstNode) → Placed n → weight n + 2 ≤ b → Keeps (else_emit r n)
  unfolding Placed weight
  else_emit-Keeps n p w = if-Keeps (is_null n) skip-Keeps (
      put-Keeps _
      then if-Keeps (is_if n) (h.expr n p (omega arith)) (block-Keeps h n p (omega arith)))

  arm_emit-Keeps :
      (n : AstNode) (first : Bool) → Placed n → weight n ≤ b → Keeps (arm_emit r n first)
  unfolding Placed weight
  arm_emit-Keeps (match_arm _ pattern _ body) first p w =
      newline-Keeps
      then put-Keeps _
      then if-Keeps (is_null pattern || is_wildcard pattern) (put-Keeps _)
          (put-Keeps _ then h.expr pattern p.0 (omega arith))
      then put-Keeps _
      then if-Keeps (is_null body) skip-Keeps (block-Keeps h body p.2 (omega arith))
  arm_emit-Keeps _ first p w = skip-Keeps

  arms_emit-Keeps :
      (ns : Nodes) (first : Bool)
      → NodesPlaced ns
      → nodes_weight ns < b
      → Keeps (arms_emit r ns first)
  unfolding Placed weight
  arms_emit-Keeps no_nodes first p w = skip-Keeps
  arms_emit-Keeps (node n ns) first p w =
      arm_emit-Keeps n first p.0 (omega arith) then arms_emit-Keeps ns false p.1 (omega arith)

  elements_emit-Keeps :
      (ns : Nodes) (n : AstNode)
      → NodesPlaced ns
      → Placed n
      → nodes_weight ns + weight n < b
      → Keeps (elements_emit r ns n)
  unfolding Placed weight
  elements_emit-Keeps no_nodes n p q w = h.expr n q (omega arith)
  elements_emit-Keeps (node m ns) n p q w = expr_list-Keeps (node m ns) true p (omega arith)

  named_values-Keeps :
      (names : List Bytes) (ns : Nodes) (first : Bool)
      → NodesPlaced ns
      → nodes_weight ns < b
      → Keeps (named_values r names ns first)
  unfolding Placed weight
  named_values-Keeps [] ns first p w = skip-Keeps
  named_values-Keeps (name ∷ names) no_nodes first p w = skip-Keeps
  named_values-Keeps (name ∷ names) (node n ns) first p w =
      comma-Keeps h first
      then putf-Keeps _
      then h.expr n p.0 (omega arith)
      then named_values-Keeps names ns false p.1 (omega arith)

  pub expr_emit-Keeps : (n : AstNode) → Placed n → weight n ≤ b → Keeps (expr_emit r n)
  unfolding expr_emit Placed weight
  expr_emit-Keeps null_node p w = skip-Keeps
  expr_emit-Keeps (int_lit _ _ _) p w = putf-Keeps _
  expr_emit-Keeps (float_lit _ _) p w = putf-Keeps _
  expr_emit-Keeps (string_lit _ _ _) p w = put-Keeps _ then putf-Keeps _ then put-Keeps _
  expr_emit-Keeps (char_lit _ _) p w = putf-Keeps _
  expr_emit-Keeps (bool_lit _ _) p w = put-Keeps _
  expr_emit-Keeps (null_lit _) p w = put-Keeps _
  expr_emit-Keeps (ident _ _) p w = putf-Keeps _
  expr_emit-Keeps (path _ segments) p w = path_text-Keeps segments true
  expr_emit-Keeps (binary_op _ op a b) p w = binary_emit-Keeps op a b p.0 p.1 (omega arith)
  expr_emit-Keeps (unary_op _ _ n) p w = put-Keeps _ then h.expr n p (omega arith) then put-Keeps _
  expr_emit-Keeps (call _ n args) p w =
      h.expr n p.0 (omega arith)
      then put-Keeps _
      then expr_list-Keeps args true p.1 (omega arith)
      then put-Keeps _
  expr_emit-Keeps (method_call _ n _ args) p w =
      h.expr n p.0 (omega arith)
      then putf-Keeps _
      then put-Keeps _
      then h.expr n p.0 (omega arith)
      then put-Keeps _
      then more_args-Keeps args p.1 (omega arith)
      then put-Keeps _
  expr_emit-Keeps (field_access _ n _) p w = h.expr n p (omega arith) then putf-Keeps _
  expr_emit-Keeps (index _ n i) p w =
      h.expr n p.0 (omega arith) then put-Keeps _ then h.expr i p.1 (omega arith) then put-Keeps _
  expr_emit-Keeps (cast _ n t) p w =
      put-Keeps _
      then h.type t p.1 (omega arith)
      then put-Keeps _
      then h.expr n p.0 (omega arith)
      then put-Keeps _
  expr_emit-Keeps (block s stmts final) p w = h.block (block s stmts final) p (omega arith)
  expr_emit-Keeps (if_expr _ c t e) p w =
      put-Keeps _
      then h.expr c p.0 (omega arith)
      then put-Keeps _
      then block-Keeps h t p.1 (omega arith)
      then else_emit-Keeps e p.2 (omega arith)
  expr_emit-Keeps (match_expr _ n arms) p w =
      put-Keeps _
      then h.expr n p.0 (omega arith)
      then put-Keeps _
      then nested-Keeps (arms_emit-Keeps arms true p.1 (omega arith))
      then newline-Keeps
      then put-Keeps _
  expr_emit-Keeps (for_loop _ _ n body _) p w =
      put-Keeps _
      then putf-Keeps _
      then put-Keeps _
      then putf-Keeps _
      then put-Keeps _
      then h.expr n p.0 (omega arith)
      then put-Keeps _
      then putf-Keeps _
      then put-Keeps _
      then block-Keeps h body p.1 (omega arith)
  expr_emit-Keeps (while_loop _ c body _) p w =
      put-Keeps _
      then h.expr c p.0 (omega arith)
      then put-Keeps _
      then block-Keeps h body p.1 (omega arith)
  expr_emit-Keeps (loop_expr _ body _) p w = put-Keeps _ then block-Keeps h body p (omega arith)
  expr_emit-Keeps (array_lit _ ns n _) p w =
      put-Keeps _ then elements_emit-Keeps ns n p.0 p.1 (omega arith) then put-Keeps _
  expr_emit-Keeps (unsafe_block _ body) p w = block-Keeps h body p (omega arith)
  expr_emit-Keeps (asm_expr _ _) p w = put-Keeps _ then putf-Keeps _ then put-Keeps _
  expr_emit-Keeps (error_prop _ n) p w = h.expr n p (omega arith)
  expr_emit-Keeps (struct_lit _ t names ns) p w =
      put-Keeps _
      then h.type t p.0 (omega arith)
      then put-Keeps _
      then named_values-Keeps names ns true p.1 (omega arith)
      then put-Keeps _
  expr_emit-Keeps _ p w = put-Keeps _
