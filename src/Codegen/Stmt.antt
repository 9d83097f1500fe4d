-- ===== src/Codegen/Stmt.antt =====
-- `cg_block` and `cg_stmt` of compiler/src/codegen.c.
use q.Ast.{
  AstNode, null_node, AstType, block, let_stmt, assign_stmt, return_stmt, break_stmt, continue_stmt,
  defer_stmt, expr_stmt, Nodes, no_nodes, node,
}
use q.Codegen.Operators.{assignop_str}
use q.Codegen.State.{Emit, ◌>>◌, skip, put, putf, put_view, is_null, is_null_type, newline, nested}
use q.Codegen.Types.{Emitters, array_suffix}
use q.Common.{
  ℕ, zero, suc, ◌+◌, ◌-◌, [], ◌∷◌, ◌++◌, codes, some, ltb, length, take, get_or, if◌then◌else◌,
}

module _ (r : Emitters) where
  abbrev pub stmt_lines : Nodes → Emit
  stmt_lines no_nodes = skip
  stmt_lines (node n ns) = newline >> r.cg_stmt n >> stmt_lines ns

  -- The deferred expressions from the last one back to `mark`, of which there are so many.
  unfoldable pub deferred : ℕ → ℕ → Emit
  deferred zero mark = skip
  deferred (suc count) mark =
      newline
      >> (λ cg. r.cg_expr (get_or cg.defer_stack (mark + count) null_node) cg)
      >> put (codes ";")
      >> deferred count mark

  abbrev pub run_deferred : ℕ → Emit
  run_deferred mark cg = deferred (length cg.defer_stack - mark) mark cg

  -- `cg->defer_top = defer_mark`.
  unfoldable pub reset_defers : ℕ → Emit
  reset_defers mark cg = some (record cg { defer_stack = take mark cg.defer_stack })

  abbrev pub final_line : AstNode → Emit
  final_line n = if is_null n then skip else (newline >> r.cg_expr n >> put (codes ";"))

  -- A block, from its brace on.
  abbrev pub block_lines : Nodes → AstNode → ℕ → Emit
  block_lines stmts final mark =
      stmt_lines stmts >> run_deferred mark >> reset_defers mark >> final_line final

  abbrev pub block_text : Nodes → AstNode → ℕ → Emit
  block_text stmts final mark =
      put (codes "{") >> nested (block_lines stmts final mark) >> newline >> put (codes "}")

  -- `cg_block`.
  unfoldable pub block_emit : AstNode → Emit
  block_emit null_node = put (codes "{}")
  block_emit (block _ stmts final) = λ cg. block_text stmts final (length cg.defer_stack) cg
  block_emit n = r.cg_expr n

  abbrev pub let_type_emit : AstType → Emit
  let_type_emit t = if is_null_type t then put (codes "__auto_type") else r.cg_type t

  abbrev pub init_emit : AstNode → Emit
  init_emit n = if is_null n then skip else (put (codes " = ") >> r.cg_expr n)

  abbrev pub return_emit : AstNode → Emit
  return_emit n = if is_null n then skip else (put (codes " ") >> r.cg_expr n)

  -- A deferred expression is dropped when the stack of 256 is full.
  unfoldable pub push_defer : AstNode → Emit
  push_defer n cg =
      if ltb (length cg.defer_stack) 256
      then some (record cg { defer_stack = cg.defer_stack ++ n ∷ [] })
      else some cg

  -- `cg_stmt`.
  unfoldable pub stmt_emit : AstNode → Emit
  stmt_emit null_node = skip
  stmt_emit (let_stmt _ name t init _) =
      let_type_emit t
      >> put (codes " ")
      >> put_view name
      >> array_suffix r t
      >> init_emit init
      >> put (codes ";")
  stmt_emit (assign_stmt _ target value op) =
      r.cg_expr target
      >> putf (codes " " ++ assignop_str op ++ codes " ")
      >> r.cg_expr value
      >> put (codes ";")
  stmt_emit (return_stmt _ value) = put (codes "return") >> return_emit value >> put (codes ";")
  stmt_emit (break_stmt _ _) = put (codes "break;")
  stmt_emit (continue_stmt _ _) = put (codes "continue;")
  stmt_emit (defer_stmt _ n) = push_defer n
  stmt_emit (expr_stmt _ n) = r.cg_expr n >> put (codes ";")
  stmt_emit n = r.cg_decl n
