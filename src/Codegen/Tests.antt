-- ===== src/Codegen/Tests.antt =====
-- Runs of the code generator.
use q.Ast.{
  AstNode, null_node, bin_add, block, call, defer_stmt, ident, int_lit, binary_op, return_stmt,
  string_lit, no_nodes, node,
}
use q.Codegen.Decl.{cg_fn_decl, decl_emit}
use q.Codegen.Expr.{expr_emit}
use q.Codegen.Operators.{binop_str}
use q.Codegen.Program.{codegen_init, emitters}
use q.Codegen.State.{CodeGen, digit, digits}
use q.Codegen.Stmt.{block_emit, deferred, push_defer, reset_defers, stmt_emit}
use q.Codegen.Types.{type_emit}
use q.Codegen.Writer.{
  c_string, cw_dedent, cw_ensure, cw_indent, cw_init, cw_nl, cw_write, cw_writef,
}
use q.Common.{false, Option, some, none, [], ◌∷◌, ◌++◌, Bytes, codes, ◌≡◌, refl}
use q.Token.Kind.{IntBase, Span}

abbrev at : Span
at = record { start = 0; end = 0; source_id = 0 }

abbrev text_of : Option CodeGen → Bytes
text_of (some cg) = cg.out.buf
text_of none = []

abbrev written : AstNode → Bytes
written n = text_of ((emitters (λ text. text) 8).cg_block n codegen_init)

abbrev name : Bytes → AstNode
name text = ident at text

-- The deferred call stands behind the `return`.
abbrev deferring : AstNode
deferring =
    block at
      (node (defer_stmt at (call at (name (codes "g")) no_nodes)) (
        node (return_stmt at (binary_op at bin_add (name (codes "a")) (int_lit at 31 IntBase.hex)))
          no_nodes))
      null_node

writes_deferred :
    written deferring
    ≡ codes "{"
      ++ 10 ∷ codes "    "
      ++ 10 ∷ codes "    return (a + 0x1F);"
      ++ 10 ∷ codes "    g();"
      ++ 10 ∷ codes "}"
unfolding cg_fn_decl decl_emit expr_emit binop_str emitters digit digits block_emit deferred
    push_defer reset_defers stmt_emit type_emit c_string cw_dedent cw_ensure cw_indent cw_init cw_nl
    cw_write cw_writef
writes_deferred = refl

writes_quotes : written (string_lit at (codes "hi") false) ≡ 34 ∷ codes "hi" ++ 34 ∷ []
unfolding expr_emit emitters block_emit c_string cw_ensure cw_init cw_write cw_writef
writes_quotes = refl
