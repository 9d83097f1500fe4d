-- ===== src/Examples/Programs.antt =====
-- The theorems on the analyzer at a small program.
use q.Ast.{
  AstNode, null_type, no_params, no_attributes, fn_decl, expr_stmt, block, unsafe_block, asm_expr,
  unary_op, unary_deref, null_lit, no_nodes, node, Nodes, FnFlags,
}
use q.Common.{◌+◌, ◌%◌, ◌≤◌, false, ◌==◌, ◌≡◌, refl, codes, u32_mod}
use q.Diagnostic.Counts.{errors_in}
use q.Diagnostic.{no_diagnostics}
use q.Security.Errors.{errors_expr, errors_decls}
use q.Security.Scan.{sec_expr}
use q.Security.State.{is_null_lit, security_init}
use q.Security.Unsafe.{unsafe_block-fewer_errors}
use q.Security.Verdict.{analyzed, security_analyze-errors}
use q.Token.Kind.{Span}

abbrev here : Span
here = record { start = 0; end = 9; source_id = 0 }

-- `{ asm!("cli"); unsafe { asm!("sti") } *null }`.
abbrev body : AstNode
body =
    block here
      (node (expr_stmt here (asm_expr here (codes "cli")))
        (node (expr_stmt here (unsafe_block here (asm_expr here (codes "sti")))) no_nodes))
      (unary_op here unary_deref (null_lit here))

abbrev safe : FnFlags
safe = record { is_pub = false; is_unsafe = false; is_const = false; is_interrupt = false }

abbrev decls : Nodes
decls = node (fn_decl here (codes "main") no_params null_type body no_attributes safe) no_nodes

errors_decls_two : errors_decls decls false ≡ 2
unfolding errors_expr is_null_lit
errors_decls_two = refl

security_analyze-errors_example :
    (errors_in (analyzed here decls 0 no_diagnostics).1.diag.emitted
      ≡ errors_in no_diagnostics.emitted + errors_decls decls false)
    × ((analyzed here decls 0 no_diagnostics).1.error_count ≡ errors_decls decls false % u32_mod)
    × ((analyzed here decls 0 no_diagnostics).0 ≡ (errors_decls decls false % u32_mod == 0))
    × ((analyzed here decls 0 no_diagnostics).1.in_unsafe ≡ false)
security_analyze-errors_example = security_analyze-errors here decls 0 no_diagnostics

unsafe_block-fewer_errors_example :
    errors_in (sec_expr (unsafe_block here body) (security_init 0 no_diagnostics)).diag.emitted
    ≤ errors_in (sec_expr body (security_init 0 no_diagnostics)).diag.emitted
unsafe_block-fewer_errors_example =
    unsafe_block-fewer_errors here body (security_init 0 no_diagnostics)
