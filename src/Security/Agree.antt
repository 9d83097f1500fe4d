-- ===== src/Security/Agree.antt =====
-- `sec_stmt` of compiler/src/security.c hands every node that is no statement to `sec_decl`.
use q.Ast.{
  AstNode, let_stmt, expr_stmt, return_stmt, defer_stmt, assign_stmt, fn_decl, struct_decl,
  impl_block, static_decl, driver_decl, syscall_decl,
}
use q.Common.{Bool, true, false, ◌≡◌, refl}
use q.Security.Scan.{sec_stmt, sec_decl}
use q.Security.State.{SecurityAnalyzer}

-- The kinds with a case of their own in `sec_stmt`.
abbrev pub is_stmt : AstNode → Bool
is_stmt (let_stmt _ _ _ _ _) = true
is_stmt (assign_stmt _ _ _ _) = true
is_stmt (expr_stmt _ _) = true
is_stmt (return_stmt _ _) = true
is_stmt (defer_stmt _ _) = true
is_stmt _ = false

-- On a node of any other kind, `sec_stmt` does what `sec_decl` does, as its default case says.
pub sec_stmt-sec_decl :
    (n : AstNode) (sa : SecurityAnalyzer) → is_stmt n ≡ false → sec_stmt n sa ≡ sec_decl n sa
unfolding sec_stmt
sec_stmt-sec_decl (let_stmt _ _ _ _ _) sa h = cc
sec_stmt-sec_decl (assign_stmt _ _ _ _) sa h = cc
sec_stmt-sec_decl (expr_stmt _ _) sa h = cc
sec_stmt-sec_decl (return_stmt _ _) sa h = cc
sec_stmt-sec_decl (defer_stmt _ _) sa h = cc
sec_stmt-sec_decl (fn_decl _ _ _ _ _ _ _) sa h = refl
sec_stmt-sec_decl (driver_decl _ _ _ _ _) sa h = refl
sec_stmt-sec_decl (syscall_decl _ _ _ _ _) sa h = refl
sec_stmt-sec_decl (struct_decl _ _ _ _ _) sa h = refl
sec_stmt-sec_decl (impl_block _ _ _ _) sa h = refl
sec_stmt-sec_decl (static_decl _ _ _ _ _ _) sa h = refl
sec_stmt-sec_decl _ sa h = refl
