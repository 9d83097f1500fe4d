-- ===== src/Examples/Scopes.antt =====
-- The theorems on the semantic analyzer at a small program.
use q.Ast.{
  AstNode, null_type, no_params, no_attributes, fn_decl, let_stmt, block, asm_expr, int_lit,
  no_nodes, node, Nodes, FnFlags,
}
use q.Common.{
  ◌+◌, ◌%◌, false, [], ◌∷◌, some, ◌==◌, ◌≡◌, refl, bytes_eq, codes, u32_mod, if◌then◌else◌,
}
use q.Diagnostic.Counts.{errors_in}
use q.Diagnostic.{no_diagnostics}
use q.Sema.Errors.{faults_expr}
use q.Sema.Lookup.{empty_table-IsTable, symtab_lookup_local-table_insert}
use q.Sema.Scoping.{symtab_lookup-symtab_insert, sema_expr-symtab_lookup}
use q.Sema.State.{Sema, symtab_insert, is_some}
use q.Sema.Steps.{Scoped}
use q.Sema.Table.{Symbol, table_insert, symtab_lookup_local, empty_table, sym_local, symtab_lookup}
use q.Sema.Verdict.{checked, module_faults, sema_analyze-faults}
use q.Sema.Walk.{sema_expr, declares}
use q.Token.Kind.{IntBase, Span}

abbrev here : Span
here = record { start = 0; end = 9; source_id = 0 }

abbrev one : AstNode
one = int_lit here 1 IntBase.dec

-- `{ let x = 1; let x = 1; { asm!("hlt") } }`.
abbrev body : AstNode
body =
    block here
      (node (let_stmt here (codes "x") null_type one false)
        (node (let_stmt here (codes "x") null_type one false) no_nodes))
      (block here no_nodes (asm_expr here (codes "hlt")))

abbrev safe : FnFlags
safe = record { is_pub = false; is_unsafe = false; is_const = false; is_interrupt = false }

abbrev main : AstNode
main = fn_decl here (codes "main") no_params null_type body no_attributes safe

-- The function `main` twice.
abbrev decls : Nodes
decls = node main (node main no_nodes)

module_faults_five : module_faults decls ≡ 5
unfolding faults_expr declares
module_faults_five = refl

sema_analyze-faults_example :
    (errors_in (checked here decls 0 no_diagnostics).1.diag.emitted
      ≡ errors_in no_diagnostics.emitted + module_faults decls)
    × ((checked here decls 0 no_diagnostics).1.error_count ≡ module_faults decls % u32_mod)
    × ((checked here decls 0 no_diagnostics).0 ≡ (module_faults decls % u32_mod == 0))
    × ((checked here decls 0 no_diagnostics).1.in_unsafe ≡ false)
    × ((checked here decls 0 no_diagnostics).1.in_loop ≡ false)
sema_analyze-faults_example = sema_analyze-faults here decls 0 no_diagnostics

abbrev start : Sema
start = record {
  source_id = 0;
  error_count = 0;
  warning_count = 0;
  scope = empty_table ∷ [];
  current_ret = null_type;
  in_loop = false;
  in_unsafe = false;
  diag = no_diagnostics;
}

symtab_lookup-symtab_insert_example :
    symtab_lookup (symtab_insert (codes "x") sym_local one null_type start).scope (codes "y") ≡ (
      if bytes_eq (codes "x") (codes "y")
      then some (record {
        name = codes "x";
        kind = sym_local;
        decl = one;
        type = null_type;
        used = false;
      })
      else symtab_lookup start.scope (codes "y"))
symtab_lookup-symtab_insert_example =
    symtab_lookup-symtab_insert start empty_table [] (codes "x") sym_local one null_type (codes "y")
      refl refl

start-Scoped : Scoped start.scope ([] ∷ [])
start-Scoped = (empty_table-IsTable, tt)

sema_expr-symtab_lookup_example :
    is_some (symtab_lookup (sema_expr body start).scope (codes "x"))
    ≡ is_some (symtab_lookup start.scope (codes "x"))
sema_expr-symtab_lookup_example =
    sema_expr-symtab_lookup body start ([] ∷ []) (codes "x") start-Scoped

abbrev x_symbol : Symbol
x_symbol = record { name = codes "x"; kind = sym_local; decl = one; type = null_type; used = false }

symtab_lookup_local-table_insert_example :
    symtab_lookup_local (table_insert empty_table x_symbol) (codes "x") ≡ (
      if bytes_eq (codes "x") (codes "x")
      then some x_symbol
      else symtab_lookup_local empty_table (codes "x"))
symtab_lookup_local-table_insert_example =
    symtab_lookup_local-table_insert empty_table x_symbol (codes "x") refl
