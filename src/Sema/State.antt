-- ===== src/Sema/State.antt =====
-- The state of the semantic analyzer and the steps on it (compiler/src/sema.c): scopes, reports, and
-- what is tested at a name.
use q.Ast.{AstNode, AstType, null_type}
use q.Common.{
  ℕ, Bool, true, false, List, [], ◌∷◌, ◌++◌, Option, none, some, Bytes, codes, bytes_eq, ◌||◌,
  u32_inc, take, if◌then◌else◌,
}
use q.Diagnostic.{Diagnostics, error, warning, diag_emit}
use q.Sema.Table.{
  Symbol, SymKind, SymTab, empty_table, symtab_lookup, symtab_lookup_local, table_insert, mark_used,
}
use q.Token.Kind.{Span}

-- `Sema`, with the diagnostics so far. `global` is the last of `scope`, and is not read.
pub record Sema : Type 0 where
  pub source_id : ℕ
  pub error_count : ℕ
  pub warning_count : ℕ
  pub scope : List SymTab
  pub current_ret : AstType
  pub in_loop : Bool
  pub in_unsafe : Bool
  pub diag : Diagnostics

-- `sema_init`.
unfoldable pub sema_init : ℕ → Diagnostics → Sema
sema_init source_id diag = record {
  source_id = source_id;
  error_count = 0;
  warning_count = 0;
  scope = empty_table ∷ [];
  current_ret = null_type;
  in_loop = false;
  in_unsafe = false;
  diag = diag;
}

-- `sema_push_scope`.
unfoldable pub sema_push_scope : Sema → Sema
sema_push_scope s = record s { scope = empty_table ∷ s.scope }

abbrev pub tail_or_empty : List SymTab → List SymTab
tail_or_empty [] = []
tail_or_empty (tab ∷ parents) = parents

-- `sema_pop_scope`.
unfoldable pub sema_pop_scope : Sema → Sema
sema_pop_scope s = record s { scope = tail_or_empty s.scope }

abbrev pub insert_head : Symbol → List SymTab → List SymTab
insert_head sym [] = []
insert_head sym (tab ∷ parents) = table_insert tab sym ∷ parents

-- `symtab_insert`. There is always a scope: the source would follow a NULL pointer without one.
unfoldable pub symtab_insert : Bytes → SymKind → AstNode → AstType → Sema → Sema
symtab_insert name kind decl type s =
    let sym : Symbol = record {
      name = name;
      kind = kind;
      decl = decl;
      type = type;
      used = false;
    } in
    record s { scope = insert_head sym s.scope }

-- `vsnprintf` into 512 bytes.
abbrev pub clipped : Bytes → Bytes
clipped msg = take 511 msg

-- `sema_error`, on the formatted message.
unfoldable pub sema_error : Span → Bytes → Sema → Sema
sema_error span msg s = record s {
  error_count = u32_inc s.error_count;
  diag = diag_emit error s.source_id span (clipped msg) s.diag;
}

-- `sema_warn`.
unfoldable pub sema_warn : Span → Bytes → Sema → Sema
sema_warn span msg s = record s {
  warning_count = u32_inc s.warning_count;
  diag = diag_emit warning s.source_id span (clipped msg) s.diag;
}

abbrev pub is_some : Option Symbol → Bool
is_some (some s) = true
is_some none = false

-- `symtab_lookup_local(s->scope, name)`, as a test.
abbrev pub is_declared : List SymTab → Bytes → Bool
is_declared [] name = false
is_declared (tab ∷ parents) name = is_some (symtab_lookup_local tab name)

-- The tests `sv_equals_cstr` over a table of names.
abbrev pub is_one_of : Bytes → List Bytes → Bool
is_one_of name [] = false
is_one_of name (n ∷ ns) = bytes_eq name n || is_one_of name ns

abbrev pub builtin_types : List Bytes
builtin_types =
    codes "Option"
    ∷ codes "Result"
    ∷ codes "Ok"
    ∷ codes "Err"
    ∷ codes "Some"
    ∷ codes "None"
    ∷ codes "RingBuffer"
    ∷ codes "Vec"
    ∷ codes "InterruptFrame"
    ∷ codes "DriverError"
    ∷ codes "PageTable"
    ∷ codes "PhysAddr"
    ∷ codes "VirtAddr"
    ∷ codes "CpuContext"
    ∷ []

abbrev pub builtin_names : List Bytes
builtin_names = codes "_" ∷ codes "cpu" ∷ codes "port" ∷ codes "mmio" ∷ []

-- AST_TYPE_NAMED.
unfoldable pub check_type_name : Span → Bytes → Sema → Sema
check_type_name span name s =
    if is_some (symtab_lookup s.scope name) || is_one_of name builtin_types
    then s
    else sema_warn span
        (codes "type '" ++ name ++ codes "' is not declared in this module (may be from an import)")
        s

-- AST_IDENT.
unfoldable pub check_name : Span → Bytes → Sema → Sema
check_name span name s =
    if is_some (symtab_lookup s.scope name)
    then record s { scope = mark_used s.scope name }
    else if is_one_of name builtin_names
    then s
    else sema_warn span
        (codes "'"
          ++ name
          ++ codes "' is not declared in this scope (may be from an import or built-in)")
        s
