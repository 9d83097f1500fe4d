-- ===== src/Sema/Bodies.antt =====
-- Types, parameters and the contexts of compiler/src/sema.c: what its cases set for a body, which is
-- passed in as the function that walks it.
use q.Ast.{
  AstNode, AstType, named, array_type, slice_type, ref_type, ptr_type, own_type, fn_ptr_type,
  tuple_type, generic_type, Types, no_types, type_item, Params, no_params, param, Fields, no_fields,
  field, null_type,
}
use q.Common.{Bool, true, not, ◌&&◌, ◌==◌, Bytes, codes, bytes_eq, length, ◌++◌, if◌then◌else◌}
use q.Sema.State.{
  Sema, sema_push_scope, sema_pop_scope, symtab_insert, sema_error, is_declared, check_type_name,
}
use q.Sema.Table.{sym_local, sym_param}
use q.Token.Kind.{Span}

unfoldable mutual
  -- `sema_type`.
  pub sema_type : AstType → Sema → Sema
  sema_type (named span name args) s = check_type_name span name s
  sema_type (array_type span element size) s = sema_type element s
  sema_type (slice_type span element) s = sema_type element s
  sema_type (ref_type span inner is_mut) s = sema_type inner s
  sema_type (ptr_type span inner is_mut) s = sema_type inner s
  sema_type (own_type span inner) s = sema_type inner s
  sema_type (fn_ptr_type span ts return_type) s = sema_type return_type (sema_types ts s)
  sema_type (tuple_type span ts) s = sema_types ts s
  sema_type (generic_type span base ts) s = sema_types ts (sema_type base s)
  sema_type _ s = s

  -- The loops over types.
  pub sema_types : Types → Sema → Sema
  sema_types no_types s = s
  sema_types (type_item t rest) s = sema_types rest (sema_type t s)

-- A scope around a body.
unfoldable pub in_scope : (Sema → Sema) → Sema → Sema
in_scope body s = sema_pop_scope (body (sema_push_scope s))

-- The body of a loop.
unfoldable pub in_loop_body : (Sema → Sema) → Sema → Sema
in_loop_body body s = record (body (record s { in_loop = true })) { in_loop = s.in_loop }

-- AST_UNSAFE_BLOCK.
unfoldable pub in_unsafe_body : (Sema → Sema) → Sema → Sema
in_unsafe_body body s = record (body (record s { in_unsafe = true })) { in_unsafe = s.in_unsafe }

-- AST_ASM_EXPR.
unfoldable pub check_asm_place : Span → Sema → Sema
check_asm_place span s =
    if not s.in_unsafe
    then sema_error span (codes "asm! is only allowed inside an 'unsafe {}' block") s
    else s

-- AST_BREAK_STMT and AST_CONTINUE_STMT.
unfoldable pub check_jump : Span → Sema → Sema
check_jump span s =
    if not s.in_loop then sema_error span (codes "break/continue used outside of a loop") s else s

-- AST_LET_STMT, the test for a second declaration.
unfoldable pub check_redeclared : Span → Bytes → Sema → Sema
check_redeclared span name s =
    if is_declared s.scope name
    then sema_error span (codes "'" ++ name ++ codes "' is already declared in this scope") s
    else s

abbrev pub is_empty : Bytes → Bool
is_empty name = length name == 0

-- The parameters of a function; `n` is its declaration.
unfoldable pub fn_param : AstNode → Bytes → AstType → Sema → Sema
fn_param n name type s =
    if not (is_empty name) && not (bytes_eq name (codes "self"))
    then symtab_insert name sym_param n type s
    else s

unfoldable pub fn_params : AstNode → Params → Sema → Sema
fn_params n no_params s = s
fn_params n (param name type span rest) s =
    fn_params n rest (fn_param n name type (sema_type type s))

-- The parameters of a system call.
unfoldable pub syscall_param : AstNode → Bytes → AstType → Sema → Sema
syscall_param n name type s =
    if not (is_empty name) then symtab_insert name sym_param n type s else s

unfoldable pub syscall_params : AstNode → Params → Sema → Sema
syscall_params n no_params s = s
syscall_params n (param name type span rest) s =
    syscall_params n rest (syscall_param n name type (sema_type type s))

-- The return type and the body of a function.
unfoldable pub fn_body : AstType → (Sema → Sema) → Sema → Sema
fn_body return_type body s =
    record (body (sema_type return_type (record s { current_ret = return_type }))) {
      current_ret = s.current_ret;
    }

-- AST_FN_DECL.
unfoldable pub sema_fn : AstNode → Params → AstType → (Sema → Sema) → Sema → Sema
sema_fn n ps return_type body s = in_scope (λ a. fn_body return_type body (fn_params n ps a)) s

-- AST_SYSCALL_DECL.
unfoldable pub sema_syscall : AstNode → Params → AstType → (Sema → Sema) → Sema → Sema
sema_syscall n ps return_type body s =
    in_scope (λ a. body (sema_type return_type (syscall_params n ps a))) s

-- The fields of a struct or a driver.
unfoldable pub sema_fields : Fields → Sema → Sema
sema_fields no_fields s = s
sema_fields (field name type is_pub span rest) s = sema_fields rest (sema_type type s)

-- AST_FOR.
unfoldable pub sema_for : AstNode → Bytes → (Sema → Sema) → (Sema → Sema) → Sema → Sema
sema_for n var iterable body s =
    in_scope (λ a. in_loop_body body (iterable (symtab_insert var sym_local n null_type a))) s
