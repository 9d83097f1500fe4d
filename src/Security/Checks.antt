-- ===== src/Security/Checks.antt =====
-- What the passes of compiler/src/security.c test at one node, and the contexts they set for a body.
-- A body is passed in as the function that scans it.
use q.Ast.{
  AstNode, ident, UnaryOp, unary_deref, FnFlags, AstType, Params, no_params, param, Fields,
  no_fields, field,
}
use q.Common.{
  Bool, true, false, not, ◌&&◌, Bytes, codes, bytes_eq, u32_inc, ltb, ◌++◌, if◌then◌else◌,
}
use q.Security.State.{
  SecurityAnalyzer, sec_error, sec_warn, type_is_raw_ptr, type_is_large_stack_array,
  ident_looks_static, sec_type, is_null_lit, is_int_lit, is_node, first_segment, is_narrow, em_dash,
}
use q.Token.Kind.{Span}

-- `op == UNARY_DEREF`.
abbrev pub is_deref : UnaryOp → Bool
is_deref unary_deref = true
is_deref _ = false

-- PASS 4, at a unary operator.
unfoldable pub check_unary : Span → UnaryOp → AstNode → SecurityAnalyzer → SecurityAnalyzer
check_unary span op operand sa =
    if is_deref op && is_null_lit operand
    then sec_error span
        (codes "null pointer dereference detected "
          ++ em_dash
          ++ codes " dereferencing 'null' directly is undefined behavior")
        sa
    else sa

-- PASS 10, at a cast.
unfoldable pub check_cast : Span → AstType → SecurityAnalyzer → SecurityAnalyzer
check_cast span target sa =
    if is_narrow target
    then sec_warn span
        (codes
          "narrowing cast: possible silent data truncation; verify source range fits target type")
        sa
    else sa

-- PASS 6, at a call: the port test, and then the cpu test.
unfoldable pub check_port : Span → Bytes → SecurityAnalyzer → SecurityAnalyzer
check_port span first sa =
    if bytes_eq first (codes "port") && not sa.in_unsafe
    then sec_error span (codes "port I/O access ('port::') must be inside an 'unsafe {}' block") sa
    else sa

unfoldable pub check_cpu : Span → Bytes → SecurityAnalyzer → SecurityAnalyzer
check_cpu span first sa =
    if bytes_eq first (codes "cpu") && not sa.in_unsafe
    then sec_warn span
        (codes "CPU-level intrinsic ('cpu::') used outside 'unsafe {}' "
          ++ em_dash
          ++ codes " consider wrapping")
        sa
    else sa

unfoldable pub check_call : Span → AstNode → SecurityAnalyzer → SecurityAnalyzer
check_call span callee sa =
    check_cpu span (first_segment callee) (check_port span (first_segment callee) sa)

-- PASS 2, at an index.
unfoldable pub check_index : Span → AstNode → AstNode → SecurityAnalyzer → SecurityAnalyzer
check_index span object idx sa =
    if is_node object && (is_node idx && not (is_int_lit idx))
    then sec_warn span
        (codes "array index is not a compile-time constant "
          ++ em_dash
          ++ codes " verify bounds to avoid out-of-range access")
        sa
    else sa

-- PASS 6, at inline assembly.
unfoldable pub check_asm : Span → SecurityAnalyzer → SecurityAnalyzer
check_asm span sa =
    if not sa.in_unsafe
    then sec_error span (codes "inline assembly ('asm!') must be inside an 'unsafe {}' block") sa
    else sa

-- PASS 3, an unsafe block.
unfoldable pub in_unsafe_block :
    (SecurityAnalyzer → SecurityAnalyzer) → SecurityAnalyzer → SecurityAnalyzer
in_unsafe_block body sa = record (body (record sa { in_unsafe = true })) {
  in_unsafe = sa.in_unsafe;
}

-- PASS 1 and PASS 12, at a `let`.
unfoldable pub check_pointer : Span → AstType → AstNode → SecurityAnalyzer → SecurityAnalyzer
check_pointer span type init sa =
    if type_is_raw_ptr type && not (is_node init)
    then sec_error span
        (codes "raw pointer declared without initialization "
          ++ em_dash
          ++ codes " uninitialized pointers are always unsafe")
        sa
    else sa

unfoldable pub check_stack : Span → AstType → SecurityAnalyzer → SecurityAnalyzer
check_stack span type sa =
    if type_is_large_stack_array type
    then sec_warn span
        (codes "stack-allocated array exceeds 4096 bytes "
          ++ em_dash
          ++ codes " risk of stack overflow; use heap allocation instead")
        sa
    else sa

-- PASS 8, at an assignment.
abbrev pub static_target : AstNode → Bool
static_target (ident _ name) = ident_looks_static name
static_target _ = false

unfoldable pub count_mutation : Span → SecurityAnalyzer → SecurityAnalyzer
count_mutation span sa =
    if ltb 1 sa.static_mut_count
    then sec_warn span
        (codes "multiple static/global mutations in one function scope "
          ++ em_dash
          ++ codes " potential data race without synchronization")
        sa
    else sa

unfoldable pub check_assign : Span → AstNode → SecurityAnalyzer → SecurityAnalyzer
check_assign span target sa =
    if static_target target
    then count_mutation span (record sa { static_mut_count = u32_inc sa.static_mut_count })
    else sa

-- PASS 8, at a static.
unfoldable pub check_static : Span → Bool → SecurityAnalyzer → SecurityAnalyzer
check_static span is_mut sa =
    if is_mut
    then sec_warn span
        (codes "mutable static variable "
          ++ em_dash
          ++ codes " concurrent access requires explicit synchronization (e.g., spinlock)")
        sa
    else sa

-- A function: its contexts are set for the body, and put back.
unfoldable pub sec_fn :
    FnFlags → (SecurityAnalyzer → SecurityAnalyzer) → SecurityAnalyzer → SecurityAnalyzer
sec_fn flags body sa =
    record (body (record sa {
      in_interrupt_fn = if flags.is_interrupt then true else sa.in_interrupt_fn;
      in_unsafe = if flags.is_unsafe then true else sa.in_unsafe;
      static_mut_count = 0;
    })) {
      in_interrupt_fn = sa.in_interrupt_fn;
      in_unsafe = sa.in_unsafe;
      static_mut_count = sa.static_mut_count;
    }

-- A driver.
unfoldable pub sec_driver :
    (SecurityAnalyzer → SecurityAnalyzer) → SecurityAnalyzer → SecurityAnalyzer
sec_driver methods sa = record (methods (record sa { in_driver = true })) {
  in_driver = sa.in_driver;
}

-- PASS 7, at the parameters of a system call.
unfoldable pub check_params : Params → SecurityAnalyzer → SecurityAnalyzer
check_params no_params sa = sa
check_params (param name type span rest) sa = check_params rest (
    if type_is_raw_ptr type
    then sec_warn span
        (codes "syscall receives raw pointer argument "
          ++ em_dash
          ++ codes " ensure userspace address is validated before dereferencing")
        sa
    else sa)

-- A system call.
unfoldable pub sec_syscall :
    Params → (SecurityAnalyzer → SecurityAnalyzer) → SecurityAnalyzer → SecurityAnalyzer
sec_syscall params body sa = record (body (check_params params (record sa { in_syscall = true }))) {
  in_syscall = sa.in_syscall;
}

-- The fields of a struct.
unfoldable pub sec_fields : Fields → SecurityAnalyzer → SecurityAnalyzer
sec_fields no_fields sa = sa
sec_fields (field name type is_pub span rest) sa = sec_fields rest (sec_type type sa)
