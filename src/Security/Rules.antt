-- ===== src/Security/Rules.antt =====
-- The rules of Security/Checks one by one: the errors that each reports, and that it keeps the
-- contexts (compiler/src/security.c).
use q.Ast.{
  AstNode, UnaryOp, AstType, Params, no_params, param, Fields, no_fields, field, FnFlags,
  array_type, slice_type, ref_type, ptr_type, own_type,
}
use q.Common.{
  ℕ, Bool, true, not, ◌&&◌, ◌||◌, codes, bytes_eq, u32_inc, ◌≡◌, refl, inl, inr, arith,
  if◌then◌else◌, Bool-cases,
}
use q.Security.Checks.{
  is_deref, check_unary, check_cast, check_port, check_cpu, check_call, check_index, check_asm,
  in_unsafe_block, check_pointer, check_stack, count_mutation, check_assign, check_static, sec_fn,
  sec_driver, check_params, sec_syscall, sec_fields, static_target,
}
use q.Security.Errors.{one_if}
use q.Security.Reports.{Reports, Reports-refl, Reports-quiet, Reports-then, error_if, warn_if}
use q.Token.Kind.{Span}
use q.Security.State.{
  SecurityAnalyzer, type_is_raw_ptr, sec_type, is_null_lit, is_node, first_segment,
}

pub check_unary-Reports :
    (span : Span) (op : UnaryOp) (e : AstNode) (sa : SecurityAnalyzer)
    → Reports (one_if (is_deref op && is_null_lit e)) sa (check_unary span op e sa)
unfolding check_unary
check_unary-Reports span op e sa = error_if (is_deref op && is_null_lit e) span _ sa

pub check_cast-Reports :
    (span : Span) (t : AstType) (sa : SecurityAnalyzer) → Reports 0 sa (check_cast span t sa)
unfolding check_cast
check_cast-Reports span t sa = warn_if _ span _ sa

pub check_call-Reports :
    (span : Span) (callee : AstNode) (u : Bool) (sa : SecurityAnalyzer)
    → sa.in_unsafe ≡ u
    → Reports
        (one_if (bytes_eq (first_segment callee) (codes "port") && not u))
        sa
        (check_call span callee sa)
unfolding check_call check_port check_cpu
check_call-Reports span callee u sa h =
    rw (← h) (Reports-then (error_if _ span _ sa) (warn_if _ span _ _))

pub check_index-Reports :
    (span : Span) (a b : AstNode) (sa : SecurityAnalyzer) → Reports 0 sa (check_index span a b sa)
unfolding check_index
check_index-Reports span a b sa = warn_if _ span _ sa

pub check_asm-Reports :
    (span : Span) (u : Bool) (sa : SecurityAnalyzer)
    → sa.in_unsafe ≡ u
    → Reports (one_if (not u)) sa (check_asm span sa)
unfolding check_asm
check_asm-Reports span u sa h = rw (← h) (error_if (not sa.in_unsafe) span _ sa)

pub check_pointer-Reports :
    (span : Span) (type : AstType) (init : AstNode) (sa : SecurityAnalyzer)
    → Reports
        (one_if (type_is_raw_ptr type && not (is_node init)))
        sa
        (check_pointer span type init sa)
unfolding check_pointer
check_pointer-Reports span type init sa = error_if _ span _ sa

pub check_stack-Reports :
    (span : Span) (type : AstType) (sa : SecurityAnalyzer) → Reports 0 sa (check_stack span type sa)
unfolding check_stack
check_stack-Reports span type sa = warn_if _ span _ sa

-- A mutation that is counted.
mutation_counted :
    (sa : SecurityAnalyzer)
    → Reports 0 sa (record sa { static_mut_count = u32_inc sa.static_mut_count })
mutation_counted sa = record {
  printed = omega arith;
  counted = omega arith;
  small = λ h. h;
  unsafe_kept = refl;
  driver_kept = refl;
  syscall_kept = refl;
  interrupt_kept = refl;
}

pub check_assign-Reports :
    (span : Span) (target : AstNode) (sa : SecurityAnalyzer)
    → Reports 0 sa (check_assign span target sa)
unfolding check_assign count_mutation
check_assign-Reports span target sa = elim (Bool-cases (static_target target)) [
  | inl e ↦ rw e (Reports-quiet (mutation_counted sa) (warn_if _ span _ _))
  | inr e ↦ rw e (Reports-refl sa)
]

pub check_static-Reports :
    (span : Span) (is_mut : Bool) (sa : SecurityAnalyzer)
    → Reports 0 sa (check_static span is_mut sa)
unfolding check_static
check_static-Reports span is_mut sa = warn_if is_mut span _ sa

pub sec_type-same : (type : AstType) (sa : SecurityAnalyzer) → sec_type type sa ≡ sa
unfolding sec_type
sec_type-same (ptr_type _ inner _) sa = sec_type-same inner sa
sec_type-same (array_type _ element _) sa = sec_type-same element sa
sec_type-same (slice_type _ element) sa = sec_type-same element sa
sec_type-same (ref_type _ inner _) sa = sec_type-same inner sa
sec_type-same (own_type _ inner) sa = sec_type-same inner sa
sec_type-same _ sa = refl

pub sec_fields-same : (fs : Fields) (sa : SecurityAnalyzer) → sec_fields fs sa ≡ sa
unfolding sec_fields
sec_fields-same no_fields sa = refl
sec_fields-same (field name type is_pub span rest) sa =
    rw (sec_type-same type sa) (sec_fields-same rest sa)

pub check_params-Reports : (ps : Params) (sa : SecurityAnalyzer) → Reports 0 sa (check_params ps sa)
unfolding check_params
check_params-Reports no_params sa = Reports-refl sa
check_params-Reports (param name type span rest) sa =
    Reports-quiet (warn_if (type_is_raw_ptr type) span _ sa) (check_params-Reports rest _)

-- The state in which the body of a function is scanned.
abbrev fn_context : FnFlags → SecurityAnalyzer → SecurityAnalyzer
fn_context flags sa = record sa {
  in_interrupt_fn = if flags.is_interrupt then true else sa.in_interrupt_fn;
  in_unsafe = if flags.is_unsafe then true else sa.in_unsafe;
  static_mut_count = 0;
}

fn_context-unsafe :
    (flags : FnFlags) (sa : SecurityAnalyzer) (u : Bool)
    → sa.in_unsafe ≡ u
    → (fn_context flags sa).in_unsafe ≡ flags.is_unsafe || u
fn_context-unsafe flags sa u k = elim (Bool-cases flags.is_unsafe) [
  | inl e ↦ rw e refl
  | inr e ↦ rw (e, k) refl
]

-- The contexts that are set for a body are put back after it.
module _ {n : ℕ} (body : SecurityAnalyzer → SecurityAnalyzer) (sa : SecurityAnalyzer) where
  pub in_unsafe_block-Reports :
      ((a : SecurityAnalyzer) → a.in_unsafe ≡ true → Reports n a (body a))
      → Reports n sa (in_unsafe_block body sa)
  unfolding in_unsafe_block
  in_unsafe_block-Reports h =
      let r = h (record sa { in_unsafe = true }) refl in
      record {
        printed = r.printed;
        counted = r.counted;
        small = r.small;
        unsafe_kept = refl;
        driver_kept = r.driver_kept;
        syscall_kept = r.syscall_kept;
        interrupt_kept = r.interrupt_kept;
      }

  pub sec_fn-Reports :
      (flags : FnFlags) (u : Bool)
      → sa.in_unsafe ≡ u
      → ((a : SecurityAnalyzer) → a.in_unsafe ≡ flags.is_unsafe || u → Reports n a (body a))
      → Reports n sa (sec_fn flags body sa)
  unfolding sec_fn
  sec_fn-Reports flags u k h =
      let r = h (fn_context flags sa) (fn_context-unsafe flags sa u k) in
      record {
        printed = r.printed;
        counted = r.counted;
        small = r.small;
        unsafe_kept = refl;
        driver_kept = r.driver_kept;
        syscall_kept = r.syscall_kept;
        interrupt_kept = refl;
      }

  pub sec_driver-Reports :
      ((a : SecurityAnalyzer) → a.in_unsafe ≡ sa.in_unsafe → Reports n a (body a))
      → Reports n sa (sec_driver body sa)
  unfolding sec_driver
  sec_driver-Reports h =
      let r = h (record sa { in_driver = true }) refl in
      record {
        printed = r.printed;
        counted = r.counted;
        small = r.small;
        unsafe_kept = r.unsafe_kept;
        driver_kept = refl;
        syscall_kept = r.syscall_kept;
        interrupt_kept = r.interrupt_kept;
      }

  pub sec_syscall-Reports :
      (ps : Params)
      → ((a : SecurityAnalyzer) → a.in_unsafe ≡ sa.in_unsafe → Reports n a (body a))
      → Reports n sa (sec_syscall ps body sa)
  unfolding sec_syscall
  sec_syscall-Reports ps h =
      let q = check_params-Reports ps (record sa { in_syscall = true }) in
      let r = Reports-quiet q (h _ q.unsafe_kept) in
      record {
        printed = r.printed;
        counted = r.counted;
        small = r.small;
        unsafe_kept = r.unsafe_kept;
        driver_kept = r.driver_kept;
        syscall_kept = refl;
        interrupt_kept = r.interrupt_kept;
      }
