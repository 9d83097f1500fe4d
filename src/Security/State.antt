-- ===== src/Security/State.antt =====
-- The analyzer's state and reports, and the tests on types and names (compiler/include/qpc/security.h
-- and the head of compiler/src/security.c).
use q.Ast.{
  AstNode, null_node, int_lit, null_lit, path, AstType, primitive, array_type, slice_type, ref_type,
  ptr_type, own_type,
}
use q.Common.{ℕ, Bool, true, false, not, ◌&&◌, ◌||◌, [], ◌∷◌, ◌++◌, Bytes, codes, u32_inc, ltb, leb}
use q.Diagnostic.{Diagnostics, error, warning, diag_emit}
use q.Token.Kind.{TokenKind, kind_eq, Span}

-- `SecurityAnalyzer`, with the diagnostics so far; the arena is not used by the analysis.
pub record SecurityAnalyzer : Type 0 where
  pub source_id : ℕ
  pub error_count : ℕ
  pub warning_count : ℕ
  pub in_unsafe : Bool
  pub in_interrupt_fn : Bool
  pub in_driver : Bool
  pub in_syscall : Bool
  pub static_mut_count : ℕ
  pub diag : Diagnostics

-- `security_init`.
unfoldable pub security_init : ℕ → Diagnostics → SecurityAnalyzer
security_init source_id diag = record {
  source_id = source_id;
  error_count = 0;
  warning_count = 0;
  in_unsafe = false;
  in_interrupt_fn = false;
  in_driver = false;
  in_syscall = false;
  static_mut_count = 0;
  diag = diag;
}

-- The dash of the messages, as the source's UTF-8 has it.
abbrev pub em_dash : Bytes
em_dash = 226 ∷ 128 ∷ 148 ∷ []

-- `sec_error`.
unfoldable pub sec_error : Span → Bytes → SecurityAnalyzer → SecurityAnalyzer
sec_error span msg sa = record sa {
  error_count = u32_inc sa.error_count;
  diag = diag_emit error sa.source_id span (codes "[SEC] " ++ msg) sa.diag;
}

-- `sec_warn`.
unfoldable pub sec_warn : Span → Bytes → SecurityAnalyzer → SecurityAnalyzer
sec_warn span msg sa = record sa {
  warning_count = u32_inc sa.warning_count;
  diag = diag_emit warning sa.source_id span (codes "[SEC] " ++ msg) sa.diag;
}

-- `type_is_raw_ptr`.
unfoldable pub type_is_raw_ptr : AstType → Bool
type_is_raw_ptr (ptr_type _ _ _) = true
type_is_raw_ptr _ = false

-- The test on `size_expr`.
abbrev is_large : AstNode → Bool
is_large (int_lit _ value _) = ltb 4096 value
is_large _ = false

-- `type_is_large_stack_array`.
unfoldable pub type_is_large_stack_array : AstType → Bool
type_is_large_stack_array (array_type _ _ size) = is_large size
type_is_large_stack_array _ = false

no_lower : Bytes → Bool
no_lower [] = true
no_lower (c ∷ cs) = not (leb b'a' c && leb c b'z') && no_lower cs

-- `ident_looks_static`.
unfoldable pub ident_looks_static : Bytes → Bool
unfolding no_lower
ident_looks_static [] = false
ident_looks_static (c ∷ cs) = no_lower (c ∷ cs)

-- `sec_type`, which walks a type and reports nothing.
unfoldable pub sec_type : AstType → SecurityAnalyzer → SecurityAnalyzer
sec_type (ptr_type _ inner _) sa = sec_type inner sa
sec_type (array_type _ element _) sa = sec_type element sa
sec_type (slice_type _ element) sa = sec_type element sa
sec_type (ref_type _ inner _) sa = sec_type inner sa
sec_type (own_type _ inner) sa = sec_type inner sa
sec_type _ sa = sa

-- `kind == AST_NULL_LIT`.
unfoldable pub is_null_lit : AstNode → Bool
is_null_lit (null_lit _) = true
is_null_lit _ = false

-- `kind == AST_INT_LIT`.
unfoldable pub is_int_lit : AstNode → Bool
is_int_lit (int_lit _ _ _) = true
is_int_lit _ = false

-- A pointer that is not NULL.
unfoldable pub is_node : AstNode → Bool
is_node null_node = false
is_node _ = true

-- The first segment of a callee that is a path.
unfoldable pub first_segment : AstNode → Bytes
first_segment (path _ (s ∷ _)) = s
first_segment _ = []

-- A primitive of eight or sixteen bits.
unfoldable pub is_narrow : AstType → Bool
unfolding kind_eq
is_narrow (primitive _ k) =
    kind_eq k TokenKind.kw_u8
    || kind_eq k TokenKind.kw_i8
    || kind_eq k TokenKind.kw_u16
    || kind_eq k TokenKind.kw_i16
is_narrow _ = false
