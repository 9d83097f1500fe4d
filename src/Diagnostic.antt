-- ===== src/Diagnostic.antt =====
-- Diagnostics: compiler/include/qpc/diagnostic.h and compiler/src/diagnostic.c. The text that goes to
-- stderr is kept as the list of what was emitted, the last first; colours are left out.
pub mod Counts
pub mod Caret
use q.Common.{ℕ, ◌+◌, ◌-◌, ◌%◌, Bool, true, false, List, [], ◌∷◌, Bytes, u32_inc}
use q.Token.Kind.{Span}

-- `DiagLevel`.
pub data DiagLevel : Type 0 where
  error warning note : DiagLevel

-- One call of `diag_emit`: its arguments, with the formatted message.
pub record Diagnostic : Type 0 where
  pub level : DiagLevel
  pub source_id : ℕ
  pub span : Span
  pub message : Bytes

-- `g_error_count`, `g_warning_count`, and what was printed.
pub record Diagnostics : Type 0 where
  pub error_count : ℕ
  pub warning_count : ℕ
  pub emitted : List Diagnostic

abbrev pub no_diagnostics : Diagnostics
no_diagnostics = record { error_count = 0; warning_count = 0; emitted = [] }

-- The two tests at the head of `diag_emit`.
unfoldable pub count_level : DiagLevel → Diagnostics → Diagnostics
count_level error d = record d { error_count = u32_inc d.error_count }
count_level warning d = record d { warning_count = u32_inc d.warning_count }
count_level note d = d

-- `diag_emit`.
unfoldable pub diag_emit : DiagLevel → ℕ → Span → Bytes → Diagnostics → Diagnostics
unfolding count_level
diag_emit level source_id span message d = record (count_level level d) {
  emitted =
      record { level = level; source_id = source_id; span = span; message = message } ∷ d.emitted;
}

-- `diag_get_error_count`, `diag_get_warning_count`, `diag_reset`.
unfoldable pub diag_get_error_count : Diagnostics → ℕ
diag_get_error_count d = d.error_count

unfoldable pub diag_get_warning_count : Diagnostics → ℕ
diag_get_warning_count d = d.warning_count

unfoldable pub diag_reset : Diagnostics → Diagnostics
diag_reset d = record d { error_count = 0; warning_count = 0 }
