-- ===== src/Diagnostic/Counts.antt =====
-- The counters of compiler/src/diagnostic.c count what was emitted.
use q.Common.{ℕ, ◌+◌, ◌%◌, List, [], ◌∷◌, ◌≡◌, refl, arith, Bytes, u32_mod}
use q.Diagnostic.{
  DiagLevel, error, warning, note, Diagnostic, Diagnostics, no_diagnostics, diag_emit,
}
use q.Token.Kind.{Span}

abbrev error_weight : DiagLevel → ℕ
error_weight error = 1
error_weight warning = 0
error_weight note = 0

abbrev warning_weight : DiagLevel → ℕ
warning_weight error = 0
warning_weight warning = 1
warning_weight note = 0

-- How many of the emitted diagnostics are errors, and how many warnings.
abbrev pub errors_in : List Diagnostic → ℕ
errors_in [] = 0
errors_in (d ∷ ds) = error_weight d.level + errors_in ds

abbrev pub warnings_in : List Diagnostic → ℕ
warnings_in [] = 0
warnings_in (d ∷ ds) = warning_weight d.level + warnings_in ds

-- Each counter is the number of diagnostics of its level, modulo 2 ^ 32.
pub record Counted (d : Diagnostics) : Type 0 where
  pub errors : d.error_count ≡ errors_in d.emitted % u32_mod
  pub warnings : d.warning_count ≡ warnings_in d.emitted % u32_mod

pub no_diagnostics-Counted : Counted no_diagnostics
no_diagnostics-Counted = record { errors = refl; warnings = refl }

-- Where the counters agree with what was emitted before a call of `diag_emit`, they agree after it,
-- at every level.
pub diag_emit-Counted :
    (level : DiagLevel) (source_id : ℕ) (span : Span) (message : Bytes) (d : Diagnostics)
    → Counted d
    → Counted (diag_emit level source_id span message d)
unfolding diag_emit
diag_emit-Counted error source_id span message d c = ground arith
diag_emit-Counted warning source_id span message d c = ground arith
diag_emit-Counted note source_id span message d c = ground arith
