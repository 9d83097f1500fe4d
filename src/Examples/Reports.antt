-- ===== src/Examples/Reports.antt =====
-- The theorems on diagnostics at small inputs.
use q.Common.{◌+◌, ◌-◌, ◌≤◌, arith, codes}
use q.Diagnostic.Caret.{caret_count, caret_count_bounds}
use q.Diagnostic.Counts.{Counted, no_diagnostics-Counted, diag_emit-Counted}
use q.Diagnostic.{warning, no_diagnostics, diag_emit}
use q.Token.Kind.{Span}

abbrev word_span : Span
word_span = record { start = 14; end = 20; source_id = 0 }

diag_emit-Counted_example : Counted (diag_emit warning 0 word_span (codes "unused") no_diagnostics)
diag_emit-Counted_example =
    diag_emit-Counted warning 0 word_span (codes "unused") no_diagnostics no_diagnostics-Counted

caret_count_bounds_example :
    (1 ≤ caret_count 8 5 word_span)
    × (5 + caret_count 8 5 word_span ≤ 8 + 1)
    × (caret_count 8 5 word_span ≤ 20 - 14)
caret_count_bounds_example =
    caret_count_bounds 8 5 word_span (omega arith) (omega arith) (omega arith) (omega arith)
