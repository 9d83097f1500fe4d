-- ===== src/Diagnostic/Caret.antt =====
-- The caret line of `diag_emit` (compiler/src/diagnostic.c).
use q.Common.{ℕ, ◌+◌, ◌-◌, ◌≤◌, ◌<◌, arith, u32_mod, u32_sub, ltb, ◌==◌, if◌then◌else◌}
use q.Token.Kind.{Span}

-- `span_len` before it is clamped.
unfoldable pub span_length : Span → ℕ
span_length s = if ltb s.start s.end then s.end - s.start else 1

-- The number of carets under a line of `width` bytes for a span that starts in column `col`; the
-- subtraction is on u32.
unfoldable pub caret_count : ℕ → ℕ → Span → ℕ
unfolding span_length
caret_count width col span =
    let max_carets : ℕ = u32_sub width (u32_sub col 1) in
    let clamped : ℕ = if ltb max_carets (span_length span) then max_carets else span_length span in
    if clamped == 0 then 1 else clamped

-- For a column on the line there is at least one caret, the carets end where the line ends, and they
-- never outnumber the bytes of a nonempty span.
pub caret_count_bounds :
    (width col : ℕ) (span : Span)
    → width < u32_mod
    → 1 ≤ col
    → col ≤ width
    → span.start < span.end
    → (1 ≤ caret_count width col span)
      × (col + caret_count width col span ≤ width + 1)
      × (caret_count width col span ≤ span.end - span.start)
unfolding caret_count
caret_count_bounds width col span w l h s = ground arith
