-- ===== src/Security/Reports.antt =====
-- How a step of the analyzer of compiler/src/security.c changes its state: the errors it reports, and
-- the contexts that it leaves as they were.
use q.Common.{
  ℕ, ◌+◌, ◌%◌, ◌<◌, Bool, true, false, Bytes, u32_mod, ◌≡◌, refl, ◌∙◌, arith, if◌then◌else◌,
}
use q.Diagnostic.Counts.{errors_in}
use q.Diagnostic.{diag_emit}
use q.Security.Errors.{one_if}
use q.Security.State.{SecurityAnalyzer, sec_error, sec_warn}
use q.Token.Kind.{Span}

-- From `sa` to `after`, `n` errors are reported: they are printed, the counter (a u32) goes up by as
-- many, and the contexts are as before.
pub record Reports (n : ℕ) (sa after : SecurityAnalyzer) : Type 0 where
  pub printed : errors_in after.diag.emitted ≡ errors_in sa.diag.emitted + n
  pub counted : after.error_count % u32_mod ≡ (sa.error_count + n) % u32_mod
  pub small : sa.error_count < u32_mod → after.error_count < u32_mod
  pub unsafe_kept : after.in_unsafe ≡ sa.in_unsafe
  pub driver_kept : after.in_driver ≡ sa.in_driver
  pub syscall_kept : after.in_syscall ≡ sa.in_syscall
  pub interrupt_kept : after.in_interrupt_fn ≡ sa.in_interrupt_fn

pub Reports-refl : (sa : SecurityAnalyzer) → Reports 0 sa sa
Reports-refl sa = record {
  printed = omega arith;
  counted = omega arith;
  small = λ h. h;
  unsafe_kept = refl;
  driver_kept = refl;
  syscall_kept = refl;
  interrupt_kept = refl;
}

pub Reports-trans :
    {n m : ℕ} {a b c : SecurityAnalyzer} → Reports n a b → Reports m b c → Reports (n + m) a c
Reports-trans p r = record {
  printed = omega arith;
  counted = omega arith;
  small = λ h. r.small (p.small h);
  unsafe_kept = r.unsafe_kept ∙ p.unsafe_kept;
  driver_kept = r.driver_kept ∙ p.driver_kept;
  syscall_kept = r.syscall_kept ∙ p.syscall_kept;
  interrupt_kept = r.interrupt_kept ∙ p.interrupt_kept;
}

-- The second of two steps, in the context of the first.
pub Reports-next :
    {u : Bool} {n m : ℕ} {a b c : SecurityAnalyzer}
    → a.in_unsafe ≡ u
    → Reports n a b
    → (b.in_unsafe ≡ u → Reports m b c)
    → Reports (n + m) a c
Reports-next h p r = Reports-trans p (r (p.unsafe_kept ∙ h))

-- A step without errors in front.
pub Reports-quiet :
    {n : ℕ} {a b c : SecurityAnalyzer} → Reports 0 a b → Reports n b c → Reports n a c
Reports-quiet p r = record {
  printed = omega arith;
  counted = omega arith;
  small = λ h. r.small (p.small h);
  unsafe_kept = r.unsafe_kept ∙ p.unsafe_kept;
  driver_kept = r.driver_kept ∙ p.driver_kept;
  syscall_kept = r.syscall_kept ∙ p.syscall_kept;
  interrupt_kept = r.interrupt_kept ∙ p.interrupt_kept;
}

sec_error-Reports :
    (span : Span) (msg : Bytes) (sa : SecurityAnalyzer) → Reports 1 sa (sec_error span msg sa)
unfolding sec_error diag_emit
sec_error-Reports span msg sa = record {
  printed = omega arith;
  counted = omega arith;
  small = λ h. omega arith;
  unsafe_kept = refl;
  driver_kept = refl;
  syscall_kept = refl;
  interrupt_kept = refl;
}

sec_warn-Reports :
    (span : Span) (msg : Bytes) (sa : SecurityAnalyzer) → Reports 0 sa (sec_warn span msg sa)
unfolding sec_warn diag_emit
sec_warn-Reports span msg sa = record {
  printed = omega arith;
  counted = omega arith;
  small = λ h. h;
  unsafe_kept = refl;
  driver_kept = refl;
  syscall_kept = refl;
  interrupt_kept = refl;
}

-- A test that reports an error, or nothing.
pub error_if :
    (t : Bool) (span : Span) (msg : Bytes) (sa : SecurityAnalyzer)
    → Reports (one_if t) sa (if t then sec_error span msg sa else sa)
error_if true span msg sa = sec_error-Reports span msg sa
error_if false span msg sa = Reports-refl sa

-- A test that reports a warning, or nothing.
pub warn_if :
    (t : Bool) (span : Span) (msg : Bytes) (sa : SecurityAnalyzer)
    → Reports 0 sa (if t then sec_warn span msg sa else sa)
warn_if true span msg sa = sec_warn-Reports span msg sa
warn_if false span msg sa = Reports-refl sa

-- Two steps, of which the second reports no error.
pub Reports-then :
    {n : ℕ} {a b c : SecurityAnalyzer} → Reports n a b → Reports 0 b c → Reports n a c
Reports-then p r = record {
  printed = omega arith;
  counted = omega arith;
  small = λ h. r.small (p.small h);
  unsafe_kept = r.unsafe_kept ∙ p.unsafe_kept;
  driver_kept = r.driver_kept ∙ p.driver_kept;
  syscall_kept = r.syscall_kept ∙ p.syscall_kept;
  interrupt_kept = r.interrupt_kept ∙ p.interrupt_kept;
}
