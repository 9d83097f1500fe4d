-- ===== src/Security/Verdict.antt =====
-- What the caller of `security_analyze` is told (compiler/src/security.c).
use q.Ast.{program, Nodes}
use q.Common.{ℕ, Bool, ◌+◌, ◌%◌, false, ◌==◌, ◌≡◌, refl, arith, u32_mod}
use q.Diagnostic.Counts.{errors_in}
use q.Diagnostic.{Diagnostics}
use q.Security.Errors.{errors_decls}
use q.Security.Reports.{Reports}
use q.Security.Scan.{security_analyze}
use q.Security.Sound.{sec_decls-Reports}
use q.Security.State.{SecurityAnalyzer, security_init}
use q.Token.Kind.{Span}

-- The counter from 0, which does not show more than its residue.
count_is :
    {n : ℕ} {a b : SecurityAnalyzer}
    → a.error_count ≡ 0
    → Reports n a b
    → b.error_count ≡ n % u32_mod
count_is h r = let s = r.small (omega arith) in omega (arith, r.counted, s)

-- `security_init`, and then `security_analyze` of a program with these declarations.
abbrev pub analyzed : Span → Nodes → ℕ → Diagnostics → Bool × SecurityAnalyzer
analyzed span decls source_id diag =
    security_analyze (program span decls) (security_init source_id diag)

-- Analyzing a whole program from the initial state prints one error for each place that
-- `errors_decls` counts: a dereferenced null or a raw pointer with no initial value, and, in a safe
-- context, a call of `port::` or inline assembly. The counter holds their number modulo 2 ^ 32, the
-- verdict says that the counter is 0, and the unsafe context is again off.
pub security_analyze-errors :
    (span : Span) (decls : Nodes) (source_id : ℕ) (diag : Diagnostics)
    → (errors_in (analyzed span decls source_id diag).1.diag.emitted
        ≡ errors_in diag.emitted + errors_decls decls false)
      × ((analyzed span decls source_id diag).1.error_count ≡ errors_decls decls false % u32_mod)
      × ((analyzed span decls source_id diag).0 ≡ (errors_decls decls false % u32_mod == 0))
      × ((analyzed span decls source_id diag).1.in_unsafe ≡ false)
unfolding security_analyze security_init
security_analyze-errors span decls source_id diag =
    let start = security_init source_id diag in
    let r = sec_decls-Reports decls false start refl in
    let counted = count_is refl r in (r.printed, counted, rw counted refl, r.unsafe_kept)
