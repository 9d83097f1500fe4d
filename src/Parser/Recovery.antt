-- ===== src/Parser/Recovery.antt =====
-- What compiler/src/parser.c does to go on after an error: `synchronize`.
use q.Common.{◌+◌, ◌<◌, true, false, ◌||◌, ◌≡◌, refl, ap, arith, length, u32_mod}
use q.Parser.State.{Parser, Outcome, done, check, rank, in_sync, synchronize}
use q.Parser.Steps.{IsParser, Steps, Steps-trans, Skipped, skipped, skip_until-Skipped, quiet-Steps}
use q.Token.Kind.{TokenKind}

-- What `synchronize` leaves of `p`.
pub record Synchronized (p q : Parser) : Type 0 where
  pub steps : Steps p q
  pub quiet : q.panic_mode ≡ false
  pub stops : (check TokenKind.eof q || in_sync q) ≡ true

behind :
    {p : Parser} {o : Outcome (Unit {0})}
    → IsParser p
    → Skipped in_sync (record p { panic_mode = false }) o
    → (q : Parser) × (o ≡ done tt q) × Synchronized p q
behind {p} h (skipped {q} s e same) =
    (q, refl, record { steps = Steps-trans (quiet-Steps p h) s; quiet = same; stops = e })

pub synchronize-Synchronized :
    (p : Parser) → IsParser p → (q : Parser) × (synchronize p ≡ done tt q) × Synchronized p q
unfolding synchronize check
synchronize-Synchronized p h = behind h (
    skip_until-Skipped (rank p + 1) in_sync (record p { panic_mode = false })
      (quiet-Steps p h).still (omega arith))

-- The cursor behind a routine is a u32 where the source is below 4 GiB.
pub Steps-cursor :
    {p q : Parser} → Steps p q → length p.lexer.content < u32_mod → q.lexer.cursor < u32_mod
Steps-cursor s small = omega (arith, small, s.still.inside, ap length s.content)

-- On a parser in order over a source below 4 GiB, the fuel of `synchronize` is enough: it leaves the
-- panic and returns, at the end of the input, behind a semicolon or at a token of its list, with the
-- rest of the parser in order and with a cursor that fits its u32.
pub synchronize-stops :
    (p : Parser)
    → IsParser p
    → length p.lexer.content < u32_mod
    → (q : Parser) × (synchronize p ≡ done tt q)
      × (q.panic_mode ≡ false)
      × ((check TokenKind.eof q || in_sync q) ≡ true)
      × Steps p q
      × (q.lexer.cursor < u32_mod)
synchronize-stops p h small =
    let r = synchronize-Synchronized p h in
    let t = r.2 in (r.0, r.1, t.quiet, t.stops, t.steps, Steps-cursor t.steps small)
