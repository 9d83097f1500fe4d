-- ===== src/Parser/Steps.antt =====
-- The relation between a parser and a later one, and the steps of Parser/State in it
-- (compiler/src/parser.c).
use q.Common.{
  ℕ, zero, suc, ◌≤◌, ◌<◌, Bool, true, false, ◌||◌, Bytes, ◌≡◌, refl, ◌∙◌, ap, inl, inr, arith,
  length, Bool-cases, if◌then◌else◌,
}
use q.Lexer.Bounds.Moves.{IsInside, Moves, Moves-IsInside}
use q.Lexer.Bounds.TokenIn.{TokenIn}
use q.Lexer.Run.{lexer_next_token}
use q.Lexer.State.{Lexer, Token}
use q.Lexer.Tokens.{lexer_next_token_cases, lexer_next_token-Moves}
use q.Parser.State.{Parser, Outcome, done, advance, check, error_at, rank, skip_until}
use q.Token.Kind.{TokenKind, kind_eq, Span}
use q.Token.Lookup.{kind_eq_eof-ne}

-- A parser in order: its lexer is inside the source, at the end of the input it is at the end of the
-- source, and a panic comes with an error.
pub record IsParser (p : Parser) : Type 0 where
  pub inside : IsInside p.lexer
  pub at_end : check TokenKind.eof p ≡ true → p.lexer.cursor ≡ length p.lexer.content
  pub flagged : p.panic_mode ≡ true → p.had_error ≡ true

-- From `p`, a routine leaves `q`: the same source, a parser in order that is not further back, with no
-- more tokens left, and an error is not forgotten.
pub record Steps (p q : Parser) : Type 0 where
  pub still : IsParser q
  pub content : q.lexer.content ≡ p.lexer.content
  pub forward : p.lexer.cursor ≤ q.lexer.cursor
  pub shrinks : rank q ≤ rank p
  pub kept : p.had_error ≡ true → q.had_error ≡ true

pub Steps-refl : (p : Parser) → IsParser p → Steps p p
Steps-refl p h = record {
  still = h;
  content = refl;
  forward = omega arith;
  shrinks = omega arith;
  kept = λ k. k;
}

pub Steps-trans : {p q r : Parser} → Steps p q → Steps q r → Steps p r
Steps-trans a b = record {
  still = b.still;
  content = b.content ∙ a.content;
  forward = omega (arith, a.forward, b.forward);
  shrinks = omega (arith, a.shrinks, b.shrinks);
  kept = λ k. b.kept (a.kept k);
}

-- What `advance` does to the tokens that are left.
pub record Advanced (p q : Parser) : Type 0 where
  pub steps : Steps p q
  pub taken : check TokenKind.eof p ≡ false → rank q < rank p

-- The parser with the next token.
abbrev with_token : Parser → Token → Lexer → Parser
with_token p t l = record p { lexer = l; current = t; previous = p.current }

-- The end of the input.
with_eof :
    (p : Parser) (t : Token) (l : Lexer)
    → IsParser p
    → Moves p.lexer l
    → t.kind ≡ TokenKind.eof
    → l.cursor ≡ length p.lexer.content
    → Advanced p (with_token p t l)
unfolding check
with_eof p t l h m k e =
    let same = ap length m.content in
    let last : kind_eq t.kind TokenKind.eof ≡ true = rw k (unfold kind_eq in refl) in
    record {
      steps = record {
        still = record {
          inside = Moves-IsInside m;
          at_end = λ _. omega (arith, e, same);
          flagged = h.flagged;
        };
        content = m.content;
        forward = m.forward;
        shrinks = rw last (omega arith);
        kept = λ z. z;
      };
      taken = λ more. rw (last, more) (omega arith);
    }

-- Another token.
with_more :
    (p : Parser) (t : Token) (l : Lexer)
    → IsParser p
    → TokenIn p.lexer (t, l)
    → Advanced p (with_token p t l)
unfolding check
with_more p t l h k =
    let same = ap length k.moves.content in
    let more : kind_eq t.kind TokenKind.eof ≡ false = kind_eq_eof-ne t.kind k.not_eof in
    let moved : p.lexer.cursor < l.cursor = omega (arith, k.starts, k.nonempty, k.ends) in
    let before : kind_eq p.current.kind TokenKind.eof ≡ false =
      elim (Bool-cases (kind_eq p.current.kind TokenKind.eof)) [
        | inl e ↦ absurd (omega (arith, moved, h.at_end e, k.moves.inside))
        | inr e ↦ e
      ] in
    record {
      steps = record {
        still = record {
          inside = Moves-IsInside k.moves;
          at_end = λ e. cc (e, more);
          flagged = h.flagged;
        };
        content = k.moves.content;
        forward = k.moves.forward;
        shrinks = rw (more, before) (omega (arith, moved, same, k.moves.inside));
        kept = λ z. z;
      };
      taken = λ _. rw (more, before) (omega (arith, moved, same, k.moves.inside));
    }

pub advance-Advanced : (p : Parser) → IsParser p → Advanced p (advance p)
unfolding advance
advance-Advanced p h =
    let r = lexer_next_token p.lexer in
    elim (lexer_next_token_cases p.lexer h.inside) [
      | inl (kind, start, end, source, cursor) ↦
          with_eof p r.0 r.1 h (lexer_next_token-Moves p.lexer h.inside) kind cursor
      | inr k ↦ with_more p r.0 r.1 h k
    ]

pub if-Steps : (t : Bool) {p a b : Parser} → Steps p a → Steps p b → Steps p (if t then a else b)
if-Steps true h k = h
if-Steps false h k = k

pub error_at-Steps :
    (span : Span) (msg : Bytes) (p : Parser) → IsParser p → Steps p (error_at span msg p)
unfolding error_at check
error_at-Steps span msg p h = if-Steps p.panic_mode (Steps-refl p h) (record {
  still = record { inside = h.inside; at_end = h.at_end; flagged = λ _. refl };
  content = refl;
  forward = omega arith;
  shrinks = omega arith;
  kept = λ _. refl;
})

-- A skipping loop from `p` came to its end: behind it the test holds, or the input is at its end.
pub data Skipped (stop : Parser → Bool) (p : Parser) : Outcome (Unit {0}) → Type 0 where
  skipped :
      {q : Parser}
      → Steps p q
      → (check TokenKind.eof q || stop q) ≡ true
      → q.panic_mode ≡ p.panic_mode
      → Skipped stop p (done tt q)

skip_more :
    {stop : Parser → Bool} {p q : Parser} {o : Outcome (Unit {0})}
    → Steps p q
    → q.panic_mode ≡ p.panic_mode
    → Skipped stop q o
    → Skipped stop p o
skip_more s e (skipped t stops same) = skipped (Steps-trans s t) stops (same ∙ e)

advance-panic_mode : (p : Parser) → (advance p).panic_mode ≡ p.panic_mode
unfolding advance
advance-panic_mode p = refl

-- A loop with more fuel than tokens stops where it should, or at the end of the input.
pub skip_until-Skipped :
    (fuel : ℕ) (stop : Parser → Bool) (p : Parser)
    → IsParser p
    → rank p < fuel
    → Skipped stop p (skip_until fuel stop p)
unfolding skip_until
skip_until-Skipped zero stop p h k = absurd (omega (arith, k))
skip_until-Skipped (suc fuel) stop p h k = elim (Bool-cases (check TokenKind.eof p || stop p)) [
  | inl e ↦ rw e (skipped (Steps-refl p h) e refl)
  | inr e ↦
      let a = advance-Advanced p h in
      rw e (
        skip_more a.steps (advance-panic_mode p) (
          skip_until-Skipped fuel stop (advance p) a.steps.still
            (omega (arith, k, a.taken (ground (arith, e))))))
]

pub quiet-Steps : (p : Parser) → IsParser p → Steps p (record p { panic_mode = false })
unfolding check
quiet-Steps p h = record {
  still = record { inside = h.inside; at_end = h.at_end; flagged = λ e. cc };
  content = refl;
  forward = omega arith;
  shrinks = omega arith;
  kept = λ z. z;
}
