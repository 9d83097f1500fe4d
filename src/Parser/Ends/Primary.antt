-- ===== src/Parser/Ends/Primary.antt =====
-- `parse_primary` of compiler/src/parser.c comes to an end.
use q.Ast.{AstNode, UnaryOp}
use q.Common.{
  ℕ, zero, suc, ◌+◌, ◌≤◌, ◌<◌, Bool, true, false, Bytes, ◌≡◌, refl, arith, inl, inr, Bool-cases,
}
use q.Parser.Ends.Types.{Ready}
use q.Parser.Ends.{
  Fine, finished, Ends, bind-Ends, then-Ends, pure-Ends, look-Ends, when-Ends, if-Ends,
  overrun-Ends, on_check-Ends, on_match-Ends, first_match-Ends, AllEnd, ◌&◌, no_rows, none_at_eof,
  step-Ends, expect-Ends, comma_list-Ends, push-Ends,
}
use q.Parser.Loops.{closes}
use q.Parser.Primary.{
  paren_expr, else_part, if_body, loop_body, while_body, for_body, unsafe_body, prefix_expr,
  reference_expr, repeat_expr, more_elements, array_body, template, macro_body, segments, name_body,
  no_expr, keyword_rows, literal_rows, names, if_name, primary_body,
}
use q.Parser.State.{
  on_check, first_match, Parser, Outcome, check, rank, skip_until, name_or_kind, current_text,
}
use q.Parser.Steps.{
  Steps-trans, IsParser, advance-Advanced, error_at-Steps, Skipped, skipped, skip_until-Skipped,
}
use q.Parser.Types.{Routines}
use q.Token.Kind.{TokenKind, kind_eq, Span}

from-Skipped :
    {stop : Parser → Bool} {p : Parser} {o : Outcome (Unit {0})} → Skipped stop p o → Fine p o
from-Skipped (skipped s e same) = finished s

module _ {b : ℕ} where
  -- A loop to the closing parenthesis.
  pub skip-Ends : (stop : Parser → Bool) → Ends b (λ p. skip_until (rank p + 1) stop p)
  skip-Ends stop = record {
    run = λ p i j. from-Skipped (skip_until-Skipped (rank p + 1) stop p i (omega arith));
  }

module _ {b : ℕ} {r : Routines} (start : Span) (h : Ready b r) where
  paren_expr-Ends : Ends b (paren_expr r start)
  paren_expr-Ends = bind-Ends (h.binary 0) λ e. bind-Ends (expect-Ends _ _) λ _. pure-Ends

  loop_body-Ends : Ends b (loop_body r start)
  loop_body-Ends = bind-Ends h.block λ body. pure-Ends

  while_body-Ends : Ends b (while_body r start)
  while_body-Ends = bind-Ends (h.binary 0) λ c. bind-Ends h.block λ body. pure-Ends

  for_body-Ends : Ends b (for_body r start)
  for_body-Ends = look-Ends λ p. bind-Ends (expect-Ends _ _) λ _.
      bind-Ends (expect-Ends _ _)
        λ _. bind-Ends (h.binary 0) λ iterable. bind-Ends h.block λ body. pure-Ends

  unsafe_body-Ends : Ends b (unsafe_body r start)
  unsafe_body-Ends = bind-Ends h.block λ body. pure-Ends

  prefix_expr-Ends : (op : UnaryOp) → Ends b (prefix_expr r start op)
  prefix_expr-Ends op = bind-Ends h.primary λ e. pure-Ends

  repeat_expr-Ends : (value : AstNode) → Ends b (repeat_expr r start value)
  repeat_expr-Ends value =
      bind-Ends (h.binary 0) λ count. bind-Ends (expect-Ends _ _) λ _. pure-Ends

  more_elements-Ends : (first : AstNode) → Ends b (more_elements r start first)
  more_elements-Ends first =
      bind-Ends (comma_list-Ends 255 _ _ false (h.binary 0))
        λ rest. bind-Ends (expect-Ends _ _) λ _. pure-Ends

module _ {b : ℕ} {r : Routines} (start : Span) (h : (c : ℕ) → c ≤ b → Ready c r) where
  -- What holds behind one more token.
  under : (c : ℕ) → c < b → Ready c r
  under c k = h c (omega (arith, k))

  else_part-Ends : Ends b (else_part r start)
  unfolding kind_eq
  else_part-Ends =
      on_match-Ends _ refl (λ c k. on_check-Ends _ (under c k).primary (under c k).block) pure-Ends

  if_body-Ends : Ends b (if_body r start)
  if_body-Ends = bind-Ends ((h b (omega arith)).binary 0) λ c.
      bind-Ends (h b (omega arith)).block
        λ then_block. bind-Ends else_part-Ends λ else_block. pure-Ends

  reference_expr-Ends : Ends b (reference_expr r start)
  unfolding kind_eq
  reference_expr-Ends =
      on_match-Ends _ refl (λ c k. prefix_expr-Ends start (under c k) _)
        (prefix_expr-Ends start (h b (omega arith)) _)

  array_body-Ends : Ends b (array_body r start)
  unfolding kind_eq
  array_body-Ends = look-Ends λ p.
      when-Ends (closes TokenKind.rbracket p) (bind-Ends (expect-Ends _ _) λ _. pure-Ends) (
        bind-Ends ((h b (omega arith)).binary 0) λ first.
          on_match-Ends _ refl (λ c k. repeat_expr-Ends start (under c k) first)
            (more_elements-Ends start (h b (omega arith)) first))

module _ {b : ℕ} where
  template-Ends : (r : Routines) (start : Span) → Ends b (template r start)
  template-Ends r start =
      on_check-Ends _ (look-Ends λ p. then-Ends step-Ends (pure-Ends {a = current_text p}))
        pure-Ends

module _ {b : ℕ} (r : Routines) (start : Span) where
  macro_body-Ends : Ends b (macro_body r start)
  macro_body-Ends = bind-Ends (expect-Ends _ _) λ _.
      bind-Ends (template-Ends r start) λ text.
        then-Ends (skip-Ends (check TokenKind.rparen)) (then-Ends (expect-Ends _ _) pure-Ends)

module _ (r : Routines) (start : Span) where
  segments-Ends : {b : ℕ} (room : ℕ) → Ends b (segments r start room)
  unfolding segments kind_eq
  segments-Ends zero = if-Ends (check TokenKind.colon_colon) overrun-Ends pure-Ends
  segments-Ends (suc room) =
      on_match-Ends _ refl
        (λ c k.
          look-Ends λ q. bind-Ends step-Ends λ _. push-Ends (name_or_kind q) (segments-Ends room))
        pure-Ends

module _ {b : ℕ} (r : Routines) (start : Span) where
  name_body-Ends : (name : Bytes) → Ends b (name_body r start name)
  unfolding kind_eq
  name_body-Ends name =
      on_match-Ends _ refl (λ c k. macro_body-Ends r start)
        (on_check-Ends _ (bind-Ends (segments-Ends r start 31) λ rest. pure-Ends) pure-Ends)

  no_expr-Ends : Ends b (no_expr r start)
  no_expr-Ends = record {
    run = λ p i j.
        let e = error_at-Steps _ _ p i in
        finished (Steps-trans e (advance-Advanced _ e.still).steps);
  }

  if_name-Ends : Ends b (if_name r start)
  if_name-Ends = look-Ends λ p.
      when-Ends (names r start p)
        (look-Ends λ q. bind-Ends step-Ends λ _. name_body-Ends (name_or_kind q)) no_expr-Ends

-- A block at its brace.
pub record OpensAt (b : ℕ) (r : Routines) : Type 0 where
  pub opens :
      (p : Parser)
      → IsParser p
      → rank p ≤ b
      → check TokenKind.lbrace p ≡ true
      → Fine p (r.parse_block p)

module _ {b : ℕ} {r : Routines} (start : Span) (h : (c : ℕ) → c < b → Ready c r) where
  upto : (c : ℕ) → c < b → (d : ℕ) → d ≤ c → Ready d r
  upto c k d l = h d (omega (arith, k, l))

  literal_rows-AllEnd : (c : ℕ) → c < b → AllEnd c (literal_rows r start)
  literal_rows-AllEnd c k =
      look-Ends (λ p. pure-Ends)
      & look-Ends (λ p. pure-Ends)
      & look-Ends (λ p. pure-Ends)
      & look-Ends (λ p. pure-Ends)
      & look-Ends (λ p. pure-Ends)
      & pure-Ends
      & pure-Ends
      & pure-Ends
      & paren_expr-Ends start (h c k)
      & no_rows

  keyword_rows-AllEnd : (c : ℕ) → c < b → AllEnd c (keyword_rows r start)
  keyword_rows-AllEnd c k =
      if_body-Ends start (upto c k)
      & loop_body-Ends start (h c k)
      & while_body-Ends start (h c k)
      & for_body-Ends start (h c k)
      & unsafe_body-Ends start (h c k)
      & prefix_expr-Ends start (h c k) _
      & prefix_expr-Ends start (h c k) _
      & prefix_expr-Ends start (h c k) _
      & prefix_expr-Ends start (h c k) _
      & reference_expr-Ends start (upto c k)
      & array_body-Ends start (upto c k)
      & no_rows

  block_or_other :
      OpensAt b r
      → Ends b (
          on_check TokenKind.lbrace r.parse_block
            (first_match (keyword_rows r start) (if_name r start)))
  unfolding on_check kind_eq none_at_eof
  block_or_other o =
      let k : Ends b (first_match (keyword_rows r start) (if_name r start)) =
        first_match-Ends (keyword_rows r start) refl keyword_rows-AllEnd (if_name-Ends r start) in
      record {
        run = λ p i j. elim (Bool-cases (check TokenKind.lbrace p)) [
          | inl e ↦ rw e (o.opens p i j e)
          | inr e ↦ rw e (k.run p i j)
        ];
      }

module _ {b : ℕ} {r : Routines} where
  pub primary_body-Ends : ((c : ℕ) → c < b → Ready c r) → OpensAt b r → Ends b (primary_body r)
  unfolding primary_body kind_eq none_at_eof
  primary_body-Ends h o = look-Ends λ p.
      first_match-Ends (literal_rows r p.current.span) refl (literal_rows-AllEnd p.current.span h)
        (block_or_other p.current.span h o)
