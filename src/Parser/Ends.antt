-- ===== src/Parser/Ends.antt =====
-- Routines of compiler/src/parser.c that come to an end: on a parser in order with at most so many
-- tokens left, they finish or run over an array, and never out of fuel.
pub mod Types
pub mod Primary
pub mod Expr
pub mod Stmt
pub mod Knot
pub mod Decl
pub mod Whole
use q.Common.{
  ℕ, zero, suc, ◌+◌, ◌≤◌, ◌<◌, Bool, true, false, List, [], ◌∷◌, Bytes, ◌&&◌, not, ◌≡◌, refl, inl,
  inr, arith, Bool-cases, if◌then◌else◌,
}
use q.Parser.Loops.{closes, push, comma_list, capped_list}
use q.Parser.State.{
  Parser, Outcome, done, overrun, no_fuel, Parse, bind, ◌>>=◌, ◌>>◌, pure, look, advance, step,
  check, on_match, on_check, first_match, error_current, expect, rank,
}
use q.Parser.Steps.{
  IsParser, Steps, Steps-refl, Steps-trans, advance-Advanced, error_at-Steps, if-Steps,
}
use q.Token.Kind.{TokenKind, kind_eq}

pub kind_eq-other :
    (a k : TokenKind)
    → kind_eq a k ≡ true
    → kind_eq k TokenKind.eof ≡ false
    → kind_eq a TokenKind.eof ≡ false
unfolding kind_eq
kind_eq-other a k h e = ground arith

-- The outcome of a routine that was called in state `p`.
pub data Fine {A : Type 0} (p : Parser) : Outcome A → Type 0 where
  finished : {a : A} {q : Parser} → Steps p q → Fine p (done a q)
  beyond : Fine p overrun

-- A routine that ends when at most `b` tokens are left.
pub record Ends {A : Type 0} (b : ℕ) (f : Parse A) : Type 0 where
  pub run : (p : Parser) → IsParser p → rank p ≤ b → Fine p (f p)

module _ {A B : Type 0} {b : ℕ} where
  bind-Fine :
      {p : Parser} {o : Outcome A} {f : A → Parse B}
      → rank p ≤ b
      → Fine p o
      → ((a : A) → Ends b (f a))
      → Fine p (bind o f)
  bind-Fine h beyond k = beyond
  bind-Fine {p} h (finished {a} {q} s) k = rest ((k a).run q s.still (omega (arith, s.shrinks)))
    where
      rest : {o : Outcome B} → Fine q o → Fine p o
      rest (finished t) = finished (Steps-trans s t)
      rest beyond = beyond

  pub bind-Ends :
      {f : Parse A} {g : A → Parse B} → Ends b f → ((a : A) → Ends b (g a)) → Ends b (f >>= g)
  bind-Ends h k = record { run = λ p i j. bind-Fine j (h.run p i j) k }

  pub then-Ends : {f : Parse A} {g : Parse B} → Ends b f → Ends b g → Ends b (f >> g)
  then-Ends h k = bind-Ends h (λ _. k)

module _ {A : Type 0} where
  if-Fine :
      (v : Bool) {p : Parser} {x y : Outcome A} → Fine p x → Fine p y → Fine p (if v then x else y)
  if-Fine true h k = h
  if-Fine false h k = k

  from-Fine : {p q : Parser} {o : Outcome A} → Steps p q → Fine q o → Fine p o
  from-Fine s (finished t) = finished (Steps-trans s t)
  from-Fine s beyond = beyond

module _ {A : Type 0} {b : ℕ} where
  pub pure-Ends : {a : A} → Ends b (pure a)
  pure-Ends = record { run = λ p i j. finished (Steps-refl p i) }

  pub look-Ends : {f : Parser → Parse A} → ((p : Parser) → Ends b (f p)) → Ends b (look f)
  look-Ends h = record { run = λ p i j. (h p).run p i j }

  pub overrun-Ends : Ends {A = A} b (λ p. overrun)
  overrun-Ends = record { run = λ p i j. beyond }

  -- A test on the state.
  pub if-Ends :
      (t : Parser → Bool) {f g : Parse A}
      → Ends b f
      → Ends b g
      → Ends b (λ p. if t p then f p else g p)
  if-Ends t h k = record { run = λ p i j. if-Fine (t p) (h.run p i j) (k.run p i j) }

  -- A test on something else.
  pub when-Ends : (v : Bool) {f g : Parse A} → Ends b f → Ends b g → Ends b (if v then f else g)
  when-Ends true h k = h
  when-Ends false h k = k

  pub on_check-Ends :
      (kind : TokenKind) {this other : Parse A}
      → Ends b this
      → Ends b other
      → Ends b (on_check kind this other)
  unfolding on_check
  on_check-Ends kind h k = record {
    run = λ p i j. if-Fine (check kind p) (h.run p i j) (k.run p i j);
  }

  -- What follows a token has one token less.
  pub after_token :
      {f : Parse A}
      → ((c : ℕ) → c < b → Ends c f)
      → (p : Parser) → IsParser p
      → rank p ≤ b
      → check TokenKind.eof p ≡ false
      → Fine p (f (advance p))
  after_token {f} h p i j e =
      let a = advance-Advanced p i in
      from-Fine a.steps (
        (h (rank (advance p)) (omega (arith, a.taken e))).run (advance p) a.steps.still
          (omega arith))

  pub on_match-Fine :
      (kind : TokenKind) {this : Parse A} (other : Parse A) (p : Parser)
      → IsParser p
      → rank p ≤ b
      → kind_eq kind TokenKind.eof ≡ false
      → ((c : ℕ) → c < b → Ends c this)
      → Fine p (other p)
      → Fine p (on_match kind this other p)
  unfolding on_match check
  on_match-Fine kind {this} other p i j e h k = elim (Bool-cases (kind_eq p.current.kind kind)) [
    | inl at ↦ rw at (after_token h p i j (kind_eq-other p.current.kind kind at e))
    | inr away ↦ rw away k
  ]

  pub on_match-Ends :
      (kind : TokenKind) {this other : Parse A}
      → kind_eq kind TokenKind.eof ≡ false
      → ((c : ℕ) → c < b → Ends c this)
      → Ends b other
      → Ends b (on_match kind this other)
  on_match-Ends kind {other = other} e h k = record {
    run = λ p i j. on_match-Fine kind other p i j e h (k.run p i j);
  }

-- The rows of a run of `match`: none is at the end of the input, and each ends.
unfoldable pub none_at_eof : {A : Type 0} → List (TokenKind × Parse A) → Bool
none_at_eof [] = true
none_at_eof ((kind, this) ∷ rows) = not (kind_eq kind TokenKind.eof) && none_at_eof rows

infixr 5 ◌&◌
pub data AllEnd {A : Type 0} (c : ℕ) : List (TokenKind × Parse A) → Type 0 where
  no_rows : AllEnd c []
  ◌&◌ :
      {kind : TokenKind} {this : Parse A} {rows : List (TokenKind × Parse A)}
      → Ends c this
      → AllEnd c rows
      → AllEnd c ((kind, this) ∷ rows)

first_row :
    {A : Type 0} {c : ℕ} {kind : TokenKind} {this : Parse A} {rows : List (TokenKind × Parse A)}
    → AllEnd c ((kind, this) ∷ rows)
    → Ends c this
first_row (h & _) = h

other_rows :
    {A : Type 0} {c : ℕ} {kind : TokenKind} {this : Parse A} {rows : List (TokenKind × Parse A)}
    → AllEnd c ((kind, this) ∷ rows)
    → AllEnd c rows
other_rows (_ & h) = h

module _ {A : Type 0} {b : ℕ} where
  pub first_match-Ends :
      (rows : List (TokenKind × Parse A)) {other : Parse A}
      → none_at_eof rows ≡ true
      → ((c : ℕ) → c < b → AllEnd c rows)
      → Ends b other
      → Ends b (first_match rows other)
  unfolding none_at_eof
  first_match-Ends [] e h k = k
  first_match-Ends ((kind, this) ∷ rows) e h k =
      on_match-Ends kind (ground (arith, e)) (λ c l. first_row (h c l))
        (first_match-Ends rows (ground (arith, e)) (λ c l. other_rows (h c l)) k)

module _ {b : ℕ} where
  pub step-Ends : Ends b step
  step-Ends = record { run = λ p i j. finished (advance-Advanced p i).steps }

  pub expect-Ends : (kind : TokenKind) (msg : Bytes) → Ends b (expect kind msg)
  unfolding expect
  expect-Ends kind msg = record {
    run = λ p i j.
        finished (if-Steps (check kind p) (advance-Advanced p i).steps (error_at-Steps _ msg p i));
  }

module _ {A : Type 0} {b : ℕ} where
  push-Ends : (x : A) {rest : Parse (List A)} → Ends b rest → Ends b (push x rest)
  push-Ends x h = bind-Ends h (λ xs. pure-Ends)

  pub comma_list-Ends :
      (room : ℕ) (close : TokenKind) (msg : Bytes) {elem : Parse A} (first : Bool)
      → Ends b elem
      → Ends b (comma_list room close msg elem first)
  unfolding comma_list
  comma_list-Ends zero close msg first h = if-Ends (closes close) pure-Ends overrun-Ends
  comma_list-Ends (suc room) close msg first h = if-Ends (closes close) pure-Ends (
      bind-Ends (when-Ends first pure-Ends (expect-Ends _ _))
        λ _. bind-Ends h (λ x. push-Ends x (comma_list-Ends room close msg false h)))

  pub capped_list-Ends :
      (room : ℕ) (close : TokenKind) {elem : Parse A}
      → Ends b elem
      → Ends b (capped_list room close elem)
  unfolding capped_list
  capped_list-Ends zero close h = record { run = λ p i j. finished (Steps-refl p i) }
  capped_list-Ends (suc room) close h =
      if-Ends (closes close) pure-Ends
        (bind-Ends h (λ x. push-Ends x (capped_list-Ends room close h)))
