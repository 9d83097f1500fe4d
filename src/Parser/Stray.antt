-- ===== src/Parser/Stray.antt =====
-- A list of parameters of compiler/src/parser.c that meets a token it cannot use.
use q.Ast.{inferred_type}
use q.Common.{
  ℕ, zero, suc, ◌==◌, Bool, true, false, ◌||◌, List, [], ◌∷◌, Bytes, ◌≡◌, refl, ap, ◌∙◌, codes,
  arith, inl, inr, Bool-cases, if◌then◌else◌,
}
use q.Parser.Decl.{Slot, fn_param}
use q.Parser.Knot.{routines}
use q.Parser.Loops.{closes, comma_list}
use q.Parser.State.{
  Parser, Outcome, done, overrun, check, on_match, on_check, error_at, expect, name_or_error,
}
use q.Parser.Types.{type_body, if_primitive, is_primitive_type, one_of}
use q.Token.Kind.{TokenKind, token_code, kind_eq, Span}

-- The tokens of which a list of parameters makes something.
abbrev pub usable : List TokenKind
usable =
    TokenKind.rparen ∷ TokenKind.eof ∷ TokenKind.comma ∷ TokenKind.identifier ∷ TokenKind.colon
    ∷ TokenKind.kw_self ∷ TokenKind.amp ∷ TokenKind.bang ∷ TokenKind.kw_ptr ∷ TokenKind.kw_own
    ∷ TokenKind.kw_slice ∷ TokenKind.lbracket ∷ TokenKind.kw_fn ∷ TokenKind.kw_self_type ∷ []

-- Another token.
pub record Stray (p : Parser) : Type 0 where
  pub unused : one_of p.current.kind usable ≡ false
  pub no_type : is_primitive_type p.current.kind ≡ false

-- In a panic, an error is not reported, and a token that is not there is not missed.
error_at-quiet :
    (span : Span) (msg : Bytes) (p : Parser) → p.panic_mode ≡ true → error_at span msg p ≡ p
unfolding error_at
error_at-quiet span msg p h = go _ p.panic_mode h
  where
    go : (q : Parser) (v : Bool) → v ≡ true → (if v then p else q) ≡ p
    go q true e = refl
    go q false e = absurd (ground (arith, e))

expect-misses :
    (kind : TokenKind) (msg : Bytes) (p : Parser)
    → check kind p ≡ false
    → expect kind msg p ≡ done tt (error_at p.current.span msg p)
unfolding expect
expect-misses kind msg p h = rw h refl

expect-quiet :
    (kind : TokenKind) (msg : Bytes) (p : Parser)
    → check kind p ≡ false
    → p.panic_mode ≡ true
    → expect kind msg p ≡ done tt p
expect-quiet kind msg p h k =
    expect-misses kind msg p h ∙ ap (done tt) (error_at-quiet p.current.span msg p k)

or_false : (a b : Bool) → (a || b) ≡ false → (a ≡ false) × (b ≡ false)
or_false a b h = (ground arith, ground arith)

or_true : (a b : Bool) → (a || b) ≡ true → a ≡ false → b ≡ true
or_true a b h k = ground arith

not_same : (a b c : ℕ) → (a == b) ≡ false → (c == b) ≡ true → (a == c) ≡ false
not_same a b c h k = ground arith

not_one_of :
    (k j : TokenKind) (kinds : List TokenKind)
    → one_of k kinds ≡ false
    → one_of j kinds ≡ true
    → kind_eq k j ≡ false
unfolding kind_eq
not_one_of k j [] h e = absurd (ground (arith, e))
not_one_of k j (x ∷ kinds) h e =
    let away = or_false (kind_eq k x) (one_of k kinds) h in
    elim (Bool-cases (kind_eq j x)) [
      | inl at ↦ not_same (token_code k) (token_code x) (token_code j) away.0 at
      | inr other ↦ not_one_of k j kinds away.1 (or_true (kind_eq j x) (one_of j kinds) e other)
    ]

module _ (n : ℕ) (p : Parser) (h : Stray p) where
  away : (j : TokenKind) → one_of j usable ≡ true → kind_eq p.current.kind j ≡ false
  away j e = not_one_of p.current.kind j usable h.unused e

  type_body-stuck :
      p.panic_mode ≡ true → type_body (routines n) p ≡ done (inferred_type p.current.span) p
  unfolding check type_body if_primitive on_match on_check kind_eq
  type_body-stuck k =
      rw
        (
          away TokenKind.bang refl,
          away TokenKind.amp refl,
          away TokenKind.kw_ptr refl,
          away TokenKind.kw_own refl,
          away TokenKind.kw_slice refl,
          away TokenKind.lbracket refl,
          h.no_type,
          away TokenKind.identifier refl,
          away TokenKind.kw_self_type refl,
          away TokenKind.kw_fn refl,
          error_at-quiet p.current.span (codes "expected type") p k,
        )
        refl

module _ (span : Span) (msg : Bytes) (p : Parser) where
  -- An error starts a panic, and leaves the token.
  error_at-panic_mode : (error_at span msg p).panic_mode ≡ true
  unfolding error_at
  error_at-panic_mode = elim (Bool-cases p.panic_mode) [ inl e ↦ rw e refl | inr e ↦ rw e refl ]

  error_at-current : (error_at span msg p).current ≡ p.current
  unfolding error_at
  error_at-current = elim (Bool-cases p.panic_mode) [ inl e ↦ rw e refl | inr e ↦ rw e refl ]

  error_at-Stray : Stray p → Stray (error_at span msg p)
  error_at-Stray h = record {
    unused = rw error_at-current h.unused;
    no_type = rw error_at-current h.no_type;
  }

-- The parser behind a parameter that is not there.
abbrev missed : Parser → Parser
missed p = error_at p.current.span (codes "expected parameter name") p

module _ (n : ℕ) (p : Parser) (h : Stray p) where
  fn_param-stuck : (s : Slot) × (fn_param (routines (suc n)) p ≡ done s (missed p))
  unfolding fn_param check routines kind_eq
  fn_param-stuck =
      let q = missed p in
      let k = error_at-Stray p.current.span (codes "expected parameter name") p h in
      let loud = error_at-panic_mode p.current.span (codes "expected parameter name") p in
      (
        record {
          name = name_or_error p;
          type = inferred_type q.current.span;
          is_pub = false;
          span = p.current.span;
        },
        rw
            (
              away n p h TokenKind.kw_self refl,
              away n p h TokenKind.amp refl,
              expect-misses TokenKind.identifier (codes "expected parameter name") p
                  (away n p h TokenKind.identifier refl),
              expect-quiet TokenKind.colon _ q (away n q k TokenKind.colon refl) loud,
              type_body-stuck n q k loud,
            )
            refl,
      )

module _ (n : ℕ) (p : Parser) (h : Stray p) where
  not_closed : closes TokenKind.rparen p ≡ false
  unfolding closes check kind_eq
  not_closed = rw (away n p h TokenKind.rparen refl, away n p h TokenKind.eof refl) refl

-- The parameters of a function.
abbrev pub params_from : ℕ → ℕ → Bool → Parser → Outcome (List Slot)
params_from n room first =
    comma_list room TokenKind.rparen (codes "expected ','") (fn_param (routines (suc n))) first

params_from-quiet :
    (n room : ℕ) (p : Parser) → Stray p → p.panic_mode ≡ true → params_from n room false p ≡ overrun
unfolding comma_list check kind_eq
params_from-quiet n zero p h k = rw (not_closed n p h) refl
params_from-quiet n (suc room) p h k =
    let same = error_at-quiet p.current.span (codes "expected parameter name") p k in
    rw
      (
        not_closed n p h,
        expect-quiet TokenKind.comma (codes "expected ','") p (away n p h TokenKind.comma refl) k,
        (fn_param-stuck n p h).1,
        same,
        params_from-quiet n room p h k,
      )
      refl

-- A list of parameters that stands at a token of which no parameter can be made is read until the array
-- of 64 is full, and behind its end.
pub params_from-overrun : (n : ℕ) (p : Parser) → Stray p → params_from n 64 true p ≡ overrun
unfolding comma_list
params_from-overrun n p h =
    let q = missed p in
    rw
      (
        not_closed n p h,
        (fn_param-stuck n p h).1,
        params_from-quiet n 63 q
            (error_at-Stray p.current.span (codes "expected parameter name") p h)
            (error_at-panic_mode p.current.span (codes "expected parameter name") p),
      )
      refl
