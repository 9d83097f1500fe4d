-- ===== src/Parser/Ends/Expr.antt =====
-- `parse_postfix` and `parse_binary` of compiler/src/parser.c come to an end.
use q.Ast.{AstNode, span_of, binary_op, error_prop}
use q.Common.{
  ℕ, zero, suc, ◌+◌, ◌<◌, true, false, Bytes, leb, ◌≡◌, refl, ap, arith, inl, inr, Bool-cases,
}
use q.Parser.Ends.Types.{Ready}
use q.Parser.Ends.{
  finished, Ends, bind-Ends, then-Ends, pure-Ends, look-Ends, on_match-Fine, on_match-Ends,
  first_match-Ends, ◌&◌, no_rows, none_at_eof, step-Ends, expect-Ends, comma_list-Ends, after_token,
}
use q.Parser.Expr.{
  get_precedence, token_to_binop, call_args, call_suffix, member_suffix, dot_suffix, index_suffix,
  postfix_loop, postfix_rows, parse_postfix, binary_loop, binary_body,
}
use q.Parser.State.{check, rank, name_or_kind}
use q.Parser.Steps.{Steps-refl}
use q.Parser.Types.{Routines}
use q.Token.Kind.{TokenKind, kind_eq, Span}
use q.Token.Lookup.{kind_of_code_zero}

module _ {b : ℕ} {r : Routines} where
  call_args-Ends : Ready b r → Ends b (call_args r)
  call_args-Ends h =
      bind-Ends (comma_list-Ends 128 _ _ true (h.binary 0))
        λ args. then-Ends (expect-Ends _ _) pure-Ends

module _ {b : ℕ} {r : Routines} (start : Span) (e : AstNode) where
  call_suffix-Ends : Ready b r → Ends b (call_suffix r start e)
  call_suffix-Ends h = bind-Ends (call_args-Ends h) λ args. pure-Ends

  index_suffix-Ends : Ready b r → Ends b (index_suffix r start e)
  index_suffix-Ends h = bind-Ends (h.binary 0) λ idx. then-Ends (expect-Ends _ _) pure-Ends

  member_suffix-Ends :
      (name : Bytes) → ((c : ℕ) → c < b → Ready c r) → Ends b (member_suffix r start e name)
  unfolding kind_eq
  member_suffix-Ends name h =
      on_match-Ends _ refl (λ c k. bind-Ends (call_args-Ends (h c k)) λ args. pure-Ends) pure-Ends

  dot_suffix-Ends : ((c : ℕ) → c < b → Ready c r) → Ends b (dot_suffix r start e)
  dot_suffix-Ends h = look-Ends λ p. then-Ends step-Ends (member_suffix-Ends (name_or_kind p) h)

module _ {r : Routines} where
  below : {b : ℕ} → ((c : ℕ) → c < b → Ready c r) → (c : ℕ) → c < b → (d : ℕ) → d < c → Ready d r
  below h c k d l = h d (omega (arith, k, l))

  postfix_loop-Ends :
      (fuel : ℕ) {b : ℕ} (e : AstNode)
      → b < fuel
      → ((c : ℕ) → c < b → Ready c r)
      → Ends b (postfix_loop r fuel e)
  unfolding postfix_loop kind_eq none_at_eof
  postfix_loop-Ends zero e l h = absurd (omega (arith, l))
  postfix_loop-Ends (suc fuel) {b} e l h = look-Ends λ p.
      let again : (c : ℕ) → c < b → (x : AstNode) → Ends c (postfix_loop r fuel x) =
        λ c k x. postfix_loop-Ends fuel x (omega (arith, l, k)) (below h c k) in
      first_match-Ends (postfix_rows r p.current.span e (postfix_loop r fuel)) refl
        (λ c k.
          bind-Ends (call_suffix-Ends p.current.span e (h c k)) (again c k)
          & bind-Ends (dot_suffix-Ends p.current.span e (below h c k)) (again c k)
          & bind-Ends (index_suffix-Ends p.current.span e (h c k)) (again c k)
          & again c k (error_prop p.current.span e)
          & no_rows)
        pure-Ends

-- A token with a precedence is not the end of the input.
precedence-NotEof :
    (kind : TokenKind) (min_prec : ℕ)
    → leb (get_precedence kind) min_prec ≡ false
    → kind_eq kind TokenKind.eof ≡ false
unfolding get_precedence
precedence-NotEof kind min_prec h = elim (Bool-cases (kind_eq kind TokenKind.eof)) [
  | inl e ↦
      let none : get_precedence kind ≡ 0 = ap get_precedence (kind_of_code_zero kind e) in
      absurd (ground (arith, none, h))
  | inr e ↦ e
]

module _ {r : Routines} (min_prec : ℕ) where
  binary_loop-Ends :
      (fuel : ℕ) {b : ℕ} (left : AstNode)
      → b < fuel
      → ((c : ℕ) → c < b → Ready c r)
      → Ends b (binary_loop r fuel min_prec left)
  unfolding binary_loop kind_eq check
  binary_loop-Ends zero left l h = absurd (omega (arith, l))
  binary_loop-Ends (suc fuel) {b} left l h =
      let again : (c : ℕ) → c < b → (x : AstNode) → Ends c (binary_loop r fuel min_prec x) =
        λ c k x. binary_loop-Ends fuel x (omega (arith, l, k)) (below h c k) in
      record {
        run = λ p i j.
            let prec = get_precedence p.current.kind in
            elim (Bool-cases (leb prec min_prec)) [
              | inl e ↦ rw e (finished (Steps-refl p i))
              | inr e ↦ rw e (
                  on_match-Fine TokenKind.kw_as _ p i j refl
                    (λ c k. bind-Ends (h c k).type λ target. again c k _)
                    (after_token {f = λ q. _}
                      (λ c k. bind-Ends ((h c k).binary prec) λ right.
                        again c k
                          (binary_op (span_of left) (token_to_binop p.current.kind) left right))
                      p i j (precedence-NotEof p.current.kind min_prec e)))
            ];
      }

module _ {r : Routines} {b : ℕ} where
  parse_postfix-Ends :
      Ends b r.parse_primary → ((c : ℕ) → c < b → Ready c r) → Ends b (parse_postfix r)
  unfolding parse_postfix
  parse_postfix-Ends h k = bind-Ends h λ e. record {
    run = λ p i j.
        (postfix_loop-Ends (rank p + 1) {b = rank p} e (omega arith)
            (λ c l. k c (omega (arith, l, j)))).run
          p i (omega arith);
  }

  pub binary_body-Ends :
      (min_prec : ℕ)
      → Ends b r.parse_primary
      → ((c : ℕ) → c < b → Ready c r)
      → Ends b (binary_body r min_prec)
  unfolding binary_body
  binary_body-Ends min_prec h k = bind-Ends (parse_postfix-Ends h k) λ left. record {
    run = λ p i j.
        (binary_loop-Ends min_prec (rank p + 1) {b = rank p} left (omega arith)
            (λ c l. k c (omega (arith, l, j)))).run
          p i (omega arith);
  }
