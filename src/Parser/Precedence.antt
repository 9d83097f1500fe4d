-- ===== src/Parser/Precedence.antt =====
-- `parse_binary` of compiler/src/parser.c against a grammar of levels: its operators are grouped by
-- `get_precedence`, and those of one precedence to the left.
use q.Ast.{AstNode, span_of, AstType, binary_op, cast}
use q.Common.{
  ℕ, zero, suc, ◌+◌, ◌≤◌, ◌<◌, true, false, leb, ◌≡◌, refl, subst, inl, inr, arith, Bool-cases,
}
use q.Parser.Expr.{get_precedence, token_to_binop, parse_postfix, binary_loop, binary_body}
use q.Parser.Knot.{routines}
use q.Parser.Returns.{OnDone, bind-OnDone, from-OnDone}
use q.Parser.State.{Parser, done, advance, check, on_match, rank}
use q.Parser.Types.{Routines}
use q.Token.Kind.{TokenKind, kind_eq}

-- From `p` to `q` stands the expression `n`, whose own operators bind tighter than `k`. An operator of
-- precedence `k + 1` has a left operand of level `k` and a right operand of level `k + 1`.
pub data Expr : ℕ → Parser → AstNode → Parser → Type 0 where
  operand :
      {k : ℕ} {p q : Parser} {n : AstNode} (fuel : ℕ)
      → parse_postfix (routines fuel) p ≡ done n q
      → Expr k p n q
  grouped :
      {k i : ℕ} {p q s : Parser} {l r : AstNode}
      → k ≤ i
      → get_precedence q.current.kind ≡ suc i
      → check TokenKind.kw_as q ≡ false
      → Expr i p l q
      → Expr (suc i) (advance q) r s
      → Expr k p (binary_op (span_of l) (token_to_binop q.current.kind) l r) s
  casted :
      {k i : ℕ} {p q s : Parser} {l : AstNode} {t : AstType} (fuel : ℕ)
      → k ≤ i
      → get_precedence q.current.kind ≡ suc i
      → check TokenKind.kw_as q ≡ true
      → Expr i p l q
      → (routines fuel).parse_type (advance q) ≡ done t s
      → Expr k p (cast (span_of l) l t) s

-- What `parse_binary` promises when it returns: an expression of its level, behind which no operator of
-- the level stands.
pub record Parsed (k : ℕ) (p : Parser) (n : AstNode) (q : Parser) : Type 0 where
  pub expr : Expr k p n q
  pub stops : get_precedence q.current.kind ≤ k

-- What the loop has in hand: an operand for the operator that comes, and for its own level.
record Holds (k : ℕ) (p : Parser) (n : AstNode) (q : Parser) : Type 0 where
  now : Expr k p n q
  next : (i : ℕ) → i < get_precedence q.current.kind → Expr i p n q

get_precedence-bound : (kind : TokenKind) → get_precedence kind ≤ 12
unfolding get_precedence
get_precedence-bound kind = ground arith

as_precedence : (kind : TokenKind) → kind_eq kind TokenKind.kw_as ≡ true → get_precedence kind ≡ 12
unfolding get_precedence kind_eq
as_precedence kind h = ground arith

-- The recursive calls keep the promise.
abbrev Promised : Routines → Type 0
Promised r = (k : ℕ) (p : Parser) → OnDone (Parsed k p) (r.parse_binary k p)

module _ (n k : ℕ) (p : Parser) where
  -- Behind an operator, the loop holds the whole.
  grouped-Holds :
      (i : ℕ) {q s : Parser} {l r : AstNode}
      → k ≤ i
      → get_precedence q.current.kind ≡ suc i
      → check TokenKind.kw_as q ≡ false
      → Expr i p l q
      → Parsed (suc i) (advance q) r s
      → Holds k p (binary_op (span_of l) (token_to_binop q.current.kind) l r) s
  grouped-Holds i e g a x y = record {
    now = grouped e g a x y.expr;
    next = λ j l. grouped (omega (arith, l, y.stops)) g a x y.expr;
  }

  casted-Holds :
      (i : ℕ) {q s : Parser} {l : AstNode} {t : AstType}
      → k ≤ i
      → get_precedence q.current.kind ≡ suc i
      → check TokenKind.kw_as q ≡ true
      → Expr i p l q
      → (routines n).parse_type (advance q) ≡ done t s
      → Holds k p (cast (span_of l) l t) s
  unfolding check
  casted-Holds i {q} {s} e g a x y =
      let top = as_precedence q.current.kind a in
      record {
        now = casted n e g a x y;
        next =
            λ j l. casted n (omega (arith, l, g, top, get_precedence-bound s.current.kind)) g a x y;
      }

-- A number above another is the successor of one not below it.
above : (k j : ℕ) → k < j → (i : ℕ) × (j ≡ suc i) × (k ≤ i)
above k zero h = absurd (omega (arith, h))
above k (suc i) h = (i, refl, omega (arith, h))

module _ (n : ℕ) (h : Promised (routines n)) (k : ℕ) (p : Parser) where
  right :
      {r : AstNode} {s : Parser} (q : Parser) (i : ℕ) {j : ℕ}
      → j ≡ suc i
      → (routines n).parse_binary j q ≡ done r s
      → Parsed (suc i) q r s
  right {r} {s} q i {j} g y = subst (λ x. Parsed x q r s) g (from-OnDone (Parsed j q) (h j q) y)

  binary_loop-OnDone :
      (fuel : ℕ) (l : AstNode) (q : Parser)
      → Holds k p l q
      → OnDone (Parsed k p) (binary_loop (routines n) fuel k l q)
  unfolding binary_loop on_match
  binary_loop-OnDone zero l q a = tt
  binary_loop-OnDone (suc fuel) l q a = elim (Bool-cases (leb (get_precedence q.current.kind) k)) [
    | inl e ↦ rw e (record { expr = a.now; stops = ground (arith, e) })
    | inr e ↦
        let (i, g, below) = above k (get_precedence q.current.kind) (ground (arith, e)) in
        let left = a.next i (omega (arith, g)) in
        rw e (elim (Bool-cases (check TokenKind.kw_as q)) [
          | inl e_as ↦ rw e_as (
              bind-OnDone (Parsed k p) _ _
                λ t s y. binary_loop-OnDone fuel _ s (casted-Holds n k p i below g e_as left y))
          | inr e_as ↦ rw e_as (
              bind-OnDone (Parsed k p) _ _ λ r s y.
                binary_loop-OnDone fuel _ s
                  (grouped-Holds n k p i below g e_as left (right (advance q) i g y)))
        ])
  ]

module _ (n : ℕ) (h : Promised (routines n)) where
  binary_body-OnDone : (k : ℕ) (p : Parser) → OnDone (Parsed k p) (binary_body (routines n) k p)
  unfolding binary_body
  binary_body-OnDone k p = bind-OnDone (Parsed k p) _ _ λ l q e.
      binary_loop-OnDone n h k p (rank q + 1) l q
        (record { now = operand n e; next = λ i b. operand n e })

routines-Promised : (n : ℕ) → Promised (routines n)
unfolding routines
routines-Promised zero k p = tt
routines-Promised (suc n) k p = binary_body-OnDone n (routines-Promised n) k p

-- When `parse_binary` returns, it has read an expression of its level in the grammar of precedences, and
-- the next token is no operator that binds tighter than the level: binary operators are grouped by
-- precedence, and to the left within one.
pub parse_binary-Parsed :
    (fuel k : ℕ) {p q : Parser} {n : AstNode}
    → (routines fuel).parse_binary k p ≡ done n q
    → Parsed k p n q
parse_binary-Parsed fuel k {p} e = from-OnDone (Parsed k p) (routines-Promised fuel k p) e
