-- ===== src/Parser/Ends/Knot.antt =====
-- With three units of fuel for each token that is left, the mutual recursion of compiler/src/parser.c
-- comes to an end.
use q.Common.{ℕ, zero, suc, ◌+◌, ◌*◌, ◌≤◌, refl, arith}
use q.Parser.Ends.Expr.{binary_body-Ends}
use q.Parser.Ends.Primary.{OpensAt, primary_body-Ends}
use q.Parser.Ends.Stmt.{Below, block_body-Ends, block_body-opens}
use q.Parser.Ends.Types.{Ready, type_body-Ends}
use q.Parser.Ends.{Ends, kind_eq-other}
use q.Parser.Knot.{routines}
use q.Parser.State.{check}
use q.Parser.Types.{Routines}
use q.Token.Kind.{TokenKind, kind_eq}

-- What the fuel is enough for.
record Fuelled (n b : ℕ) : Type 0 where
  type : 3 * b + 1 ≤ n → Ends b (routines n).parse_type
  primary : 3 * b + 1 ≤ n → Ends b (routines n).parse_primary
  binary : 3 * b + 2 ≤ n → (min_prec : ℕ) → Ends b ((routines n).parse_binary min_prec)
  block : 3 * b + 3 ≤ n → Ends b (routines n).parse_block
  opens : 3 * b ≤ n → OpensAt b (routines n)

module _ (n : ℕ) (h : (b : ℕ) → Fuelled n b) where
  fuelled-Ready : (b : ℕ) → 3 * b + 3 ≤ n → Ready b (routines n)
  fuelled-Ready b l = record {
    type = (h b).type (omega (arith, l));
    primary = (h b).primary (omega (arith, l));
    binary = (h b).binary (omega (arith, l));
    block = (h b).block l;
  }

  fuelled-Below : (b : ℕ) → 3 * b + 2 ≤ n → Below b (routines n)
  fuelled-Below b l = record {
    here = (h b).binary l;
    less = λ c k. fuelled-Ready c (omega (arith, l, k));
  }

-- A brace is a token.
nothing_opens : {b : ℕ} {r : Routines} → b ≤ 0 → OpensAt b r
unfolding check kind_eq
nothing_opens l = record {
  opens = λ p i j e.
      let more = kind_eq-other p.current.kind TokenKind.lbrace e refl in
      absurd (omega (arith, l, (rw more at j)));
}

routines-Fuelled : (n b : ℕ) → Fuelled n b
unfolding routines
routines-Fuelled zero b = record {
  type = λ l. absurd (omega (arith, l));
  primary = λ l. absurd (omega (arith, l));
  binary = λ l. absurd (omega (arith, l));
  block = λ l. absurd (omega (arith, l));
  opens = λ l. nothing_opens (omega (arith, l));
}
routines-Fuelled (suc n) b =
    let below : (c : ℕ) → 3 * c + 3 ≤ n → Ready c (routines n) =
      fuelled-Ready n (routines-Fuelled n) in
    record {
      type = λ l. type_body-Ends (λ c k. below c (omega (arith, l, k)));
      primary = λ l.
          primary_body-Ends (λ c k. below c (omega (arith, l, k)))
            ((routines-Fuelled n b).opens (omega (arith, l)));
      binary = λ l min_prec.
          binary_body-Ends min_prec ((routines-Fuelled n b).primary (omega (arith, l)))
            (λ c k. below c (omega (arith, l, k)));
      block = λ l. block_body-Ends (fuelled-Below n (routines-Fuelled n) b (omega (arith, l)));
      opens = λ l. record {
        opens =
            block_body-opens (λ c j. fuelled-Below n (routines-Fuelled n) c (omega (arith, l, j)));
      };
    }

-- The routines on this much fuel end when at most `b` tokens are left.
pub routines-Ready : (n b : ℕ) → 3 * b + 3 ≤ n → Ready b (routines n)
routines-Ready n = fuelled-Ready n (routines-Fuelled n)
