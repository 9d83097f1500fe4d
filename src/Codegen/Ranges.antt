-- ===== src/Codegen/Ranges.antt =====
-- The loops over ranges of compiler/src/codegen.c.
use q.Ast.{AstNode, bin_range, bin_range_inclusive, binary_op, for_loop}
use q.Codegen.Expr.{expr_emit}
use q.Codegen.Program.{emitters}
use q.Common.{ℕ, suc, Bytes, ◌≡◌, refl}
use q.Token.Kind.{Span}

-- The text of a loop over a range is the same whatever the range ends with, and whether it takes its end
-- in or not.
pub for_range-end :
    (float_text : Bytes → Bytes) (fuel : ℕ) (span inner : Span) (name label : Bytes)
    (start end other body : AstNode)
    → (emitters float_text (suc (suc fuel))).cg_expr
        (for_loop span name (binary_op inner bin_range start end) body label)
      ≡ (emitters float_text (suc (suc fuel))).cg_expr
          (for_loop span name (binary_op inner bin_range_inclusive start other) body label)
unfolding emitters expr_emit
for_range-end float_text fuel span inner name label start end other body = refl
