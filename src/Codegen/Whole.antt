-- ===== src/Codegen/Whole.antt =====
-- The routines of compiler/src/codegen.c on enough fuel, and what they do to the state.
use q.Ast.{AstNode, null_node, block}
use q.Codegen.Balance.{Kept, Held}
use q.Codegen.Keeps.Block.{block_emit-Keeps, stmt_emit-Grows}
use q.Codegen.Keeps.Decl.{decl_emit-Grows}
use q.Codegen.Keeps.Expr.{expr_emit-Keeps}
use q.Codegen.Keeps.{Balanced, type_emit-Keeps, block_turn, decl_turn, block-Keeps}
use q.Codegen.Program.{emitters, codegen_init, cg_preamble}
use q.Codegen.Shape.{Placed, weight}
use q.Codegen.State.{CodeGen}
use q.Common.{ℕ, zero, suc, ◌+◌, ◌≤◌, ◌<◌, some, Bytes, ◌≡◌, refl, arith}

block_cost : (n : AstNode) → 0 < weight n + block_turn n
unfolding weight
block_cost (block _ ns n) = omega arith
block_cost n = omega arith

decl_cost : (n : AstNode) → 0 < weight n + decl_turn n
unfolding weight
decl_cost null_node = omega arith
decl_cost n = omega arith

emitters-Balanced :
    (float_text : Bytes → Bytes) (fuel : ℕ) → Balanced fuel (emitters float_text fuel)
unfolding emitters
emitters-Balanced float_text zero = record {
  type = λ t p w. absurd (omega (arith, w));
  expr = λ n p w. absurd (omega (arith, w));
  block = λ n p w. absurd (omega (arith, w, block_cost n));
  stmt = λ n l p w. absurd (omega (arith, w));
  decl = λ n l p w. absurd (omega (arith, w, decl_cost n));
}
emitters-Balanced float_text (suc fuel) =
    let h = emitters-Balanced float_text fuel in
    record {
      type = λ t p w. type_emit-Keeps h t p (omega (arith, w));
      expr = λ n p w. expr_emit-Keeps h n p (omega (arith, w));
      block = λ n p w. block_emit-Keeps h n p w;
      stmt = λ n l p w. stmt_emit-Grows h n l p (omega (arith, w));
      decl = λ n l p w. decl_emit-Grows h n l p w;
    }

-- On a tree in whose blocks, and `impl` methods, statements and declarations stand, a fuel of three for
-- each node and type, and two more, is enough, in every state: `cg_expr` and `cg_block` return, and have
-- only added text, at the same indentation and with the same deferred expressions after as before.
pub emitters-Held :
    (float_text : Bytes → Bytes) (fuel : ℕ) (n : AstNode) (s : CodeGen)
    → Placed n
    → weight n + 2 ≤ fuel
    → Held (Kept s) ((emitters float_text fuel).cg_expr n s)
      × Held (Kept s) ((emitters float_text fuel).cg_block n s)
emitters-Held float_text fuel n s p w =
    let h = emitters-Balanced float_text fuel in
    ((h.expr n p (omega (arith, w))).run s, (block-Keeps h n p w).run s)

preamble_returns : (start : CodeGen) × (cg_preamble codegen_init ≡ some start)
preamble_returns = (_, refl)
