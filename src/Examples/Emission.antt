-- ===== src/Examples/Emission.antt =====
-- The theorems of the code generator at small inputs.
use q.Ast.{
  AstNode, null_node, bin_shl, bin_range, bin_range_inclusive, assign_add, binary_op, block,
  for_loop, ident, return_stmt, node, no_nodes, defer_stmt, fn_decl, no_params, null_type,
  no_attributes,
}
use q.Codegen.Balance.{Held, Kept}
use q.Codegen.Program.{codegen_init, emitters}
use q.Codegen.Ranges.{for_range-end}
use q.Codegen.Shape.{weight, Placed}
use q.Codegen.Whole.{emitters-Held}
use q.Codegen.Capacity.{IsWriter}
use q.Codegen.Operators.{binop_str, assignop_str}
use q.Codegen.Spelling.{c_spelling, binop_str-c_spelling}
use q.Codegen.Text.{Call, write, writeln, deeper, nl, calls, text, cw_init-text}
use q.Codegen.Writer.{cw_init, c_string}
use q.Common.{false, refl, List, [], ◌∷◌, codes, ◌≡◌, arith}
use q.Parser.Operators.{assign_token}
use q.Token.Kind.{Span, token_kind_to_str}

abbrev small_calls : List Call
small_calls = write (codes "{") ∷ deeper ∷ nl ∷ writeln (codes "x;") ∷ []

cw_init-text_example :
    IsWriter (calls small_calls cw_init) × ((calls small_calls cw_init).buf ≡ text small_calls 0)
unfolding c_string
cw_init-text_example = cw_init-text small_calls (omega arith)

binop_str-c_spelling_example :
    (binop_str bin_shl ≡ c_spelling bin_shl)
    × (assignop_str assign_add ≡ token_kind_to_str (assign_token assign_add))
binop_str-c_spelling_example = binop_str-c_spelling bin_shl assign_add

abbrev at : Span
at = record { start = 0; end = 0; source_id = 0 }

abbrev returned : AstNode
returned = block at (node (return_stmt at (ident at (codes "a"))) no_nodes) null_node

emitters-Held_example :
    Held (Kept codegen_init) ((emitters (λ text. text) 11).cg_expr returned codegen_init)
    × Held (Kept codegen_init) ((emitters (λ text. text) 11).cg_block returned codegen_init)
unfolding weight Placed
emitters-Held_example =
    emitters-Held (λ text. text) 11 returned codegen_init ((refl, tt, tt), tt) (omega arith)

abbrev deferring : AstNode
deferring =
    block at
      (node (defer_stmt at (ident at (codes "b")))
        (node (return_stmt at (ident at (codes "a"))) no_nodes))
      null_node

abbrev function : AstNode
function =
    fn_decl at (codes "f") no_params null_type deferring no_attributes
      (record { is_pub = false; is_unsafe = false; is_const = false; is_interrupt = false })

for_range-end_example :
    (emitters (λ text. text) 9).cg_expr (
      for_loop at
        (codes "i")
        (binary_op at bin_range (ident at (codes "a")) (ident at (codes "b")))
        returned
        [])
    ≡ (emitters (λ text. text) 9).cg_expr (
        for_loop at
          (codes "i")
          (binary_op at bin_range_inclusive (ident at (codes "a")) (ident at (codes "c")))
          returned
          [])
for_range-end_example =
    for_range-end (λ text. text) 7 at at (codes "i") [] (ident at (codes "a"))
      (ident at (codes "b")) (ident at (codes "c")) returned
