-- ===== src/Codegen/State.antt =====
-- `CodeGen` of compiler/include/qpc/codegen.h, and the steps of which the emission of
-- compiler/src/codegen.c is made.
use q.Ast.{AstNode, AstType, null_node, null_type}
use q.Codegen.Writer.{CWriter, c_string, cw_write, cw_writef, cw_nl, cw_indent, cw_dedent}
use q.Common.{
  ℕ, zero, suc, ◌+◌, ◌/◌, ◌%◌, Bool, true, false, Option, some, none, List, [], ◌∷◌, Bytes, ltb,
  if◌then◌else◌,
}

-- `CodeGen`, without the arena: `defer_stack` holds the entries below `defer_top`.
pub record CodeGen : Type 0 where
  pub out : CWriter
  pub defer_stack : List AstNode

-- A routine: the state after it, or none when the fuel did not reach.
abbrev pub Emit : Type 0
Emit = CodeGen → Option CodeGen

abbrev pub then_emit : Option CodeGen → Emit → Option CodeGen
then_emit (some cg) g = g cg
then_emit none g = none

infixl 1 ◌>>◌
abbrev pub ◌>>◌ : Emit → Emit → Emit
f >> g = λ cg. then_emit (f cg) g

abbrev pub skip : Emit
skip cg = some cg

abbrev pub out_of_fuel : Emit
out_of_fuel cg = none

-- A step of the writer.
abbrev pub on_writer : (CWriter → CWriter) → Emit
on_writer f cg = some (record cg { out = f cg.out })

abbrev pub put : Bytes → Emit
put s = on_writer (cw_write s)

abbrev pub putf : Bytes → Emit
putf text = on_writer (cw_writef text)

-- `%.*s`: a view is printed up to its first 0.
abbrev pub put_view : Bytes → Emit
put_view name = putf (c_string name)

abbrev pub newline : Emit
newline = on_writer cw_nl

abbrev pub indented : Emit
indented = on_writer cw_indent

abbrev pub dedented : Emit
dedented = on_writer cw_dedent

-- A digit of at most 16, in capitals.
unfoldable pub digit : ℕ → ℕ
digit d = if ltb d 10 then 48 + d else 55 + d

-- The digits of a number, before `rest`; 64 rounds are enough for a u64.
unfoldable pub digits : ℕ → ℕ → ℕ → Bytes → Bytes
digits zero base n rest = rest
digits (suc rounds) base n rest =
    if ltb n base then digit n ∷ rest else digits rounds base (n / base) (digit (n % base) ∷ rest)

-- `%llu`, `%llX` and `%llo`.
abbrev pub numeral_in : ℕ → ℕ → Bytes
numeral_in base n = digits 64 base n []

-- The tests on a node and on a type.
abbrev pub is_null : AstNode → Bool
is_null null_node = true
is_null _ = false

abbrev pub is_null_type : AstType → Bool
is_null_type null_type = true
is_null_type _ = false

-- What stands between `cw_indent` and `cw_dedent`.
abbrev pub nested : Emit → Emit
nested f = indented >> f >> dedented
