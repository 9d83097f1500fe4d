-- ===== src/Parser/Knot.antt =====
-- The mutual recursion of compiler/src/parser.c: each call of one of the four routines from another
-- costs a unit of fuel.
use q.Common.{ℕ, zero, suc}
use q.Parser.Expr.{binary_body}
use q.Parser.Primary.{primary_body}
use q.Parser.State.{no_fuel}
use q.Parser.Stmt.{block_body}
use q.Parser.Types.{Routines, type_body}

unfoldable pub routines : ℕ → Routines
routines zero = record {
  parse_type = λ p. no_fuel;
  parse_primary = λ p. no_fuel;
  parse_binary = λ min_prec p. no_fuel;
  parse_block = λ p. no_fuel;
}
routines (suc fuel) =
    let r = routines fuel in
    record {
      parse_type = type_body r;
      parse_primary = primary_body r;
      parse_binary = binary_body r;
      parse_block = block_body r;
    }
