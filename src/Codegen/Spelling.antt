-- ===== src/Codegen/Spelling.antt =====
-- The operators of C that compiler/src/codegen.c writes, against those of the source's text.
use q.Ast.{BinaryOp, bin_and, bin_or, bin_range, bin_range_inclusive, AssignOp}
use q.Codegen.Operators.{binop_str, assignop_str}
use q.Common.{Bytes, codes, ◌≡◌, arith}
use q.Parser.Operators.{binop_token, assign_token}
use q.Token.Kind.{token_kind_to_str}

-- The spelling in C of an operator of the language.
abbrev pub c_spelling : BinaryOp → Bytes
c_spelling bin_and = codes "&&"
c_spelling bin_or = codes "||"
c_spelling bin_range = codes "+"
c_spelling bin_range_inclusive = codes "+"
c_spelling op = token_kind_to_str (binop_token op)

-- An operator is written in C as it stands in the source, but for `and`, `or` and the two ranges, which
-- fall to the default of `binop_str`; an assignment is written as it stands.
pub binop_str-c_spelling :
    (op : BinaryOp) (to : AssignOp)
    → (binop_str op ≡ c_spelling op) × (assignop_str to ≡ token_kind_to_str (assign_token to))
unfolding binop_str assignop_str token_kind_to_str
binop_str-c_spelling op to = ground arith
