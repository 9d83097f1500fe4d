-- ===== src/Codegen/Operators.antt =====
-- The tables of compiler/src/codegen.c: the names of types and of operators in C.
use q.Ast.{
  BinaryOp, bin_add, bin_sub, bin_mul, bin_div, bin_mod, bin_bit_and, bin_bit_or, bin_bit_xor,
  bin_shl, bin_shr, bin_eq, bin_neq, bin_lt, bin_gt, bin_lt_eq, bin_gt_eq, bin_and, bin_or,
  AssignOp, assign_eq, assign_add, assign_sub, assign_mul, assign_div, assign_mod, assign_bit_and,
  assign_bit_or, assign_bit_xor, assign_shl, assign_shr,
}
use q.Common.{Bytes, codes}
use q.Token.Kind.{TokenKind}

-- The text of `cg_primitive`.
unfoldable pub primitive_str : TokenKind → Bytes
primitive_str TokenKind.kw_u8 = codes "uint8_t"
primitive_str TokenKind.kw_u16 = codes "uint16_t"
primitive_str TokenKind.kw_u32 = codes "uint32_t"
primitive_str TokenKind.kw_u64 = codes "uint64_t"
primitive_str TokenKind.kw_i8 = codes "int8_t"
primitive_str TokenKind.kw_i16 = codes "int16_t"
primitive_str TokenKind.kw_i32 = codes "int32_t"
primitive_str TokenKind.kw_i64 = codes "int64_t"
primitive_str TokenKind.kw_f32 = codes "float"
primitive_str TokenKind.kw_f64 = codes "double"
primitive_str TokenKind.kw_bool = codes "bool"
primitive_str TokenKind.kw_char = codes "uint32_t"
primitive_str TokenKind.kw_str = codes "const char*"
primitive_str TokenKind.kw_void = codes "void"
primitive_str TokenKind.kw_usize = codes "size_t"
primitive_str TokenKind.kw_isize = codes "ptrdiff_t"
primitive_str _ = codes "int"

-- `binop_str`.
unfoldable pub binop_str : BinaryOp → Bytes
binop_str bin_add = codes "+"
binop_str bin_sub = codes "-"
binop_str bin_mul = codes "*"
binop_str bin_div = codes "/"
binop_str bin_mod = codes "%"
binop_str bin_bit_and = codes "&"
binop_str bin_bit_or = codes "|"
binop_str bin_bit_xor = codes "^"
binop_str bin_shl = codes "<<"
binop_str bin_shr = codes ">>"
binop_str bin_eq = codes "=="
binop_str bin_neq = codes "!="
binop_str bin_lt = codes "<"
binop_str bin_gt = codes ">"
binop_str bin_lt_eq = codes "<="
binop_str bin_gt_eq = codes ">="
binop_str bin_and = codes "&&"
binop_str bin_or = codes "||"
binop_str _ = codes "+"

-- `assignop_str`.
unfoldable pub assignop_str : AssignOp → Bytes
assignop_str assign_eq = codes "="
assignop_str assign_add = codes "+="
assignop_str assign_sub = codes "-="
assignop_str assign_mul = codes "*="
assignop_str assign_div = codes "/="
assignop_str assign_mod = codes "%="
assignop_str assign_bit_and = codes "&="
assignop_str assign_bit_or = codes "|="
assignop_str assign_bit_xor = codes "^="
assignop_str assign_shl = codes "<<="
assignop_str assign_shr = codes ">>="
