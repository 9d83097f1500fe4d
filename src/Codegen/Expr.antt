-- ===== src/Codegen/Expr.antt =====
-- `cg_expr` of compiler/src/codegen.c.
use q.Ast.{
  AstNode, null_node, BinaryOp, bin_range, bin_range_inclusive, UnaryOp, unary_neg, unary_bit_not,
  unary_log_not, unary_ref, unary_ref_mut, unary_deref, int_lit, float_lit, string_lit, char_lit,
  bool_lit, null_lit, ident, path, binary_op, unary_op, call, method_call, field_access, index,
  cast, block, if_expr, match_expr, match_arm, for_loop, while_loop, loop_expr, struct_lit,
  array_lit, unsafe_block, asm_expr, error_prop, Nodes, no_nodes, node,
}
use q.Codegen.Operators.{binop_str}
use q.Codegen.State.{Emit, ◌>>◌, skip, put, putf, put_view, is_null, newline, nested, numeral_in}
use q.Codegen.Types.{Emitters, comma}
use q.Codegen.Writer.{c_string}
use q.Common.{
  ℕ, ◌%◌, Bool, true, false, List, [], ◌∷◌, ◌++◌, Bytes, codes, bytes_eq, ◌||◌, if◌then◌else◌,
}
use q.Token.Kind.{IntBase}

-- An integer literal.
abbrev pub int_text : ℕ → IntBase → Bytes
int_text value IntBase.hex = codes "0x" ++ numeral_in 16 value
int_text value IntBase.bin = numeral_in 10 value ++ codes "ULL /* 0b */"
int_text value IntBase.oct = codes "0" ++ numeral_in 8 value
int_text value _ = numeral_in 10 value

-- The segments of a path.
abbrev pub path_text : List Bytes → Bool → Emit
path_text [] first = skip
path_text (s ∷ segments) first =
    (if first then skip else put (codes "_")) >> put_view s >> path_text segments false

-- The text in front of the operand of a unary operator.
abbrev pub unary_text : UnaryOp → Bytes
unary_text unary_neg = codes "-("
unary_text unary_bit_not = codes "~("
unary_text unary_log_not = codes "!("
unary_text unary_deref = codes "*("
unary_text unary_ref = codes "&("
unary_text unary_ref_mut = codes "&("

abbrev pub is_range : BinaryOp → Bool
is_range bin_range = true
is_range bin_range_inclusive = true
is_range _ = false

abbrev pub is_if : AstNode → Bool
is_if (if_expr _ _ _ _) = true
is_if _ = false

-- The pattern `_`.
abbrev pub is_wildcard : AstNode → Bool
is_wildcard (ident _ name) = bytes_eq name (codes "_")
is_wildcard _ = false

module _ (r : Emitters) where
  abbrev pub binary_emit : BinaryOp → AstNode → AstNode → Emit
  binary_emit op left right =
      if is_range op
      then r.cg_expr left
      else (put (codes "(")
          >> r.cg_expr left
          >> putf (codes " " ++ binop_str op ++ codes " ")
          >> r.cg_expr right
          >> put (codes ")"))

  abbrev pub expr_list : Nodes → Bool → Emit
  expr_list no_nodes first = skip
  expr_list (node n ns) first = comma r first >> r.cg_expr n >> expr_list ns false

  -- The arguments behind the object of a method.
  abbrev pub more_args : Nodes → Emit
  more_args no_nodes = skip
  more_args (node n ns) = put (codes ", ") >> r.cg_expr n >> more_args ns

  -- An `else` and what follows it.
  abbrev pub else_emit : AstNode → Emit
  else_emit n =
      if is_null n
      then skip
      else (put (codes " else ") >> (if is_if n then r.cg_expr n else r.cg_block n))

  -- The test of an arm.
  abbrev pub pattern_emit : AstNode → Emit
  pattern_emit n =
      if is_null n || is_wildcard n
      then put (codes "1")
      else (put (codes "_match_val_ == ") >> r.cg_expr n)

  abbrev pub arm_body : AstNode → Emit
  arm_body n = if is_null n then skip else r.cg_block n

  -- An arm; the arms of a match have no other kind.
  abbrev pub arm_emit : AstNode → Bool → Emit
  arm_emit (match_arm _ pattern guard body) first =
      newline
      >> put (if first then codes "if (" else codes "else if (")
      >> pattern_emit pattern
      >> put (codes ") ")
      >> arm_body body
  arm_emit _ first = skip

  abbrev pub arms_emit : Nodes → Bool → Emit
  arms_emit no_nodes first = skip
  arms_emit (node n ns) first = arm_emit n first >> arms_emit ns false

  abbrev pub elements_emit : Nodes → AstNode → Emit
  elements_emit no_nodes repeated = r.cg_expr repeated
  elements_emit ns repeated = expr_list ns true

  -- The fields of a struct literal.
  abbrev pub named_values : List Bytes → Nodes → Bool → Emit
  named_values (name ∷ names) (node n ns) first =
      comma r first
      >> putf (codes "." ++ c_string name ++ codes " = ")
      >> r.cg_expr n
      >> named_values names ns false
  named_values _ _ first = skip

  -- `cg_expr`.
  unfoldable pub expr_emit : AstNode → Emit
  expr_emit null_node = skip
  expr_emit (int_lit _ value base) = putf (int_text value base)
  expr_emit (float_lit _ text) = putf (r.float_text text)
  expr_emit (string_lit _ text _) = put (codes "\"") >> put_view text >> put (codes "\"")
  expr_emit (char_lit _ value) = putf (codes "'" ++ (value % 256) ∷ codes "'")
  expr_emit (bool_lit _ value) = put (if value then codes "true" else codes "false")
  expr_emit (null_lit _) = put (codes "NULL")
  expr_emit (ident _ name) = put_view name
  expr_emit (path _ segments) = path_text segments true
  expr_emit (binary_op _ op left right) = binary_emit op left right
  expr_emit (unary_op _ op n) = put (unary_text op) >> r.cg_expr n >> put (codes ")")
  expr_emit (call _ callee args) =
      r.cg_expr callee >> put (codes "(") >> expr_list args true >> put (codes ")")
  expr_emit (method_call _ object name args) =
      r.cg_expr object
      >> putf (codes "_" ++ c_string name ++ codes "_(")
      >> put (codes "&(")
      >> r.cg_expr object
      >> put (codes ")")
      >> more_args args
      >> put (codes ")")
  expr_emit (field_access _ object name) = r.cg_expr object >> putf (codes "." ++ c_string name)
  expr_emit (index _ object i) =
      r.cg_expr object >> put (codes "[") >> r.cg_expr i >> put (codes "]")
  expr_emit (cast _ n t) =
      put (codes "((") >> r.cg_type t >> put (codes ")(") >> r.cg_expr n >> put (codes "))")
  expr_emit (block s stmts final) = r.cg_block (block s stmts final)
  expr_emit (if_expr _ condition then_block else_block) =
      put (codes "if (")
      >> r.cg_expr condition
      >> put (codes ") ")
      >> r.cg_block then_block
      >> else_emit else_block
  expr_emit (match_expr _ n arms) =
      put (codes "{ __auto_type _match_val_ = (")
      >> r.cg_expr n
      >> put (codes ");")
      >> nested (arms_emit arms true)
      >> newline
      >> put (codes "}")
  expr_emit (for_loop _ name iterable body _) =
      put (codes "for (size_t ")
      >> put_view name
      >> put (codes " = 0; (size_t)")
      >> put_view name
      >> put (codes " < (size_t)(")
      >> r.cg_expr iterable
      >> put (codes "); ")
      >> put_view name
      >> put (codes "++) ")
      >> r.cg_block body
  expr_emit (while_loop _ condition body _) =
      put (codes "while (") >> r.cg_expr condition >> put (codes ") ") >> r.cg_block body
  expr_emit (loop_expr _ body _) = put (codes "for (;;) ") >> r.cg_block body
  expr_emit (array_lit _ elements repeated count) =
      put (codes "{") >> elements_emit elements repeated >> put (codes "}")
  expr_emit (unsafe_block _ body) = r.cg_block body
  expr_emit (asm_expr _ text) =
      put (codes "__asm__ volatile (\"") >> put_view text >> put (codes "\")")
  expr_emit (error_prop _ n) = r.cg_expr n
  expr_emit (struct_lit _ t names values) =
      put (codes "(")
      >> r.cg_type t
      >> put (codes "){")
      >> named_values names values true
      >> put (codes "}")
  expr_emit _ = put (codes "/* <unsupported-expr> */")
