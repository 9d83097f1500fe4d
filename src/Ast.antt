-- ===== src/Ast.antt =====
-- The syntax tree: compiler/include/qpc/ast.h. A NULL pointer is a constructor of its own, an array
-- with its count is a list, and a view into the source is its bytes; a float literal keeps the text
-- that `strtod` read. Kinds that no code fills (AST_UNION_DECL, AST_MMIO_DECL, AST_TUPLE_LIT,
-- AST_CLOSURE) hold only their span.
use q.Common.{ℕ, Bool, List, Bytes}
use q.Token.Kind.{TokenKind, IntBase, Span}

-- `BinaryOp`.
pub data BinaryOp : Type 0 where
  bin_add bin_sub bin_mul bin_div bin_mod : BinaryOp
  bin_bit_and bin_bit_or bin_bit_xor bin_shl bin_shr : BinaryOp
  bin_eq bin_neq bin_lt bin_gt bin_lt_eq bin_gt_eq : BinaryOp
  bin_and bin_or : BinaryOp
  bin_range bin_range_inclusive : BinaryOp

-- `UnaryOp`.
pub data UnaryOp : Type 0 where
  unary_neg unary_bit_not unary_log_not unary_ref unary_ref_mut unary_deref : UnaryOp

-- `AssignOp`.
pub data AssignOp : Type 0 where
  assign_eq assign_add assign_sub assign_mul assign_div assign_mod : AssignOp
  assign_bit_and assign_bit_or assign_bit_xor assign_shl assign_shr : AssignOp

-- The flags of `fn_decl`.
pub record FnFlags : Type 0 where
  pub is_pub : Bool
  pub is_unsafe : Bool
  pub is_const : Bool
  pub is_interrupt : Bool

mutual
  -- `AstNode`, by its kind; the first field is the span.
  pub data AstNode : Type 0 where
    null_node : AstNode
    program : Span → Nodes → AstNode
    module_decl : Span → AstNode → AstNode
    import_decl : Span → AstNode → List Bytes → Bytes → Bool → AstNode
    fn_decl : Span → Bytes → Params → AstType → AstNode → Attributes → FnFlags → AstNode
    struct_decl : Span → Bytes → Fields → Attributes → Bool → AstNode
    enum_decl : Span → Bytes → Variants → AstType → Bool → AstNode
    union_decl : Span → AstNode
    trait_decl : Span → Bytes → Nodes → Bool → AstNode
    impl_block : Span → AstType → Bytes → Nodes → AstNode
    const_decl : Span → Bytes → AstType → AstNode → Bool → Bool → AstNode
    static_decl : Span → Bytes → AstType → AstNode → Bool → Bool → AstNode
    type_alias : Span → Bytes → AstType → Bool → AstNode
    driver_decl : Span → Bytes → Fields → Nodes → Bool → AstNode
    syscall_decl : Span → Bytes → Params → AstType → AstNode → AstNode
    mmio_decl : Span → AstNode
    let_stmt : Span → Bytes → AstType → AstNode → Bool → AstNode
    expr_stmt : Span → AstNode → AstNode
    return_stmt : Span → AstNode → AstNode
    break_stmt : Span → Bytes → AstNode
    continue_stmt : Span → Bytes → AstNode
    defer_stmt : Span → AstNode → AstNode
    assign_stmt : Span → AstNode → AstNode → AssignOp → AstNode
    int_lit : Span → ℕ → IntBase → AstNode
    float_lit : Span → Bytes → AstNode
    string_lit : Span → Bytes → Bool → AstNode
    char_lit : Span → ℕ → AstNode
    bool_lit : Span → Bool → AstNode
    null_lit : Span → AstNode
    ident : Span → Bytes → AstNode
    path : Span → List Bytes → AstNode
    binary_op : Span → BinaryOp → AstNode → AstNode → AstNode
    unary_op : Span → UnaryOp → AstNode → AstNode
    call : Span → AstNode → Nodes → AstNode
    method_call : Span → AstNode → Bytes → Nodes → AstNode
    field_access : Span → AstNode → Bytes → AstNode
    index : Span → AstNode → AstNode → AstNode
    cast : Span → AstNode → AstType → AstNode
    range : Span → AstNode → AstNode → Bool → AstNode
    block : Span → Nodes → AstNode → AstNode
    if_expr : Span → AstNode → AstNode → AstNode → AstNode
    match_expr : Span → AstNode → Nodes → AstNode
    match_arm : Span → AstNode → AstNode → AstNode → AstNode
    for_loop : Span → Bytes → AstNode → AstNode → Bytes → AstNode
    while_loop : Span → AstNode → AstNode → Bytes → AstNode
    loop_expr : Span → AstNode → Bytes → AstNode
    ref_expr : Span → AstNode → Bool → AstNode
    deref_expr : Span → AstNode → Bool → AstNode
    struct_lit : Span → AstType → List Bytes → Nodes → AstNode
    array_lit : Span → Nodes → AstNode → AstNode → AstNode
    tuple_lit : Span → AstNode
    unsafe_block : Span → AstNode → AstNode
    asm_expr : Span → Bytes → AstNode
    error_prop : Span → AstNode → AstNode
    closure : Span → AstNode

  pub data Nodes : Type 0 where
    no_nodes : Nodes
    node : AstNode → Nodes → Nodes

  -- `AstType`, by its kind; the first field is the span.
  pub data AstType : Type 0 where
    null_type : AstType
    primitive : Span → TokenKind → AstType
    named : Span → Bytes → AstNode → AstType
    path_type : Span → Bytes → AstNode → AstType
    array_type : Span → AstType → AstNode → AstType
    slice_type : Span → AstType → AstType
    ref_type : Span → AstType → Bool → AstType
    ptr_type : Span → AstType → Bool → AstType
    own_type : Span → AstType → AstType
    fn_ptr_type : Span → Types → AstType → AstType
    tuple_type : Span → Types → AstType
    generic_type : Span → AstType → Types → AstType
    never_type : Span → AstType
    inferred_type : Span → AstType

  pub data Types : Type 0 where
    no_types : Types
    type_item : AstType → Types → Types

  -- Arrays of `AstParam`: the name, the type and the span of the first, and the rest.
  pub data Params : Type 0 where
    no_params : Params
    param : Bytes → AstType → Span → Params → Params

  -- Arrays of `AstField`.
  pub data Fields : Type 0 where
    no_fields : Fields
    field : Bytes → AstType → Bool → Span → Fields → Fields

  -- Arrays of `AstVariant`.
  pub data Variants : Type 0 where
    no_variants : Variants
    variant : Bytes → Types → AstNode → Span → Variants → Variants

  -- Arrays of `AstAttribute`.
  pub data Attributes : Type 0 where
    no_attributes : Attributes
    attribute : Bytes → Nodes → Span → Attributes → Attributes

-- `node->span`.
abbrev pub span_of : AstNode → Span
span_of null_node = record { start = 0; end = 0; source_id = 0 }
span_of (program span _) = span
span_of (module_decl span _) = span
span_of (import_decl span _ _ _ _) = span
span_of (fn_decl span _ _ _ _ _ _) = span
span_of (struct_decl span _ _ _ _) = span
span_of (enum_decl span _ _ _ _) = span
span_of (union_decl span) = span
span_of (trait_decl span _ _ _) = span
span_of (impl_block span _ _ _) = span
span_of (const_decl span _ _ _ _ _) = span
span_of (static_decl span _ _ _ _ _) = span
span_of (type_alias span _ _ _) = span
span_of (driver_decl span _ _ _ _) = span
span_of (syscall_decl span _ _ _ _) = span
span_of (mmio_decl span) = span
span_of (let_stmt span _ _ _ _) = span
span_of (expr_stmt span _) = span
span_of (return_stmt span _) = span
span_of (break_stmt span _) = span
span_of (continue_stmt span _) = span
span_of (defer_stmt span _) = span
span_of (assign_stmt span _ _ _) = span
span_of (int_lit span _ _) = span
span_of (float_lit span _) = span
span_of (string_lit span _ _) = span
span_of (char_lit span _) = span
span_of (bool_lit span _) = span
span_of (null_lit span) = span
span_of (ident span _) = span
span_of (path span _) = span
span_of (binary_op span _ _ _) = span
span_of (unary_op span _ _) = span
span_of (call span _ _) = span
span_of (method_call span _ _ _) = span
span_of (field_access span _ _) = span
span_of (index span _ _) = span
span_of (cast span _ _) = span
span_of (range span _ _ _) = span
span_of (block span _ _) = span
span_of (if_expr span _ _ _) = span
span_of (match_expr span _ _) = span
span_of (match_arm span _ _ _) = span
span_of (for_loop span _ _ _ _) = span
span_of (while_loop span _ _ _) = span
span_of (loop_expr span _ _) = span
span_of (ref_expr span _ _) = span
span_of (deref_expr span _ _) = span
span_of (struct_lit span _ _ _) = span
span_of (array_lit span _ _ _) = span
span_of (tuple_lit span) = span
span_of (unsafe_block span _) = span
span_of (asm_expr span _) = span
span_of (error_prop span _) = span
span_of (closure span) = span
