-- ===== src/Codegen/Shape.antt =====
-- The trees on which the recursion of compiler/src/codegen.c comes to an end, and the weight of a tree:
-- a bound on the calls that it makes one inside the other.
use q.Ast.{
  AstNode, null_node, program, module_decl, import_decl, fn_decl, struct_decl, enum_decl,
  trait_decl, impl_block, const_decl, static_decl, type_alias, driver_decl, syscall_decl, let_stmt,
  expr_stmt, return_stmt, break_stmt, continue_stmt, defer_stmt, assign_stmt, binary_op, unary_op,
  call, method_call, field_access, index, cast, block, if_expr, match_expr, match_arm, for_loop,
  while_loop, loop_expr, struct_lit, array_lit, unsafe_block, error_prop, Nodes, no_nodes, node,
  AstType, path_type, array_type, ref_type, ptr_type, own_type, fn_ptr_type, generic_type, Types,
  no_types, type_item, Params, no_params, param, Fields, no_fields, field, Variants, no_variants,
  variant,
}
use q.Common.{ℕ, ◌+◌, Bool, true, false, ◌≡◌}

-- What can stand alone in a line: a statement or a declaration.
abbrev pub is_decl : AstNode → Bool
is_decl (module_decl _ _) = true
is_decl (import_decl _ _ _ _ _) = true
is_decl (fn_decl _ _ _ _ _ _ _) = true
is_decl (struct_decl _ _ _ _ _) = true
is_decl (enum_decl _ _ _ _ _) = true
is_decl (trait_decl _ _ _ _) = true
is_decl (impl_block _ _ _ _) = true
is_decl (const_decl _ _ _ _ _ _) = true
is_decl (static_decl _ _ _ _ _ _) = true
is_decl (type_alias _ _ _ _) = true
is_decl (driver_decl _ _ _ _ _) = true
is_decl (syscall_decl _ _ _ _ _) = true
is_decl _ = false

abbrev pub is_line : AstNode → Bool
is_line null_node = true
is_line (let_stmt _ _ _ _ _) = true
is_line (expr_stmt _ _) = true
is_line (return_stmt _ _) = true
is_line (break_stmt _ _) = true
is_line (continue_stmt _ _) = true
is_line (defer_stmt _ _) = true
is_line (assign_stmt _ _ _ _) = true
is_line n = is_decl n

unfoldable mutual
  -- Three for every node and type that the generator can come to.
  pub weight : AstNode → ℕ
  weight null_node = 0
  weight (program _ ns) = nodes_weight ns + 3
  weight (module_decl _ p) = weight p + 3
  weight (import_decl _ p _ _ _) = weight p + 3
  weight (fn_decl _ _ ps t body _ _) = params_weight ps + type_weight t + weight body + 3
  weight (struct_decl _ _ fs _ _) = fields_weight fs + 3
  weight (enum_decl _ _ vs t _) = variants_weight vs + type_weight t + 3
  weight (impl_block _ _ _ ns) = nodes_weight ns + 3
  weight (const_decl _ _ _ n _ _) = weight n + 3
  weight (static_decl _ _ t n _ _) = type_weight t + weight n + 3
  weight (type_alias _ _ t _) = type_weight t + 3
  weight (driver_decl _ _ fs ns _) = fields_weight fs + nodes_weight ns + 3
  weight (syscall_decl _ _ ps t body) = params_weight ps + type_weight t + weight body + 3
  weight (let_stmt _ _ t n _) = type_weight t + weight n + 3
  weight (expr_stmt _ n) = weight n + 3
  weight (return_stmt _ n) = weight n + 3
  weight (defer_stmt _ n) = weight n + 3
  weight (assign_stmt _ a b _) = weight a + weight b + 3
  weight (binary_op _ _ a b) = weight a + weight b + 3
  weight (unary_op _ _ n) = weight n + 3
  weight (call _ n ns) = weight n + nodes_weight ns + 3
  weight (method_call _ n _ ns) = weight n + nodes_weight ns + 3
  weight (field_access _ n _) = weight n + 3
  weight (index _ a b) = weight a + weight b + 3
  weight (cast _ n t) = weight n + type_weight t + 3
  weight (block _ ns n) = nodes_weight ns + weight n + 3
  weight (if_expr _ a b c) = weight a + weight b + weight c + 3
  weight (match_expr _ n ns) = weight n + nodes_weight ns + 3
  weight (match_arm _ a b c) = weight a + weight b + weight c + 3
  weight (for_loop _ _ a b _) = weight a + weight b + 3
  weight (while_loop _ a b _) = weight a + weight b + 3
  weight (loop_expr _ n _) = weight n + 3
  weight (struct_lit _ t _ ns) = type_weight t + nodes_weight ns + 3
  weight (array_lit _ ns a b) = nodes_weight ns + weight a + weight b + 3
  weight (unsafe_block _ n) = weight n + 3
  weight (error_prop _ n) = weight n + 3
  weight _ = 3

  pub nodes_weight : Nodes → ℕ
  nodes_weight no_nodes = 0
  nodes_weight (node n ns) = weight n + nodes_weight ns

  pub type_weight : AstType → ℕ
  type_weight (path_type _ _ n) = weight n + 3
  type_weight (array_type _ t n) = type_weight t + weight n + 3
  type_weight (ref_type _ t _) = type_weight t + 3
  type_weight (ptr_type _ t _) = type_weight t + 3
  type_weight (own_type _ t) = type_weight t + 3
  type_weight (fn_ptr_type _ ts t) = types_weight ts + type_weight t + 3
  type_weight (generic_type _ t _) = type_weight t + 3
  type_weight _ = 3

  pub types_weight : Types → ℕ
  types_weight no_types = 0
  types_weight (type_item t ts) = type_weight t + types_weight ts

  pub params_weight : Params → ℕ
  params_weight no_params = 0
  params_weight (param _ t _ rest) = type_weight t + params_weight rest

  pub fields_weight : Fields → ℕ
  fields_weight no_fields = 0
  fields_weight (field _ t _ _ rest) = type_weight t + fields_weight rest

  pub variants_weight : Variants → ℕ
  variants_weight no_variants = 0
  variants_weight (variant _ _ n _ rest) = weight n + variants_weight rest

unfoldable mutual
  -- Wherever the generator writes a list of lines in the tree, statements and declarations stand in it:
  -- in the blocks, and among the methods of an `impl`.
  pub Placed : AstNode → Type 0
  Placed (program _ ns) = LinesPlaced ns
  Placed (module_decl _ p) = Placed p
  Placed (import_decl _ p _ _ _) = Placed p
  Placed (fn_decl _ _ ps t body _ _) = ParamsPlaced ps × TypePlaced t × Placed body
  Placed (struct_decl _ _ fs _ _) = FieldsPlaced fs
  Placed (enum_decl _ _ vs t _) = VariantsPlaced vs × TypePlaced t
  Placed (impl_block _ _ _ ns) = LinesPlaced ns
  Placed (const_decl _ _ _ n _ _) = Placed n
  Placed (static_decl _ _ t n _ _) = TypePlaced t × Placed n
  Placed (type_alias _ _ t _) = TypePlaced t
  Placed (driver_decl _ _ fs ns _) = FieldsPlaced fs × NodesPlaced ns
  Placed (syscall_decl _ _ ps t body) = ParamsPlaced ps × TypePlaced t × Placed body
  Placed (let_stmt _ _ t n _) = TypePlaced t × Placed n
  Placed (expr_stmt _ n) = Placed n
  Placed (return_stmt _ n) = Placed n
  Placed (defer_stmt _ n) = Placed n
  Placed (assign_stmt _ a b _) = Placed a × Placed b
  Placed (binary_op _ _ a b) = Placed a × Placed b
  Placed (unary_op _ _ n) = Placed n
  Placed (call _ n ns) = Placed n × NodesPlaced ns
  Placed (method_call _ n _ ns) = Placed n × NodesPlaced ns
  Placed (field_access _ n _) = Placed n
  Placed (index _ a b) = Placed a × Placed b
  Placed (cast _ n t) = Placed n × TypePlaced t
  Placed (block _ ns n) = LinesPlaced ns × Placed n
  Placed (if_expr _ a b c) = Placed a × Placed b × Placed c
  Placed (match_expr _ n ns) = Placed n × NodesPlaced ns
  Placed (match_arm _ a b c) = Placed a × Placed b × Placed c
  Placed (for_loop _ _ a b _) = Placed a × Placed b
  Placed (while_loop _ a b _) = Placed a × Placed b
  Placed (loop_expr _ n _) = Placed n
  Placed (struct_lit _ t _ ns) = TypePlaced t × NodesPlaced ns
  Placed (array_lit _ ns a b) = NodesPlaced ns × Placed a × Placed b
  Placed (unsafe_block _ n) = Placed n
  Placed (error_prop _ n) = Placed n
  Placed _ = Unit {0}

  pub NodesPlaced : Nodes → Type 0
  NodesPlaced no_nodes = Unit {0}
  NodesPlaced (node n ns) = Placed n × NodesPlaced ns

  pub LinesPlaced : Nodes → Type 0
  LinesPlaced no_nodes = Unit {0}
  LinesPlaced (node n ns) = (is_line n ≡ true) × Placed n × LinesPlaced ns

  pub TypePlaced : AstType → Type 0
  TypePlaced (path_type _ _ n) = Placed n
  TypePlaced (array_type _ t n) = TypePlaced t × Placed n
  TypePlaced (ref_type _ t _) = TypePlaced t
  TypePlaced (ptr_type _ t _) = TypePlaced t
  TypePlaced (own_type _ t) = TypePlaced t
  TypePlaced (fn_ptr_type _ ts t) = TypesPlaced ts × TypePlaced t
  TypePlaced (generic_type _ t _) = TypePlaced t
  TypePlaced _ = Unit {0}

  pub TypesPlaced : Types → Type 0
  TypesPlaced no_types = Unit {0}
  TypesPlaced (type_item t ts) = TypePlaced t × TypesPlaced ts

  pub ParamsPlaced : Params → Type 0
  ParamsPlaced no_params = Unit {0}
  ParamsPlaced (param _ t _ rest) = TypePlaced t × ParamsPlaced rest

  pub FieldsPlaced : Fields → Type 0
  FieldsPlaced no_fields = Unit {0}
  FieldsPlaced (field _ t _ _ rest) = TypePlaced t × FieldsPlaced rest

  pub VariantsPlaced : Variants → Type 0
  VariantsPlaced no_variants = Unit {0}
  VariantsPlaced (variant _ _ n _ rest) = Placed n × VariantsPlaced rest
