-- ===== src/Sema/Errors.antt =====
-- The specification of the errors of compiler/src/sema.c, with no tables and no state: the names that
-- a block or the module has declared so far are a list, and the context is two Booleans.
use q.Ast.{
  AstNode, fn_decl, enum_decl, impl_block, const_decl, static_decl, driver_decl, syscall_decl,
  let_stmt, expr_stmt, return_stmt, break_stmt, continue_stmt, defer_stmt, assign_stmt, binary_op,
  unary_op, call, method_call, field_access, index, cast, block, if_expr, match_expr, match_arm,
  for_loop, while_loop, loop_expr, struct_lit, array_lit, unsafe_block, asm_expr, error_prop, Nodes,
  no_nodes, node, Variants, no_variants, variant,
}
use q.Common.{
  ℕ, ◌+◌, Bool, true, false, not, ◌||◌, List, [], ◌∷◌, Option, none, some, Bytes, bytes_eq,
  if◌then◌else◌,
}
use q.Sema.Bodies.{is_empty}
use q.Sema.Table.{SymKind}
use q.Sema.Walk.{declares}

abbrev pub one_for : Bool → ℕ
one_for b = if b then 1 else 0

abbrev pub is_member : Bytes → List Bytes → Bool
is_member name [] = false
is_member name (n ∷ ns) = bytes_eq n name || is_member name ns

-- The names of a block after a statement.
abbrev pub declared_after : AstNode → List Bytes → List Bytes
declared_after (let_stmt span name type init is_mut) seen = name ∷ seen
declared_after _ seen = seen

unfoldable mutual
  -- In an expression: inline assembly with `u` off; `l` says whether a loop is around.
  pub faults_expr : AstNode → Bool → Bool → ℕ
  faults_expr (binary_op span op left right) u l = faults_expr left u l + faults_expr right u l
  faults_expr (unary_op span op operand) u l = faults_expr operand u l
  faults_expr (call span callee args) u l = faults_expr callee u l + faults_exprs args u l
  faults_expr (method_call span object name args) u l =
      faults_expr object u l + faults_exprs args u l
  faults_expr (field_access span object name) u l = faults_expr object u l
  faults_expr (index span object idx) u l = faults_expr object u l + faults_expr idx u l
  faults_expr (cast span e target) u l = faults_expr e u l
  faults_expr (block span stmts final) u l = faults_stmts stmts [] u l + faults_expr final u l
  faults_expr (if_expr span condition then_block else_block) u l =
      faults_expr condition u l + faults_expr then_block u l + faults_expr else_block u l
  faults_expr (match_expr span e arms) u l = faults_expr e u l + faults_arms arms u l
  faults_expr (for_loop span var iterable body label) u l =
      faults_expr iterable u l + faults_expr body u true
  faults_expr (while_loop span condition body label) u l =
      faults_expr condition u l + faults_expr body u true
  faults_expr (loop_expr span body label) u l = faults_expr body u true
  faults_expr (unsafe_block span body) u l = faults_expr body true l
  faults_expr (array_lit span elements value count) u l =
      faults_exprs elements u l + faults_expr value u l + faults_expr count u l
  faults_expr (struct_lit span type names values) u l = faults_exprs values u l
  faults_expr (asm_expr span template) u l = one_for (not u)
  faults_expr (error_prop span e) u l = faults_expr e u l
  faults_expr _ u l = 0

  pub faults_exprs : Nodes → Bool → Bool → ℕ
  faults_exprs no_nodes u l = 0
  faults_exprs (node n rest) u l = faults_expr n u l + faults_exprs rest u l

  pub faults_arms : Nodes → Bool → Bool → ℕ
  faults_arms no_nodes u l = 0
  faults_arms (node (match_arm span pat guard body) rest) u l =
      faults_expr guard u l + faults_expr body u l + faults_arms rest u l
  faults_arms (node _ rest) u l = faults_arms rest u l

  -- In a statement: also a name that the block has declared already, and a jump outside of loops.
  pub faults_stmt : AstNode → List Bytes → Bool → Bool → ℕ
  faults_stmt (let_stmt span name type init is_mut) seen u l =
      one_for (is_member name seen) + faults_expr init u l
  faults_stmt (assign_stmt span target value op) seen u l =
      faults_expr target u l + faults_expr value u l
  faults_stmt (expr_stmt span e) seen u l = faults_expr e u l
  faults_stmt (return_stmt span e) seen u l = faults_expr e u l
  faults_stmt (break_stmt span label) seen u l = one_for (not l)
  faults_stmt (continue_stmt span label) seen u l = one_for (not l)
  faults_stmt (defer_stmt span e) seen u l = faults_expr e u l
  faults_stmt (fn_decl span name ps return_type body attribs flags) seen u l = faults_expr body u l
  faults_stmt (enum_decl span name vs repr is_pub) seen u l = faults_variants vs u l
  faults_stmt (const_decl span name type value is_pub is_mut) seen u l = faults_expr value u l
  faults_stmt (static_decl span name type value is_pub is_mut) seen u l = faults_expr value u l
  faults_stmt (driver_decl span name fs methods is_pub) seen u l = faults_decls methods u l
  faults_stmt (syscall_decl span name ps return_type body) seen u l = faults_expr body u l
  faults_stmt (impl_block span target trait_name methods) seen u l = faults_decls methods u l
  faults_stmt _ seen u l = 0

  pub faults_stmts : Nodes → List Bytes → Bool → Bool → ℕ
  faults_stmts no_nodes seen u l = 0
  faults_stmts (node n rest) seen u l =
      faults_stmt n seen u l + faults_stmts rest (declared_after n seen) u l

  pub faults_variants : Variants → Bool → Bool → ℕ
  faults_variants no_variants u l = 0
  faults_variants (variant name ts discriminant span rest) u l =
      faults_expr discriminant u l + faults_variants rest u l

  -- In a declaration.
  pub faults_decl : AstNode → Bool → Bool → ℕ
  faults_decl (fn_decl span name ps return_type body attribs flags) u l = faults_expr body u l
  faults_decl (enum_decl span name vs repr is_pub) u l = faults_variants vs u l
  faults_decl (const_decl span name type value is_pub is_mut) u l = faults_expr value u l
  faults_decl (static_decl span name type value is_pub is_mut) u l = faults_expr value u l
  faults_decl (driver_decl span name fs methods is_pub) u l = faults_decls methods u l
  faults_decl (syscall_decl span name ps return_type body) u l = faults_expr body u l
  faults_decl (impl_block span target trait_name methods) u l = faults_decls methods u l
  faults_decl _ u l = 0

  pub faults_decls : Nodes → Bool → Bool → ℕ
  faults_decls no_nodes u l = 0
  faults_decls (node n rest) u l = faults_decl n u l + faults_decls rest u l

-- The name that a declaration adds to the module, if it is not empty.
abbrev pub nonempty : Bytes → Option Bytes
nonempty name = if is_empty name then none else some name

abbrev pub name_of : Option (Bytes × SymKind) → Option Bytes
name_of none = none
name_of (some d) = nonempty d.0

abbrev pub declared_name : AstNode → Option Bytes
declared_name n = name_of (declares n)

-- Whether a declared name is taken, and the names with it.
abbrev pub is_taken : Option Bytes → List Bytes → Bool
is_taken none seen = false
is_taken (some name) seen = is_member name seen

abbrev pub with_name : Option Bytes → List Bytes → List Bytes
with_name none seen = seen
with_name (some name) seen = if is_member name seen then seen else name ∷ seen

-- How many declarations of a module have a name that an earlier one has, or that is in `seen`.
abbrev pub duplicates : Nodes → List Bytes → ℕ
duplicates no_nodes seen = 0
duplicates (node n rest) seen =
    one_for (is_taken (declared_name n) seen) + duplicates rest (with_name (declared_name n) seen)
