-- ===== src/Codegen/Types.antt =====
-- `cg_type` of compiler/src/codegen.c. The routines that it calls stand in a record, whose fields have a
-- unit of fuel less (Codegen/Program).
use q.Ast.{
  AstNode, AstType, null_type, primitive, named, path_type, array_type, slice_type, ref_type,
  ptr_type, own_type, fn_ptr_type, generic_type, never_type, Types, no_types, type_item,
}
use q.Codegen.Operators.{primitive_str}
use q.Codegen.State.{Emit, ◌>>◌, skip, put, put_view, is_null}
use q.Common.{Bool, true, false, Bytes, codes, if◌then◌else◌}

-- The mutually recursive routines, and `%g` of the value that `strtod` reads from a text.
pub record Emitters : Type 0 where
  pub float_text : Bytes → Bytes
  pub cg_type : AstType → Emit
  pub cg_expr : AstNode → Emit
  pub cg_block : AstNode → Emit
  pub cg_stmt : AstNode → Emit
  pub cg_decl : AstNode → Emit

module _ (r : Emitters) where
  -- The comma before all but the first.
  abbrev pub comma : Bool → Emit
  comma first = if first then skip else put (codes ", ")

  abbrev pub type_list : Types → Bool → Emit
  type_list no_types first = skip
  type_list (type_item t ts) first = comma first >> r.cg_type t >> type_list ts false

  abbrev pub pointer_to : AstType → Emit
  pointer_to t = r.cg_type t >> put (codes "*")

  abbrev pub path_name : Bytes → AstNode → Emit
  path_name name p = if is_null p then put_view name else r.cg_expr p

  abbrev pub volatile_text : Bool → Emit
  volatile_text is_volatile = if is_volatile then put (codes " volatile") else skip

  -- `cg_type`.
  unfoldable pub type_emit : AstType → Emit
  type_emit null_type = put (codes "void")
  type_emit (primitive _ kind) = put (primitive_str kind)
  type_emit (named _ name _) = put_view name
  type_emit (path_type _ name p) = path_name name p
  type_emit (ptr_type _ t is_volatile) = r.cg_type t >> volatile_text is_volatile >> put (codes "*")
  type_emit (ref_type _ t _) = pointer_to t
  type_emit (own_type _ t) = pointer_to t
  type_emit (slice_type _ _) = put (codes "qp_slice")
  type_emit (array_type _ t _) = r.cg_type t
  type_emit (generic_type _ t _) = r.cg_type t
  type_emit (never_type _) = put (codes "void __attribute__((noreturn))")
  type_emit (fn_ptr_type _ ts t) =
      r.cg_type t >> put (codes "(*)(") >> type_list ts true >> put (codes ")")
  type_emit _ = put (codes "__auto_type")

  -- `cg_type_array_suffix`.
  unfoldable pub array_suffix : AstType → Emit
  array_suffix (array_type _ _ size) = put (codes "[") >> r.cg_expr size >> put (codes "]")
  array_suffix _ = skip
