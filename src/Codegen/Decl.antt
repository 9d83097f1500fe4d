-- ===== src/Codegen/Decl.antt =====
-- The declarations of compiler/src/codegen.c.
use q.Ast.{
  AstNode, null_node, AstType, never_type, module_decl, import_decl, fn_decl, struct_decl,
  enum_decl, trait_decl, impl_block, const_decl, static_decl, type_alias, driver_decl, syscall_decl,
  Nodes, no_nodes, node, Params, no_params, param, Fields, no_fields, field, Variants, no_variants,
  variant, Attributes, no_attributes, attribute,
}
use q.Codegen.State.{
  Emit, ◌>>◌, skip, put, putf, put_view, is_null, is_null_type, newline, nested, numeral_in,
}
use q.Codegen.Stmt.{init_emit}
use q.Codegen.Types.{Emitters, comma, array_suffix}
use q.Codegen.Writer.{c_string}
use q.Common.{
  ℕ, ◌+◌, ◌||◌, Bool, true, false, Option, some, none, ◌++◌, Bytes, codes, bytes_eq, take,
  if◌then◌else◌,
}

-- `cg_attribs`.
abbrev pub attrib_emit : Bytes → Emit
attrib_emit name =
    if bytes_eq name (codes "no_mangle")
    then skip
    else (if bytes_eq name (codes "packed")
        then put (codes " __attribute__((packed))")
        else (if bytes_eq name (codes "align")
            then put (codes " __attribute__((aligned(16)))")
            else (if bytes_eq name (codes "link_section") || bytes_eq name (codes "section")
                then skip
                else (if bytes_eq name (codes "irq_handler")
                    then put (codes " __attribute__((interrupt))")
                    else skip))))

abbrev pub cg_attribs : Attributes → Emit
cg_attribs no_attributes = skip
cg_attribs (attribute name _ _ rest) = attrib_emit name >> cg_attribs rest

-- `cg_section_attrib`.
abbrev pub section_emit : Bytes → Emit
section_emit name =
    if bytes_eq name (codes "link_section") || bytes_eq name (codes "section")
    then put (codes "__attribute__((section(\".text.boot\"))) ")
    else skip

abbrev pub cg_section_attrib : Attributes → Emit
cg_section_attrib no_attributes = skip
cg_section_attrib (attribute name _ _ rest) = section_emit name >> cg_section_attrib rest

-- Whether an attribute is `packed`.
abbrev pub is_packed : Attributes → Bool
is_packed no_attributes = false
is_packed (attribute name _ _ rest) = bytes_eq name (codes "packed") || is_packed rest

-- The name of the driver that a method belongs to.
abbrev pub prefix_emit : Option Bytes → Emit
prefix_emit none = skip
prefix_emit (some prefix) = putf (prefix ++ codes "_")

abbrev pub self_emit : Option Bytes → Emit
self_emit none = put (codes "void*")
self_emit (some prefix) = putf (prefix ++ codes "*")

abbrev pub is_never : AstType → Bool
is_never (never_type _) = true
is_never _ = false

abbrev pub no_params_emit : Params → Emit
no_params_emit no_params = put (codes "void")
no_params_emit _ = skip

module _ (r : Emitters) where
  abbrev pub return_type_emit : Bool → AstType → Emit
  return_type_emit is_interrupt t =
      if is_interrupt
      then put (codes "__attribute__((interrupt)) void")
      else (if is_never t then put (codes "__attribute__((noreturn)) void") else r.cg_type t)

  abbrev pub param_type_emit : Option Bytes → AstType → Emit
  param_type_emit prefix t = if is_null_type t then self_emit prefix else r.cg_type t

  abbrev pub param_list : Option Bytes → Params → Bool → Emit
  param_list prefix no_params first = skip
  param_list prefix (param name t _ rest) first =
      comma r first
      >> param_type_emit prefix t
      >> put (codes " ")
      >> put_view name
      >> param_list prefix rest false

  abbrev pub body_emit : AstNode → Emit
  body_emit n = if is_null n then put (codes ";") else (put (codes " ") >> r.cg_block n)

  -- `cg_fn_decl`; another node has no other routine to come from.
  unfoldable pub cg_fn_decl : Option Bytes → AstNode → Emit
  cg_fn_decl prefix (fn_decl _ name params return_type body attribs flags) =
      return_type_emit flags.is_interrupt return_type
      >> put (codes " ")
      >> cg_section_attrib attribs
      >> prefix_emit prefix
      >> put_view name
      >> put (codes "(")
      >> param_list prefix params true
      >> no_params_emit params
      >> put (codes ")")
      >> cg_attribs attribs
      >> body_emit body
  cg_fn_decl prefix _ = skip

  abbrev pub field_lines : Fields → Emit
  field_lines no_fields = skip
  field_lines (field name t _ _ rest) =
      newline
      >> r.cg_type t
      >> put (codes " ")
      >> put_view name
      >> array_suffix r t
      >> put (codes ";")
      >> field_lines rest

  -- A struct with its fields, up to the closing brace.
  abbrev pub struct_lines : Bytes → Fields → Emit
  struct_lines name fields =
      putf (codes "typedef struct " ++ name ++ codes " " ++ name ++ codes ";")
      >> newline
      >> putf (codes "struct " ++ name ++ codes " {")
      >> nested (field_lines fields)
      >> newline

  abbrev pub discriminant_emit : AstNode → ℕ → Emit
  discriminant_emit n i =
      if is_null n
      then putf (codes "(" ++ numeral_in 10 i ++ codes ")")
      else (put (codes "(") >> r.cg_expr n >> put (codes ")"))

  abbrev pub variant_lines : Bytes → Variants → ℕ → Emit
  variant_lines name no_variants i = skip
  variant_lines name (variant item _ value _ rest) i =
      put (codes "#define ")
      >> putf (c_string name ++ codes "_" ++ c_string item ++ codes " ")
      >> discriminant_emit value i
      >> newline
      >> variant_lines name rest (i + 1)

  abbrev pub repr_emit : AstType → Emit
  repr_emit t = if is_null_type t then put (codes "int") else r.cg_type t

  abbrev pub method_lines : Bytes → Nodes → Emit
  method_lines name no_nodes = skip
  method_lines name (node n ns) =
      newline >> cg_fn_decl (some name) n >> newline >> method_lines name ns

  abbrev pub decl_lines : Nodes → Emit
  decl_lines no_nodes = skip
  decl_lines (node n ns) = newline >> r.cg_decl n >> decl_lines ns

  abbrev pub syscall_params : Params → Bool → Emit
  syscall_params no_params first = skip
  syscall_params (param name t _ rest) first =
      comma r first >> r.cg_type t >> put (codes " ") >> put_view name >> syscall_params rest false

  abbrev pub syscall_body : AstNode → Emit
  syscall_body n = if is_null n then put (codes "{}") else r.cg_block n

  abbrev pub comment_emit : Bytes → AstNode → Emit
  comment_emit text n = put text >> r.cg_expr n >> put (codes " */") >> newline

  -- A driver, whose name is kept in 256 bytes.
  abbrev pub driver_emit : Bytes → Fields → Nodes → Emit
  driver_emit name fields methods =
      struct_lines name fields >> put (codes "};") >> newline >> method_lines name methods

  -- `cg_decl`.
  unfoldable pub decl_emit : AstNode → Emit
  decl_emit null_node = skip
  decl_emit (module_decl _ p) = comment_emit (codes "/* Q+ module: ") p
  decl_emit (import_decl _ p _ _ _) = comment_emit (codes "/* import: ") p
  decl_emit (const_decl _ name _ value _ _) =
      put (codes "#define ")
      >> put_view name
      >> put (codes " (")
      >> r.cg_expr value
      >> put (codes ")")
      >> newline
  decl_emit (static_decl _ name t value _ _) =
      put (codes "static ")
      >> r.cg_type t
      >> put (codes " ")
      >> put_view name
      >> array_suffix r t
      >> init_emit r value
      >> put (codes ";")
      >> newline
  decl_emit (type_alias _ name t _) =
      put (codes "typedef ")
      >> r.cg_type t
      >> put (codes " ")
      >> put_view name
      >> put (codes ";")
      >> newline
  decl_emit (struct_decl _ name fields attribs _) =
      struct_lines (c_string name) fields
      >> put (if is_packed attribs then codes "} __attribute__((packed));" else codes "};")
      >> newline
  decl_emit (enum_decl _ name variants repr _) =
      put (codes "typedef ")
      >> repr_emit repr
      >> put (codes " ")
      >> putf (c_string name ++ codes ";")
      >> newline
      >> variant_lines name variants 0
  decl_emit (fn_decl s name params t body attribs flags) =
      cg_fn_decl none (fn_decl s name params t body attribs flags) >> newline
  decl_emit (driver_decl _ name fields methods _) =
      driver_emit (take 255 (c_string name)) fields methods
  decl_emit (syscall_decl _ name params t body) =
      put (codes "/* syscall */ ")
      >> r.cg_type t
      >> put (codes " sys_")
      >> put_view name
      >> put (codes "(")
      >> syscall_params params true
      >> no_params_emit params
      >> put (codes ") ")
      >> syscall_body body
      >> newline
  decl_emit (impl_block _ _ _ methods) = decl_lines methods
  decl_emit (trait_decl _ name _ _) =
      putf (codes "/* trait " ++ c_string name ++ codes " */") >> newline
  decl_emit n = r.cg_stmt n
