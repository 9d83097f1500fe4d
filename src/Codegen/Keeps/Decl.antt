-- ===== src/Codegen/Keeps/Decl.antt =====
-- The declarations of compiler/src/codegen.c keep the state, and the whole recursion.
use q.Ast.{
  AstNode, null_node, module_decl, import_decl, fn_decl, struct_decl, enum_decl, trait_decl,
  impl_block, const_decl, static_decl, type_alias, driver_decl, syscall_decl, let_stmt, expr_stmt,
  return_stmt, break_stmt, continue_stmt, defer_stmt, assign_stmt, Nodes, no_nodes, node, Params,
  no_params, param, Fields, no_fields, field, Variants, no_variants, variant, Attributes,
  no_attributes, attribute,
}
use q.Codegen.Balance.{Keeps, Grows, Keeps-Grows}
use q.Codegen.Decl.{
  attrib_emit, cg_attribs, cg_section_attrib, prefix_emit, self_emit, is_never, no_params_emit,
  param_list, cg_fn_decl, field_lines, struct_lines, variant_lines, method_lines, decl_lines,
  syscall_params, comment_emit, decl_emit,
}
use q.Codegen.Keeps.Block.{◌then_grows◌, Grows-mono, init_emit-Keeps}
use q.Codegen.Keeps.{
  skip-Keeps, put-Keeps, putf-Keeps, newline-Keeps, ◌then◌, nested-Keeps, if-Keeps, Balanced,
  comma-Keeps, block-Keeps, decl_turn, array_suffix-Keeps,
}
use q.Codegen.Shape.{
  Placed, NodesPlaced, LinesPlaced, ParamsPlaced, FieldsPlaced, VariantsPlaced, weight,
  nodes_weight, params_weight, fields_weight, variants_weight, is_line,
}
use q.Codegen.State.{is_null, is_null_type}
use q.Codegen.Types.{Emitters}
use q.Common.{
  ℕ, suc, ◌+◌, ◌≤◌, ◌<◌, ◌≡◌, arith, Bool, true, false, Option, some, none, Bytes, codes, bytes_eq,
  ◌||◌,
}

attrib_emit-Keeps : (name : Bytes) → Keeps (attrib_emit name)
attrib_emit-Keeps name = if-Keeps (bytes_eq name (codes "no_mangle")) skip-Keeps (
    if-Keeps (bytes_eq name (codes "packed")) (put-Keeps _) (
      if-Keeps (bytes_eq name (codes "align")) (put-Keeps _) (
        if-Keeps (bytes_eq name (codes "link_section") || bytes_eq name (codes "section"))
          skip-Keeps (if-Keeps (bytes_eq name (codes "irq_handler")) (put-Keeps _) skip-Keeps))))

cg_attribs-Keeps : (a : Attributes) → Keeps (cg_attribs a)
cg_attribs-Keeps no_attributes = skip-Keeps
cg_attribs-Keeps (attribute name _ _ rest) = attrib_emit-Keeps name then cg_attribs-Keeps rest

cg_section_attrib-Keeps : (a : Attributes) → Keeps (cg_section_attrib a)
cg_section_attrib-Keeps no_attributes = skip-Keeps
cg_section_attrib-Keeps (attribute name _ _ rest) =
    if-Keeps (bytes_eq name (codes "link_section") || bytes_eq name (codes "section")) (put-Keeps _)
      skip-Keeps
    then cg_section_attrib-Keeps rest

prefix_emit-Keeps : (o : Option Bytes) → Keeps (prefix_emit o)
prefix_emit-Keeps none = skip-Keeps
prefix_emit-Keeps (some _) = putf-Keeps _

self_emit-Keeps : (o : Option Bytes) → Keeps (self_emit o)
self_emit-Keeps none = put-Keeps _
self_emit-Keeps (some _) = putf-Keeps _

no_params_emit-Keeps : (ps : Params) → Keeps (no_params_emit ps)
no_params_emit-Keeps no_params = put-Keeps _
no_params_emit-Keeps (param _ _ _ _) = skip-Keeps

module _ {b : ℕ} {r : Emitters} (h : Balanced b r) where
  param_list-Keeps :
      (o : Option Bytes) (ps : Params) (first : Bool)
      → ParamsPlaced ps
      → params_weight ps < b
      → Keeps (param_list r o ps first)
  unfolding Placed weight
  param_list-Keeps o no_params first p w = skip-Keeps
  param_list-Keeps o (param _ t _ rest) first p w =
      comma-Keeps h first
      then if-Keeps (is_null_type t) (self_emit-Keeps o) (h.type t p.0 (omega arith))
      then put-Keeps _
      then putf-Keeps _
      then param_list-Keeps o rest false p.1 (omega arith)

  cg_fn_decl-Keeps :
      (o : Option Bytes) (n : AstNode) → Placed n → weight n ≤ b + 1 → Keeps (cg_fn_decl r o n)
  unfolding cg_fn_decl Placed weight
  cg_fn_decl-Keeps o (fn_decl _ _ ps t body a flags) p w =
      if-Keeps flags.is_interrupt (put-Keeps _)
        (if-Keeps (is_never t) (put-Keeps _) (h.type t p.1 (omega arith)))
      then put-Keeps _
      then cg_section_attrib-Keeps a
      then prefix_emit-Keeps o
      then putf-Keeps _
      then put-Keeps _
      then param_list-Keeps o ps true p.0 (omega arith)
      then no_params_emit-Keeps ps
      then put-Keeps _
      then cg_attribs-Keeps a
      then if-Keeps (is_null body) (put-Keeps _)
          (put-Keeps _ then block-Keeps h body p.2 (omega arith))
  cg_fn_decl-Keeps o _ p w = skip-Keeps

  field_lines-Keeps :
      (fs : Fields) → FieldsPlaced fs → fields_weight fs < b → Keeps (field_lines r fs)
  unfolding Placed weight
  field_lines-Keeps no_fields p w = skip-Keeps
  field_lines-Keeps (field _ t _ _ rest) p w =
      newline-Keeps
      then h.type t p.0 (omega arith)
      then put-Keeps _
      then putf-Keeps _
      then array_suffix-Keeps h t p.0 (omega arith)
      then put-Keeps _
      then field_lines-Keeps rest p.1 (omega arith)

  struct_lines-Keeps :
      (name : Bytes) (fs : Fields)
      → FieldsPlaced fs
      → fields_weight fs < b
      → Keeps (struct_lines r name fs)
  struct_lines-Keeps name fs p w =
      putf-Keeps _
      then newline-Keeps
      then putf-Keeps _
      then nested-Keeps (field_lines-Keeps fs p w)
      then newline-Keeps

  variant_lines-Keeps :
      (name : Bytes) (vs : Variants) (i : ℕ)
      → VariantsPlaced vs
      → variants_weight vs < b
      → Keeps (variant_lines r name vs i)
  unfolding Placed weight
  variant_lines-Keeps name no_variants i p w = skip-Keeps
  variant_lines-Keeps name (variant _ _ n _ rest) i p w =
      put-Keeps _
      then putf-Keeps _
      then if-Keeps (is_null n) (putf-Keeps _)
          (put-Keeps _ then h.expr n p.0 (omega arith) then put-Keeps _)
      then newline-Keeps
      then variant_lines-Keeps name rest (i + 1) p.1 (omega arith)

  method_lines-Keeps :
      (name : Bytes) (ns : Nodes)
      → NodesPlaced ns
      → nodes_weight ns ≤ b + 1
      → Keeps (method_lines r name ns)
  unfolding Placed weight
  method_lines-Keeps name no_nodes p w = skip-Keeps
  method_lines-Keeps name (node n ns) p w =
      newline-Keeps
      then cg_fn_decl-Keeps (some name) n p.0 (omega arith)
      then newline-Keeps
      then method_lines-Keeps name ns p.1 (omega arith)

  pub decl_turn_le : (n : AstNode) → decl_turn n ≤ 2
  decl_turn_le n = ground arith

  pub decl_lines-Grows :
      (m : ℕ) (ns : Nodes)
      → LinesPlaced ns
      → nodes_weight ns + 2 ≤ b
      → nodes_weight ns ≤ m
      → Grows m (decl_lines r ns)
  unfolding Placed weight
  decl_lines-Grows m no_nodes p w l = Keeps-Grows skip-Keeps
  decl_lines-Grows m (node n ns) p w l =
      Keeps-Grows newline-Keeps
      then_grows Grows-mono (omega arith) (h.decl n p.0 p.1 (omega (arith, decl_turn_le n)))
      then_grows decl_lines-Grows m ns p.2 (omega arith) (omega arith)

  syscall_params-Keeps :
      (ps : Params) (first : Bool)
      → ParamsPlaced ps
      → params_weight ps < b
      → Keeps (syscall_params r ps first)
  unfolding Placed weight
  syscall_params-Keeps no_params first p w = skip-Keeps
  syscall_params-Keeps (param _ t _ rest) first p w =
      comma-Keeps h first
      then h.type t p.0 (omega arith)
      then put-Keeps _
      then putf-Keeps _
      then syscall_params-Keeps rest false p.1 (omega arith)

  comment_emit-Keeps :
      (text : Bytes) (n : AstNode) → Placed n → weight n < b → Keeps (comment_emit r text n)
  comment_emit-Keeps text n p w = put-Keeps _ then h.expr n p w then put-Keeps _ then newline-Keeps

  pub decl_emit-Grows :
      (n : AstNode)
      → is_line n ≡ true
      → Placed n
      → weight n + decl_turn n ≤ suc b
      → Grows (weight n) (decl_emit r n)
  unfolding decl_emit Placed weight
  decl_emit-Grows null_node l p w = Keeps-Grows skip-Keeps
  decl_emit-Grows (module_decl _ n) l p w = Keeps-Grows (comment_emit-Keeps _ n p (omega arith))
  decl_emit-Grows (import_decl _ n _ _ _) l p w =
      Keeps-Grows (comment_emit-Keeps _ n p (omega arith))
  decl_emit-Grows (const_decl _ _ _ n _ _) l p w = Keeps-Grows (
      put-Keeps _
      then putf-Keeps _
      then put-Keeps _
      then h.expr n p (omega arith)
      then put-Keeps _
      then newline-Keeps)
  decl_emit-Grows (static_decl _ _ t n _ _) l p w = Keeps-Grows (
      put-Keeps _
      then h.type t p.0 (omega arith)
      then put-Keeps _
      then putf-Keeps _
      then array_suffix-Keeps h t p.0 (omega arith)
      then init_emit-Keeps h n p.1 (omega arith)
      then put-Keeps _
      then newline-Keeps)
  decl_emit-Grows (type_alias _ _ t _) l p w = Keeps-Grows (
      put-Keeps _
      then h.type t p (omega arith)
      then put-Keeps _
      then putf-Keeps _
      then put-Keeps _
      then newline-Keeps)
  decl_emit-Grows (struct_decl _ _ fs _ _) l p w =
      Keeps-Grows (struct_lines-Keeps _ fs p (omega arith) then put-Keeps _ then newline-Keeps)
  decl_emit-Grows (enum_decl _ _ vs t _) l p w = Keeps-Grows (
      put-Keeps _
      then if-Keeps (is_null_type t) (put-Keeps _) (h.type t p.1 (omega arith))
      then put-Keeps _
      then putf-Keeps _
      then newline-Keeps
      then variant_lines-Keeps _ vs 0 p.0 (omega arith))
  decl_emit-Grows (fn_decl s name ps t body a flags) l p w =
      Keeps-Grows (
        cg_fn_decl-Keeps none (fn_decl s name ps t body a flags) p (omega arith) then newline-Keeps)
  decl_emit-Grows (driver_decl _ _ fs ns _) l p w = Keeps-Grows (
      struct_lines-Keeps _ fs p.0 (omega arith)
      then put-Keeps _
      then newline-Keeps
      then method_lines-Keeps _ ns p.1 (omega arith))
  decl_emit-Grows (syscall_decl _ _ ps t n) l p w = Keeps-Grows (
      put-Keeps _
      then h.type t p.1 (omega arith)
      then put-Keeps _
      then putf-Keeps _
      then put-Keeps _
      then syscall_params-Keeps ps true p.0 (omega arith)
      then no_params_emit-Keeps ps
      then put-Keeps _
      then if-Keeps (is_null n) (put-Keeps _) (block-Keeps h n p.2 (omega arith))
      then newline-Keeps)
  decl_emit-Grows (impl_block _ _ _ ns) l p w = decl_lines-Grows _ ns p (omega arith) (omega arith)
  decl_emit-Grows (trait_decl _ _ _ _) l p w = Keeps-Grows (putf-Keeps _ then newline-Keeps)
  decl_emit-Grows (let_stmt x0 x1 x2 x3 x4) l p w =
      h.stmt (let_stmt x0 x1 x2 x3 x4) l p (omega arith)
  decl_emit-Grows (expr_stmt x0 x1) l p w = h.stmt (expr_stmt x0 x1) l p (omega arith)
  decl_emit-Grows (return_stmt x0 x1) l p w = h.stmt (return_stmt x0 x1) l p (omega arith)
  decl_emit-Grows (break_stmt x0 x1) l p w = h.stmt (break_stmt x0 x1) l p (omega arith)
  decl_emit-Grows (continue_stmt x0 x1) l p w = h.stmt (continue_stmt x0 x1) l p (omega arith)
  decl_emit-Grows (defer_stmt x0 x1) l p w = h.stmt (defer_stmt x0 x1) l p (omega arith)
  decl_emit-Grows (assign_stmt x0 x1 x2 x3) l p w =
      h.stmt (assign_stmt x0 x1 x2 x3) l p (omega arith)
  decl_emit-Grows n l p w = cc
