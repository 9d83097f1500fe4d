-- ===== src/Codegen/Keeps.antt =====
-- The emission of expressions, types and blocks in compiler/src/codegen.c keeps the state.
pub mod Expr
pub mod Block
pub mod Decl
use q.Ast.{
  AstNode, null_node, block, if_expr, ident, AstType, null_type, primitive, named, path_type,
  array_type, slice_type, ref_type, ptr_type, own_type, fn_ptr_type, generic_type, never_type,
  Types, no_types, type_item, Nodes, no_nodes, node, BinaryOp,
}
use q.Codegen.Balance.{
  Adds, Adds-trans, cw_write-Adds, cw_nl-Adds, Kept, Kept-trans, Grown, Grown-trans, Kept-Grown,
  Held, held, bind-Held, map-Held, Keeps, Grows, Keeps-Grows,
}
use q.Codegen.Shape.{
  is_decl, is_line, Placed, weight, TypePlaced, type_weight, TypesPlaced, types_weight,
}
use q.Codegen.State.{
  CodeGen, Emit, then_emit, ◌>>◌, skip, on_writer, put, putf, is_null, newline, indented, dedented,
  nested,
}
use q.Codegen.Types.{
  Emitters, comma, type_list, path_name, volatile_text, pointer_to, type_emit, array_suffix,
}
use q.Codegen.Writer.{CWriter, cw_write, cw_writef, cw_nl, cw_indent, cw_dedent}
use q.Common.{
  ℕ, zero, suc, ◌+◌, ◌-◌, ◌≤◌, ◌<◌, Bool, true, false, Option, some, none, List, [], ◌∷◌, ◌++◌,
  Bytes, codes, take, ◌≡◌, refl, sym, append-nil, ap, ◌∙◌, arith, if◌then◌else◌,
}

-- A step that adds text.
pub on_writer-Keeps : {f : CWriter → CWriter} → ((w : CWriter) → Adds w (f w)) → Keeps (on_writer f)
on_writer-Keeps h = record { run = λ s. held (record { adds = h s.out; stack = refl }) }

pub skip-Keeps : Keeps skip
skip-Keeps = record {
  run = λ s. held (record {
    adds = record { text = []; buf = sym (append-nil s.out.buf); indent = refl };
    stack = refl;
  });
}

pub put-Keeps : (s : Bytes) → Keeps (put s)
put-Keeps s = on_writer-Keeps (cw_write-Adds s)

pub putf-Keeps : (s : Bytes) → Keeps (putf s)
unfolding cw_writef
putf-Keeps s = on_writer-Keeps (cw_write-Adds (take 1023 s))

pub newline-Keeps : Keeps newline
newline-Keeps = on_writer-Keeps cw_nl-Adds

infixl 1 ◌then◌
pub ◌then◌ : {f g : Emit} → Keeps f → Keeps g → Keeps (f >> g)
h then k = record {
  run = λ s. bind-Held (h.run s) (λ t a. map-Held (k.run t) (λ u b. Kept-trans a b));
}

-- The indentation comes back.
inside :
    {s t : CodeGen}
    → Kept (record s { out = cw_indent s.out }) t
    → Kept s (record t { out = cw_dedent t.out })
unfolding cw_indent cw_dedent
inside h = record {
  adds = record { text = h.adds.text; buf = h.adds.buf; indent = omega (arith, h.adds.indent) };
  stack = h.stack;
}

pub nested-Keeps : {f : Emit} → Keeps f → Keeps (nested f)
nested-Keeps h = record {
  run = λ s. bind-Held (h.run (record s { out = cw_indent s.out })) (λ t a. held (inside a));
}

pub if-Keeps : (v : Bool) {f g : Emit} → Keeps f → Keeps g → Keeps (if v then f else g)
if-Keeps true h k = h
if-Keeps false h k = k

abbrev pub is_block : AstNode → Bool
is_block (block _ _ _) = true
is_block _ = false

-- What a call of `cg_block` or `cg_decl` costs more where it only passes the node on.
abbrev pub block_turn : AstNode → ℕ
block_turn n = if is_block n then 0 else 2

block_turn_le : (n : AstNode) → block_turn n ≤ 2
block_turn_le n = ground arith

abbrev pub decl_turn : AstNode → ℕ
decl_turn n = if is_decl n then 0 else 2

-- The recursive calls return on trees of a weight below `b`, and keep the state or may defer.
pub record Balanced (b : ℕ) (r : Emitters) : Type 0 where
  pub type : (t : AstType) → TypePlaced t → type_weight t < b → Keeps (r.cg_type t)
  pub expr : (n : AstNode) → Placed n → weight n < b → Keeps (r.cg_expr n)
  pub block : (n : AstNode) → Placed n → weight n + block_turn n ≤ b → Keeps (r.cg_block n)
  pub stmt :
      (n : AstNode) → is_line n ≡ true → Placed n → weight n < b → Grows (weight n) (r.cg_stmt n)
  pub decl :
      (n : AstNode)
      → is_line n ≡ true
      → Placed n
      → weight n + decl_turn n ≤ b
      → Grows (weight n) (r.cg_decl n)

module _ {b : ℕ} {r : Emitters} (h : Balanced b r) where
  pub comma-Keeps : (first : Bool) → Keeps (comma r first)
  comma-Keeps first = if-Keeps first skip-Keeps (put-Keeps _)

  -- A block of any kind, when the weight leaves two calls.
  pub block-Keeps : (n : AstNode) → Placed n → weight n + 2 ≤ b → Keeps (r.cg_block n)
  block-Keeps n p w = h.block n p (omega (arith, block_turn_le n))

  type_list-Keeps :
      (ts : Types) (first : Bool)
      → TypesPlaced ts
      → types_weight ts < b
      → Keeps (type_list r ts first)
  unfolding Placed weight
  type_list-Keeps no_types first p w = skip-Keeps
  type_list-Keeps (type_item t ts) first p w =
      comma-Keeps first
      then h.type t p.0 (omega arith)
      then type_list-Keeps ts false p.1 (omega arith)

  path_name-Keeps :
      (name : Bytes) (n : AstNode) → Placed n → weight n < b → Keeps (path_name r name n)
  path_name-Keeps name n p w = if-Keeps (is_null n) (putf-Keeps _) (h.expr n p w)

  pointer_to-Keeps : (t : AstType) → TypePlaced t → type_weight t < b → Keeps (pointer_to r t)
  pointer_to-Keeps t p w = h.type t p w then put-Keeps _

  pub type_emit-Keeps : (t : AstType) → TypePlaced t → type_weight t ≤ b → Keeps (type_emit r t)
  unfolding type_emit Placed weight
  type_emit-Keeps null_type p w = put-Keeps _
  type_emit-Keeps (primitive _ kind) p w = put-Keeps _
  type_emit-Keeps (named _ name _) p w = putf-Keeps _
  type_emit-Keeps (path_type _ name n) p w = path_name-Keeps name n p (omega arith)
  type_emit-Keeps (ptr_type _ t is_volatile) p w =
      h.type t p (omega arith) then if-Keeps is_volatile (put-Keeps _) skip-Keeps then put-Keeps _
  type_emit-Keeps (ref_type _ t _) p w = pointer_to-Keeps t p (omega arith)
  type_emit-Keeps (own_type _ t) p w = pointer_to-Keeps t p (omega arith)
  type_emit-Keeps (slice_type _ _) p w = put-Keeps _
  type_emit-Keeps (array_type _ t _) p w = h.type t p.0 (omega arith)
  type_emit-Keeps (generic_type _ t _) p w = h.type t p (omega arith)
  type_emit-Keeps (never_type _) p w = put-Keeps _
  type_emit-Keeps (fn_ptr_type _ ts t) p w =
      h.type t p.1 (omega arith)
      then put-Keeps _
      then type_list-Keeps ts true p.0 (omega arith)
      then put-Keeps _
  type_emit-Keeps _ p w = put-Keeps _

  pub array_suffix-Keeps :
      (t : AstType) → TypePlaced t → type_weight t < b → Keeps (array_suffix r t)
  unfolding array_suffix Placed weight
  array_suffix-Keeps (array_type _ _ n) p w =
      put-Keeps _ then h.expr n p.1 (omega arith) then put-Keeps _
  array_suffix-Keeps _ p w = skip-Keeps
