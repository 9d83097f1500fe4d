-- ===== src/Parser/Decl.antt =====
-- The declarations of compiler/src/parser.c, and `parser_parse`.
use q.Ast.{
  AstNode, null_node, AstType, null_type, program, module_decl, import_decl, fn_decl, struct_decl,
  const_decl, driver_decl, syscall_decl, Params, no_params, param, Fields, no_fields, field,
  Attributes, no_attributes, attribute, no_nodes,
}
use q.Common.{
  ℕ, zero, suc, ◌+◌, ◌*◌, Bool, true, false, List, [], ◌∷◌, Bytes, codes, ◌||◌, if◌then◌else◌,
}
use q.Parser.Knot.{routines}
use q.Parser.Loops.{comma_list, capped_list, closes, push, node_array}
use q.Parser.State.{
  Parser, done, overrun, Parse, ◌>>=◌, ◌>>◌, pure, look, step, check, on_match, on_check,
  first_match, matches, expect, rank, skip_until, synchronize, current_text, name_or_error,
  name_or_kind,
}
use q.Parser.Stmt.{parse_statement, end_of_statement}
use q.Parser.Types.{Routines, parse_expression, arrow_type}
use q.Token.Kind.{TokenKind, kind_eq, Span}

-- A parameter or a field, before it is copied into the arena.
pub record Slot : Type 0 where
  pub name : Bytes
  pub type : AstType
  pub is_pub : Bool
  pub span : Span

abbrev pub param_array : List Slot → Params
param_array [] = no_params
param_array (s ∷ slots) = param s.name s.type s.span (param_array slots)

abbrev pub field_array : List Slot → Fields
field_array [] = no_fields
field_array (s ∷ slots) = field s.name s.type s.is_pub s.span (field_array slots)

-- The arguments of an attribute, which are skipped.
abbrev pub attribute_args : Parse (Unit {0})
attribute_args =
    on_match TokenKind.lparen
      (do
        (λ p. skip_until (rank p + 1) (check TokenKind.rparen) p)
        expect TokenKind.rparen (codes "expected ')'"))
      (pure tt)

-- `parse_attributes`, on what is left of its array.
unfoldable pub parse_attributes : ℕ → Parse Attributes
parse_attributes zero p = if check TokenKind.hash p then overrun else done no_attributes p
parse_attributes (suc room) p =
    on_match TokenKind.hash
      (do
        expect TokenKind.lbracket (codes "expected '[' after '#'")
        look λ q. do
          step
          attribute_args
          expect TokenKind.rbracket (codes "expected ']'")
          rest ← parse_attributes room
          pure (attribute (name_or_kind q) no_nodes q.current.span rest))
      (pure no_attributes) p

-- A driver's members, with one more in front.
abbrev pub keep_method : AstNode → List Slot × List AstNode → List Slot × List AstNode
keep_method n (slots, methods) = (slots, n ∷ methods)

abbrev pub keep_field : Slot → List Slot × List AstNode → List Slot × List AstNode
keep_field s (slots, methods) = (s ∷ slots, methods)

module _ (r : Routines) where
  -- A name, a colon and a type.
  abbrev pub typed_slot : Bytes → Span → Bool → Parse Slot
  typed_slot msg span is_pub = look λ p. do
    expect TokenKind.identifier msg
    expect TokenKind.colon (codes "expected ':'")
    type ← r.parse_type
    pure (record { name = name_or_error p; type = type; is_pub = is_pub; span = span })

  -- The type of `self`.
  abbrev pub self_type : Span → Parse Slot
  self_type span = do
    type ← on_match TokenKind.colon r.parse_type (pure null_type)
    pure (record { name = codes "self"; type = type; is_pub = false; span = span })

  abbrev pub self_param : Span → Parse Slot
  self_param span =
      on_match TokenKind.amp
        (do
          matches TokenKind.kw_mut
          expect TokenKind.kw_self (codes "expected 'self'")
          self_type span)
        (step >> self_type span)

  -- A parameter of a function.
  abbrev pub named_param : Span → Parse Slot
  named_param span = look λ p. do
    expect TokenKind.identifier (codes "expected parameter name")
    expect TokenKind.colon (codes "expected ':' after parameter name")
    type ← r.parse_type
    pure (record { name = name_or_error p; type = type; is_pub = false; span = span })

  unfoldable pub fn_param : Parse Slot
  fn_param = look λ p.
      if check TokenKind.kw_self p || check TokenKind.amp p
      then self_param p.current.span
      else named_param p.current.span

  -- The name and the parameters of a function, in an array of 64.
  abbrev pub fn_signature : Parse (List Slot)
  fn_signature = do
    expect TokenKind.identifier (codes "expected function name")
    expect TokenKind.lparen (codes "expected '('")
    ps ← comma_list 64 TokenKind.rparen (codes "expected ','") fn_param true
    expect TokenKind.rparen (codes "expected ')'")
    pure ps

  -- A body, or a semicolon.
  abbrev pub fn_end : Parse AstNode
  fn_end =
      on_check TokenKind.lbrace r.parse_block
        (expect TokenKind.semicolon (codes "expected '{' or ';'") >> pure null_node)

  -- `fn`, behind `interrupt`.
  unfoldable pub interrupt_fn : Bool → Parse (Unit {0})
  interrupt_fn is_interrupt =
      if is_interrupt
      then expect TokenKind.kw_fn (codes "expected 'fn' after 'interrupt'")
      else pure tt

  -- `parse_fn_decl`, behind `fn` or `interrupt`.
  unfoldable pub parse_fn_decl : Bool → Attributes → Parse AstNode
  parse_fn_decl is_pub attribs = look λ p. do
    interrupt_fn (kind_eq p.previous.kind TokenKind.kw_interrupt)
    look λ q. do
      ps ← fn_signature
      return_type ← arrow_type r
      body ← fn_end
      pure (
          fn_decl p.previous.span (name_or_error q) (param_array ps) return_type body attribs
            (record {
              is_pub = is_pub;
              is_unsafe = false;
              is_const = false;
              is_interrupt = kind_eq p.previous.kind TokenKind.kw_interrupt;
            }))

  -- The fields of a struct: the loop ends where a comma is missing.
  abbrev pub struct_field : Parse Slot
  struct_field = look λ p. do
    is_pub ← matches TokenKind.kw_pub
    typed_slot (codes "expected field name") p.current.span is_pub

  unfoldable pub struct_fields : ℕ → Parse (List Slot)
  struct_fields zero p = if closes TokenKind.rbrace p then done [] p else overrun
  struct_fields (suc room) p =
      if closes TokenKind.rbrace p
      then done [] p
      else (struct_field >>= λ f.
            on_match TokenKind.comma (push f (struct_fields room)) (pure (f ∷ [])))
          p

  -- `parse_struct_decl`, behind the keyword.
  abbrev pub parse_struct_decl : Bool → Attributes → Parse AstNode
  parse_struct_decl is_pub attribs = look λ p. do
    expect TokenKind.identifier (codes "expected struct name")
    expect TokenKind.lbrace (codes "expected '{'")
    slots ← struct_fields 128
    expect TokenKind.rbrace (codes "expected '}'")
    pure (struct_decl p.previous.span (name_or_error p) (field_array slots) attribs is_pub)

  -- `parse_module_decl`.
  abbrev pub parse_module_decl : Parse AstNode
  parse_module_decl =
      look
        λ p. do path ← parse_expression r; end_of_statement; pure (module_decl p.previous.span path)

  -- `parse_import_decl`, with its array of 64 names.
  abbrev pub import_item : Parse Bytes
  import_item = look λ p. step >> pure (name_or_kind p)

  abbrev pub import_items : Parse (List Bytes)
  import_items =
      on_match TokenKind.lbrace
        (do
          items ← comma_list 64 TokenKind.rbrace (codes "expected ','") import_item true
          expect TokenKind.rbrace (codes "expected '}'")
          pure items)
        (pure [])

  abbrev pub parse_import_decl : Parse AstNode
  parse_import_decl = look λ p. do
    path ← parse_expression r
    items ← import_items
    end_of_statement
    pure (import_decl p.previous.span path items [] false)

  -- `parse_const_decl`.
  abbrev pub parse_const_decl : Bool → Parse AstNode
  parse_const_decl is_pub = look λ p. do
    expect TokenKind.identifier (codes "expected constant name")
    expect TokenKind.colon (codes "expected ':'")
    type ← r.parse_type
    expect TokenKind.eq (codes "expected '='")
    value ← parse_expression r
    end_of_statement
    pure (const_decl p.previous.span (current_text p) type value is_pub false)

  -- One round of the loop of `parse_driver_decl`, with what is done with a method and with a field.
  abbrev pub driver_field : Span → Bool → Parse Slot
  driver_field span is_pub = typed_slot (codes "expected field name") span is_pub

  abbrev pub driver_round :
      {A : Type 0} → (Bool → Attributes → Parse A) → (Span → Bool → Parse A) → Parse A
  driver_round method member = do
    attribs ← parse_attributes 32
    is_pub ← matches TokenKind.kw_pub
    look λ p.
        first_match
          ((TokenKind.kw_fn, method is_pub attribs)
            ∷ (TokenKind.kw_interrupt, method is_pub attribs)
            ∷ [])
          (member p.current.span is_pub)

  -- The loop, on what is left of the arrays of fields and of methods. A comma after a field is taken.
  unfoldable pub driver_members : ℕ → ℕ → Parse (List Slot × List AstNode)
  driver_members zero zero p =
      if closes TokenKind.rbrace p
      then done ([], []) p
      else driver_round (λ is_pub attribs q. overrun) (λ span is_pub q. overrun) p
  driver_members zero (suc methods) p =
      if closes TokenKind.rbrace p
      then done ([], []) p
      else driver_round
          (λ is_pub attribs. do
            n ← parse_fn_decl is_pub attribs
            rest ← driver_members zero methods
            pure (keep_method n rest))
          (λ span is_pub q. overrun) p
  driver_members (suc fields) zero p =
      if closes TokenKind.rbrace p
      then done ([], []) p
      else driver_round (λ is_pub attribs q. overrun)
          (λ span is_pub. do
            s ← driver_field span is_pub
            matches TokenKind.comma
            rest ← driver_members fields zero
            pure (keep_field s rest))
          p
  driver_members (suc fields) (suc methods) p =
      if closes TokenKind.rbrace p
      then done ([], []) p
      else driver_round
          (λ is_pub attribs. do
            n ← parse_fn_decl is_pub attribs
            rest ← driver_members (suc fields) methods
            pure (keep_method n rest))
          (λ span is_pub. do
            s ← driver_field span is_pub
            matches TokenKind.comma
            rest ← driver_members fields (suc methods)
            pure (keep_field s rest))
          p

  -- `parse_driver_decl`.
  abbrev pub parse_driver_decl : Bool → Parse AstNode
  parse_driver_decl is_pub = look λ p. do
    expect TokenKind.identifier (codes "expected driver name")
    expect TokenKind.lbrace (codes "expected '{'")
    members ← driver_members 64 128
    expect TokenKind.rbrace (codes "expected '}'")
    pure (
        driver_decl p.previous.span (name_or_error p) (field_array members.0) (node_array members.1)
          is_pub)

  -- `parse_syscall_decl`, with its array of 32 parameters.
  abbrev pub syscall_param : Parse Slot
  syscall_param = look λ p. typed_slot (codes "expected param name") p.current.span false

  abbrev pub parse_syscall_decl : Parse AstNode
  parse_syscall_decl = look λ p. do
    expect TokenKind.identifier (codes "expected syscall name")
    expect TokenKind.lparen (codes "expected '('")
    ps ← comma_list 32 TokenKind.rparen (codes "expected ','") syscall_param true
    expect TokenKind.rparen (codes "expected ')'")
    return_type ← arrow_type r
    body ← r.parse_block
    pure (syscall_decl p.previous.span (name_or_error p) (param_array ps) return_type body)

  -- The fallback of `parse_declaration`: a statement, and the end of a panic.
  unfoldable pub loose_statement : Parse AstNode
  loose_statement = do
    n ← parse_statement r
    (λ p. if p.panic_mode then synchronize p else done tt p)
    pure n

  abbrev pub declaration_rows : Bool → Attributes → List (TokenKind × Parse AstNode)
  declaration_rows is_pub attribs =
      (TokenKind.kw_fn, parse_fn_decl is_pub attribs)
      ∷ (TokenKind.kw_struct, parse_struct_decl is_pub attribs)
      ∷ (TokenKind.kw_module, parse_module_decl)
      ∷ (TokenKind.kw_import, parse_import_decl)
      ∷ (TokenKind.kw_const, parse_const_decl is_pub)
      ∷ (TokenKind.kw_driver, parse_driver_decl is_pub)
      ∷ (TokenKind.kw_syscall, parse_syscall_decl)
      ∷ (TokenKind.kw_interrupt, parse_fn_decl is_pub attribs)
      ∷ []

  -- `parse_declaration`.
  unfoldable pub parse_declaration : Parse AstNode
  parse_declaration = do
    attribs ← parse_attributes 32
    is_pub ← matches TokenKind.kw_pub
    first_match (declaration_rows is_pub attribs) loose_statement

-- The fuel for a parser in this state: three calls for each token that is left, and three more.
abbrev pub parse_fuel : Parser → ℕ
parse_fuel p = 3 * rank p + 3

-- `parser_parse`, with its array of 1024 declarations.
unfoldable pub parser_parse : Parse AstNode
parser_parse = look λ p. do
  decls ← capped_list 1024 TokenKind.eof (parse_declaration (routines (parse_fuel p)))
  pure (program p.current.span (node_array decls))
