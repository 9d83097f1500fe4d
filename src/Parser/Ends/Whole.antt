-- ===== src/Parser/Ends/Whole.antt =====
-- `parse_driver_decl`, `parse_declaration` and `parser_parse` of compiler/src/parser.c come to an end.
use q.Ast.{AstNode, Attributes}
use q.Common.{ℕ, zero, suc, ◌≤◌, ◌<◌, Bool, List, refl, arith}
use q.Parser.Decl.{
  Slot, keep_method, keep_field, driver_field, driver_members, parse_driver_decl, parse_fn_decl,
  declaration_rows, parse_declaration, parse_fuel, parser_parse,
}
use q.Parser.Ends.Decl.{
  typed_slot-Ends, parse_fn_decl-Ends, parse_const_decl-Ends, parse_module_decl-Ends,
  parse_syscall_decl-Ends, parse_import_decl-Ends, parse_struct_decl-Ends, loose_statement-Ends,
  driver_round-Ends, parse_attributes-Ends, upto,
}
use q.Parser.Ends.Knot.{routines-Ready}
use q.Parser.Ends.Stmt.{matches-Ends}
use q.Parser.Ends.Types.{Ready}
use q.Parser.Ends.{
  Fine, Ends, bind-Ends, then-Ends, pure-Ends, look-Ends, if-Ends, overrun-Ends, first_match-Ends,
  AllEnd, ◌&◌, no_rows, none_at_eof, expect-Ends, capped_list-Ends,
}
use q.Parser.Knot.{routines}
use q.Parser.Loops.{closes}
use q.Parser.State.{Parser, Parse, rank, matches, ◌>>=◌, ◌>>◌, pure}
use q.Parser.Steps.{IsParser}
use q.Parser.Types.{Routines}
use q.Token.Kind.{TokenKind, kind_eq, Span}

module _ {b : ℕ} {r : Routines} (h : (c : ℕ) → c ≤ b → Ready c r) where
  -- The two rounds of a driver's loop, before the other members.
  method_round :
      (rest : Parse (List Slot × List AstNode))
      → Ends b rest
      → (is_pub : Bool) (attribs : Attributes)
      → Ends b
          (parse_fn_decl r is_pub attribs >>= λ n. rest >>= λ members. pure (keep_method n members))
  method_round rest k is_pub attribs =
      bind-Ends (parse_fn_decl-Ends h is_pub attribs) λ n. bind-Ends k λ members. pure-Ends

  field_round :
      (rest : Parse (List Slot × List AstNode))
      → Ends b rest
      → (span : Span) (is_pub : Bool)
      → Ends b (
          driver_field r span is_pub >>= λ s.
          matches TokenKind.comma >> (rest >>= λ members. pure (keep_field s members)))
  unfolding kind_eq
  field_round rest k span is_pub =
      bind-Ends (typed_slot-Ends h _ span is_pub)
        λ s. then-Ends (matches-Ends _ refl) (bind-Ends k λ members. pure-Ends)

module _ {r : Routines} where
  driver_members-Ends :
      (fields methods : ℕ) {b : ℕ}
      → ((c : ℕ) → c ≤ b → Ready c r)
      → Ends b (driver_members r fields methods)
  unfolding driver_members
  driver_members-Ends zero zero h =
      if-Ends (closes TokenKind.rbrace) pure-Ends
        (driver_round-Ends r _ _ (λ c k is_pub attribs. overrun-Ends) λ span is_pub. overrun-Ends)
  driver_members-Ends zero (suc methods) h = if-Ends (closes TokenKind.rbrace) pure-Ends (
      driver_round-Ends r _ _
        (λ c k. method_round (upto h c k) _ (driver_members-Ends zero methods (upto h c k)))
        λ span is_pub. overrun-Ends)
  driver_members-Ends (suc fields) zero h = if-Ends (closes TokenKind.rbrace) pure-Ends (
      driver_round-Ends r _ _ (λ c k is_pub attribs. overrun-Ends)
        (field_round h _ (driver_members-Ends fields zero h)))
  driver_members-Ends (suc fields) (suc methods) h = if-Ends (closes TokenKind.rbrace) pure-Ends (
      driver_round-Ends r _ _
        (λ c k. method_round (upto h c k) _ (driver_members-Ends (suc fields) methods (upto h c k)))
        (field_round h _ (driver_members-Ends fields (suc methods) h)))

module _ {b : ℕ} {r : Routines} (h : (c : ℕ) → c ≤ b → Ready c r) where
  parse_driver_decl-Ends : (is_pub : Bool) → Ends b (parse_driver_decl r is_pub)
  parse_driver_decl-Ends is_pub = look-Ends λ p. then-Ends (expect-Ends _ _) (
      then-Ends (expect-Ends _ _)
        (bind-Ends (driver_members-Ends 64 128 h) λ members. then-Ends (expect-Ends _ _) pure-Ends))

module _ {b : ℕ} {r : Routines} (h : (c : ℕ) → c ≤ b → Ready c r) where
  declaration_rows-AllEnd :
      (is_pub : Bool) (attribs : Attributes) (c : ℕ)
      → c < b
      → AllEnd c (declaration_rows r is_pub attribs)
  declaration_rows-AllEnd is_pub attribs c k =
      let below = upto h c k in
      parse_fn_decl-Ends below is_pub attribs
      & parse_struct_decl-Ends below is_pub attribs
      & parse_module_decl-Ends below
      & parse_import_decl-Ends below
      & parse_const_decl-Ends below is_pub
      & parse_driver_decl-Ends below is_pub
      & parse_syscall_decl-Ends below
      & parse_fn_decl-Ends below is_pub attribs
      & no_rows

  parse_declaration-Ends : Ends b (parse_declaration r)
  unfolding parse_declaration kind_eq none_at_eof
  parse_declaration-Ends = bind-Ends (parse_attributes-Ends 32) λ attribs.
      bind-Ends (matches-Ends _ refl) λ is_pub.
        first_match-Ends (declaration_rows r is_pub attribs) refl
          (declaration_rows-AllEnd is_pub attribs) (loose_statement-Ends h)

-- On every parser in order, the fuel of `parser_parse` is enough: it returns, with a parser in order
-- over the same source that is not further back, has no more tokens left and has forgotten no error, or
-- it has written behind the end of one of its local arrays; out of fuel it never is.
pub parser_parse-Fine : (p : Parser) → IsParser p → Fine p (parser_parse p)
unfolding parser_parse
parser_parse-Fine p h =
    let ready : (c : ℕ) → c ≤ rank p → Ready c (routines (parse_fuel p)) =
      λ c k. routines-Ready (parse_fuel p) c (omega (arith, k)) in
    (bind-Ends (capped_list-Ends 1024 TokenKind.eof (parse_declaration-Ends ready))
        λ decls. pure-Ends).run
      p h (omega arith)
