-- ===== src/Parser/Opened.antt =====
-- One name whose unfolding opens the parser, for runs.
use q.Lexer.Opened.{opened}
use q.Parser.Decl.{
  parse_attributes, fn_param, interrupt_fn, parse_fn_decl, struct_fields, driver_members,
  loose_statement, parse_declaration, parser_parse,
}
use q.Parser.Expr.{
  get_precedence, token_to_binop, postfix_loop, parse_postfix, binary_loop, binary_body,
}
use q.Parser.Knot.{routines}
use q.Parser.Loops.{closes, comma_list, capped_list}
use q.Parser.Primary.{literal, segments, names, primary_body}
use q.Parser.State.{
  parser_init, advance, check, on_match, on_check, error_at, expect, is_sync, skip_until,
  synchronize, name_or_error, name_or_kind,
}
use q.Parser.Stmt.{is_assign_op, token_to_assign, parse_statement, block_body}
use q.Parser.Types.{is_primitive_type, generic_arg, if_primitive, type_body}
use q.Token.Kind.{token_kind_to_str}

unfoldable pub parser_opened : Unit {0}
unfolding opened parser_init advance check on_match on_check error_at expect is_sync skip_until
    synchronize name_or_error name_or_kind closes comma_list capped_list is_primitive_type
    generic_arg if_primitive type_body literal segments names primary_body get_precedence
    token_to_binop postfix_loop parse_postfix binary_loop binary_body is_assign_op token_to_assign
    parse_statement block_body routines parse_attributes fn_param interrupt_fn parse_fn_decl
    struct_fields driver_members loose_statement parse_declaration parser_parse token_kind_to_str
parser_opened = tt
