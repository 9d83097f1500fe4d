-- ===== src/Examples/Builds.antt =====
-- A build of a small program.
use q.Codegen.Decl.{decl_emit}
use q.Codegen.Expr.{expr_emit}
use q.Codegen.Program.{emitters, program_text, codegen_emit_c}
use q.Codegen.Types.{type_emit}
use q.Common.{true, Option, some, none, codes, ◌≡◌, refl}
use q.Diagnostic.{no_diagnostics, diag_reset, diag_get_error_count}
use q.Lexer.State.{Token, no_payload, lexer_init}
use q.Main.Passes.{Loaded, cmd_build-Loaded}
use q.Main.{World, BuildEnd, cmd_build}
use q.Parser.Opened.{parser_opened}
use q.Security.Scan.{sec_decls, security_analyze}
use q.Security.State.{security_init}
use q.Sema.Bodies.{sema_type}
use q.Sema.State.{sema_init, symtab_insert}
use q.Sema.Table.{
  hash_bytes, sv_hash, find_symbol, symtab_lookup_local, symtab_lookup, table_insert,
}
use q.Sema.Walk.{declares, register_name, sema_decl_pass1, register_decls, sema_decls, sema_analyze}
use q.Source.{
  source_registry_init, source_load, source_get, register, build_line_offsets, count_lines,
  fill_offsets,
}
use q.Token.Kind.{TokenKind}

abbrev disk : World
disk = record {
  read = λ path. some (codes "const N: u32 = 3;");
  opens = λ path. true;
  float_text = λ text. text;
}

abbrev before : Token
before = record {
  kind = TokenKind.eof;
  span = record { start = 0; end = 0; source_id = 0 };
  payload = no_payload;
}

abbrev run : Option BuildEnd
run = cmd_build disk 12 no_diagnostics before (codes "a.qp")

abbrev end_of : Option BuildEnd → BuildEnd
end_of (some e) = e
end_of none = record { status = 1; file = none }

run_ends : (run ≡ some (end_of run)) × ((end_of run).status ≡ 0)
unfolding parser_opened cmd_build source_load source_get register build_line_offsets count_lines
    fill_offsets lexer_init diag_reset diag_get_error_count sema_init sema_analyze register_decls
    sema_decl_pass1 register_name declares table_insert symtab_lookup_local symtab_lookup
    find_symbol sv_hash hash_bytes security_init security_analyze codegen_emit_c program_text
    emitters decl_emit expr_emit type_emit sema_decls sema_type symtab_insert sec_decls
run_ends = (refl, refl)

cmd_build-Loaded_example :
    Loaded disk 12 no_diagnostics before
      (source_load disk.read source_registry_init (codes "a.qp"))
      (end_of run)
cmd_build-Loaded_example =
    cmd_build-Loaded disk 12 no_diagnostics before (codes "a.qp") (end_of run) run_ends.0 run_ends.1
