-- ===== src/Main.antt =====
-- The build of compiler/src/main.c: the parts one after the other.
pub mod Passes
use q.Ast.{AstNode}
use q.Codegen.Program.{emitters, codegen_emit_c}
use q.Common.{
  ℕ, zero, suc, ◌+◌, ◌%◌, ◌^◌, Bool, true, false, not, ◌||◌, ltb, Option, some, none, List, Bytes,
  codes, ◌≡◌, refl, arith, inl, inr, Bool-cases, if◌then◌else◌,
}
use q.Diagnostic.{Diagnostics, diag_get_error_count, diag_reset}
use q.Lexer.State.{Token, lexer_init}
use q.Parser.Decl.{parser_parse}
use q.Parser.State.{Parser, Outcome, done, overrun, no_fuel, parser_init}
use q.Security.Scan.{security_analyze}
use q.Security.State.{SecurityAnalyzer, security_init}
use q.Sema.State.{Sema, sema_init}
use q.Sema.Walk.{sema_analyze}
use q.Source.{SourceFile, Registry, source_registry_init, source_load, source_get}

-- The world of a build: what `fopen` and `fread` give for a path, which paths open for writing, and `%g`
-- of a float's text.
pub record World : Type 0 where
  pub read : Bytes → Option Bytes
  pub opens : Bytes → Bool
  pub float_text : Bytes → Bytes

-- How `cmd_build` returns: its status, and what it has written to the file.
pub record BuildEnd : Type 0 where
  pub status : ℕ
  pub file : Option Bytes

abbrev pub failed : Option BuildEnd
failed = some (record { status = 1; file = none })

abbrev pub flush_end : Option (Bool × Bytes) → Option BuildEnd
flush_end none = none
flush_end (some (ok, text)) = if ok then some (record { status = 0; file = some text }) else failed

module _ (world : World) (fuel id : ℕ) where
  abbrev pub emit_stage : AstNode → Option BuildEnd
  emit_stage n =
      flush_end (codegen_emit_c (emitters world.float_text fuel) world.opens n (codes "output.c"))

  abbrev pub security_stage : AstNode → Diagnostics → Option BuildEnd
  security_stage n d =
      if not (security_analyze n (security_init id d)).0 then failed else emit_stage n

  abbrev pub sema_stage : AstNode → Diagnostics → Option BuildEnd
  sema_stage n d =
      let r = sema_analyze n (sema_init id d) in
      if not r.0 || ltb 0 (diag_get_error_count r.1.diag) then failed else security_stage n r.1.diag

  abbrev pub parse_stage : Outcome AstNode → Option BuildEnd
  parse_stage (done n p) =
      if ltb 0 (diag_get_error_count p.lexer.diag) then failed else sema_stage n p.lexer.diag
  parse_stage overrun = none
  parse_stage no_fuel = none

-- The source of an id, and the rest of the build on it.
abbrev pub build_source : World → ℕ → Diagnostics → Token → ℕ → Option SourceFile → Option BuildEnd
build_source world fuel d before id (some source) =
    parse_stage world fuel id (parser_parse (parser_init (lexer_init source (diag_reset d)) before))
build_source world fuel d before id none = none

abbrev pub build_loaded : World → ℕ → Diagnostics → Token → Registry × Option ℕ → Option BuildEnd
build_loaded world fuel d before (files, some id) =
    build_source world fuel d before id (source_get files (id % 2 ^ 16))
build_loaded world fuel d before (files, none) = failed

-- `cmd_build`: none where an array of the parser is written behind its end, or where the fuel of the code
-- generator does not reach. `before` is what the parser's `current` holds at first.
unfoldable pub cmd_build : World → ℕ → Diagnostics → Token → Bytes → Option BuildEnd
cmd_build world fuel d before path =
    build_loaded world fuel d before (source_load world.read source_registry_init path)
