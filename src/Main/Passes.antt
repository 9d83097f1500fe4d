-- ===== src/Main/Passes.antt =====
-- A build of compiler/src/main.c that returns 0.
use q.Ast.{AstNode}
use q.Codegen.Program.{emitters, codegen_emit_c}
use q.Common.{
  ℕ, ◌%◌, ◌^◌, Bool, true, false, not, ◌||◌, ltb, Option, some, none, Bytes, codes, ◌≡◌, refl,
  subst, arith, if◌then◌else◌,
}
use q.Diagnostic.{Diagnostics, diag_get_error_count, diag_reset}
use q.Lexer.State.{Token, lexer_init}
use q.Main.{World, BuildEnd, failed, flush_end, parse_stage, build_source, build_loaded, cmd_build}
use q.Parser.Decl.{parser_parse}
use q.Parser.State.{Parser, Outcome, done, overrun, no_fuel, parser_init}
use q.Security.Scan.{security_analyze}
use q.Security.State.{security_init}
use q.Sema.State.{sema_init}
use q.Sema.Walk.{sema_analyze}
use q.Source.{SourceFile, Registry, source_registry_init, source_load, source_get}

-- A build that went through every part.
pub record Accepted (world : World) (fuel id : ℕ) (o : Outcome AstNode) (e : BuildEnd)
    : Type 0 where
  pub tree : AstNode
  pub parser : Parser
  pub parsed : o ≡ done tree parser
  pub no_errors : diag_get_error_count parser.lexer.diag ≡ 0
  pub named : (sema_analyze tree (sema_init id parser.lexer.diag)).0 ≡ true
  pub secure :
      (security_analyze tree
        (security_init id (sema_analyze tree (sema_init id parser.lexer.diag)).1.diag)).0
      ≡ true
  pub text : Bytes
  pub is_text : e.file ≡ some text
  pub emitted :
      codegen_emit_c (emitters world.float_text fuel) world.opens tree (codes "output.c")
      ≡ some (true, text)

-- What holds of a build with the status 0.
abbrev Passed : (BuildEnd → Type 0) → Option BuildEnd → Type 0
Passed P none = Unit
Passed P (some e) = e.status ≡ 0 → P e

if-Passed :
    (v : Bool) (P : BuildEnd → Type 0) (o : Option BuildEnd)
    → (v ≡ false → Passed P o)
    → Passed P (if v then failed else o)
if-Passed true P o h = λ e. absurd (omega (arith, e))
if-Passed false P o h = h refl

no_count : (n : ℕ) → ltb 0 n ≡ false → n ≡ 0
no_count n h = ground arith

not-false : (v : Bool) → not v ≡ false → v ≡ true
not-false v h = ground arith

first_false : (v w : Bool) → (not v || w) ≡ false → v ≡ true
first_false v w h = ground arith

flush_end-Passed :
    (P : BuildEnd → Type 0) (o : Option (Bool × Bytes))
    → ((text : Bytes) → o ≡ some (true, text) → P (record { status = 0; file = some text }))
    → Passed P (flush_end o)
flush_end-Passed P none h = tt
flush_end-Passed P (some (true, text)) h = λ e. h text refl
flush_end-Passed P (some (false, text)) h = λ e. absurd (omega (arith, e))

module _ (world : World) (fuel id : ℕ) where
  parse_stage-Passed :
      (o : Outcome AstNode) → Passed (Accepted world fuel id o) (parse_stage world fuel id o)
  parse_stage-Passed (done n p) =
      let d = p.lexer.diag in
      let r = sema_analyze n (sema_init id d) in
      if-Passed (ltb 0 (diag_get_error_count d)) _ _ λ parsed.
        if-Passed (not r.0 || ltb 0 (diag_get_error_count r.1.diag)) _ _ λ named.
          if-Passed (not (security_analyze n (security_init id r.1.diag)).0) _ _ λ secure.
            flush_end-Passed _
              (codegen_emit_c (emitters world.float_text fuel) world.opens n (codes "output.c"))
              λ text emitted. record {
                tree = n;
                parser = p;
                parsed = refl;
                no_errors = no_count _ parsed;
                named = first_false r.0 _ named;
                secure = not-false _ secure;
                text = text;
                is_text = refl;
                emitted = emitted;
              }
  parse_stage-Passed overrun = tt
  parse_stage-Passed no_fuel = tt

-- The source that was loaded, and the build of it.
pub record Loaded (world : World) (fuel : ℕ) (d : Diagnostics) (before : Token)
    (r : Registry × Option ℕ) (e : BuildEnd) : Type 0 where
  pub id : ℕ
  pub source : SourceFile
  pub loaded : r.1 ≡ some id
  pub got : source_get r.0 (id % 2 ^ 16) ≡ some source
  pub accepted :
      Accepted world fuel id
        (parser_parse (parser_init (lexer_init source (diag_reset d)) before))
        e

map-Passed :
    {P Q : BuildEnd → Type 0} (o : Option BuildEnd)
    → ((e : BuildEnd) → P e → Q e)
    → Passed P o
    → Passed Q o
map-Passed none k h = tt
map-Passed (some e) k h = λ z. k e (h z)

module _ (world : World) (fuel : ℕ) (d : Diagnostics) (before : Token) where
  build_source-Passed :
      (files : Registry) (id : ℕ) (o : Option SourceFile)
      → source_get files (id % 2 ^ 16) ≡ o
      → Passed (Loaded world fuel d before (files, some id)) (build_source world fuel d before id o)
  build_source-Passed files id none k = tt
  build_source-Passed files id (some source) k =
      let run = parser_parse (parser_init (lexer_init source (diag_reset d)) before) in
      map-Passed (parse_stage world fuel id run)
        (λ e a. record { id = id; source = source; loaded = refl; got = k; accepted = a })
        (parse_stage-Passed world fuel id run)

  build_loaded-Passed :
      (r : Registry × Option ℕ)
      → Passed (Loaded world fuel d before r) (build_loaded world fuel d before r)
  build_loaded-Passed (files, some id) =
      build_source-Passed files id (source_get files (id % 2 ^ 16)) refl
  build_loaded-Passed (files, none) = λ e. absurd (omega (arith, e))

from-Passed :
    (P : BuildEnd → Type 0) (o : Option BuildEnd) {e : BuildEnd}
    → Passed P o
    → o ≡ some e
    → e.status ≡ 0
    → P e
from-Passed P o h k = subst (Passed P) k h

-- A build that returns 0 has loaded a source, parsed it without an error reported, found its names and
-- its places in order, found it secure, and written the generated text of the parsed tree to the file;
-- no part is passed over.
pub cmd_build-Loaded :
    (world : World) (fuel : ℕ) (d : Diagnostics) (before : Token) (path : Bytes) (e : BuildEnd)
    → cmd_build world fuel d before path ≡ some e
    → e.status ≡ 0
    → Loaded world fuel d before (source_load world.read source_registry_init path) e
unfolding cmd_build
cmd_build-Loaded world fuel d before path e =
    let r = source_load world.read source_registry_init path in
    from-Passed (Loaded world fuel d before r) (build_loaded world fuel d before r)
      (build_loaded-Passed world fuel d before r)
