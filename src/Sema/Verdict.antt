-- ===== src/Sema/Verdict.antt =====
-- The first pass, and what the caller of `sema_analyze` is told (compiler/src/sema.c).
use q.Ast.{AstNode, program, Nodes, no_nodes, node, null_type}
use q.Common.{
  ℕ, ◌+◌, ◌%◌, Bool, true, false, List, [], ◌∷◌, Option, none, some, Bytes, ◌==◌, ◌≡◌, refl, inl,
  inr, arith, u32_mod, Bool-cases, if◌then◌else◌,
}
use q.Diagnostic.Counts.{errors_in}
use q.Diagnostic.{Diagnostics}
use q.Sema.Bodies.{is_empty}
use q.Sema.Errors.{
  one_for, is_member, nonempty, name_of, declared_name, is_taken, with_name, duplicates,
  faults_decls,
}
use q.Sema.Lookup.{empty_table-IsTable}
use q.Sema.Sound.{sema_decls-Walks}
use q.Sema.State.{Sema, sema_init, sema_error, symtab_insert, is_declared}
use q.Sema.Steps.{
  In, Walks, Walks-refl, Walks-next, sema_error-Walks, symtab_insert-Walks, is_declared_names,
}
use q.Sema.Table.{SymKind}
use q.Sema.Walk.{
  declares, register_name, register_if, sema_decl_pass1, register_decls, sema_analyze,
}
use q.Token.Kind.{Span}

module _ (n : AstNode) (kind : SymKind) {u l : Bool} (seen : List Bytes) (s : Sema) where
  -- An error or an insertion; `t` is the test of the code, and `v` its value.
  report_or_insert :
      (t v : Bool) (span : Span) (msg name : Bytes)
      → t ≡ v
      → In u l (seen ∷ []) s
      → Walks
          (one_for v)
          u
          l
          ((if v then seen else name ∷ seen) ∷ [])
          s
          (if t then sema_error span msg s else symtab_insert name kind n null_type s)
  report_or_insert true true span msg name e h = sema_error-Walks span msg h
  report_or_insert false false span msg name e h = symtab_insert-Walks name kind n null_type h
  report_or_insert true false span msg name e h = cc
  report_or_insert false true span msg name e h = cc

  register_name-Walks :
      (name : Bytes)
      → In u l (seen ∷ []) s
      → Walks
          (one_for (is_taken (nonempty name) seen))
          u
          l
          (with_name (nonempty name) seen ∷ [])
          s
          (register_name n name kind s)
  unfolding register_name
  register_name-Walks name h = elim (Bool-cases (is_empty name)) [
    | inl e ↦ rw e (Walks-refl h)
    | inr e ↦ rw e (
        report_or_insert (is_declared s.scope name) (is_member name seen) _ _ name
          (is_declared_names name h) h)
  ]

register_if-Walks :
    {u l : Bool} (n : AstNode) (d : Option (Bytes × SymKind)) (seen : List Bytes) (s : Sema)
    → In u l (seen ∷ []) s
    → Walks
        (one_for (is_taken (name_of d) seen))
        u
        l
        (with_name (name_of d) seen ∷ [])
        s
        (register_if n d s)
register_if-Walks n none seen s h = Walks-refl h
register_if-Walks n (some d) seen s h = register_name-Walks n d.1 seen s d.0 h

-- The names of a module after its declarations.
abbrev module_names : Nodes → List Bytes → List Bytes
module_names no_nodes seen = seen
module_names (node n rest) seen = module_names rest (with_name (declared_name n) seen)

register_decls-Walks :
    {u l : Bool} (ns : Nodes) (seen : List Bytes) (s : Sema)
    → In u l (seen ∷ []) s
    → Walks (duplicates ns seen) u l (module_names ns seen ∷ []) s (register_decls ns s)
unfolding register_decls sema_decl_pass1
register_decls-Walks no_nodes seen s h = Walks-refl h
register_decls-Walks (node n rest) seen s h =
    Walks-next (register_if-Walks n (declares n) seen s h) (register_decls-Walks rest _ _)

-- `sema_init`, and then `sema_analyze` of a program with these declarations.
abbrev pub checked : Span → Nodes → ℕ → Diagnostics → Bool × Sema
checked span decls source_id diag = sema_analyze (program span decls) (sema_init source_id diag)

-- The errors of a module.
abbrev pub module_faults : Nodes → ℕ
module_faults decls = duplicates decls [] + faults_decls decls false false

count_is :
    {n : ℕ} {u l : Bool} {names : List (List Bytes)} {a b : Sema}
    → a.error_count ≡ 0
    → Walks n u l names a b
    → b.error_count ≡ n % u32_mod
count_is h r = let s = r.small (omega arith) in omega (arith, r.counted, s)

-- Checking a whole program from the initial state prints one error for each fault that
-- `module_faults` counts: a top-level name
-- that is taken, a `let` of a name that its block has declared already, a `break` or `continue` with
-- no loop around it, inline assembly outside `unsafe` blocks. The counter holds their number modulo
-- 2 ^ 32, the verdict says that the counter is 0, and the contexts are again off.
pub sema_analyze-faults :
    (span : Span) (decls : Nodes) (source_id : ℕ) (diag : Diagnostics)
    → (errors_in (checked span decls source_id diag).1.diag.emitted
        ≡ errors_in diag.emitted + module_faults decls)
      × ((checked span decls source_id diag).1.error_count ≡ module_faults decls % u32_mod)
      × ((checked span decls source_id diag).0 ≡ (module_faults decls % u32_mod == 0))
      × ((checked span decls source_id diag).1.in_unsafe ≡ false)
      × ((checked span decls source_id diag).1.in_loop ≡ false)
unfolding sema_analyze sema_init
sema_analyze-faults span decls source_id diag =
    let start = sema_init source_id diag in
    let h : In false false ([] ∷ []) start = record {
      unsafe_is = refl;
      loop_is = refl;
      scopes = (empty_table-IsTable, tt);
    } in
    let r =
      Walks-next (register_decls-Walks decls [] start h) (sema_decls-Walks decls false false _ _) in
    let counted = count_is refl r in
    (r.printed, counted, rw counted refl, r.context.unsafe_is, r.context.loop_is)
