-- ===== src/Sema/Params.antt =====
-- Parameters, and the declarations of functions, system calls and loop variables
-- (compiler/src/sema.c): they add names to their scope, and report nothing.
use q.Ast.{AstNode, AstType, null_type, Params, no_params, param}
use q.Common.{
  ℕ, ◌+◌, Bool, true, false, not, ◌&&◌, List, [], ◌∷◌, Bytes, codes, bytes_eq, if◌then◌else◌,
}
use q.Sema.Bodies.{
  is_empty, fn_param, fn_params, syscall_param, syscall_params, sema_fn, sema_syscall, sema_for,
}
use q.Sema.Rules.{sema_type-Walks, in_scope-Walks, fn_body-Walks, in_loop_body-Walks}
use q.Sema.State.{Sema, symtab_insert}
use q.Sema.Steps.{In, Walks, Walks-refl, Walks-quiet, Walks-next, symtab_insert-Walks}
use q.Sema.Table.{sym_param, sym_local}

-- A name that is added, or not.
abbrev add_if : Bool → Bytes → List Bytes → List Bytes
add_if t name seen = if t then name ∷ seen else seen

-- The names of the parameters, on top of those seen.
abbrev fn_names : Params → List Bytes → List Bytes
fn_names no_params seen = seen
fn_names (param name type span rest) seen =
    fn_names rest (add_if (not (is_empty name) && not (bytes_eq name (codes "self"))) name seen)

abbrev syscall_names : Params → List Bytes → List Bytes
syscall_names no_params seen = seen
syscall_names (param name type span rest) seen =
    syscall_names rest (add_if (not (is_empty name)) name seen)

module _ (n : AstNode) {u l : Bool} {outer : List (List Bytes)} where
  insert_if-Walks :
      (t : Bool) (name : Bytes) (type : AstType) (seen : List Bytes) (s : Sema)
      → In u l (seen ∷ outer) s
      → Walks 0 u l
          (add_if t name seen ∷ outer)
          s
          (if t then symtab_insert name sym_param n type s else s)
  insert_if-Walks true name type seen s h = symtab_insert-Walks name sym_param n type h
  insert_if-Walks false name type seen s h = Walks-refl h

  fn_params-Walks :
      (ps : Params) (seen : List Bytes) (s : Sema)
      → In u l (seen ∷ outer) s
      → Walks 0 u l (fn_names ps seen ∷ outer) s (fn_params n ps s)
  unfolding fn_params fn_param
  fn_params-Walks no_params seen s h = Walks-refl h
  fn_params-Walks (param name type span rest) seen s h =
      Walks-quiet (sema_type-Walks type s h)
        (λ k. Walks-quiet (insert_if-Walks _ name type seen _ k) (fn_params-Walks rest _ _))

  syscall_params-Walks :
      (ps : Params) (seen : List Bytes) (s : Sema)
      → In u l (seen ∷ outer) s
      → Walks 0 u l (syscall_names ps seen ∷ outer) s (syscall_params n ps s)
  unfolding syscall_params syscall_param
  syscall_params-Walks no_params seen s h = Walks-refl h
  syscall_params-Walks (param name type span rest) seen s h =
      Walks-quiet (sema_type-Walks type s h)
        (λ k. Walks-quiet (insert_if-Walks _ name type seen _ k) (syscall_params-Walks rest _ _))

module _ (decl : AstNode) {n : ℕ} {u l : Bool} {names : List (List Bytes)} (body : Sema → Sema)
    (s : Sema) where
  pub sema_fn-Walks :
      (ps : Params) (return_type : AstType)
      → In u l names s
      → ((inner : List (List Bytes)) (a : Sema) → In u l inner a → Walks n u l inner a (body a))
      → Walks n u l names s (sema_fn decl ps return_type body s)
  unfolding sema_fn
  sema_fn-Walks ps return_type h f = in_scope-Walks _ s h (λ a k.
      Walks-quiet (fn_params-Walks decl ps [] a k) (λ q. fn_body-Walks body _ return_type q (f _)))

  pub sema_syscall-Walks :
      (ps : Params) (return_type : AstType)
      → In u l names s
      → ((inner : List (List Bytes)) (a : Sema) → In u l inner a → Walks n u l inner a (body a))
      → Walks n u l names s (sema_syscall decl ps return_type body s)
  unfolding sema_syscall
  sema_syscall-Walks ps return_type h f = in_scope-Walks _ s h (λ a k.
      Walks-quiet (syscall_params-Walks decl ps [] a k)
        (λ q. Walks-quiet (sema_type-Walks return_type _ q) (f _ _)))

  pub sema_for-Walks :
      {m : ℕ} (var : Bytes) (iterable : Sema → Sema)
      → In u l names s
      → ((inner : List (List Bytes)) (a : Sema) → In u l inner a → Walks m u l inner a (iterable a))
      → ((inner : List (List Bytes)) (a : Sema)
          → In u true inner a
          → Walks n u true inner a (body a))
      → Walks (m + n) u l names s (sema_for decl var iterable body s)
  unfolding sema_for
  sema_for-Walks var iterable h f g = in_scope-Walks _ s h (λ a k.
      Walks-quiet (symtab_insert-Walks var sym_local decl null_type k)
        (λ q. Walks-next (f _ _ q) (λ r. in_loop_body-Walks body _ r (g _))))
