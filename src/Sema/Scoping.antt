-- ===== src/Sema/Scoping.antt =====
-- Lexical scoping with the chain of tables of compiler/src/sema.c.
use q.Ast.{AstNode, AstType}
use q.Common.{
  Bool, false, ◌||◌, List, [], ◌∷◌, Option, none, some, Bytes, bytes_eq, length, ◌≡◌, refl, sym,
  ◌∙◌, inl, inr, Bool-cases, if◌then◌else◌,
}
use q.Sema.Errors.{is_member}
use q.Sema.Lookup.{symtab_lookup_local-table_insert}
use q.Sema.Sound.{sema_expr-Walks}
use q.Sema.State.{Sema, symtab_insert, is_some}
use q.Sema.Steps.{Scoped, In}
use q.Sema.Table.{
  Symbol, SymKind, SymTab, symtab_buckets, symtab_lookup, symtab_lookup_local, table_insert,
  or_else,
}
use q.Sema.Walk.{sema_expr}

lookup_inserted :
    (tab : SymTab) (parents : List SymTab) (s : Symbol) (other : Bytes)
    → length tab ≡ symtab_buckets
    → symtab_lookup (table_insert tab s ∷ parents) other
      ≡ (if bytes_eq s.name other then some s else symtab_lookup (tab ∷ parents) other)
unfolding symtab_lookup
lookup_inserted tab parents s other h = elim (Bool-cases (bytes_eq s.name other)) [
  | inl e ↦ rw (symtab_lookup_local-table_insert tab s other h) (rw e refl)
  | inr e ↦ rw (symtab_lookup_local-table_insert tab s other h) (rw e refl)
]

-- After `symtab_insert` in a scope with its 64 chains, a lookup of the name gives the new symbol, not
-- yet used, which hides those of the same name in this scope and around it; every other name is looked
-- up as before.
pub symtab_lookup-symtab_insert :
    (s : Sema) (tab : SymTab) (parents : List SymTab) (name : Bytes) (kind : SymKind)
    (decl : AstNode) (type : AstType) (other : Bytes)
    → s.scope ≡ tab ∷ parents
    → length tab ≡ symtab_buckets
    → symtab_lookup (symtab_insert name kind decl type s).scope other ≡ (
        if bytes_eq name other
        then some (record { name = name; kind = kind; decl = decl; type = type; used = false })
        else symtab_lookup s.scope other)
unfolding symtab_insert
symtab_lookup-symtab_insert s tab parents name kind decl type other e h =
    rw e (lookup_inserted tab parents _ other h)

-- Whether one of the scopes declares a name.
abbrev pub in_some : Bytes → List (List Bytes) → Bool
in_some name [] = false
in_some name (seen ∷ outer) = is_member name seen || in_some name outer

or_else-is_some : (a b : Option Symbol) → is_some (or_else a b) ≡ is_some a || is_some b
or_else-is_some none b = refl
or_else-is_some (some s) b = refl

pub symtab_lookup-in_some :
    (tabs : List SymTab) (names : List (List Bytes)) (name : Bytes)
    → Scoped tabs names
    → is_some (symtab_lookup tabs name) ≡ in_some name names
unfolding symtab_lookup
symtab_lookup-in_some [] [] name h = refl
symtab_lookup-in_some [] (seen ∷ outer) name h = absurd h
symtab_lookup-in_some (tab ∷ tabs) [] name h = absurd h
symtab_lookup-in_some (tab ∷ tabs) (seen ∷ outer) name h =
    or_else-is_some (symtab_lookup_local tab name) (symtab_lookup tabs name)
    ∙ (rw (h.0.names name, symtab_lookup-in_some tabs outer name h.1) refl)

-- Walking any expression declares nothing around it: for scopes whose tables declare `names`, a name
-- is found after it exactly when it was found before, whatever its blocks, loops and functions declare.
pub sema_expr-symtab_lookup :
    (n : AstNode) (s : Sema) (names : List (List Bytes)) (name : Bytes)
    → Scoped s.scope names
    → is_some (symtab_lookup (sema_expr n s).scope name) ≡ is_some (symtab_lookup s.scope name)
sema_expr-symtab_lookup n s names name h =
    let start : In s.in_unsafe s.in_loop names s = record {
      unsafe_is = refl;
      loop_is = refl;
      scopes = h;
    } in
    let after = (sema_expr-Walks n s.in_unsafe s.in_loop names s start).context.scopes in
    symtab_lookup-in_some (sema_expr n s).scope names name after
    ∙ sym (symtab_lookup-in_some s.scope names name h)
