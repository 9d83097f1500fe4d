-- ===== src/Sema/Steps.antt =====
-- The steps of the semantic analyzer (compiler/src/sema.c): the errors that each reports, and the
-- context and the declared names that it leaves.
use q.Ast.{AstNode, AstType}
use q.Common.{
  ℕ, ◌+◌, ◌%◌, ◌<◌, Bool, true, false, List, [], ◌∷◌, Bytes, u32_mod, ◌≡◌, inl, inr, arith,
  Option-cases, if◌then◌else◌,
}
use q.Diagnostic.Counts.{errors_in}
use q.Diagnostic.{diag_emit}
use q.Sema.Errors.{one_for, is_member}
use q.Sema.Lookup.{IsTable, empty_table-IsTable, table_insert-IsTable, use_local-IsTable}
use q.Sema.State.{
  Sema, sema_push_scope, sema_pop_scope, insert_head, tail_or_empty, symtab_insert, sema_error,
  sema_warn, is_declared,
}
use q.Sema.Table.{Symbol, SymKind, SymTab, symtab_lookup_local, mark_used}
use q.Token.Kind.{Span}

-- The tables of the scopes declare these names, the innermost first.
abbrev pub Scoped : List SymTab → List (List Bytes) → Type 0
Scoped [] [] = Unit
Scoped (tab ∷ tabs) (seen ∷ outer) = IsTable tab seen × Scoped tabs outer
Scoped _ _ = ⊥

-- The context of a step.
pub record In (u l : Bool) (names : List (List Bytes)) (s : Sema) : Type 0 where
  pub unsafe_is : s.in_unsafe ≡ u
  pub loop_is : s.in_loop ≡ l
  pub scopes : Scoped s.scope names

-- From `s` to `after`, `n` errors are reported; and the context in which `after` is.
pub record Walks (n : ℕ) (u l : Bool) (names : List (List Bytes)) (s after : Sema) : Type 0 where
  pub printed : errors_in after.diag.emitted ≡ errors_in s.diag.emitted + n
  pub counted : after.error_count % u32_mod ≡ (s.error_count + n) % u32_mod
  pub small : s.error_count < u32_mod → after.error_count < u32_mod
  pub context : In u l names after

pub Walks-refl :
    {u l : Bool} {names : List (List Bytes)} {s : Sema} → In u l names s → Walks 0 u l names s s
Walks-refl h = record { printed = omega arith; counted = omega arith; small = λ k. k; context = h }

module _ {n m : ℕ} {u l v k : Bool} {before names : List (List Bytes)} {a b c : Sema} where
  -- Two steps.
  pub Walks-next :
      Walks n u l before a b
      → (In u l before b → Walks m v k names b c)
      → Walks (n + m) v k names a c
  Walks-next p f =
      let r = f p.context in
      record {
        printed = omega (arith, p.printed, r.printed);
        counted = omega (arith, p.counted, r.counted);
        small = λ h. r.small (p.small h);
        context = r.context;
      }

module _ {n : ℕ} {u l v k : Bool} {before names : List (List Bytes)} {a b c : Sema} where
  -- A step without errors in front.
  pub Walks-quiet :
      Walks 0 u l before a b → (In u l before b → Walks n v k names b c) → Walks n v k names a c
  Walks-quiet p f =
      let r = f p.context in
      record {
        printed = omega (arith, p.printed, r.printed);
        counted = omega (arith, p.counted, r.counted);
        small = λ h. r.small (p.small h);
        context = r.context;
      }

  -- A step without errors behind.
  pub Walks-then :
      Walks n u l before a b → (In u l before b → Walks 0 v k names b c) → Walks n v k names a c
  Walks-then p f =
      let r = f p.context in
      record {
        printed = omega (arith, p.printed, r.printed);
        counted = omega (arith, p.counted, r.counted);
        small = λ h. r.small (p.small h);
        context = r.context;
      }

insert_head-Scoped :
    (tabs : List SymTab) (s : Symbol) (seen : List Bytes) (outer : List (List Bytes))
    → Scoped tabs (seen ∷ outer)
    → Scoped (insert_head s tabs) ((s.name ∷ seen) ∷ outer)
insert_head-Scoped [] s seen outer h = absurd h
insert_head-Scoped (tab ∷ tabs) s seen outer h = (table_insert-IsTable tab seen s h.0, h.1)

tail-Scoped :
    (tabs : List SymTab) (seen : List Bytes) (outer : List (List Bytes))
    → Scoped tabs (seen ∷ outer)
    → Scoped (tail_or_empty tabs) outer
tail-Scoped [] seen outer h = absurd h
tail-Scoped (tab ∷ tabs) seen outer h = h.1

mark_used-Scoped :
    (tabs : List SymTab) (names : List (List Bytes)) (name : Bytes)
    → Scoped tabs names
    → Scoped (mark_used tabs name) names
unfolding mark_used
mark_used-Scoped [] names name h = h
mark_used-Scoped (tab ∷ tabs) [] name h = absurd h
mark_used-Scoped (tab ∷ tabs) (seen ∷ outer) name h =
    elim (Option-cases (symtab_lookup_local tab name)) [
      | inl e ↦ rw e (h.0, mark_used-Scoped tabs outer name h.1)
      | inr e ↦ rw e.1 (use_local-IsTable tab seen name h.0, h.1)
    ]

is_declared-is_member :
    (tabs : List SymTab) (seen : List Bytes) (outer : List (List Bytes)) (name : Bytes)
    → Scoped tabs (seen ∷ outer)
    → is_declared tabs name ≡ is_member name seen
is_declared-is_member [] seen outer name h = absurd h
is_declared-is_member (tab ∷ tabs) seen outer name h = h.0.names name

module _ {u l : Bool} {names : List (List Bytes)} {s : Sema} where
  pub sema_error-Walks :
      (span : Span) (msg : Bytes) → In u l names s → Walks 1 u l names s (sema_error span msg s)
  unfolding sema_error diag_emit
  sema_error-Walks span msg h = record {
    printed = omega arith;
    counted = omega arith;
    small = λ k. omega arith;
    context = record { unsafe_is = h.unsafe_is; loop_is = h.loop_is; scopes = h.scopes };
  }

  pub sema_warn-Walks :
      (span : Span) (msg : Bytes) → In u l names s → Walks 0 u l names s (sema_warn span msg s)
  unfolding sema_warn diag_emit
  sema_warn-Walks span msg h = record {
    printed = omega arith;
    counted = omega arith;
    small = λ k. k;
    context = record { unsafe_is = h.unsafe_is; loop_is = h.loop_is; scopes = h.scopes };
  }

  -- A test that reports an error, or nothing; `v` is its value.
  pub error_for :
      (t v : Bool) (span : Span) (msg : Bytes)
      → t ≡ v
      → In u l names s
      → Walks (one_for v) u l names s (if t then sema_error span msg s else s)
  error_for true true span msg e h = sema_error-Walks span msg h
  error_for false false span msg e h = Walks-refl h
  error_for true false span msg e h = cc
  error_for false true span msg e h = cc

  pub mark_used-Walks :
      (name : Bytes)
      → In u l names s
      → Walks 0 u l names s (record s { scope = mark_used s.scope name })
  mark_used-Walks name h = record {
    printed = omega arith;
    counted = omega arith;
    small = λ k. k;
    context = record {
      unsafe_is = h.unsafe_is;
      loop_is = h.loop_is;
      scopes = mark_used-Scoped s.scope names name h.scopes;
    };
  }

  pub sema_push_scope-Walks : In u l names s → Walks 0 u l ([] ∷ names) s (sema_push_scope s)
  unfolding sema_push_scope
  sema_push_scope-Walks h = record {
    printed = omega arith;
    counted = omega arith;
    small = λ k. k;
    context = record {
      unsafe_is = h.unsafe_is;
      loop_is = h.loop_is;
      scopes = (empty_table-IsTable, h.scopes);
    };
  }

module _ {u l : Bool} {seen : List Bytes} {outer : List (List Bytes)} {s : Sema} where
  pub sema_pop_scope-Walks : In u l (seen ∷ outer) s → Walks 0 u l outer s (sema_pop_scope s)
  unfolding sema_pop_scope
  sema_pop_scope-Walks h = record {
    printed = omega arith;
    counted = omega arith;
    small = λ k. k;
    context = record {
      unsafe_is = h.unsafe_is;
      loop_is = h.loop_is;
      scopes = tail-Scoped s.scope seen outer h.scopes;
    };
  }

  pub symtab_insert-Walks :
      (name : Bytes) (kind : SymKind) (decl : AstNode) (type : AstType)
      → In u l (seen ∷ outer) s
      → Walks 0 u l ((name ∷ seen) ∷ outer) s (symtab_insert name kind decl type s)
  unfolding symtab_insert
  symtab_insert-Walks name kind decl type h = record {
    printed = omega arith;
    counted = omega arith;
    small = λ k. k;
    context = record {
      unsafe_is = h.unsafe_is;
      loop_is = h.loop_is;
      scopes = insert_head-Scoped s.scope _ seen outer h.scopes;
    };
  }

  pub is_declared_names :
      (name : Bytes) → In u l (seen ∷ outer) s → is_declared s.scope name ≡ is_member name seen
  is_declared_names name h = is_declared-is_member s.scope seen outer name h.scopes
