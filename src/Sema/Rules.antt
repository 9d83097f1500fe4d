-- ===== src/Sema/Rules.antt =====
-- Types, names, parameters and bodies of Sema/Bodies, one lemma each (compiler/src/sema.c).
use q.Ast.{
  AstType, named, array_type, slice_type, ref_type, ptr_type, own_type, fn_ptr_type, tuple_type,
  generic_type, Types, no_types, type_item, Fields, no_fields, field,
}
use q.Common.{ℕ, Bool, true, not, ◌||◌, List, [], ◌∷◌, Bytes, refl, inl, inr, ap, Bool-cases}
use q.Sema.Bodies.{
  sema_type, sema_types, in_scope, in_loop_body, in_unsafe_body, check_asm_place, check_jump,
  check_redeclared, fn_body, sema_fields,
}
use q.Sema.Errors.{one_for, is_member}
use q.Sema.State.{
  Sema, is_some, is_one_of, check_type_name, check_name, builtin_types, builtin_names,
}
use q.Sema.Steps.{
  In, Walks, Walks-refl, Walks-quiet, Walks-then, error_for, sema_warn-Walks, mark_used-Walks,
  sema_push_scope-Walks, sema_pop_scope-Walks, is_declared_names,
}
use q.Sema.Table.{symtab_lookup}
use q.Token.Kind.{Span}

module _ {u l : Bool} {names : List (List Bytes)} where
  check_type_name-Walks :
      (span : Span) (name : Bytes) (s : Sema)
      → In u l names s
      → Walks 0 u l names s (check_type_name span name s)
  unfolding check_type_name
  check_type_name-Walks span name s h =
      elim (Bool-cases (is_some (symtab_lookup s.scope name) || is_one_of name builtin_types)) [
        | inl e ↦ rw e (Walks-refl h)
        | inr e ↦ rw e (sema_warn-Walks span _ h)
      ]

  pub check_name-Walks :
      (span : Span) (name : Bytes) (s : Sema)
      → In u l names s
      → Walks 0 u l names s (check_name span name s)
  unfolding check_name
  check_name-Walks span name s h = elim (Bool-cases (is_some (symtab_lookup s.scope name))) [
    | inl e ↦ rw e (mark_used-Walks name h)
    | inr e ↦ elim (Bool-cases (is_one_of name builtin_names)) [
      | inl k ↦ rw (e, k) (Walks-refl h)
      | inr k ↦ rw (e, k) (sema_warn-Walks span _ h)
    ]
  ]

mutual
  unfolding sema_type

  pub sema_type-Walks :
      {u l : Bool} {names : List (List Bytes)} (t : AstType) (s : Sema)
      → In u l names s
      → Walks 0 u l names s (sema_type t s)
  sema_type-Walks (named span name args) s h = check_type_name-Walks span name s h
  sema_type-Walks (array_type span element size) s h = sema_type-Walks element s h
  sema_type-Walks (slice_type span element) s h = sema_type-Walks element s h
  sema_type-Walks (ref_type span inner is_mut) s h = sema_type-Walks inner s h
  sema_type-Walks (ptr_type span inner is_mut) s h = sema_type-Walks inner s h
  sema_type-Walks (own_type span inner) s h = sema_type-Walks inner s h
  sema_type-Walks (fn_ptr_type span ts return_type) s h =
      Walks-quiet (sema_types-Walks ts s h) (sema_type-Walks return_type _)
  sema_type-Walks (tuple_type span ts) s h = sema_types-Walks ts s h
  sema_type-Walks (generic_type span base ts) s h =
      Walks-quiet (sema_type-Walks base s h) (sema_types-Walks ts _)
  sema_type-Walks _ s h = Walks-refl h

  pub sema_types-Walks :
      {u l : Bool} {names : List (List Bytes)} (ts : Types) (s : Sema)
      → In u l names s
      → Walks 0 u l names s (sema_types ts s)
  sema_types-Walks no_types s h = Walks-refl h
  sema_types-Walks (type_item t rest) s h =
      Walks-quiet (sema_type-Walks t s h) (sema_types-Walks rest _)

module _ {u l : Bool} {names : List (List Bytes)} where
  pub sema_fields-Walks :
      (fs : Fields) (s : Sema) → In u l names s → Walks 0 u l names s (sema_fields fs s)
  unfolding sema_fields
  sema_fields-Walks no_fields s h = Walks-refl h
  sema_fields-Walks (field name type is_pub span rest) s h =
      Walks-quiet (sema_type-Walks type s h) (sema_fields-Walks rest _)

  pub check_asm_place-Walks :
      (span : Span) (s : Sema)
      → In u l names s
      → Walks (one_for (not u)) u l names s (check_asm_place span s)
  unfolding check_asm_place
  check_asm_place-Walks span s h = error_for _ (not u) span _ (ap not h.unsafe_is) h

  pub check_jump-Walks :
      (span : Span) (s : Sema)
      → In u l names s
      → Walks (one_for (not l)) u l names s (check_jump span s)
  unfolding check_jump
  check_jump-Walks span s h = error_for _ (not l) span _ (ap not h.loop_is) h

  pub check_redeclared-Walks :
      (seen : List Bytes) (span : Span) (name : Bytes) (s : Sema)
      → In u l (seen ∷ names) s
      → Walks (one_for (is_member name seen)) u l (seen ∷ names) s (check_redeclared span name s)
  unfolding check_redeclared
  check_redeclared-Walks seen span name s h =
      error_for _ (is_member name seen) span _ (is_declared_names name h) h

-- Bodies, in the contexts that are set for them.
module _ {n : ℕ} {u l : Bool} {names : List (List Bytes)} {seen : List Bytes} where
  pub in_scope-Walks :
      (body : Sema → Sema) (s : Sema)
      → In u l names s
      → ((a : Sema) → In u l ([] ∷ names) a → Walks n u l (seen ∷ names) a (body a))
      → Walks n u l names s (in_scope body s)
  unfolding in_scope
  in_scope-Walks body s h f =
      Walks-quiet (sema_push_scope-Walks h) (λ k. Walks-then (f _ k) sema_pop_scope-Walks)

module _ {n : ℕ} {u l : Bool} {names : List (List Bytes)} (body : Sema → Sema) (s : Sema) where
  pub in_loop_body-Walks :
      In u l names s
      → ((a : Sema) → In u true names a → Walks n u true names a (body a))
      → Walks n u l names s (in_loop_body body s)
  unfolding in_loop_body
  in_loop_body-Walks h f =
      let r =
        f (record s { in_loop = true })
          (record { unsafe_is = h.unsafe_is; loop_is = refl; scopes = h.scopes }) in
      record {
        printed = r.printed;
        counted = r.counted;
        small = r.small;
        context = record {
          unsafe_is = r.context.unsafe_is;
          loop_is = h.loop_is;
          scopes = r.context.scopes;
        };
      }

  pub in_unsafe_body-Walks :
      In u l names s
      → ((a : Sema) → In true l names a → Walks n true l names a (body a))
      → Walks n u l names s (in_unsafe_body body s)
  unfolding in_unsafe_body
  in_unsafe_body-Walks h f =
      let r =
        f (record s { in_unsafe = true })
          (record { unsafe_is = refl; loop_is = h.loop_is; scopes = h.scopes }) in
      record {
        printed = r.printed;
        counted = r.counted;
        small = r.small;
        context = record {
          unsafe_is = h.unsafe_is;
          loop_is = r.context.loop_is;
          scopes = r.context.scopes;
        };
      }

  pub fn_body-Walks :
      (return_type : AstType)
      → In u l names s
      → ((a : Sema) → In u l names a → Walks n u l names a (body a))
      → Walks n u l names s (fn_body return_type body s)
  unfolding fn_body
  fn_body-Walks return_type h f =
      let q =
        sema_type-Walks return_type (record s { current_ret = return_type })
          (record { unsafe_is = h.unsafe_is; loop_is = h.loop_is; scopes = h.scopes }) in
      let r = Walks-quiet q (f _) in
      record {
        printed = r.printed;
        counted = r.counted;
        small = r.small;
        context = record {
          unsafe_is = r.context.unsafe_is;
          loop_is = r.context.loop_is;
          scopes = r.context.scopes;
        };
      }
