-- ===== src/Parser/Ends/Types.antt =====
-- `parse_type` of compiler/src/parser.c comes to an end.
use q.Ast.{AstType, inferred_type, named, null_node, primitive}
use q.Common.{ℕ, ◌<◌, true, Bytes, ◌||◌, refl, arith}
use q.Parser.Ends.{
  finished, Ends, bind-Ends, pure-Ends, look-Ends, if-Ends, on_check-Ends, on_match-Ends,
  first_match-Ends, AllEnd, ◌&◌, no_rows, none_at_eof, step-Ends, expect-Ends, comma_list-Ends,
}
use q.Parser.State.{current_text}
use q.Parser.Steps.{error_at-Steps}
use q.Parser.Types.{
  Routines, is_primitive_type, arrow_type, type_starts, one_of, reference_type, angle_type,
  bracket_type, function_type, generic_arg, generic_args, no_type, other_rows, other_type,
  if_primitive, type_rows, type_body,
}
use q.Token.Kind.{kind_eq, Span}

-- The routines end when at most `b` tokens are left.
pub record Ready (b : ℕ) (r : Routines) : Type 0 where
  pub type : Ends b r.parse_type
  pub primary : Ends b r.parse_primary
  pub binary : (min_prec : ℕ) → Ends b (r.parse_binary min_prec)
  pub block : Ends b r.parse_block

module _ {b : ℕ} {r : Routines} where
  pub arrow_type-Ends : ((c : ℕ) → c < b → Ready c r) → Ends b (arrow_type r)
  unfolding kind_eq
  arrow_type-Ends h = on_match-Ends _ refl (λ c k. (h c k).type) pure-Ends

module _ {b : ℕ} (r : Routines) (start : Span) where
  no_type-Ends : Ends b (no_type r start)
  no_type-Ends = record { run = λ p i j. finished (error_at-Steps _ _ p i) }

module _ {b : ℕ} {r : Routines} (start : Span) where
  reference_type-Ends : Ready b r → Ends b (reference_type r start)
  unfolding kind_eq
  reference_type-Ends h =
      bind-Ends (on_match-Ends _ refl (λ c k. pure-Ends) pure-Ends)
        λ is_mut. bind-Ends h.type λ inner. pure-Ends

  angle_type-Ends :
      (opening closing : Bytes) (make : AstType → AstType)
      → Ready b r
      → Ends b (angle_type r start opening closing make)
  angle_type-Ends opening closing make h =
      bind-Ends (expect-Ends _ _)
        λ _. bind-Ends h.type λ inner. bind-Ends (expect-Ends _ _) λ _. pure-Ends

  bracket_type-Ends : Ready b r → Ends b (bracket_type r start)
  bracket_type-Ends h = bind-Ends h.type λ element.
      bind-Ends (expect-Ends _ _)
        λ _. bind-Ends (h.binary 0) λ size. bind-Ends (expect-Ends _ _) λ _. pure-Ends

  generic_arg-Ends : Ready b r → Ends b (generic_arg r start)
  unfolding generic_arg
  generic_arg-Ends h =
      if-Ends (λ p. is_primitive_type p.current.kind || one_of p.current.kind type_starts) h.type
        (look-Ends λ p. bind-Ends step-Ends λ _. pure-Ends {a = inferred_type p.current.span})

module _ {b : ℕ} {r : Routines} (start : Span) where
  generic_args-Ends :
      ((c : ℕ) → c < b → Ready c r) → (base : AstType) → Ends b (generic_args r start base)
  unfolding kind_eq
  generic_args-Ends h base =
      on_match-Ends _ refl
        (λ c k.
          bind-Ends (comma_list-Ends 32 _ _ true (generic_arg-Ends start (h c k)))
            λ ts. bind-Ends (expect-Ends _ _) λ _. pure-Ends)
        pure-Ends

  function_type-Ends : Ready b r → ((c : ℕ) → c < b → Ready c r) → Ends b (function_type r start)
  function_type-Ends h k = bind-Ends (expect-Ends _ _) λ _.
      bind-Ends (comma_list-Ends 64 _ _ true h.type)
        λ ts. bind-Ends (expect-Ends _ _) λ _. bind-Ends (arrow_type-Ends k) λ t. pure-Ends

module _ {b : ℕ} {r : Routines} (start : Span) (h : (c : ℕ) → c < b → Ready c r) where
  below : (c : ℕ) → c < b → (d : ℕ) → d < c → Ready d r
  below c k d l = h d (omega (arith, k, l))

  other_type-Ends : Ends b (other_type r start)
  unfolding kind_eq none_at_eof
  other_type-Ends =
      on_check-Ends _
        (look-Ends λ p.
          bind-Ends step-Ends
            λ _. generic_args-Ends start h (named start (current_text p) null_node))
        (first_match-Ends (other_rows r start) refl
          (λ c k.
            generic_args-Ends start (below c k) _
            & function_type-Ends start (h c k) (below c k)
            & no_rows)
          (no_type-Ends r start))

  if_primitive-Ends : Ends b (if_primitive r start)
  unfolding if_primitive
  if_primitive-Ends =
      if-Ends (λ p. is_primitive_type p.current.kind)
        (look-Ends λ p. bind-Ends step-Ends λ _. pure-Ends {a = primitive start p.current.kind})
        other_type-Ends

  type_rows-AllEnd : (c : ℕ) → c < b → AllEnd c (type_rows r start)
  type_rows-AllEnd c k =
      pure-Ends
      & reference_type-Ends start (h c k)
      & angle_type-Ends start _ _ _ (h c k)
      & angle_type-Ends start _ _ _ (h c k)
      & angle_type-Ends start _ _ _ (h c k)
      & bracket_type-Ends start (h c k)
      & no_rows

module _ {b : ℕ} {r : Routines} where
  pub type_body-Ends : ((c : ℕ) → c < b → Ready c r) → Ends b (type_body r)
  unfolding type_body kind_eq none_at_eof
  type_body-Ends h = look-Ends λ p.
      first_match-Ends (type_rows r p.current.span) refl (type_rows-AllEnd p.current.span h)
        (if_primitive-Ends p.current.span h)
