-- ===== src/Parser/Types.antt =====
-- `parse_type` of compiler/src/parser.c. The routines that it calls stand in a record, whose fields
-- have a unit of fuel less (Parser/Knot).
use q.Ast.{
  AstNode, null_node, AstType, null_type, primitive, named, array_type, slice_type, ref_type,
  ptr_type, own_type, fn_ptr_type, generic_type, never_type, inferred_type,
}
use q.Common.{ℕ, Bool, true, false, List, [], ◌∷◌, ◌&&◌, ◌||◌, Bytes, codes, leb, if◌then◌else◌}
use q.Parser.Loops.{comma_list, type_array}
use q.Parser.State.{
  Parse, ◌>>=◌, ◌>>◌, pure, look, step, on_match, on_check, first_match, matches, error_current,
  expect, current_text, done,
}
use q.Token.Kind.{TokenKind, token_code, kind_eq, Span}

-- The mutually recursive routines.
pub record Routines : Type 0 where
  pub parse_type : Parse AstType
  pub parse_primary : Parse AstNode
  pub parse_binary : ℕ → Parse AstNode
  pub parse_block : Parse AstNode

-- `parse_expression`.
abbrev pub parse_expression : Routines → Parse AstNode
parse_expression r = r.parse_binary 0

-- `is_primitive_type`.
unfoldable pub is_primitive_type : TokenKind → Bool
unfolding token_code
is_primitive_type k =
    leb (token_code TokenKind.kw_u8) (token_code k)
    && leb (token_code k) (token_code TokenKind.kw_isize)

-- The optional return type.
abbrev pub arrow_type : Routines → Parse AstType
arrow_type r = on_match TokenKind.arrow r.parse_type (pure null_type)

-- The kinds at which a generic argument is read as a type.
abbrev pub type_starts : List TokenKind
type_starts =
    TokenKind.identifier ∷ TokenKind.kw_self_type ∷ TokenKind.amp ∷ TokenKind.kw_ptr
    ∷ TokenKind.kw_own ∷ TokenKind.kw_slice ∷ TokenKind.lbracket ∷ TokenKind.kw_fn ∷ TokenKind.bang
    ∷ []

abbrev pub one_of : TokenKind → List TokenKind → Bool
one_of k [] = false
one_of k (j ∷ kinds) = kind_eq k j || one_of k kinds

module _ (r : Routines) (start : Span) where
  -- `&T` and `&mut T`.
  abbrev pub reference_type : Parse AstType
  reference_type = do
    is_mut ← matches TokenKind.kw_mut
    inner ← r.parse_type
    pure (ref_type start inner is_mut)

  -- `ptr<T>`, `own<T>` and `slice<T>`, behind the keyword.
  abbrev pub angle_type : Bytes → Bytes → (AstType → AstType) → Parse AstType
  angle_type opening closing make = do
    expect TokenKind.lt opening
    inner ← r.parse_type
    expect TokenKind.gt closing
    pure (make inner)

  -- `[T; N]`.
  abbrev pub bracket_type : Parse AstType
  bracket_type = do
    element ← r.parse_type
    expect TokenKind.semicolon (codes "expected ';' in array type [T; N]")
    size ← parse_expression r
    expect TokenKind.rbracket (codes "expected ']' after array type")
    pure (array_type start element size)

  -- `fn(A, B) -> C`.
  abbrev pub function_type : Parse AstType
  function_type = do
    expect TokenKind.lparen (codes "expected '(' in fn type")
    ts ← comma_list 64 TokenKind.rparen (codes "expected ','") r.parse_type true
    expect TokenKind.rparen (codes "expected ')'")
    return_type ← arrow_type r
    pure (fn_ptr_type start (type_array ts) return_type)

  -- A generic argument: another token is skipped, and stands for a constant.
  unfoldable pub generic_arg : Parse AstType
  generic_arg p =
      if is_primitive_type p.current.kind || one_of p.current.kind type_starts
      then r.parse_type p
      else (step >> pure (inferred_type p.current.span)) p

  -- What follows a type's name.
  abbrev pub generic_args : AstType → Parse AstType
  generic_args base =
      on_match TokenKind.lt
        (do
          ts ← comma_list 32 TokenKind.gt (codes "expected ',' in generic args") generic_arg true
          expect TokenKind.gt (codes "expected '>' after generic args")
          pure (generic_type start base (type_array ts)))
        (pure base)

  abbrev pub primitive_type : Parse AstType
  primitive_type = look λ p. step >> pure (primitive start p.current.kind)

  -- A named type, of an identifier.
  abbrev pub identifier_type : Parse AstType
  identifier_type = look λ p. step >> generic_args (named start (current_text p) null_node)

  abbrev pub no_type : Parse AstType
  no_type p = done (inferred_type start) (error_current (codes "expected type") p)

  -- The branches behind the first run of `match`.
  abbrev pub other_rows : List (TokenKind × Parse AstType)
  other_rows =
      (TokenKind.kw_self_type, generic_args (named start (codes "Self") null_node))
      ∷ (TokenKind.kw_fn, function_type)
      ∷ []

  abbrev pub other_type : Parse AstType
  other_type = on_check TokenKind.identifier identifier_type (first_match other_rows no_type)

  unfoldable pub if_primitive : Parse AstType
  if_primitive p = if is_primitive_type p.current.kind then primitive_type p else other_type p

  abbrev pub type_rows : List (TokenKind × Parse AstType)
  type_rows =
      (TokenKind.bang, pure (never_type start))
      ∷ (TokenKind.amp, reference_type)
      ∷ (
        TokenKind.kw_ptr,
        angle_type (codes "expected '<' after 'ptr'") (codes "expected '>' after ptr type")
            (λ t. ptr_type start t false),
      )
      ∷ (
        TokenKind.kw_own,
        angle_type (codes "expected '<' after 'own'") (codes "expected '>' after own type")
            (own_type start),
      )
      ∷ (
        TokenKind.kw_slice,
        angle_type (codes "expected '<' after 'slice'") (codes "expected '>' after slice type")
            (slice_type start),
      )
      ∷ (TokenKind.lbracket, bracket_type)
      ∷ []

-- `parse_type`.
unfoldable pub type_body : Routines → Parse AstType
type_body r = look λ p. first_match (type_rows r p.current.span) (if_primitive r p.current.span)
