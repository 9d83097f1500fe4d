-- ===== src/Parser/State.antt =====
-- The parser's state and its steps on tokens (compiler/include/qpc/parser.h and the head of
-- compiler/src/parser.c), and the monad in which the routines are written.
use q.Common.{
  ℕ, zero, suc, ◌+◌, Bool, true, false, List, [], ◌∷◌, Bytes, codes, ◌||◌, if◌then◌else◌,
}
use q.Diagnostic.{error, diag_emit}
use q.Lexer.Run.{lexer_next_token}
use q.Lexer.State.{Lexer, Token, Payload, ident, str_lit, left}
use q.Token.Kind.{TokenKind, kind_eq, Span, token_kind_to_str}

-- `Parser`, without the arena.
pub record Parser : Type 0 where
  pub lexer : Lexer
  pub current : Token
  pub previous : Token
  pub source_id : ℕ
  pub had_error : Bool
  pub panic_mode : Bool

-- What a routine comes to: a result with the parser after it, a write behind the end of one of its
-- local arrays, or a call that the fuel did not reach.
pub data Outcome (A : Type 0) : Type 0 where
  done : A → Parser → Outcome A
  overrun no_fuel : Outcome A

abbrev pub Parse : Type 0 → Type 0
Parse A = Parser → Outcome A

module _ {A B : Type 0} where
  abbrev pub bind : Outcome A → (A → Parse B) → Outcome B
  bind (done a p) f = f a p
  bind overrun f = overrun
  bind no_fuel f = no_fuel

  infixl 1 ◌>>=◌ ◌>>◌
  abbrev pub ◌>>=◌ : Parse A → (A → Parse B) → Parse B
  m >>= f = λ p. bind (m p) f

  abbrev pub ◌>>◌ : Parse A → Parse B → Parse B
  m >> k = m >>= λ _. k

module _ {A : Type 0} where
  abbrev pub pure : A → Parse A
  pure a p = done a p

  -- The part of a routine that reads the parser before it goes on.
  abbrev pub look : (Parser → Parse A) → Parse A
  look f p = f p p

-- `advance`.
unfoldable pub advance : Parser → Parser
advance p = record p {
  lexer = (lexer_next_token p.lexer).1;
  current = (lexer_next_token p.lexer).0;
  previous = p.current;
}

abbrev pub step : Parse (Unit {0})
step p = done tt (advance p)

-- `check`.
unfoldable pub check : TokenKind → Parser → Bool
check kind p = kind_eq p.current.kind kind

module _ {A : Type 0} where
  -- `if (match(p, kind)) this else other`.
  unfoldable pub on_match : TokenKind → Parse A → Parse A → Parse A
  on_match kind this other p = if check kind p then this (advance p) else other p

  -- `if (check(p, kind)) this else other`.
  unfoldable pub on_check : TokenKind → Parse A → Parse A → Parse A
  on_check kind this other p = if check kind p then this p else other p

  -- A run of `if (match(p, kind)) return this;`, one for each row, and what follows it.
  abbrev pub first_match : List (TokenKind × Parse A) → Parse A → Parse A
  first_match [] other = other
  first_match ((kind, this) ∷ rows) other = on_match kind this (first_match rows other)

-- `match`, for its value.
abbrev pub matches : TokenKind → Parse Bool
matches kind = on_match kind (pure true) (pure false)

-- `error_at`.
unfoldable pub error_at : Span → Bytes → Parser → Parser
error_at span msg p = if p.panic_mode then p else record p {
  panic_mode = true;
  had_error = true;
  lexer = record p.lexer { diag = diag_emit error p.source_id span msg p.lexer.diag };
}

-- `error_current`.
abbrev pub error_current : Bytes → Parser → Parser
error_current msg p = error_at p.current.span msg p

-- `expect`, whose result no caller uses.
unfoldable pub expect : TokenKind → Bytes → Parse (Unit {0})
expect kind msg p = done tt (if check kind p then advance p else error_current msg p)

-- The kinds at which `synchronize` stops.
unfoldable pub is_sync : TokenKind → Bool
is_sync TokenKind.kw_fn = true
is_sync TokenKind.kw_let = true
is_sync TokenKind.kw_struct = true
is_sync TokenKind.kw_enum = true
is_sync TokenKind.kw_impl = true
is_sync TokenKind.kw_trait = true
is_sync TokenKind.kw_pub = true
is_sync TokenKind.kw_import = true
is_sync TokenKind.kw_module = true
is_sync TokenKind.kw_const = true
is_sync TokenKind.kw_static = true
is_sync TokenKind.kw_driver = true
is_sync TokenKind.kw_syscall = true
is_sync TokenKind.kw_return = true
is_sync TokenKind.kw_if = true
is_sync TokenKind.kw_for = true
is_sync TokenKind.kw_while = true
is_sync TokenKind.kw_loop = true
is_sync _ = false

-- The tokens that are left, at most: none at the end of the input, and else the current one and a byte
-- for each of the others.
abbrev pub rank : Parser → ℕ
rank p = if check TokenKind.eof p then 0 else left p.lexer + 1

-- A loop that ends when `stop` holds, or at the end of the input, and takes a token in every round.
-- Each test of the condition takes one unit of fuel.
unfoldable pub skip_until : ℕ → (Parser → Bool) → Parse (Unit {0})
skip_until zero stop p = no_fuel
skip_until (suc fuel) stop p =
    let rest = skip_until fuel stop (advance p) in
    if check TokenKind.eof p || stop p then done tt p else rest

-- `synchronize`.
abbrev pub in_sync : Parser → Bool
in_sync p = kind_eq p.previous.kind TokenKind.semicolon || is_sync p.current.kind

unfoldable pub synchronize : Parse (Unit {0})
synchronize p = skip_until (rank p + 1) in_sync (record p { panic_mode = false })

-- `p->current.ident` as a view. The union has a string's view in the same place; the views of the
-- other tokens that a caller could meet here are empty or, for a number, no view at all: an error is
-- reported then, and the model has the empty view.
abbrev view_of : Payload → Bytes
view_of (ident name) = name
view_of (str_lit text is_raw) = text
view_of _ = []

abbrev pub current_text : Parser → Bytes
current_text p = view_of p.current.payload

-- The name at the current token: of an identifier, or "<error>".
unfoldable pub name_or_error : Parser → Bytes
name_or_error p = if check TokenKind.identifier p then current_text p else codes "<error>"

-- The name at the current token: of an identifier, or the text of the kind.
unfoldable pub name_or_kind : Parser → Bytes
name_or_kind p =
    if check TokenKind.identifier p then current_text p else token_kind_to_str p.current.kind

-- `parser_init`. What `current` holds before is not initialised in the source, and becomes `previous`.
unfoldable pub parser_init : Lexer → Token → Parser
parser_init lexer before = advance (record {
  lexer = lexer;
  current = before;
  previous = before;
  source_id = lexer.source_id;
  had_error = false;
  panic_mode = false;
})

-- `parser_had_error`.
unfoldable pub parser_had_error : Parser → Bool
parser_had_error p = p.had_error
