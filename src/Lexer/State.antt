-- ===== src/Lexer/State.antt =====
-- The lexer's state and its small steps (compiler/include/qpc/lexer.h, token.h; the head of
-- compiler/src/lexer.c). A `Lexer` holds the bytes of its source file and the diagnostics so far.
-- The u32 cursor is a plain number: it never passes the length of the content (Lexer/Bounds), so for
-- a file of less than 2 ^ 32 - 1 bytes neither it nor `cursor + 1` wraps.
use q.Common.{
  ℕ, zero, suc, ◌+◌, ◌-◌, Bool, true, false, ◌&&◌, Bytes, length, get_or, ltb, ◌==◌, if◌then◌else◌,
}
use q.Diagnostic.{Diagnostics, error, diag_emit}
use q.Source.{SourceFile}
use q.Token.Kind.{TokenKind, IntBase, Span}

-- The union of `Token`. A view into the source is the bytes that it shows. A float is the text that
-- is handed to `strtod`.
pub data Payload : Type 0 where
  no_payload : Payload
  int_lit : ℕ → IntBase → Payload
  float_lit : Bytes → Payload
  str_lit : Bytes → Bool → Payload
  char_lit : ℕ → Payload
  ident : Bytes → Payload

-- `Token`.
pub record Token : Type 0 where
  pub kind : TokenKind
  pub span : Span
  pub payload : Payload

-- `Lexer`.
pub record Lexer : Type 0 where
  pub content : Bytes
  pub cursor : ℕ
  pub source_id : ℕ
  pub diag : Diagnostics

-- `lexer_init`.
unfoldable pub lexer_init : SourceFile → Diagnostics → Lexer
lexer_init source diag = record {
  content = source.content;
  cursor = 0;
  source_id = source.id;
  diag = diag;
}

-- `peek`: a read at the end, or beyond, is NUL.
unfoldable pub peek : Lexer → ℕ
peek lex = get_or lex.content lex.cursor 0

-- `peek_at`.
unfoldable pub peek_at : Lexer → ℕ → ℕ
peek_at lex offset = get_or lex.content (lex.cursor + offset) 0

-- `lex->cursor += n`.
abbrev pub bump : ℕ → Lexer → Lexer
bump n lex = record lex { cursor = lex.cursor + n }

-- `lex->cursor = n`.
abbrev pub move_to : Lexer → ℕ → Lexer
move_to lex n = record lex { cursor = n }

-- `advance`: the byte, and the next state.
unfoldable pub advance : Lexer → ℕ × Lexer
advance lex =
    if ltb lex.cursor (length lex.content)
    then (get_or lex.content lex.cursor 0, bump 1 lex)
    else (0, lex)

-- `match_char`.
unfoldable pub match_char : Lexer → ℕ → Bool × Lexer
unfolding peek
match_char lex expected = if peek lex == expected then (true, bump 1 lex) else (false, lex)

-- `make_span`.
abbrev pub make_span : ℕ → ℕ → ℕ → Span
make_span source_id start end = record { start = start; end = end; source_id = source_id }

-- `make_token` from `start` to the cursor, and the payload that its caller stores in it.
abbrev pub make_token : TokenKind → Payload → Lexer → ℕ → Token
make_token kind payload lex start = record {
  kind = kind;
  span = make_span lex.source_id start lex.cursor;
  payload = payload;
}

-- `make_error_token`.
unfoldable pub make_error_token : Lexer → ℕ → Bytes → Token × Lexer
make_error_token lex start message = (
  make_token TokenKind.error no_payload lex start,
  record lex {
    diag =
        diag_emit error lex.source_id (make_span lex.source_id start lex.cursor) message lex.diag;
  },
)

-- A loop `while (cursor < length && test(peek)) cursor++`: where it stops. The fuel is the number of
-- bytes left, so where it runs out the first half of the test fails.
unfoldable pub scan_while : ℕ → (ℕ → Bool) → Bytes → ℕ → ℕ
scan_while zero test content cursor = cursor
scan_while (suc fuel) test content cursor =
    let rest = scan_while fuel test content (cursor + 1) in
    if ltb cursor (length content) && test (get_or content cursor 0) then rest else cursor

-- The bytes left.
abbrev pub left : Lexer → ℕ
left lex = length lex.content - lex.cursor

unfoldable pub skip_while : (ℕ → Bool) → Lexer → Lexer
skip_while test lex = move_to lex (scan_while (left lex) test lex.content lex.cursor)
