-- ===== src/Lexer/Bounds/Quoted.antt =====
-- String and character literals of compiler/src/lexer.c: the token and the state behind it.
use q.Common.{
  ℕ, zero, suc, ◌+◌, ◌≤◌, ◌<◌, Bool, true, false, not, ◌&&◌, Bytes, ◌≢◌, inl, inr, arith, length,
  get_or, ltb, ◌==◌, if◌then◌else◌, Bool-cases, ltb→lt,
}
use q.Lexer.Bounds.Moves.{
  Moves, IsInside, Moves-refl, Moves-trans, Moves-IsInside, bump-Moves, move_to-Moves,
  skip_while-Moves,
}
use q.Lexer.Bounds.Numbers.{is_hex_digit-inside, byte-inside}
use q.Lexer.Bounds.TokenIn.{TokenIn, make_token-TokenIn, make_error_token-TokenIn}
use q.Lexer.Literal.{
  lex_hex_escape, escape_value, lex_escape, string_step, string_end, string_body, string_kind,
  lex_string, close_char, lex_char,
}
use q.Lexer.State.{Lexer, bump, advance, left, skip_while}
use q.Token.Kind.{TokenKind}

pub string_step_bounds :
    (content : Bytes) (cursor : ℕ)
    → cursor < length content
    → (cursor < string_step content cursor) × (string_step content cursor ≤ length content)
unfolding string_step
string_step_bounds content cursor h =
    ground
      (arith, is_hex_digit-inside content (cursor + 2), is_hex_digit-inside content (cursor + 3))

string_end_bounds :
    (fuel : ℕ) (content : Bytes) (cursor : ℕ)
    → cursor ≤ length content
    → (cursor ≤ string_end fuel content cursor) × (string_end fuel content cursor ≤ length content)
unfolding string_end
string_end_bounds zero content cursor h = omega arith
string_end_bounds (suc fuel) content cursor h = ground (
  arith,
  string_step_bounds content cursor,
  string_end_bounds fuel content (string_step content cursor),
)

string_body-Moves :
    (is_raw : Bool) (lex : Lexer) → IsInside lex → Moves lex (string_body is_raw lex)
unfolding string_body
string_body-Moves true lex h = skip_while-Moves (λ c. not (c == b'"')) lex h
string_body-Moves false lex h =
    let b = string_end_bounds (left lex) lex.content lex.cursor h in
    move_to-Moves lex (string_end (left lex) lex.content lex.cursor) b.0 b.1

string_kind-ne_eof : (is_raw : Bool) → string_kind is_raw ≢ TokenKind.eof
string_kind-ne_eof true e = cc
string_kind-ne_eof false e = cc

-- The two lengths of an opening quote.
abbrev quote_length : Bool → ℕ
quote_length is_raw = if is_raw then 2 else 1

pub lex_string-TokenIn :
    (lex : Lexer) (is_raw : Bool)
    → lex.cursor + quote_length is_raw ≤ length lex.content
    → TokenIn lex (lex_string lex is_raw)
unfolding lex_string
lex_string-TokenIn lex is_raw h =
    let first = bump (quote_length is_raw) lex in
    let body = string_body is_raw first in
    let opened = bump-Moves (quote_length is_raw) lex h in
    let inner = string_body-Moves is_raw first h in
    let whole = Moves-trans opened inner in
    let some_bytes : 1 ≤ quote_length is_raw = ground arith in
    elim (Bool-cases (not (get_or body.content body.cursor 0 == b'"'))) [
      | inl open_end ↦ rw open_end (
          make_error_token-TokenIn lex body lex.cursor _ whole (omega arith)
            (omega (arith, inner.forward)))
      | inr closed ↦
          let room : body.cursor < length body.content =
            byte-inside body.content body.cursor b'"' (ground arith) (omega arith) in
          rw closed (
            make_token-TokenIn (string_kind is_raw) _ lex (bump 1 body) lex.cursor
              (Moves-trans whole (bump-Moves 1 body (omega arith))) (omega arith)
              (omega (arith, inner.forward)) (string_kind-ne_eof is_raw))
    ]

advance-Moves : (lex : Lexer) → IsInside lex → Moves lex (advance lex).1
unfolding advance
advance-Moves lex h = elim (Bool-cases (ltb lex.cursor (length lex.content))) [
  | inl more ↦
      let room = ltb→lt lex.cursor (length lex.content) more in
      rw more (bump-Moves 1 lex (omega arith))
  | inr done ↦ rw done (Moves-refl lex h)
]

lex_hex_escape-Moves : (lex : Lexer) → IsInside lex → Moves lex (lex_hex_escape lex).1
unfolding lex_hex_escape
lex_hex_escape-Moves lex h =
    let first = advance-Moves lex h in
    let second = advance-Moves (advance lex).1 (Moves-IsInside first) in
    ground (arith, Moves-refl lex h, Moves-trans first second)

escape_value-Moves : (c : ℕ) (lex : Lexer) → IsInside lex → Moves lex (escape_value c lex).1
unfolding escape_value
escape_value-Moves c lex h = ground (arith, Moves-refl lex h, lex_hex_escape-Moves lex h)

lex_escape-Moves : (lex : Lexer) → IsInside lex → Moves lex (lex_escape lex).1
unfolding lex_escape
lex_escape-Moves lex h =
    let first = advance-Moves lex h in
    Moves-trans first (escape_value-Moves (advance lex).0 (advance lex).1 (Moves-IsInside first))

close_char-TokenIn :
    (lex after : Lexer) (value : ℕ)
    → Moves lex after
    → lex.cursor < after.cursor
    → TokenIn lex (close_char lex.cursor value after)
unfolding close_char
close_char-TokenIn lex after value m h =
    elim (Bool-cases (not (get_or after.content after.cursor 0 == b'\''))) [
      | inr closed ↦
          let room : after.cursor < length after.content =
            byte-inside after.content after.cursor b'\'' (ground arith) (omega arith) in
          rw closed (
            make_token-TokenIn TokenKind.char_literal _ lex (bump 1 after) lex.cursor
              (Moves-trans m (bump-Moves 1 after (omega arith))) (omega arith) (omega arith)
              (λ e. cc))
      | inl open_end ↦
          let s = skip_while (λ c. not (c == b'\'') && not (c == b'\n')) after in
          let skipped =
            skip_while-Moves (λ c. not (c == b'\'') && not (c == b'\n')) after (Moves-IsInside m) in
          elim (Bool-cases (get_or s.content s.cursor 0 == b'\'')) [
            | inl quote ↦
                let room : s.cursor < length s.content =
                  byte-inside s.content s.cursor b'\'' quote (omega arith) in
                rw (open_end, quote)
                  (make_error_token-TokenIn lex (bump 1 s) lex.cursor _
                    (Moves-trans m (Moves-trans skipped (bump-Moves 1 s (omega arith))))
                    (omega arith) (omega (arith, skipped.forward)))
            | inr none ↦
                rw (open_end, none)
                  (make_error_token-TokenIn lex s lex.cursor _ (Moves-trans m skipped) (omega arith)
                    (omega (arith, skipped.forward)))
          ]
    ]

pub lex_char-TokenIn : (lex : Lexer) → lex.cursor < length lex.content → TokenIn lex (lex_char lex)
unfolding lex_char
lex_char-TokenIn lex h =
    let body = bump 1 lex in
    let opened = bump-Moves 1 lex (omega arith) in
    elim (Bool-cases (get_or lex.content body.cursor 0 == b'\\')) [
      | inl escape ↦
          let room : body.cursor < length lex.content =
            byte-inside lex.content body.cursor b'\\' escape (omega arith) in
          let slash = bump-Moves 1 body (omega arith) in
          let value = lex_escape-Moves (bump 1 body) (Moves-IsInside slash) in
          rw escape (
            close_char-TokenIn lex (lex_escape (bump 1 body)).1 (lex_escape (bump 1 body)).0
              (Moves-trans opened (Moves-trans slash value)) (omega (arith, value.forward)))
      | inr plain ↦ elim (Bool-cases (get_or lex.content body.cursor 0 == b'\'')) [
        | inl empty ↦
            rw (plain, empty)
              (make_error_token-TokenIn lex body lex.cursor _ opened (omega arith) (omega arith))
        | inr other ↦
            let value = advance-Moves body (omega arith) in
            rw (plain, other)
              (close_char-TokenIn lex (advance body).1 (advance body).0 (Moves-trans opened value)
                (omega (arith, value.forward)))
      ]
    ]
