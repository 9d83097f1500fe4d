-- ===== src/Lexer/Bounds/TokenIn.antt =====
-- What each routine of compiler/src/lexer.c says of the token that it returns and the state behind
-- it; identifiers and operators.
use q.Common.{
  codes, lt→ltb, ℕ, ◌≤◌, ◌<◌, Bool, true, not, ◌&&◌, List, [], ◌∷◌, Option, none, some, Bytes, ◌≡◌,
  ◌≢◌, refl, inl, inr, arith, length, get_or, slice, ltb, ◌==◌, ==_iff, Bool-cases,
}
use q.Lexer.Bounds.Moves.{
  Moves, Moves-trans, bump-Moves, get_or-inside, skip_while-Moves, scan_while-progress,
}
use q.Lexer.Chars.{is_alnum, is_alpha}
use q.Lexer.Operator.{Munch, token, on, operator_cases, find_case, munch, run_case, lex_operator}
use q.Lexer.State.{Lexer, Token, Payload, bump, make_token, make_error_token, left, skip_while}
use q.Lexer.Word.{lex_identifier}
use q.Token.Keyword.{keyword_lookup}
use q.Token.Lookup.{keyword_lookup-ne_eof, kind_eq-ne}
use q.Token.Kind.{TokenKind, kind_eq}

-- A token that a routine returns when it is called in state `lex`: its span is not empty, begins at
-- the cursor or behind it, and ends at the new cursor.
pub record TokenIn (lex : Lexer) (r : Token × Lexer) : Type 0 where
  pub moves : Moves lex r.1
  pub starts : lex.cursor ≤ r.0.span.start
  pub nonempty : r.0.span.start < r.0.span.end
  pub ends : r.0.span.end ≡ r.1.cursor
  pub source : r.0.span.source_id ≡ lex.source_id
  pub not_eof : r.0.kind ≢ TokenKind.eof

pub make_token-TokenIn :
    (kind : TokenKind) (payload : Payload) (lex after : Lexer) (start : ℕ)
    → Moves lex after
    → lex.cursor ≤ start
    → start < after.cursor
    → kind ≢ TokenKind.eof
    → TokenIn lex (make_token kind payload after start, after)
make_token-TokenIn kind held lex after start m h k n = record {
  moves = m;
  starts = h;
  nonempty = k;
  ends = refl;
  source = m.source_id;
  not_eof = n;
}

pub make_error_token-TokenIn :
    (lex after : Lexer) (start : ℕ) (message : Bytes)
    → Moves lex after
    → lex.cursor ≤ start
    → start < after.cursor
    → TokenIn lex (make_error_token after start message)
unfolding make_error_token
make_error_token-TokenIn lex after start message m h k = record {
  moves = record {
    content = m.content;
    source_id = m.source_id;
    forward = m.forward;
    inside = m.inside;
  };
  starts = h;
  nonempty = k;
  ends = refl;
  source = m.source_id;
  not_eof = λ e. cc;
}

-- A scan moves off a byte that passes its test.
pub skip_while-progress :
    (test : ℕ → Bool) (lex : Lexer)
    → lex.cursor < length lex.content
    → test (get_or lex.content lex.cursor 0) ≡ true
    → lex.cursor < (skip_while test lex).cursor
unfolding skip_while
skip_while-progress test lex h k =
    scan_while-progress (left lex) test lex.content lex.cursor (omega arith) h k

is_alpha-is_alnum : (c : ℕ) → is_alpha c ≡ true → is_alnum c ≡ true
unfolding is_alnum
is_alpha-is_alnum c h = ground arith

pub lex_identifier-TokenIn :
    (lex : Lexer)
    → lex.cursor < length lex.content
    → is_alpha (get_or lex.content lex.cursor 0) ≡ true
    → TokenIn lex (lex_identifier lex)
unfolding lex_identifier
lex_identifier-TokenIn lex h a =
    let text = slice lex.content lex.cursor (skip_while is_alnum lex).cursor in
    make_token-TokenIn (keyword_lookup text) _ lex (skip_while is_alnum lex) lex.cursor
      (skip_while-Moves is_alnum lex (omega arith)) (omega arith)
      (skip_while-progress is_alnum lex h (is_alpha-is_alnum (get_or lex.content lex.cursor 0) a))
      (kind_eq-ne (keyword_lookup text) TokenKind.eof (keyword_lookup-ne_eof text))

-- A tree of tests whose bytes are not NUL and whose kinds are not the end of input.
unfoldable pub is_plain : Munch → Bool
is_plain (token k) = not (kind_eq k TokenKind.eof)
is_plain (on c a b) = ltb 0 c && is_plain a && is_plain b

all_plain : List (ℕ × Munch) → Bool
all_plain [] = true
all_plain ((c, m) ∷ rows) = is_plain m && all_plain rows

find_case-plain :
    (c : ℕ) (rows : List (ℕ × Munch)) (m : Munch)
    → all_plain rows ≡ true
    → find_case c rows ≡ some m
    → is_plain m ≡ true
unfolding all_plain find_case
find_case-plain c [] m h e = cc
find_case-plain c ((d, x) ∷ rows) m h e = ground (arith, find_case-plain c rows m)

munch-TokenIn :
    (start : ℕ) (m : Munch) (lex after : Lexer)
    → is_plain m ≡ true
    → Moves lex after
    → lex.cursor ≤ start
    → start < after.cursor
    → TokenIn lex (munch start m after)
unfolding munch is_plain
munch-TokenIn start (token k) lex after p v h j =
    make_token-TokenIn k _ lex after start v h j (kind_eq-ne k TokenKind.eof (ground arith))
munch-TokenIn start (on c a b) lex after p v h j =
    elim (Bool-cases (get_or after.content after.cursor 0 == c)) [
      | inl matched ↦
          let this = (==_iff (get_or after.content after.cursor 0) c).0 matched in
          let room = get_or-inside after.content after.cursor c this (ground arith) in
          rw (munch, matched)
            (munch-TokenIn start a lex (bump 1 after) (ground arith)
              (Moves-trans v (bump-Moves 1 after (omega arith))) h (omega arith))
      | inr other ↦ rw (munch, other) (munch-TokenIn start b lex after (ground arith) v h j)
    ]

all_plain-true : all_plain operator_cases ≡ true
unfolding all_plain is_plain kind_eq
all_plain-true = refl

run_case-TokenIn :
    (lex : Lexer) (c : ℕ) (o : Option Munch)
    → find_case c operator_cases ≡ o
    → Moves lex (bump 1 lex)
    → TokenIn lex (run_case lex.cursor o (bump 1 lex))
unfolding run_case
run_case-TokenIn lex c none e v =
    make_error_token-TokenIn lex (bump 1 lex) lex.cursor (codes "unexpected character") v
      (omega arith) (omega arith)
run_case-TokenIn lex c (some m) e v =
    munch-TokenIn lex.cursor m lex (bump 1 lex)
      (find_case-plain c operator_cases m all_plain-true e) v (omega arith) (omega arith)

pub lex_operator-TokenIn :
    (lex : Lexer) → lex.cursor < length lex.content → TokenIn lex (lex_operator lex)
unfolding lex_operator
lex_operator-TokenIn lex h =
    let c : ℕ = get_or lex.content lex.cursor 0 in
    rw (lt→ltb lex.cursor (length lex.content) h)
      (run_case-TokenIn lex c (find_case c operator_cases) refl (bump-Moves 1 lex (omega arith)))
