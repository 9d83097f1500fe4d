-- ===== src/Lexer/Trivia.antt =====
-- Whitespace and comments: `skip_whitespace`, `skip_comment` and `skip_trivia` of
-- compiler/src/lexer.c.
use q.Common.{
  ℕ, zero, suc, ◌+◌, ◌-◌, Bool, true, false, not, ◌&&◌, Bytes, codes, length, get_or, ltb, ◌==◌,
  if◌then◌else◌,
}
use q.Diagnostic.{error, diag_emit}
use q.Lexer.Chars.{is_space}
use q.Lexer.State.{Lexer, peek, peek_at, bump, move_to, make_span, left, skip_while}

-- `skip_whitespace`.
unfoldable pub skip_whitespace : Lexer → Lexer
skip_whitespace lex = skip_while is_space lex

-- The loop over a block comment: the cursor and the depth, while neither is at its end. Each round
-- moves the cursor, so the bytes left are fuel enough.
unfoldable pub block_end : ℕ → Bytes → ℕ → ℕ → ℕ × ℕ
block_end zero content cursor depth = (cursor, depth)
block_end (suc fuel) content cursor depth =
    let c : ℕ = get_or content cursor 0 in
    let d : ℕ = get_or content (cursor + 1) 0 in
    let opened = block_end fuel content (cursor + 2) (depth + 1) in
    let closed = block_end fuel content (cursor + 2) (depth - 1) in
    let other = block_end fuel content (cursor + 1) depth in
    if ltb cursor (length content) && ltb 0 depth
    then (if c == b'/' && d == b'*'
        then opened
        else if c == b'*' && d == b'/'
        then closed
        else other)
    else (cursor, depth)

-- The report after that loop.
unfoldable pub close_comment : Lexer → ℕ → ℕ → Lexer
close_comment lex start depth =
    if ltb 0 depth
    then record lex {
      diag =
          diag_emit error lex.source_id (make_span lex.source_id start lex.cursor)
            (codes "unterminated block comment") lex.diag;
    }
    else lex

-- `skip_comment`.
unfoldable pub skip_comment : Lexer → Bool × Lexer
unfolding peek peek_at
skip_comment lex =
    if not (peek lex == b'/')
    then (false, lex)
    else if peek_at lex 1 == b'/'
    then (true, skip_while (λ c. not (c == b'\n')) (bump 2 lex))
    else if peek_at lex 1 == b'*'
    then (let body = bump 2 lex in
        let stop = block_end (left body) lex.content body.cursor 1 in
        (true, close_comment (move_to lex stop.0) lex.cursor stop.1))
    else (false, lex)

-- `skip_trivia`; a comment is not empty, so one round more than bytes is fuel enough.
unfoldable pub trivia_rounds : ℕ → Lexer → Lexer
trivia_rounds zero lex = lex
trivia_rounds (suc fuel) lex =
    let r = skip_comment (skip_whitespace lex) in
    elim r.0 [ true ↦ trivia_rounds fuel r.1 | false ↦ r.1 ]

unfoldable pub skip_trivia : Lexer → Lexer
skip_trivia lex = trivia_rounds (left lex + 1) lex
