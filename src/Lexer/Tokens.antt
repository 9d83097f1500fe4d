-- ===== src/Lexer/Tokens.antt =====
-- The whole run of the lexer: `lexer_next_token` and `lexer_lex_all` of compiler/src/lexer.c.
use q.Common.{
  u32_mod, u32_inc, ltb, ltb→lt, ◌⊎◌, ap, ℕ, zero, suc, ◌+◌, ◌-◌, ◌≤◌, ◌<◌, true, false, ◌&&◌, List,
  [], ◌∷◌, ◌≡◌, ◌≢◌, refl, ◌∙◌, inl, inr, arith, length, get_or, leb, leb→le, leb_false→lt, ◌==◌,
  Bool-cases,
}
use q.Diagnostic.{Diagnostics}
use q.Lexer.Bounds.Moves.{
  Moves, IsInside, Moves-trans, Moves-IsInside, bump-Moves, skip_trivia-Moves,
}
use q.Lexer.Bounds.Numbers.{lex_number-TokenIn, byte-inside}
use q.Lexer.Bounds.Quoted.{lex_string-TokenIn, lex_char-TokenIn}
use q.Lexer.Bounds.TokenIn.{TokenIn, lex_identifier-TokenIn, lex_operator-TokenIn}
use q.Lexer.Chars.{is_alpha, is_digit}
use q.Lexer.Run.{
  dispatch, token_at, lexer_next_token, Lexed, lexed, push_token, grow, lex_rounds, lexer_lex_all,
}
use q.Lexer.State.{Lexer, Token, lexer_init, bump, left}
use q.Lexer.Trivia.{skip_trivia}
use q.Source.{SourceFile}
use q.Token.Kind.{TokenKind, kind_eq}
use q.Token.Lookup.{kind_eq_eof-ne}

-- A token of a routine that was called a little further on.
TokenIn-later :
    {lex mid : Lexer} {r : Token × Lexer} → Moves lex mid → TokenIn mid r → TokenIn lex r
TokenIn-later m t = record {
  moves = Moves-trans m t.moves;
  starts = omega (arith, m.forward, t.starts);
  nonempty = t.nonempty;
  ends = t.ends;
  source = t.source ∙ m.source_id;
  not_eof = t.not_eof;
}

dispatch-TokenIn : (lex : Lexer) → lex.cursor < length lex.content → TokenIn lex (dispatch lex)
unfolding dispatch
dispatch-TokenIn lex h =
    let c : ℕ = get_or lex.content lex.cursor 0 in
    let d : ℕ = get_or lex.content (lex.cursor + 1) 0 in
    let second = byte-inside lex.content (lex.cursor + 1) in
    elim (Bool-cases (is_alpha c)) [
      | inl alpha ↦ elim (Bool-cases (c == b'r' && d == b'"')) [
        | inl raw ↦
            let room = second b'"' (ground arith) (omega arith) in
            rw (alpha, raw) (lex_string-TokenIn lex true (omega arith))
        | inr not_raw ↦ elim (Bool-cases (c == b'b' && d == b'\'')) [
          | inl byte ↦
              let room = second b'\'' (ground arith) (omega arith) in
              rw (alpha, not_raw, byte)
                (TokenIn-later (bump-Moves 1 lex (omega arith))
                  (lex_char-TokenIn (bump 1 lex) room))
          | inr word ↦ rw (alpha, not_raw, word) (lex_identifier-TokenIn lex h alpha)
        ]
      ]
      | inr not_alpha ↦ elim (Bool-cases (is_digit c)) [
        | inl digit ↦ rw (not_alpha, digit) (lex_number-TokenIn lex h digit)
        | inr not_digit ↦ elim (Bool-cases (c == b'"')) [
          | inl quote ↦
              rw (not_alpha, not_digit, quote) (lex_string-TokenIn lex false (omega arith))
          | inr not_quote ↦ elim (Bool-cases (c == b'\'')) [
            | inl tick ↦ rw (not_alpha, not_digit, not_quote, tick) (lex_char-TokenIn lex h)
            | inr other ↦ rw (not_alpha, not_digit, not_quote, other) (lex_operator-TokenIn lex h)
          ]
        ]
      ]
    ]

-- The tokens from offset `from` on: each but the last is not empty, lies behind the one before it
-- and inside the source, and is not the end of input; the last is the end of input, at the end.
pub data Tiles (len source_id : ℕ) : ℕ → List Token → Type 0 where
  last :
      {from : ℕ} {t : Token}
      → t.kind ≡ TokenKind.eof
      → t.span.start ≡ len
      → t.span.end ≡ len
      → t.span.source_id ≡ source_id
      → from ≤ len
      → Tiles len source_id from (t ∷ [])
  next :
      {from : ℕ} {t : Token} {ts : List Token}
      → t.kind ≢ TokenKind.eof
      → from ≤ t.span.start
      → t.span.start < t.span.end
      → t.span.end ≤ len
      → t.span.source_id ≡ source_id
      → Tiles len source_id t.span.end ts
      → Tiles len source_id from (t ∷ ts)

-- What a run comes to from `lex`, with `count` tokens before it.
abbrev pub Runs : ℕ → Lexer → Lexed → Type 0
Runs count lex o =
    (toks : List Token) × (after : Lexer) × (o ≡ lexed toks (count + length toks) after)
    × Tiles (length lex.content) lex.source_id lex.cursor toks
    × (after.cursor ≡ length lex.content)

-- Either there is nothing but trivia left, or `lexer_next_token` returns a token.
pub lexer_next_token_cases :
    (lex : Lexer)
    → IsInside lex
    → (((lexer_next_token lex).0.kind ≡ TokenKind.eof)
        × ((lexer_next_token lex).0.span.start ≡ length lex.content)
        × ((lexer_next_token lex).0.span.end ≡ length lex.content)
        × ((lexer_next_token lex).0.span.source_id ≡ lex.source_id)
        × ((lexer_next_token lex).1.cursor ≡ length lex.content))
      ⊎ TokenIn lex (lexer_next_token lex)
unfolding lexer_next_token token_at
lexer_next_token_cases lex h =
    let s = skip_trivia lex in
    let m = skip_trivia-Moves lex h in
    elim (Bool-cases (leb (length s.content) s.cursor)) [
      | inl done ↦
          let at_end : s.cursor ≡ length lex.content =
            omega (arith, ap length m.content, leb→le (length s.content) s.cursor done) in
          inl (rw done refl, rw done at_end, rw done at_end, rw done m.source_id, rw done at_end)
      | inr more ↦
          let room = leb_false→lt (length s.content) s.cursor more in
          inr (rw more (TokenIn-later m (dispatch-TokenIn s room)))
    ]

pub lexer_next_token-Moves : (lex : Lexer) → IsInside lex → Moves lex (lexer_next_token lex).1
unfolding lexer_next_token token_at
lexer_next_token-Moves lex h =
    let s = skip_trivia lex in
    let m = skip_trivia-Moves lex h in
    elim (Bool-cases (leb (length s.content) s.cursor)) [
      | inl done ↦ rw done m
      | inr more ↦
          let room = leb_false→lt (length s.content) s.cursor more in
          rw more (Moves-trans m (dispatch-TokenIn s room).moves)
    ]

push_token-Runs :
    (after_it count : ℕ) (lex mid : Lexer) (t : Token) (o : Lexed)
    → TokenIn lex (t, mid)
    → after_it ≡ count + 1
    → Runs after_it mid o
    → Runs count lex (push_token t o)
push_token-Runs after_it count lex mid t o k counted (toks, after, e, tiles, done) =
    let same : length mid.content ≡ length lex.content = ap length k.moves.content in
    let from_end : t.span.end ≡ mid.cursor = k.ends in
    let total : after_it + length toks ≡ count + length (t ∷ toks) = omega (arith, counted) in
    (
      t ∷ toks,
      after,
      rw e (ap (λ n. lexed (t ∷ toks) n after) total),
      next k.not_eof k.starts k.nonempty (omega (arith, k.moves.inside)) k.source
          (rw from_end (rw (same, k.moves.source_id) at tiles)),
      done ∙ same,
    )

-- A round finds room, where the tokens so far are at most as many as the array holds, and no more than
-- bytes below 2 GiB.
record HasRoom (count capacity : ℕ) : Type 0 where
  filled : count ≤ capacity
  positive : 0 < capacity
  fits : capacity < u32_mod
  small : count < 2147483648

grow-HasRoom :
    {count capacity : ℕ}
    → HasRoom count capacity
    → (ltb count (grow count capacity) ≡ true)
      × (0 < grow count capacity)
      × (grow count capacity < u32_mod)
unfolding grow
grow-HasRoom {count} {capacity} h = ground (arith, h.filled, h.positive, h.fits, h.small)

next_room :
    {count capacity : ℕ}
    → HasRoom count capacity
    → count + 1 < 2147483648
    → HasRoom (u32_inc count) (grow count capacity)
next_room {count} {capacity} h k =
    let g = grow-HasRoom h in
    record {
      filled = omega (arith, ltb→lt count (grow count capacity) g.0, k);
      positive = g.1;
      fits = g.2;
      small = omega (arith, k);
    }

lex_rounds-Runs :
    (fuel count capacity : ℕ) (lex : Lexer)
    → IsInside lex
    → left lex < fuel
    → count ≤ lex.cursor
    → length lex.content < 2147483648
    → HasRoom count capacity
    → Runs count lex (lex_rounds fuel count capacity lex)
unfolding lex_rounds
lex_rounds-Runs zero count capacity lex h f c s room = absurd (omega arith)
lex_rounds-Runs (suc fuel) count capacity lex h f c s room =
    let g = (grow-HasRoom room).0 in
    let counted : u32_inc count ≡ count + length ((lexer_next_token lex).0 ∷ []) =
      omega (arith, room.small) in
    elim (lexer_next_token_cases lex h) [
      | inl (kind, start, end, source, cursor) ↦ (
        (lexer_next_token lex).0 ∷ [],
        (lexer_next_token lex).1,
        rw (lex_rounds, g, kind)
            (unfold kind_eq in
              ap (λ n. lexed ((lexer_next_token lex).0 ∷ []) n (lexer_next_token lex).1) counted),
        last kind start end source h,
        cursor,
      )
      | inr k ↦
          let r = lexer_next_token lex in
          let same : length r.1.content ≡ length lex.content = ap length k.moves.content in
          let moved : lex.cursor < r.1.cursor = omega (arith, k.starts, k.nonempty, k.ends) in
          let rest =
            lex_rounds-Runs fuel (u32_inc count) (grow count capacity) r.1 (Moves-IsInside k.moves)
              (omega (arith, moved, same, k.moves.inside, f)) (omega (arith, moved, c, counted))
              (omega (arith, same, s))
              (next_room room (omega (arith, moved, c, s, k.moves.inside))) in
          rw (lex_rounds, g, kind_eq_eof-ne r.0.kind k.not_eof)
            (push_token-Runs (u32_inc count) count lex r.1 r.0 _ k (omega (arith, room.small)) rest)
    ]

-- Lexing a source file below 2 GiB comes to an end, whatever its bytes, and never writes behind the end
-- of its array: it returns a list of tokens and their count; the tokens are not empty, lie one behind the
-- other inside the source and carry its id, and the last, and only the last, is the end of input, at the
-- end of the source; the cursor then stands at that end.
pub lexer_lex_all-Tiles :
    (source : SourceFile) (diag : Diagnostics)
    → length source.content < 2147483648
    → (toks : List Token) × (after : Lexer) × (lexer_lex_all (lexer_init source diag)
        ≡ lexed toks (length toks) after)
      × Tiles (length source.content) source.id 0 toks
      × (after.cursor ≡ length source.content)
unfolding lexer_lex_all lexer_init
lexer_lex_all-Tiles source diag small =
    let start : HasRoom 0 1024 = record {
      filled = omega arith;
      positive = omega arith;
      fits = omega arith;
      small = omega arith;
    } in
    let r =
      lex_rounds-Runs (length source.content - 0 + 1) 0 1024
        (record { content = source.content; cursor = 0; source_id = source.id; diag = diag })
        (omega arith) (omega arith) (omega arith) small start in
    let total : 0 + length r.0 ≡ length r.0 = omega arith in
    (r.0, r.1, r.2 ∙ ap (λ n. lexed r.0 n r.1) total, r.3, r.4)
