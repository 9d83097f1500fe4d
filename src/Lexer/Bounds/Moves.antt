-- ===== src/Lexer/Bounds/Moves.antt =====
-- The relation between a lexer and a later one, and the scanning loops and trivia of
-- compiler/src/lexer.c in it.
use q.Common.{
  ℕ, zero, suc, ◌+◌, ◌-◌, ◌≤◌, ◌<◌, Bool, true, false, ◌&&◌, [], ◌∷◌, ==_iff, not, Bytes, ◌≡◌, refl,
  ◌∙◌, inl, inr, arith, length, get_or, ltb, ◌==◌, Bool-cases,
}
use q.Lexer.Chars.{is_space}
use q.Lexer.State.{Lexer, bump, move_to, scan_while, skip_while, left}
use q.Lexer.Trivia.{
  skip_whitespace, block_end, close_comment, skip_comment, trivia_rounds, skip_trivia,
}

-- `after` is a state that the lexer reaches from `lex`.
pub record Moves (lex after : Lexer) : Type 0 where
  pub content : after.content ≡ lex.content
  pub source_id : after.source_id ≡ lex.source_id
  pub forward : lex.cursor ≤ after.cursor
  pub inside : after.cursor ≤ length lex.content

-- The cursor is inside the content.
abbrev pub IsInside : Lexer → Type 0
IsInside lex = lex.cursor ≤ length lex.content

pub Moves-refl : (lex : Lexer) → IsInside lex → Moves lex lex
Moves-refl lex h = record { content = refl; source_id = refl; forward = omega arith; inside = h }

pub Moves-trans : {a b c : Lexer} → Moves a b → Moves b c → Moves a c
Moves-trans p r = record {
  content = r.content ∙ p.content;
  source_id = r.source_id ∙ p.source_id;
  forward = omega arith;
  inside = rw (← p.content) r.inside;
}

pub Moves-IsInside : {a b : Lexer} → Moves a b → IsInside b
Moves-IsInside p = rw p.content p.inside

pub bump-Moves :
    (n : ℕ) (lex : Lexer) → lex.cursor + n ≤ length lex.content → Moves lex (bump n lex)
bump-Moves n lex h = record { content = refl; source_id = refl; forward = omega arith; inside = h }

pub move_to-Moves :
    (lex : Lexer) (n : ℕ) → lex.cursor ≤ n → n ≤ length lex.content → Moves lex (move_to lex n)
move_to-Moves lex n h k = record { content = refl; source_id = refl; forward = h; inside = k }

-- A byte other than NUL was read inside the content.
pub get_or-inside :
    (content : Bytes) (i : ℕ) (c : ℕ) → get_or content i 0 ≡ c → 0 < c → i < length content
get_or-inside [] i c e h = absurd (omega arith)
get_or-inside (x ∷ xs) zero c e h = omega arith
get_or-inside (x ∷ xs) (suc i) c e h = omega (arith, get_or-inside xs i c e h)

pub scan_while_bounds :
    (fuel : ℕ) (test : ℕ → Bool) (content : Bytes) (cursor : ℕ)
    → cursor ≤ length content
    → (cursor ≤ scan_while fuel test content cursor)
      × (scan_while fuel test content cursor ≤ length content)
unfolding scan_while
scan_while_bounds zero test content cursor h = omega arith
scan_while_bounds (suc fuel) test content cursor h =
    ground (arith, scan_while_bounds fuel test content (cursor + 1))

pub skip_while-Moves :
    (test : ℕ → Bool) (lex : Lexer) → IsInside lex → Moves lex (skip_while test lex)
unfolding skip_while
skip_while-Moves test lex h =
    let b = scan_while_bounds (left lex) test lex.content lex.cursor h in
    move_to-Moves lex (scan_while (left lex) test lex.content lex.cursor) b.0 b.1

-- The scan stops at the end or at a byte that fails the test.
pub scan_while-stops :
    (fuel : ℕ) (test : ℕ → Bool) (content : Bytes) (cursor : ℕ)
    → length content ≤ cursor + fuel
    → scan_while fuel test content cursor < length content
    → test (get_or content (scan_while fuel test content cursor) 0) ≡ false
unfolding scan_while
scan_while-stops zero test content cursor h k = absurd (omega arith)
scan_while-stops (suc fuel) test content cursor h k =
    elim (Bool-cases (ltb cursor (length content) && test (get_or content cursor 0))) [
      | inl on ↦ rw on (scan_while-stops fuel test content (cursor + 1) (omega arith) (rw on at k))
      | inr off ↦ rw off (ground arith)
    ]

-- Every byte that the scan passes passes the test.
pub scan_while-passes :
    (fuel : ℕ) (test : ℕ → Bool) (content : Bytes) (cursor i : ℕ)
    → cursor ≤ i
    → i < scan_while fuel test content cursor
    → test (get_or content i 0) ≡ true
unfolding scan_while
scan_while-passes zero test content cursor i h k = absurd (omega arith)
scan_while-passes (suc fuel) test content cursor i h k =
    elim (Bool-cases (ltb cursor (length content) && test (get_or content cursor 0))) [
      | inr off ↦ absurd (omega (arith, (rw off at k)))
      | inl on ↦ elim (Bool-cases (i == cursor)) [
        | inl here ↦ let same : i ≡ cursor = ground arith in rw same (ground arith)
        | inr later ↦ scan_while-passes fuel test content (cursor + 1) i (ground arith) (rw on at k)
      ]
    ]

block_end_bounds :
    (fuel : ℕ) (content : Bytes) (cursor depth : ℕ)
    → cursor ≤ length content
    → (cursor ≤ (block_end fuel content cursor depth).0)
      × ((block_end fuel content cursor depth).0 ≤ length content)
unfolding block_end
block_end_bounds zero content cursor depth h = omega arith
block_end_bounds (suc fuel) content cursor depth h = ground (
  arith,
  get_or-inside content (cursor + 1) b'*',
  get_or-inside content (cursor + 1) b'/',
  block_end_bounds fuel content (cursor + 2) (depth + 1),
  block_end_bounds fuel content (cursor + 2) (depth - 1),
  block_end_bounds fuel content (cursor + 1) depth,
)

close_comment-Moves :
    (lex after : Lexer) (start depth : ℕ)
    → Moves lex after
    → Moves lex (close_comment after start depth)
unfolding close_comment
close_comment-Moves lex after start depth m = ground arith

-- The two bytes that open a comment lie inside the content.
two_bytes-inside :
    (content : Bytes) (i d : ℕ)
    → (get_or content (i + 1) 0 == d) ≡ true
    → 0 < d
    → i + 2 ≤ length content
two_bytes-inside content i d e h =
    omega (arith, get_or-inside content (i + 1) d ((==_iff (get_or content (i + 1) 0) d).0 e) h)

-- A comment that is skipped takes at least two bytes.
pub skip_comment-Moves :
    (lex : Lexer)
    → IsInside lex
    → Moves lex (skip_comment lex).1
      × ((skip_comment lex).0 ≡ true → lex.cursor + 2 ≤ (skip_comment lex).1.cursor)
unfolding skip_comment
skip_comment-Moves lex h = elim (Bool-cases (not (get_or lex.content lex.cursor 0 == b'/'))) [
  | inl other ↦ rw other (Moves-refl lex h, λ e. cc)
  | inr slash ↦ elim (Bool-cases (get_or lex.content (lex.cursor + 1) 0 == b'/')) [
    | inl line ↦
        let room = two_bytes-inside lex.content lex.cursor b'/' line (omega arith) in
        let m = skip_while-Moves (λ c. not (c == b'\n')) (bump 2 lex) room in
        rw (slash, line) (Moves-trans (bump-Moves 2 lex room) m, λ e. m.forward)
    | inr not_line ↦ elim (Bool-cases (get_or lex.content (lex.cursor + 1) 0 == b'*')) [
      | inl block ↦
          let room = two_bytes-inside lex.content lex.cursor b'*' block (omega arith) in
          let body = bump 2 lex in
          let b = block_end_bounds (left body) lex.content body.cursor 1 room in
          let m = move_to-Moves body (block_end (left body) lex.content body.cursor 1).0 b.0 b.1 in
          let c =
            close_comment-Moves body _ lex.cursor
              (block_end (left body) lex.content body.cursor 1).1 m in
          rw (slash, not_line, block) (Moves-trans (bump-Moves 2 lex room) c, λ e. c.forward)
      | inr not_block ↦ rw (slash, not_line, not_block) (Moves-refl lex h, λ e. cc)
    ]
  ]
]

trivia_rounds-Moves : (fuel : ℕ) (lex : Lexer) → IsInside lex → Moves lex (trivia_rounds fuel lex)
unfolding trivia_rounds skip_whitespace
trivia_rounds-Moves zero lex h = Moves-refl lex h
trivia_rounds-Moves (suc fuel) lex h =
    let space = skip_while-Moves is_space lex h in
    let comment = (skip_comment-Moves (skip_whitespace lex) (Moves-IsInside space)).0 in
    let both = Moves-trans space comment in
    elim (Bool-cases (skip_comment (skip_whitespace lex)).0) [
      | inl again ↦
          rw (trivia_rounds, again)
            (Moves-trans both (trivia_rounds-Moves fuel _ (Moves-IsInside both)))
      | inr done ↦ rw (trivia_rounds, done) both
    ]

pub skip_trivia-Moves : (lex : Lexer) → IsInside lex → Moves lex (skip_trivia lex)
unfolding skip_trivia
skip_trivia-Moves lex h = trivia_rounds-Moves (left lex + 1) lex h

pub scan_while-progress :
    (fuel : ℕ) (test : ℕ → Bool) (content : Bytes) (cursor : ℕ)
    → 0 < fuel
    → cursor < length content
    → test (get_or content cursor 0) ≡ true
    → cursor < scan_while fuel test content cursor
unfolding scan_while
scan_while-progress zero test content cursor p h k = absurd (omega arith)
scan_while-progress (suc fuel) test content cursor p h k =
    ground (arith, scan_while_bounds fuel test content (cursor + 1))
