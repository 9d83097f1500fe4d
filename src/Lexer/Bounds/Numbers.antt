-- ===== src/Lexer/Bounds/Numbers.antt =====
-- Number literals of compiler/src/lexer.c: the token and the state behind it.
use q.Common.{
  ltb→lt, ltb_false→le, get_or-beyond, ap, ℕ, zero, suc, ◌+◌, ◌*◌, ◌%◌, ◌≤◌, ◌<◌, Bool, true, false,
  not, ◌&&◌, ◌||◌, Bytes, codes, u64_mod, ◌≡◌, refl, inl, inr, arith, length, get_or, ltb, ◌==◌,
  ==_iff, if◌then◌else◌, Bool-cases,
}
use mathlib.Core.Bool.{false≢true}
use q.Lexer.Bounds.Moves.{
  Moves, IsInside, Moves-refl, Moves-trans, Moves-IsInside, bump-Moves, move_to-Moves,
  get_or-inside, skip_while-Moves,
}
use q.Lexer.Bounds.TokenIn.{TokenIn, make_token-TokenIn, make_error_token-TokenIn}
use q.Lexer.Chars.{is_digit, is_hex_digit, is_bin_digit, is_oct_digit, hex_value}
use q.Lexer.Number.{
  read_digits, decimal_value, lex_prefixed, digit_or_bar, lex_fraction, Exponent, no_exponent,
  has_exponent, bad_exponent, skip_sign, exponent_digits, lex_exponent, finish_decimal, lex_decimal,
  lex_number,
}
use q.Lexer.State.{Lexer, bump, move_to, left}
use q.Token.Kind.{TokenKind, IntBase, hex, bin, oct}

pub read_digits_bounds :
    (fuel : ℕ) (test : ℕ → Bool) (digit : ℕ → ℕ) (base : ℕ) (content : Bytes) (cursor value : ℕ)
    → cursor ≤ length content
    → (cursor ≤ (read_digits fuel test digit base content cursor value).0)
      × ((read_digits fuel test digit base content cursor value).0 ≤ length content)
unfolding read_digits
read_digits_bounds zero test digit base content cursor value h = omega arith
read_digits_bounds (suc fuel) test digit base content cursor value h =
    let c : ℕ = get_or content cursor 0 in
    ground (
      arith,
      read_digits_bounds fuel test digit base content (cursor + 1)
          (if c == b'_' then value else (value * base + digit c) % u64_mod),
    )

lex_prefixed-TokenIn :
    (lex : Lexer) (base : IntBase) (factor : ℕ) (test : ℕ → Bool) (digit : ℕ → ℕ) (message : Bytes)
    → lex.cursor + 1 < length lex.content
    → TokenIn lex (lex_prefixed lex lex.cursor base factor test digit message)
unfolding lex_prefixed
lex_prefixed-TokenIn lex base factor test digit message h =
    let body = bump 2 lex in
    let opened = bump-Moves 2 lex (omega arith) in
    elim (Bool-cases (not (test (get_or lex.content body.cursor 0)))) [
      | inl bad ↦
          rw bad (
            make_error_token-TokenIn lex body lex.cursor message opened (omega arith) (omega arith))
      | inr good ↦
          let b =
            read_digits_bounds (left body) test digit factor lex.content body.cursor 0
              (omega arith) in
          rw good (
            make_token-TokenIn TokenKind.int_literal _ lex (move_to body _) lex.cursor
              (Moves-trans opened (move_to-Moves body _ b.0 b.1)) (omega arith) (omega arith)
              (λ e. cc))
    ]

lex_fraction-Moves : (lex : Lexer) → IsInside lex → Moves lex (lex_fraction lex).1
unfolding lex_fraction
lex_fraction-Moves lex h =
    elim (Bool-cases (
      get_or lex.content lex.cursor 0 == b'.'
      && not (get_or lex.content (lex.cursor + 1) 0 == b'.'))) [
        | inl point ↦
            let here = (==_iff (get_or lex.content lex.cursor 0) b'.').0 (ground arith) in
            let room = get_or-inside lex.content lex.cursor b'.' here (omega arith) in
            rw point (
              Moves-trans (bump-Moves 1 lex (omega arith))
                (skip_while-Moves digit_or_bar (bump 1 lex) (omega arith)))
        | inr none ↦ rw none (Moves-refl lex h)
      ]

-- A byte that a class takes was read inside the content, where the class does not take NUL.
pub test-inside :
    (test : ℕ → Bool) (content : Bytes) (i : ℕ)
    → test 0 ≡ false
    → test (get_or content i 0) ≡ true
    → i < length content
test-inside test content i n h = elim (Bool-cases (ltb i (length content))) [
  | inl inside ↦ ltb→lt i (length content) inside
  | inr beyond ↦
      let nul = get_or-beyond content i 0 (ltb_false→le i (length content) beyond) in
      absurd (false≢true (cc (ap test nul)))
]

is_digit-inside :
    (content : Bytes) (i : ℕ) → is_digit (get_or content i 0) ≡ true → i < length content
is_digit-inside content i = test-inside is_digit content i (unfold is_digit in refl)

pub is_hex_digit-inside :
    (content : Bytes) (i : ℕ) → is_hex_digit (get_or content i 0) ≡ true → i < length content
is_hex_digit-inside content i = test-inside is_hex_digit content i (unfold is_hex_digit in refl)

pub byte-inside :
    (content : Bytes) (i c : ℕ) → (get_or content i 0 == c) ≡ true → 0 < c → i < length content
byte-inside content i c e h = get_or-inside content i c ((==_iff (get_or content i 0) c).0 e) h

skip_sign-Moves : (mark : Lexer) → IsInside mark → Moves mark (skip_sign mark)
unfolding skip_sign
skip_sign-Moves mark h =
    elim (Bool-cases
      (get_or mark.content mark.cursor 0 == b'+' || get_or mark.content mark.cursor 0 == b'-')) [
        | inl sign ↦
            let room : mark.cursor < length mark.content = ground (
              arith,
              byte-inside mark.content mark.cursor b'+',
              byte-inside mark.content mark.cursor b'-',
            ) in
            rw sign (bump-Moves 1 mark (omega arith))
        | inr none ↦ rw none (Moves-refl mark h)
      ]

exponent_digits-Moves : (lex : Lexer) → IsInside lex → Moves lex (exponent_digits lex).1
unfolding exponent_digits
exponent_digits-Moves lex h = elim (Bool-cases (not (is_digit (get_or lex.content lex.cursor 0)))) [
  | inl bad ↦ rw bad (Moves-refl lex h)
  | inr good ↦ rw good (skip_while-Moves digit_or_bar lex h)
]

lex_exponent-Moves : (lex : Lexer) → IsInside lex → Moves lex (lex_exponent lex).1
unfolding lex_exponent
lex_exponent-Moves lex h =
    elim (Bool-cases
      (get_or lex.content lex.cursor 0 == b'e' || get_or lex.content lex.cursor 0 == b'E')) [
        | inr none ↦ rw none (Moves-refl lex h)
        | inl mark ↦
            let room : lex.cursor < length lex.content = ground (
              arith,
              byte-inside lex.content lex.cursor b'e',
              byte-inside lex.content lex.cursor b'E',
            ) in
            let first = bump-Moves 1 lex (omega arith) in
            let sign = skip_sign-Moves (bump 1 lex) (omega arith) in
            rw mark (
              Moves-trans (Moves-trans first sign)
                (exponent_digits-Moves (skip_sign (bump 1 lex)) (Moves-IsInside sign)))
      ]

read_digits-progress :
    (fuel : ℕ) (test : ℕ → Bool) (digit : ℕ → ℕ) (base : ℕ) (content : Bytes) (cursor value : ℕ)
    → 0 < fuel
    → cursor < length content
    → test (get_or content cursor 0) ≡ true
    → cursor < (read_digits fuel test digit base content cursor value).0
unfolding read_digits
read_digits-progress zero test digit base content cursor value p h k = absurd (omega arith)
read_digits-progress (suc fuel) test digit base content cursor value p h k =
    let c : ℕ = get_or content cursor 0 in
    ground (
      arith,
      read_digits_bounds fuel test digit base content (cursor + 1)
          (if c == b'_' then value else (value * base + digit c) % u64_mod),
    )

finish_decimal-TokenIn :
    (lex after : Lexer) (value : ℕ) (fraction : Bool) (e : Exponent)
    → Moves lex after
    → lex.cursor < after.cursor
    → TokenIn lex (finish_decimal lex.cursor value fraction e after)
unfolding finish_decimal
finish_decimal-TokenIn lex after value fraction bad_exponent m h =
    make_error_token-TokenIn lex after lex.cursor (codes "expected digit in exponent") m
      (omega arith) h
finish_decimal-TokenIn lex after value fraction has_exponent m h =
    make_token-TokenIn TokenKind.float_literal _ lex after lex.cursor m (omega arith) h (λ e. cc)
finish_decimal-TokenIn lex after value true no_exponent m h =
    make_token-TokenIn TokenKind.float_literal _ lex after lex.cursor m (omega arith) h (λ e. cc)
finish_decimal-TokenIn lex after value false no_exponent m h =
    make_token-TokenIn TokenKind.int_literal _ lex after lex.cursor m (omega arith) h (λ e. cc)

lex_decimal-TokenIn :
    (lex : Lexer)
    → lex.cursor < length lex.content
    → is_digit (get_or lex.content lex.cursor 0) ≡ true
    → TokenIn lex (lex_decimal lex)
unfolding lex_decimal
lex_decimal-TokenIn lex h d =
    let r = read_digits (left lex) is_digit decimal_value 10 lex.content lex.cursor 0 in
    let b =
      read_digits_bounds (left lex) is_digit decimal_value 10 lex.content lex.cursor 0
        (omega arith) in
    let p =
      read_digits-progress (left lex) is_digit decimal_value 10 lex.content lex.cursor 0
        (omega arith) h d in
    let digits = move_to-Moves lex r.0 b.0 b.1 in
    let fraction = lex_fraction-Moves (move_to lex r.0) b.1 in
    let exponent =
      lex_exponent-Moves (lex_fraction (move_to lex r.0)).1 (Moves-IsInside fraction) in
    finish_decimal-TokenIn lex (lex_exponent (lex_fraction (move_to lex r.0)).1).1 r.1
      (lex_fraction (move_to lex r.0)).0 (lex_exponent (lex_fraction (move_to lex r.0)).1).0
      (Moves-trans digits (Moves-trans fraction exponent))
      (omega (arith, fraction.forward, exponent.forward))

pub lex_number-TokenIn :
    (lex : Lexer)
    → lex.cursor < length lex.content
    → is_digit (get_or lex.content lex.cursor 0) ≡ true
    → TokenIn lex (lex_number lex)
unfolding lex_number
lex_number-TokenIn lex h d =
    let next : ℕ = get_or lex.content (lex.cursor + 1) 0 in
    elim (Bool-cases
      (get_or lex.content lex.cursor 0 == b'0' && ltb (lex.cursor + 1) (length lex.content))) [
        | inr plain ↦ rw plain (lex_decimal-TokenIn lex h d)
        | inl zero_first ↦
            let room : lex.cursor + 1 < length lex.content = ground arith in
            elim (Bool-cases (next == b'x' || next == b'X')) [
              | inl x ↦
                  rw (zero_first, x) (lex_prefixed-TokenIn lex hex 16 is_hex_digit hex_value _ room)
              | inr not_x ↦ elim (Bool-cases (next == b'b' || next == b'B')) [
                | inl b ↦
                    rw (zero_first, not_x, b)
                      (lex_prefixed-TokenIn lex bin 2 is_bin_digit decimal_value _ room)
                | inr not_b ↦ elim (Bool-cases (next == b'o' || next == b'O')) [
                  | inl o ↦
                      rw (zero_first, not_x, not_b, o)
                        (lex_prefixed-TokenIn lex oct 8 is_oct_digit decimal_value _ room)
                  | inr not_o ↦ rw (zero_first, not_x, not_b, not_o) (lex_decimal-TokenIn lex h d)
                ]
              ]
            ]
      ]
