-- ===== src/Lexer/Value.antt =====
-- The value of a prefixed integer literal of compiler/src/lexer.c against the number that its digits
-- spell.
use q.Common.{
  ℕ, zero, suc, ◌+◌, ◌-◌, ◌*◌, ◌%◌, ◌≤◌, ◌<◌, Bool, true, ◌&&◌, [], ◌∷◌, Bytes, codes, u64_mod,
  length, get_or, drop, drop-get_or, drop-beyond, ltb, ltb→lt, lt→ltb, leb, ltb_false→le, ◌==◌, ◌≡◌,
  refl, ap, inl, inr, arith, Bool-cases, if◌then◌else◌,
}
use q.Lexer.Bounds.Moves.{get_or-inside}
use q.Lexer.Chars.{is_digit, is_hex_digit, is_bin_digit, is_oct_digit, hex_value}
use q.Lexer.Number.{read_digits, decimal_value, lex_prefixed, lex_number}
use q.Lexer.State.{Lexer, int_lit, bump, left, peek, peek_at}
use q.Token.Kind.{IntBase, dec, hex, bin, oct}

-- The letters behind the zero of a literal, and the bases that they announce.
pub data Announces : ℕ → IntBase → Type 0 where
  small_x : Announces b'x' hex
  capital_x : Announces b'X' hex
  small_b : Announces b'b' bin
  capital_b : Announces b'B' bin
  small_o : Announces b'o' oct
  capital_o : Announces b'O' oct

unfoldable pub radix : IntBase → ℕ
radix dec = 10
radix hex = 16
radix bin = 2
radix oct = 8

-- The place of a byte in a text, or the text's length.
unfoldable pub index_of : ℕ → Bytes → ℕ
index_of c [] = 0
index_of c (x ∷ xs) = if c == x then 0 else suc (index_of c xs)

-- The value of a digit in any base up to 16, and 16 of any other byte.
unfoldable pub digit_value : ℕ → ℕ
unfolding index_of
digit_value c =
    let i : ℕ = index_of c (codes "0123456789abcdef") in
    if ltb i 16 then i else index_of c (codes "0123456789ABCDEF")

-- The number, of any size, that digits of a base spell, after `value`; a bar between digits counts for
-- nothing, and any other byte ends the number.
unfoldable pub numeral : ℕ → Bytes → ℕ → ℕ
numeral base [] value = value
numeral base (c ∷ cs) value =
    if c == b'_'
    then numeral base cs value
    else if ltb (digit_value c) base
    then numeral base cs (value * base + digit_value c)
    else value

-- A test and a value that are those of a base's digits.
record Reads (b : IntBase) (test : ℕ → Bool) (digit : ℕ → ℕ) : Type 0 where
  test_is : (c : ℕ) → ltb (digit_value c) (radix b) ≡ test c
  digit_is : (c : ℕ) → test c ≡ true → digit c ≡ digit_value c

index_of-small :
    (c : ℕ)
    → index_of c (codes "0123456789abcdef") ≡ (
        if leb b'0' c && leb c b'9'
        then c - b'0'
        else if leb b'a' c && leb c b'f'
        then c - b'a' + 10
        else 16)
unfolding index_of
index_of-small c = ground arith

index_of-capital :
    (c : ℕ)
    → index_of c (codes "0123456789ABCDEF") ≡ (
        if leb b'0' c && leb c b'9'
        then c - b'0'
        else if leb b'A' c && leb c b'F'
        then c - b'A' + 10
        else 16)
unfolding index_of
index_of-capital c = ground arith

hex_value-digit_value : (c : ℕ) → is_hex_digit c ≡ true → hex_value c ≡ digit_value c
unfolding is_hex_digit hex_value digit_value is_digit
hex_value-digit_value c h = rw (index_of-small c, index_of-capital c) (ground arith)

hex-Reads : Reads hex is_hex_digit hex_value
unfolding is_hex_digit digit_value index_of radix is_digit
hex-Reads = record { test_is = λ c. ground arith; digit_is = hex_value-digit_value }

bin-Reads : Reads bin is_bin_digit decimal_value
unfolding is_bin_digit digit_value index_of radix
bin-Reads = record { test_is = λ c. ground arith; digit_is = λ c h. ground arith }

oct-Reads : Reads oct is_oct_digit decimal_value
unfolding is_oct_digit digit_value index_of radix
oct-Reads = record { test_is = λ c. ground arith; digit_is = λ c h. ground arith }

step_mod :
    (b : IntBase) (w d : ℕ) → (w % u64_mod * radix b + d) % u64_mod ≡ (w * radix b + d) % u64_mod
unfolding radix
step_mod dec w d = omega arith
step_mod hex w d = omega arith
step_mod bin w d = omega arith
step_mod oct w d = omega arith

module _ {b : IntBase} {test : ℕ → Bool} {digit : ℕ → ℕ} (reads : Reads b test digit) where
  read_digits-numeral :
      (fuel : ℕ) (content : Bytes) (cursor w : ℕ)
      → length content ≤ cursor + fuel
      → (read_digits fuel test digit (radix b) content cursor (w % u64_mod)).1
        ≡ numeral (radix b) (drop cursor content) w % u64_mod
  unfolding read_digits numeral
  read_digits-numeral zero content cursor w h = rw (drop-beyond content cursor (omega arith)) refl
  read_digits-numeral (suc fuel) content cursor w h =
      elim (Bool-cases (ltb cursor (length content))) [
        | inr e ↦ rw (e, drop-beyond content cursor (ltb_false→le cursor (length content) e)) refl
        | inl e ↦
            let c = get_or content cursor 0 in
            let split = drop-get_or content cursor 0 (ltb→lt cursor (length content) e) in
            let same = reads.test_is c in
            elim (Bool-cases (c == b'_')) [
              | inl bar ↦ elim (Bool-cases (test c)) [
                | inl on ↦
                    rw (e, split, bar, on)
                      (read_digits-numeral fuel content (cursor + 1) w (omega arith))
                | inr off ↦
                    rw (e, split, bar, off)
                      (read_digits-numeral fuel content (cursor + 1) w (omega arith))
              ]
              | inr no_bar ↦ elim (Bool-cases (test c)) [
                | inl on ↦
                    rw
                      (
                        e,
                        split,
                        no_bar,
                        same,
                        on,
                        reads.digit_is c on,
                        step_mod b w (digit_value c),
                      )
                      (read_digits-numeral fuel content (cursor + 1) (w * radix b + digit_value c)
                        (omega arith))
                | inr off ↦ rw (e, split, no_bar, same, off) refl
              ]
            ]
      ]

  lex_prefixed-numeral :
      (lex : Lexer) (start : ℕ) (message : Bytes)
      → digit_value (get_or lex.content (lex.cursor + 2) 0) < radix b
      → (lex_prefixed lex start b (radix b) test digit message).0.payload
        ≡ int_lit (numeral (radix b) (drop (lex.cursor + 2) lex.content) 0 % u64_mod) b
  unfolding lex_prefixed peek
  lex_prefixed-numeral lex start message h =
      let body = bump 2 lex in
      let first : test (get_or lex.content (lex.cursor + 2) 0) ≡ true =
        rw (← reads.test_is (get_or lex.content (lex.cursor + 2) 0)) (ground arith) in
      let same = read_digits-numeral (left body) body.content body.cursor 0 (omega arith) in
      rw first (ap (λ v. int_lit v b) same)

prefix_room :
    (lex : Lexer) (letter : ℕ)
    → get_or lex.content (lex.cursor + 1) 0 ≡ letter
    → 0 < letter
    → ltb (lex.cursor + 1) (length lex.content) ≡ true
prefix_room lex letter n h =
    lt→ltb (lex.cursor + 1) (length lex.content)
      (get_or-inside lex.content (lex.cursor + 1) letter n h)

-- A literal that starts with a zero and a base's letter, small or capital, and has a digit of that base
-- behind them, holds the number that its digits spell in base 16, 2 or 8, bars left out, modulo 2 ^ 64.
pub lex_number-numeral :
    (b : IntBase) (letter : ℕ) (lex : Lexer)
    → Announces letter b
    → get_or lex.content lex.cursor 0 ≡ b'0'
    → get_or lex.content (lex.cursor + 1) 0 ≡ letter
    → digit_value (get_or lex.content (lex.cursor + 2) 0) < radix b
    → (lex_number lex).0.payload
      ≡ int_lit (numeral (radix b) (drop (lex.cursor + 2) lex.content) 0 % u64_mod) b
unfolding lex_number radix peek peek_at
lex_number-numeral b letter lex small_x z n h =
    rw (z, n, prefix_room lex _ n (omega arith)) (lex_prefixed-numeral hex-Reads lex lex.cursor _ h)
lex_number-numeral b letter lex capital_x z n h =
    rw (z, n, prefix_room lex _ n (omega arith)) (lex_prefixed-numeral hex-Reads lex lex.cursor _ h)
lex_number-numeral b letter lex small_b z n h =
    rw (z, n, prefix_room lex _ n (omega arith)) (lex_prefixed-numeral bin-Reads lex lex.cursor _ h)
lex_number-numeral b letter lex capital_b z n h =
    rw (z, n, prefix_room lex _ n (omega arith)) (lex_prefixed-numeral bin-Reads lex lex.cursor _ h)
lex_number-numeral b letter lex small_o z n h =
    rw (z, n, prefix_room lex _ n (omega arith)) (lex_prefixed-numeral oct-Reads lex lex.cursor _ h)
lex_number-numeral b letter lex capital_o z n h =
    rw (z, n, prefix_room lex _ n (omega arith)) (lex_prefixed-numeral oct-Reads lex lex.cursor _ h)
