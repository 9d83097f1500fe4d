-- ===== src/Lexer/Spelling.antt =====
-- Operators and delimiters of compiler/src/lexer.c: the bytes of the token are the text of its kind,
-- and no longer operator stands there.
use q.Common.{
  ◌⊎◌, zero, ℕ, suc, ◌+◌, ◌≤◌, ◌<◌, Bool, true, false, ◌&&◌, ◌||◌, List, [], ◌∷◌, ◌++◌, Option,
  none, some, Bytes, ◌≡◌, ◌≢◌, refl, ap, sym, length-append, leb, leb→le, leb_false→lt, ◌∙◌, inl,
  inr, arith, length, get_elem?, get_or, slice, slice-snoc, slice_empty, bytes_eq, bytes_eq_iff,
  ltb, lt→ltb, ◌==◌, ==_iff, if◌then◌else◌, Bool-cases, &&_parts,
}
use q.Lexer.Bounds.Moves.{get_or-inside}
use q.Lexer.Operator.{Munch, token, on, operator_cases, find_case, munch, run_case, lex_operator}
use q.Lexer.Standing.{
  operator_kinds, stands_at, stands_at-snoc, stands_at-longer, opens_all-true, NoOperator, no_case,
}
use q.Lexer.State.{Lexer, Token, bump, no_payload, make_token, make_error_token}
use q.Token.Kind.{TokenKind, token_kind_to_str}

-- The byte with which the second text, which starts with the first, goes on.
abbrev extension : Bytes → Bytes → Option ℕ
extension [] [] = none
extension [] (b ∷ t) = some b
extension (x ∷ s) [] = none
extension (x ∷ s) (y ∷ t) = if x == y then extension s t else none

extension-append : (s : Bytes) (b : ℕ) (t : Bytes) → extension s (s ++ b ∷ t) ≡ some b
extension-append [] b t = refl
extension-append (x ∷ s) b t = ground (arith, extension-append s b t)

has_byte : ℕ → List ℕ → Bool
has_byte b [] = false
has_byte b (c ∷ cs) = b == c || has_byte b cs

-- Every operator that starts with `s` and is longer goes on with a byte among `tried`.
tries_all : Bytes → List ℕ → List TokenKind → Bool
tries_all s tried [] = true
tries_all s tried (k ∷ ks) =
    elim (extension s (token_kind_to_str k)) [ none ↦ true | some b ↦ has_byte b tried ]
    && tries_all s tried ks

-- The tree spells its kinds, from the bytes `s` read and the bytes `tried` in vain.
spells : Bytes → List ℕ → Munch → Bool
unfolding tries_all has_byte
spells s tried (token k) = bytes_eq (token_kind_to_str k) s && tries_all s tried operator_kinds
spells s tried (on c a b) = ltb 0 c && spells (s ++ c ∷ []) [] a && spells s (c ∷ tried) b

all_spell : List (ℕ × Munch) → Bool
unfolding spells
all_spell [] = true
all_spell ((c, m) ∷ rows) = spells (c ∷ []) [] m && all_spell rows

all_spell-true : all_spell operator_cases ≡ true
unfolding all_spell token_kind_to_str
all_spell-true = refl

tries_all_sound :
    (s : Bytes) (tried : List ℕ) (ks : List TokenKind) (i : ℕ) (k : TokenKind) (b : ℕ) (t : Bytes)
    → tries_all s tried ks ≡ true
    → get_elem? ks i ≡ some k
    → has_byte b tried ≡ false
    → token_kind_to_str k ≢ s ++ b ∷ t
unfolding tries_all
tries_all_sound s tried [] i k b t h g n e = cc
tries_all_sound s tried (x ∷ ks) zero k b t h g n e =
    let same : x ≡ k = ground arith in
    let longer : extension s (token_kind_to_str x) ≡ some b =
      rw (same, e) (extension-append s b t) in
    ground arith
tries_all_sound s tried (x ∷ ks) (suc i) k b t h g n e =
    tries_all_sound s tried ks i k b t (ground arith) g n e

-- What is said of a token of the switch: it starts at the cursor, its bytes are its kind's text, and no
-- operator that stands at the cursor is longer.
pub record IsLongest (lex : Lexer) (tok : Token) : Type 0 where
  pub starts : tok.span.start ≡ lex.cursor
  pub spelled : slice lex.content tok.span.start tok.span.end ≡ token_kind_to_str tok.kind
  pub longest :
      (i : ℕ) (k : TokenKind)
      → get_elem? operator_kinds i ≡ some k
      → stands_at lex.content lex.cursor (token_kind_to_str k) ≡ true
      → length (token_kind_to_str k) ≤ length (token_kind_to_str tok.kind)

-- What `munch` has read: the bytes `s` from the cursor of `from` on.
record HasRead (from : Lexer) (s : Bytes) (lex : Lexer) : Type 0 where
  content : lex.content ≡ from.content
  cursor : lex.cursor ≡ from.cursor + length s
  bytes : slice from.content from.cursor lex.cursor ≡ s
  stands : stands_at from.content from.cursor s ≡ true

read_more :
    (from : Lexer) (s : Bytes) (c : ℕ) (lex : Lexer)
    → HasRead from s lex
    → get_or from.content lex.cursor 0 ≡ c
    → 0 < c
    → HasRead from (s ++ c ∷ []) (bump 1 lex)
read_more from s c lex r e h = record {
  content = r.content;
  cursor = rw length-append (omega (arith, r.cursor));
  bytes =
      slice-snoc from.content from.cursor lex.cursor (omega (arith, r.cursor))
        (get_or-inside from.content lex.cursor c e h)
      ∙ rw (r.bytes, e) refl;
  stands = stands_at-snoc from.content from.cursor s c r.stands (rw (← r.cursor) e);
}

token-IsLongest :
    (from : Lexer) (s : Bytes) (tried : List ℕ) (k : TokenKind) (lex : Lexer)
    → token_kind_to_str k ≡ s
    → tries_all s tried operator_kinds ≡ true
    → HasRead from s lex
    → has_byte (get_or from.content lex.cursor 0) tried ≡ false
    → IsLongest from (make_token k no_payload lex from.cursor)
token-IsLongest from s tried k lex text all r n = record {
  starts = refl;
  spelled = r.bytes ∙ sym text;
  longest = λ i x g here.
      elim (Bool-cases (leb (length (token_kind_to_str x)) (length (token_kind_to_str k)))) [
        | inl h ↦ leb→le (length (token_kind_to_str x)) (length (token_kind_to_str k)) h
        | inr h ↦
            let longer =
              leb_false→lt (length (token_kind_to_str x)) (length (token_kind_to_str k)) h in
            let more =
              stands_at-longer from.content from.cursor s (token_kind_to_str x) r.stands here
                (omega (arith, longer, ap length text)) in
            absurd (
              tries_all_sound s tried operator_kinds i x (get_or from.content lex.cursor 0) more.0
                all g n (rw r.cursor more.1))
      ];
}

munch-IsLongest :
    (from : Lexer) (s : Bytes) (tried : List ℕ) (m : Munch) (lex : Lexer)
    → spells s tried m ≡ true
    → HasRead from s lex
    → has_byte (get_or from.content lex.cursor 0) tried ≡ false
    → IsLongest from (munch from.cursor m lex).0
unfolding munch spells
munch-IsLongest from s tried (token k) lex h r n =
    let parts = &&_parts (bytes_eq (token_kind_to_str k) s) (tries_all s tried operator_kinds) h in
    token-IsLongest from s tried k lex ((bytes_eq_iff (token_kind_to_str k) s).0 parts.0) parts.1 r
      n
munch-IsLongest from s tried (on c a b) lex h r n =
    elim (Bool-cases (get_or lex.content lex.cursor 0 == c)) [
      | inl matched ↦
          let this = (==_iff (get_or lex.content lex.cursor 0) c).0 matched in
          rw (munch, matched)
            (munch-IsLongest from (s ++ c ∷ []) [] a (bump 1 lex) (ground arith)
              (read_more from s c lex r (rw r.content at this) (ground arith))
              (unfold has_byte in refl))
      | inr other ↦
          rw (munch, other)
            (munch-IsLongest from s (c ∷ tried) b lex (ground arith) r
              (unfold has_byte in ground (arith, (rw r.content at other), n)))
    ]

find_case-spells :
    (c : ℕ) (rows : List (ℕ × Munch)) (m : Munch)
    → all_spell rows ≡ true
    → find_case c rows ≡ some m
    → spells (c ∷ []) [] m ≡ true
unfolding find_case all_spell
find_case-spells c [] m h e = cc
find_case-spells c ((d, x) ∷ rows) m h e = elim (Bool-cases (c == d)) [
  | inl same ↦
      let first : c ≡ d = (==_iff c d).0 same in
      let tree : x ≡ m = ground arith in
      rw (first, ← tree) (&&_parts (spells (d ∷ []) [] x) (all_spell rows) h).0
  | inr other ↦
      find_case-spells c rows m (&&_parts (spells (d ∷ []) [] x) (all_spell rows) h).1
        (rw other at e)
]

run_case-IsLongest :
    (lex : Lexer) (o : Option Munch)
    → lex.cursor < length lex.content
    → find_case (get_or lex.content lex.cursor 0) operator_cases ≡ o
    → IsLongest lex (run_case lex.cursor o (bump 1 lex)).0
      ⊎ (NoOperator lex.content lex.cursor
          × ((run_case lex.cursor o (bump 1 lex)).0.kind ≡ TokenKind.error))
unfolding run_case make_error_token
run_case-IsLongest lex none h e =
    inr ((λ n k g. no_case lex.content lex.cursor operator_kinds n k e opens_all-true g), refl)
run_case-IsLongest lex (some m) h e =
    let c : ℕ = get_or lex.content lex.cursor 0 in
    let first : slice lex.content lex.cursor (lex.cursor + 1) ≡ c ∷ [] =
      slice-snoc lex.content lex.cursor lex.cursor (omega arith) h
      ∙ rw (slice_empty lex.content lex.cursor) in
    inl (
      munch-IsLongest lex (c ∷ []) [] m (bump 1 lex)
        (find_case-spells c operator_cases m all_spell-true e)
        (record {
          content = refl;
          cursor = omega arith;
          bytes = first;
          stands = unfold stands_at in ground arith;
        })
        (unfold has_byte in refl))

-- At every byte of a source, `lex_operator` either returns a token that starts there, whose bytes are
-- the text that `token_kind_to_str` gives for its kind, and that is the longest of the operators and
-- delimiters that stand there; or none of them stands there, and it returns an error token.
pub lex_operator-IsLongest :
    (lex : Lexer)
    → lex.cursor < length lex.content
    → IsLongest lex (lex_operator lex).0
      ⊎ (NoOperator lex.content lex.cursor × ((lex_operator lex).0.kind ≡ TokenKind.error))
unfolding lex_operator
lex_operator-IsLongest lex h =
    rw (lt→ltb lex.cursor (length lex.content) h)
      (run_case-IsLongest lex (find_case (get_or lex.content lex.cursor 0) operator_cases) h refl)
