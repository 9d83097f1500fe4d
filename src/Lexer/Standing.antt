-- ===== src/Lexer/Standing.antt =====
-- Which operators and delimiters of compiler/src/lexer.c stand at a place of the source, and that the
-- switch has a case for each.
use q.Common.{
  zero, ℕ, suc, ◌+◌, ◌<◌, Bool, true, false, ◌&&◌, List, [], ◌∷◌, ◌++◌, none, some, Bytes, ◌≡◌,
  refl, ap, sym, ◌∙◌, inl, inr, arith, length, get_elem?, get_or, ◌==◌, ==_iff, Bool-cases,
  &&_parts,
}
use q.Lexer.Operator.{operator_cases, find_case}
use q.Token.Kind.{TokenKind, token_kind_to_str}

-- The kinds that the switch can return.
abbrev pub operator_kinds : List TokenKind
operator_kinds =
    TokenKind.plus ∷ TokenKind.minus ∷ TokenKind.star ∷ TokenKind.slash ∷ TokenKind.percent
    ∷ TokenKind.amp ∷ TokenKind.pipe ∷ TokenKind.caret ∷ TokenKind.tilde ∷ TokenKind.shl
    ∷ TokenKind.shr ∷ TokenKind.eq_eq ∷ TokenKind.not_eq ∷ TokenKind.lt ∷ TokenKind.gt
    ∷ TokenKind.lt_eq ∷ TokenKind.gt_eq ∷ TokenKind.eq ∷ TokenKind.plus_eq ∷ TokenKind.minus_eq
    ∷ TokenKind.star_eq ∷ TokenKind.slash_eq ∷ TokenKind.percent_eq ∷ TokenKind.amp_eq
    ∷ TokenKind.pipe_eq ∷ TokenKind.caret_eq ∷ TokenKind.shl_eq ∷ TokenKind.shr_eq ∷ TokenKind.arrow
    ∷ TokenKind.fat_arrow ∷ TokenKind.dot_dot ∷ TokenKind.dot_dot_eq ∷ TokenKind.colon_colon
    ∷ TokenKind.question ∷ TokenKind.at ∷ TokenKind.bang ∷ TokenKind.lparen ∷ TokenKind.rparen
    ∷ TokenKind.lbrace ∷ TokenKind.rbrace ∷ TokenKind.lbracket ∷ TokenKind.rbracket
    ∷ TokenKind.comma ∷ TokenKind.colon ∷ TokenKind.semicolon ∷ TokenKind.dot ∷ TokenKind.hash ∷ []

-- The bytes of a text, none of which is NUL, stand in the source from an offset on.
unfoldable pub stands_at : Bytes → ℕ → Bytes → Bool
stands_at content i [] = true
stands_at content i (b ∷ t) = get_or content i 0 == b && stands_at content (i + 1) t

pub stands_at-snoc :
    (content : Bytes) (i : ℕ) (s : Bytes) (c : ℕ)
    → stands_at content i s ≡ true
    → get_or content (i + length s) 0 ≡ c
    → stands_at content i (s ++ c ∷ []) ≡ true
unfolding stands_at
stands_at-snoc content i [] c h e = ground (arith, e)
stands_at-snoc content i (x ∷ s) c h e =
    let parts = &&_parts (get_or content i 0 == x) (stands_at content (i + 1) s) h in
    let at : i + 1 + length s ≡ i + length (x ∷ s) = omega arith in
    rw (parts.0) (stands_at-snoc content (i + 1) s c parts.1 (rw at e))

-- Of two texts at one offset, the longer goes on with the byte behind the other.
pub stands_at-longer :
    (content : Bytes) (i : ℕ) (s x : Bytes)
    → stands_at content i s ≡ true
    → stands_at content i x ≡ true
    → length s < length x
    → (t : Bytes) × (x ≡ s ++ get_or content (i + length s) 0 ∷ t)
unfolding stands_at
stands_at-longer content i [] [] h k l = absurd (omega (arith, l))
stands_at-longer content i [] (b ∷ x) h k l =
    let first =
      (==_iff (get_or content i 0) b).0
        (&&_parts (get_or content i 0 == b) (stands_at content (i + 1) x) k).0 in
    let at : i + length {A = ℕ} [] ≡ i = omega arith in
    (x, ap (λ v. v ∷ x) (sym first ∙ ap (λ n. get_or content n 0) (sym at)))
stands_at-longer content i (a ∷ s) [] h k l = absurd (omega (arith, l))
stands_at-longer content i (a ∷ s) (b ∷ x) h k l =
    let p = &&_parts (get_or content i 0 == a) (stands_at content (i + 1) s) h in
    let q = &&_parts (get_or content i 0 == b) (stands_at content (i + 1) x) k in
    let same : b ≡ a =
      sym ((==_iff (get_or content i 0) b).0 q.0) ∙ (==_iff (get_or content i 0) a).0 p.0 in
    let at : i + 1 + length s ≡ i + length (a ∷ s) = omega arith in
    let rest = stands_at-longer content (i + 1) s x p.1 q.1 (omega (arith, l)) in
    (rest.0, rw (same, rest.1, at) refl)

-- Every operator's first byte has a case.
pub opens_all : List TokenKind → Bool
opens_all [] = true
opens_all (k ∷ ks) =
    elim (token_kind_to_str k) [
      | [] ↦ false
      | b ∷ t ↦ elim (find_case b operator_cases) [ none ↦ false | some m ↦ true ]
    ]
    && opens_all ks

pub opens_all-true : opens_all operator_kinds ≡ true
unfolding opens_all token_kind_to_str find_case
opens_all-true = refl

-- No operator stands in the source at an offset.
abbrev pub NoOperator : Bytes → ℕ → Type 0
NoOperator content i =
    (n : ℕ) (k : TokenKind)
    → get_elem? operator_kinds n ≡ some k
    → stands_at content i (token_kind_to_str k) ≡ false

no_case_at :
    (content : Bytes) (i : ℕ) (text : Bytes)
    → find_case (get_or content i 0) operator_cases ≡ none
    → elim text [
      | [] ↦ false
      | b ∷ t ↦ elim (find_case b operator_cases) [ none ↦ false | some m ↦ true ]
    ]
      ≡ true
    → stands_at content i text ≡ false
unfolding stands_at
no_case_at content i [] e h = cc
no_case_at content i (b ∷ t) e h = elim (Bool-cases (get_or content i 0 == b)) [
  | inl same ↦
      let first = (==_iff (get_or content i 0) b).0 same in
      let none_b : find_case b operator_cases ≡ none = rw (← first) e in
      absurd (ground (arith, (rw none_b at h)))
  | inr other ↦ rw other refl
]

pub no_case :
    (content : Bytes) (i : ℕ) (ks : List TokenKind) (n : ℕ) (k : TokenKind)
    → find_case (get_or content i 0) operator_cases ≡ none
    → opens_all ks ≡ true
    → get_elem? ks n ≡ some k
    → stands_at content i (token_kind_to_str k) ≡ false
unfolding opens_all
no_case content i [] n k e h g = cc
no_case content i (x ∷ ks) zero k e h g =
    let same : x ≡ k = ground arith in
    rw (← same) (no_case_at content i (token_kind_to_str x) e (&&_parts _ (opens_all ks) h).0)
no_case content i (x ∷ ks) (suc n) k e h g =
    no_case content i ks n k e (&&_parts _ (opens_all ks) h).1 g
