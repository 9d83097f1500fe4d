-- ===== src/Parser/Returns.antt =====
-- What holds of a routine's result, when it returns one (compiler/src/parser.c).
use q.Common.{
  ℕ, zero, suc, List, ◌∷◌, true, ◌≡◌, refl, subst, Bool-cases, length, ◌⊎◌, inl, inr, arith,
}
use q.Parser.Loops.{closes, capped_list}
use q.Parser.State.{Parser, Outcome, done, overrun, no_fuel, Parse, bind}
use q.Token.Kind.{TokenKind}

-- A property of what a routine returns, when it returns.
abbrev pub OnDone : {A : Type 0} → (A → Parser → Type 0) → Outcome A → Type 0
OnDone P (done a q) = P a q
OnDone P overrun = Unit
OnDone P no_fuel = Unit

pub bind-OnDone :
    {A B : Type 0} (P : B → Parser → Type 0) (o : Outcome A) (f : A → Parse B)
    → ((a : A) (q : Parser) → o ≡ done a q → OnDone P (f a q))
    → OnDone P (bind o f)
bind-OnDone P (done a q) f h = h a q refl
bind-OnDone P overrun f h = tt
bind-OnDone P no_fuel f h = tt

module _ {A : Type 0} where
  pub from-OnDone :
      (P : A → Parser → Type 0) {o : Outcome A} {a : A} {q : Parser}
      → OnDone P o
      → o ≡ done a q
      → P a q
  from-OnDone P h e = subst (OnDone P) e h

module _ {A : Type 0} where
  abbrev pub Filled : ℕ → TokenKind → List A → Parser → Type 0
  Filled room close xs q = (closes close q ≡ true) ⊎ (length xs ≡ room)

  one_more :
      (room : ℕ) (close : TokenKind) (x : A) (xs : List A) (q : Parser)
      → Filled room close xs q
      → Filled (suc room) close (x ∷ xs) q
  one_more room close x xs q (inl at) = inl at
  one_more room close x xs q (inr full) = inr (omega (arith, full))

  -- The loop of `parse_block` ends at its token, at the end of the input, or with its array full.
  pub capped_list-OnDone :
      (room : ℕ) (close : TokenKind) (elem : Parse A) (p : Parser)
      → OnDone (Filled room close) (capped_list room close elem p)
  unfolding capped_list
  capped_list-OnDone zero close elem p = inr refl
  capped_list-OnDone (suc room) close elem p = elim (Bool-cases (closes close p)) [
    | inl e ↦ rw e (inl e)
    | inr e ↦ rw e (
        bind-OnDone _ (elem p) _ λ x q _.
          let o = capped_list room close elem q in
          bind-OnDone _ o _ λ xs s y.
            one_more room close x xs s
              (from-OnDone (Filled room close) {o = o} (capped_list-OnDone room close elem q) y))
  ]
