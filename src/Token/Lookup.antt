-- ===== src/Token/Lookup.antt =====
-- What the binary search of `keyword_lookup` (compiler/include/qpc/token.h) finds, against a linear
-- search of the same table.
use q.Common.{
  not, ℕ, zero, suc, ◌+◌, ◌-◌, ◌/◌, ◌≤◌, ◌<◌, Bool, true, false, ◌&&◌, List, [], ◌∷◌, Option, none,
  some, ◌≡◌, ◌≢◌, refl, sym, ◌∙◌, ◌⊎◌, inl, inr, arith, Bytes, codes, length, get_elem?, bytes_eq,
  bytes_eq_iff, ltb, if◌then◌else◌, Bool-cases, Option-cases, &&_parts,
}
use q.Token.Keyword.{
  KeywordEntry, keywords, keyword_count, same, strncmp, Probe, found, go_left, go_right, probe,
  search_table, or_identifier, keyword_lookup,
}
use q.Token.Kind.{TokenKind, kind_eq}

-- The specification: the first entry with that very text.
unfoldable pub find_keyword : Bytes → List KeywordEntry → Option TokenKind
find_keyword name [] = none
find_keyword name (e ∷ es) = if bytes_eq name e.text then some e.kind else find_keyword name es

strncmp-same :
    (name text : Bytes) → strncmp name text ≡ same → length name ≡ length text → name ≡ text
unfolding strncmp
strncmp-same [] [] h n = refl
strncmp-same [] (d ∷ text) h n = absurd (omega arith)
strncmp-same (c ∷ name) [] h n = absurd (omega arith)
strncmp-same (c ∷ name) (d ∷ text) h n = ground (arith, strncmp-same name text)

probe-found : (name : Bytes) (e : KeywordEntry) → probe name e ≡ found → name ≡ e.text
unfolding probe
probe-found name e h = ground (arith, strncmp-same name e.text)

Probe-cases : (p : Probe) → (p ≡ found) ⊎ ((p ≡ go_left) ⊎ (p ≡ go_right))
Probe-cases found = inl refl
Probe-cases go_left = inr (inl refl)
Probe-cases go_right = inr (inr refl)

get_elem?-lt : (table : List KeywordEntry) (i : ℕ) → i < length table → get_elem? table i ≢ none
get_elem?-lt [] i h e = absurd (omega arith)
get_elem?-lt (x ∷ xs) zero h e = cc
get_elem?-lt (x ∷ xs) (suc i) h e = get_elem?-lt xs i (omega arith) e

-- An entry of the table, with its place.
abbrev At : List KeywordEntry → Bytes → TokenKind → Type 0
At table name k =
    (i : ℕ) × (e : KeywordEntry) × (get_elem? table i ≡ some e) × (name ≡ e.text) × (k ≡ e.kind)

-- The two halves of a round.
abbrev half : ℕ → ℕ → ℕ
half lo top = (lo + (top - 1)) / 2

search_table-At :
    (fuel : ℕ) (table : List KeywordEntry) (name : Bytes) (lo top : ℕ) {k : TokenKind}
    → search_table fuel table name lo top ≡ some k
    → (k ≡ TokenKind.identifier) ⊎ At table name k
unfolding search_table
search_table-At zero table name lo top h = cc
search_table-At (suc fuel) table name lo top h = elim (Bool-cases (ltb lo top)) [
  | inl more ↦ elim (Option-cases (get_elem? table (half lo top))) [
    | inl gone ↦ cc (rw (search_table, more, gone) at h)
    | inr (e, here) ↦ elim (Probe-cases (probe name e)) [
      | inl stop ↦ inr (half lo top, e, here, probe-found name e stop, ground arith)
      | inr (inl left) ↦
          search_table-At fuel table name lo (half lo top)
            (rw (search_table, more, here, left) at h)
      | inr (inr right) ↦
          search_table-At fuel table name (half lo top + 1) top
            (rw (search_table, more, here, right) at h)
    ]
  ]
  | inr done ↦ inl (ground arith)
]

-- The search neither runs out of fuel nor reads beyond the table.
search_table-total :
    (fuel : ℕ) (table : List KeywordEntry) (name : Bytes) (lo top : ℕ)
    → lo ≤ top
    → top ≤ length table
    → top < lo + fuel
    → search_table fuel table name lo top ≢ none
unfolding search_table
search_table-total zero table name lo top l h k = absurd (omega arith)
search_table-total (suc fuel) table name lo top l h k = ground (
  arith,
  get_elem?-lt table (half lo top),
  search_table-total fuel table name lo (half lo top),
  search_table-total fuel table name (half lo top + 1) top,
)

pub keyword_lookup-total :
    (name : Bytes) → search_table (keyword_count + 1) keywords name 0 keyword_count ≢ none
keyword_lookup-total name =
    search_table-total (keyword_count + 1) keywords name 0 keyword_count (omega arith) (omega arith)
      (omega arith)

find_keyword-At :
    (table : List KeywordEntry) (name : Bytes) (i : ℕ) (e : KeywordEntry)
    → get_elem? table i ≡ some e
    → name ≡ e.text
    → find_keyword name table ≢ none
unfolding find_keyword
find_keyword-At [] name i e h s n = cc
find_keyword-At (x ∷ xs) name zero e h s n = ground (arith, bytes_eq_iff name x.text)
find_keyword-At (x ∷ xs) name (suc i) e h s n = ground (arith, find_keyword-At xs name i e h s)

-- What the lookup returns: the linear search's answer, but for the one entry out of order.
unfoldable pub looked_up : Bytes → TokenKind
unfolding find_keyword
looked_up name =
    if bytes_eq name (codes "alias")
    then TokenKind.identifier
    else or_identifier (find_keyword name keywords)

TokenKind-discrete : Discrete TokenKind
TokenKind-discrete = hlevel

abbrev holds {ℓ} : {P : Type ℓ} → Dec P → Bool
holds (yes _) = true
holds (no _) = false

holds_sound {ℓ} : {P : Type ℓ} (d : Dec P) → holds d ≡ true → P
holds_sound (yes p) h = p
holds_sound (no n) h = cc

all_texts : (Bytes → Bool) → List KeywordEntry → Bool
all_texts p [] = true
all_texts p (e ∷ es) = p e.text && all_texts p es

-- A check of every entry's text says all of the names that are found.
all_texts_sound :
    (p : Bytes → Bool) (table : List KeywordEntry) (name : Bytes)
    → all_texts p table ≡ true
    → find_keyword name table ≢ none
    → p name ≡ true
unfolding find_keyword all_texts
all_texts_sound p [] name h n = absurd (n refl)
all_texts_sound p (e ∷ es) name h n = elim (Bool-cases (bytes_eq name e.text)) [
  | inl this ↦
      let equal : name ≡ e.text = (bytes_eq_iff name e.text).0 this in
      rw equal (&&_parts (p e.text) (all_texts p es) h).0
  | inr other ↦
      all_texts_sound p es name (&&_parts (p e.text) (all_texts p es) h).1
        (λ gone. n (ground arith))
]

agrees : Bytes → Bool
agrees name = holds (TokenKind-discrete (keyword_lookup name) (looked_up name))

all_agree : all_texts agrees keywords ≡ true
unfolding all_texts agrees TokenKind-discrete keyword_lookup looked_up
all_agree = refl

keyword_lookup-eq_of_find :
    (name : Bytes) → find_keyword name keywords ≢ none → keyword_lookup name ≡ looked_up name
unfolding agrees
keyword_lookup-eq_of_find name h =
    holds_sound (TokenKind-discrete (keyword_lookup name) (looked_up name))
      (all_texts_sound agrees keywords name all_agree h)

or_identifier-not_found :
    (name : Bytes) (o : Option TokenKind)
    → ((k : TokenKind) → o ≡ some k → (k ≡ TokenKind.identifier) ⊎ At keywords name k)
    → find_keyword name keywords ≡ none
    → or_identifier o ≡ TokenKind.identifier
or_identifier-not_found name none h e = refl
or_identifier-not_found name (some k) h e = elim (h k refl) [
  | inl p ↦ p
  | inr (i, x, here, text, kind) ↦ absurd (find_keyword-At keywords name i x here text e)
]

keyword_lookup-not_found :
    (name : Bytes) → find_keyword name keywords ≡ none → keyword_lookup name ≡ TokenKind.identifier
unfolding keyword_lookup
keyword_lookup-not_found name e =
    or_identifier-not_found name (search_table (keyword_count + 1) keywords name 0 keyword_count)
      (λ k. search_table-At (keyword_count + 1) keywords name 0 keyword_count) e

looked_up-not_found :
    (name : Bytes) → find_keyword name keywords ≡ none → looked_up name ≡ TokenKind.identifier
unfolding looked_up
looked_up-not_found name e = rw e (ground arith)

-- For every name, `keyword_lookup` gives the kind of the table's entry with that text, and
-- TOK_IDENTIFIER where there is none; the one exception is "alias", which stands out of order in the
-- table and is taken for an identifier.
pub keyword_lookup-looked_up : (name : Bytes) → keyword_lookup name ≡ looked_up name
keyword_lookup-looked_up name = elim (Option-cases (find_keyword name keywords)) [
  | inr (k, e) ↦ keyword_lookup-eq_of_find name (λ n. cc)
  | inl e ↦ keyword_lookup-not_found name e ∙ sym (looked_up-not_found name e)
]

no_eof : List KeywordEntry → Bool
no_eof [] = true
no_eof (e ∷ es) = not (kind_eq e.kind TokenKind.eof) && no_eof es

no_eof-true : no_eof keywords ≡ true
unfolding no_eof kind_eq
no_eof-true = refl

no_eof_sound :
    (table : List KeywordEntry) (i : ℕ) (e : KeywordEntry)
    → no_eof table ≡ true
    → get_elem? table i ≡ some e
    → kind_eq e.kind TokenKind.eof ≡ false
unfolding no_eof
no_eof_sound [] i e h g = cc
no_eof_sound (x ∷ xs) zero e h g = ground arith
no_eof_sound (x ∷ xs) (suc i) e h g = no_eof_sound xs i e (ground arith) g

or_identifier-ne_eof :
    (name : Bytes) (o : Option TokenKind)
    → ((k : TokenKind) → o ≡ some k → (k ≡ TokenKind.identifier) ⊎ At keywords name k)
    → kind_eq (or_identifier o) TokenKind.eof ≡ false
unfolding kind_eq
or_identifier-ne_eof name none h = refl
or_identifier-ne_eof name (some k) h = elim (h k refl) [
  | inl p ↦ rw p
  | inr (i, x, here, text, kind) ↦ rw kind (no_eof_sound keywords i x no_eof-true here)
]

-- A word is never taken for the end of input.
pub keyword_lookup-ne_eof : (name : Bytes) → kind_eq (keyword_lookup name) TokenKind.eof ≡ false
unfolding keyword_lookup
keyword_lookup-ne_eof name =
    or_identifier-ne_eof name (search_table (keyword_count + 1) keywords name 0 keyword_count)
      (λ k. search_table-At (keyword_count + 1) keywords name 0 keyword_count)

pub kind_eq-ne : (a b : TokenKind) → kind_eq a b ≡ false → a ≢ b
unfolding kind_eq
kind_eq-ne a b h e = ground arith

pub kind_of_code_zero : (k : TokenKind) → kind_eq k TokenKind.eof ≡ true → k ≡ TokenKind.eof
unfolding kind_eq
kind_of_code_zero TokenKind.eof h = refl
kind_of_code_zero _ h = cc

pub kind_eq_eof-ne : (k : TokenKind) → k ≢ TokenKind.eof → kind_eq k TokenKind.eof ≡ false
kind_eq_eof-ne k h = elim (Bool-cases (kind_eq k TokenKind.eof)) [
  | inl e ↦ absurd (h (kind_of_code_zero k e))
  | inr e ↦ e
]
