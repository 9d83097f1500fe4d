-- ===== src/Source/Offsets.antt =====
-- The line table of compiler/src/source.c against the places that follow a newline.
use q.Common.{
  ℕ, suc, ◌+◌, ◌%◌, ◌≤◌, ◌<◌, List, [], ◌∷◌, ◌++◌, ◌≡◌, refl, sym, ap, ◌∙◌, arith, Bytes, u32_mod,
  u32_inc, length, set, replicate, ◌==◌, if◌then◌else◌, length-append, append_assoc, Bool-cases,
  inl, inr, lt→ltb,
}
use q.Source.{count_lines, fill_offsets, build_line_offsets}

-- How many newlines some bytes hold.
abbrev pub newlines : Bytes → ℕ
newlines [] = 0
newlines (c ∷ cs) = if c == b'\n' then suc (newlines cs) else newlines cs

-- The offsets that follow a newline, for bytes that start at offset `i`.
abbrev pub starts_from : ℕ → Bytes → List ℕ
starts_from i [] = []
starts_from i (c ∷ cs) =
    if c == b'\n' then (i + 1) ∷ starts_from (i + 1) cs else starts_from (i + 1) cs

pub newlines-le : (cs : Bytes) → newlines cs ≤ length cs
newlines-le [] = omega arith
newlines-le (c ∷ cs) = ground (arith, newlines-le cs)

pub length-starts_from : (i : ℕ) (cs : Bytes) → length (starts_from i cs) ≡ newlines cs
length-starts_from i [] = refl
length-starts_from i (c ∷ cs) = ground (arith, length-starts_from (i + 1) cs)

count_lines-newlines :
    (n : ℕ) (cs : Bytes) → n + length cs < u32_mod → count_lines n cs ≡ n + newlines cs
unfolding count_lines
count_lines-newlines n [] h = omega arith
count_lines-newlines n (c ∷ cs) h =
    ground (arith, count_lines-newlines n cs, count_lines-newlines ((n + 1) % u32_mod) cs)

-- Overwriting the zeros after a filled part.
set-replicate :
    (done : List ℕ) (n v : ℕ)
    → set (done ++ replicate (suc n) 0) (length done) v ≡ (done ++ (v ∷ [])) ++ replicate n 0
set-replicate [] n v = refl
set-replicate (x ∷ done) n v = ap (◌∷◌ x) (set-replicate done n v)

fill_offsets-starts :
    (cs : Bytes) (i line count : ℕ) (done table : List ℕ)
    → i + length cs < u32_mod
    → count < u32_mod
    → line ≡ length done
    → count ≡ line + newlines cs
    → table ≡ done ++ replicate (newlines cs) 0
    → fill_offsets cs i line count table ≡ done ++ starts_from i cs
unfolding fill_offsets
fill_offsets-starts [] i line count done table h k l n t = t
fill_offsets-starts (c ∷ cs) i line count done table h k l n t = elim (Bool-cases (c == b'\n')) [
  | inl new ↦
      let room : count ≡ line + suc (newlines cs) = ground arith in
      let table' : table ≡ done ++ replicate (suc (newlines cs)) 0 = ground arith in
      let set' : set table line (i + 1) ≡ (done ++ (i + 1) ∷ []) ++ replicate (newlines cs) 0 =
        rw (table', l) (set-replicate done (newlines cs) (i + 1)) in
      let longer : length (done ++ (i + 1) ∷ []) ≡ line + 1 = rw length-append (omega arith) in
      let ih =
        fill_offsets-starts cs (i + 1) (line + 1) count (done ++ (i + 1) ∷ [])
          (set table line (i + 1)) (omega arith) k (sym longer) (omega arith) set' in
      let small_i : (i + 1) % u32_mod ≡ i + 1 = omega arith in
      let small_line : u32_inc line ≡ line + 1 = omega arith in
      rw (new, lt→ltb line count (omega arith), small_i, small_line)
        (ih ∙ append_assoc done ((i + 1) ∷ []) (starts_from (i + 1) cs))
  | inr old ↦
      let same_count : count ≡ line + newlines cs = ground arith in
      let table' : table ≡ done ++ replicate (newlines cs) 0 = ground arith in
      rw old
        (fill_offsets-starts cs (i + 1) line count done table (omega arith) k l same_count table')
]

-- For a file below 4 GiB the table holds offset 0 and then each offset that follows a newline, in
-- order, and the line count is the table's length.
pub build_line_offsets-starts :
    (content : Bytes)
    → length content + 1 < u32_mod
    → build_line_offsets content ≡ (0 ∷ starts_from 0 content, suc (newlines content))
unfolding build_line_offsets
build_line_offsets-starts content h =
    let few = newlines-le content in
    let counted : count_lines 1 content ≡ suc (newlines content) =
      omega (arith, count_lines-newlines 1 content) in
    rw counted (
      ap (λ (t : List ℕ). (t, suc (newlines content)))
        (fill_offsets-starts content 0 1 (suc (newlines content)) (0 ∷ [])
          (0 ∷ replicate (newlines content) 0) (omega arith) (omega arith) refl (omega arith) refl))
