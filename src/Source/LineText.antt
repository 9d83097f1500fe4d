-- ===== src/Source/LineText.antt =====
-- The line text of compiler/src/source.c: a line without the line breaks at its end.
use q.Common.{
  ℕ, zero, suc, ◌+◌, ◌-◌, ◌%◌, ◌≤◌, ◌<◌, Bool, true, false, ◌||◌, Bytes, u32_mod, length, get_or,
  slice, ltb, le→ltb_false, ltb→lt, ltb_false→le, ◌==◌, ==_iff, ◌≡◌, refl, ◌⊎◌, inl, inr, arith,
  Bool-cases, if◌then◌else◌,
}
use q.Source.{SourceFile, strip_end, source_get_line_text}

abbrev pub is_break : ℕ → Bool
is_break c = c == b'\n' || c == b'\r'

-- `stop` is where a line from `start` to `end` ends without its breaks.
pub record Stripped (content : Bytes) (start end stop : ℕ) : Type 0 where
  pub inside : stop ≤ end
  pub breaks : (i : ℕ) → stop ≤ i → i < end → is_break (get_or content i 0) ≡ true
  pub last : (stop ≤ start) ⊎ (is_break (get_or content (stop - 1) 0) ≡ false)

strip_end-Stripped :
    (fuel : ℕ) (content : Bytes) (start end : ℕ)
    → end ≤ start + fuel
    → Stripped content start end (strip_end fuel content start end)
unfolding strip_end
strip_end-Stripped zero content start end h = record {
  inside = omega arith;
  breaks = λ i p r. absurd (omega arith);
  last = inl (omega arith);
}
strip_end-Stripped (suc fuel) content start end h = elim (Bool-cases (ltb start end)) [
  | inr off ↦ rw off (record {
    inside = omega arith;
    breaks = λ i p r. absurd (omega arith);
    last = inl (ltb_false→le start end off);
  })
  | inl on ↦ elim (Bool-cases (is_break (get_or content (end - 1) 0))) [
    | inr plain ↦
        rw (on, plain)
          (record {
            inside = omega arith;
            breaks = λ i p r. absurd (omega arith);
            last = inr plain;
          })
    | inl cut ↦
        let some_left = ltb→lt start end on in
        let rest = strip_end-Stripped fuel content start (end - 1) (omega arith) in
        rw (on, cut)
          (record {
            inside = omega (arith, rest.inside);
            breaks = λ i p r. elim (Bool-cases (i == end - 1)) [
              | inl here ↦ rw ((==_iff i (end - 1)).0 here) cut
              | inr there ↦ rest.breaks i p (ground (arith, some_left))
            ];
            last = rest.last;
          })
  ]
]

-- Where a line starts, and where the next one or the content ends it.
abbrev pub line_start : SourceFile → ℕ → ℕ
line_start src line = get_or src.line_offsets (line - 1) 0

abbrev pub line_end : SourceFile → ℕ → ℕ
line_end src line =
    if ltb line src.line_count then get_or src.line_offsets line 0 else length src.content

-- For a line of a file below 4 GiB, the text is the bytes from the line's start up to some place; what
-- follows that place in the line is only newlines and carriage returns, and the text ends in neither,
-- unless it is empty.
pub source_get_line_text-Stripped :
    (src : SourceFile) (line : ℕ)
    → 1 ≤ line
    → line ≤ src.line_count
    → length src.content < u32_mod
    → (stop : ℕ) × (source_get_line_text src line ≡ slice src.content (line_start src line) stop)
      × Stripped src.content (line_start src line) (line_end src line) stop
unfolding source_get_line_text
source_get_line_text-Stripped src line h k small =
    let start = line_start src line in
    let end = line_end src line in
    let next : line - 1 + 1 ≡ line = omega arith in
    let whole : length src.content % u32_mod ≡ length src.content = omega arith in
    let positive : (line == 0) ≡ false = ground arith in
    (
      strip_end (end - start) src.content start end,
      rw (positive, le→ltb_false src.line_count line k, next, whole) refl,
      strip_end-Stripped (end - start) src.content start end (omega arith),
    )
