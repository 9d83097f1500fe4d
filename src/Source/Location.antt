-- ===== src/Source/Location.antt =====
-- `source_get_loc` of compiler/src/source.c against a count of the newlines before the offset.
use q.Common.{
  ◌∙◌, sym, ap, ℕ, zero, suc, ◌+◌, ◌-◌, ◌/◌, ◌%◌, ◌^◌, ◌≤◌, ◌<◌, ◌&&◌, List, [], ◌∷◌, ◌≡◌, ◌≢◌,
  some, inl, inr, arith, Bytes, u32_mod, u32_inc, length, get_or, take, ltb, leb, ◌==◌,
  if◌then◌else◌, Bool-cases,
}
use q.Source.Offsets.{newlines, starts_from, newlines-le, build_line_offsets-starts}
use q.Source.{SourceFile, SourceLoc, find_line, source_get_loc, build_line_offsets}

-- A place in a table: the last line that starts at or before the offset, and the column in it.
pub record Located (offsets : List ℕ) (count offset : ℕ) (loc : SourceLoc) : Type 0 where
  pub from_one : 1 ≤ loc.line
  pub in_table : loc.line ≤ count
  pub column : get_or offsets (loc.line - 1) 0 + loc.col ≡ offset + 1
  pub reached : get_or offsets (loc.line - 1) 0 ≤ offset
  pub next_not_reached : loc.line < count → offset < get_or offsets loc.line 0

module _ (offsets : List ℕ) (count offset : ℕ) where
  find_line-Located :
      (fuel lo hi : ℕ)
      → count < 2 ^ 31
      → offset + 1 < u32_mod
      → hi < lo + fuel
      → lo ≤ hi
      → hi < count
      → get_or offsets lo 0 ≤ offset
      → (hi + 1 < count → offset < get_or offsets (hi + 1) 0)
      → (loc : SourceLoc) × (find_line fuel offsets count offset lo hi ≡ some loc)
        × Located offsets count offset loc
  unfolding find_line
  find_line-Located zero lo hi small fits fuel order below low high = absurd (omega arith)
  find_line-Located (suc fuel) lo hi small fits enough order below low high =
      let mid : ℕ = (lo + hi) % u32_mod / 2 in
      let after_lo : lo ≤ mid = omega arith in
      let up_to_hi : mid ≤ hi = omega arith in
      elim (Bool-cases (ltb (mid + 1) count && leb (get_or offsets (mid + 1) 0) offset)) [
        | inl right ↦
            let not_last : mid ≢ hi = λ e. ground (arith, high) in
            let (loc, runs, at) =
              find_line-Located fuel (mid + 1) hi small fits (omega arith) (omega arith) below
                (ground arith) high in
            (loc, rw right (ground arith), at)
        | inr not_right ↦ elim (Bool-cases (ltb offset (get_or offsets mid 0))) [
          | inl left ↦
              let not_first : mid ≢ lo = λ e. ground arith in
              let (loc, runs, at) =
                find_line-Located fuel lo (mid - 1) small fits (omega arith) (omega arith)
                  (omega arith) low (λ _. ground arith) in
              (loc, rw (not_right, left) (ground arith), at)
          | inr here ↦ (
            record { line = mid + 1; col = u32_inc (offset - get_or offsets mid 0) },
            rw (not_right, here) (ground arith),
            record {
              from_one = omega arith;
              in_table = omega arith;
              column = ground arith;
              reached = ground arith;
              next_not_reached = λ h. ground arith;
            },
          )
        ]
      ]

-- The specification: reading the bytes before the offset one by one.
unfoldable pub scan_loc : SourceLoc → Bytes → SourceLoc
scan_loc loc [] = loc
scan_loc loc (c ∷ cs) =
    scan_loc
      (if c == b'\n'
        then record { line = loc.line + 1; col = 1 }
        else record loc { col = loc.col + 1 })
      cs

starts_from-gt : (cs : Bytes) (i j : ℕ) → j < newlines cs → i < get_or (starts_from i cs) j 0
starts_from-gt [] i j h = absurd (omega arith)
starts_from-gt (c ∷ cs) i zero h = ground (arith, starts_from-gt cs (i + 1) 0)
starts_from-gt (c ∷ cs) i (suc j) h =
    ground (arith, starts_from-gt cs (i + 1) j, starts_from-gt cs (i + 1) (suc j))

-- A line start lies within the first `k` bytes exactly when its newline does.
starts_from-reached :
    (cs : Bytes) (i k j : ℕ)
    → j < newlines cs
    → (get_or (starts_from i cs) j 0 ≤ i + k → j < newlines (take k cs))
      × (j < newlines (take k cs) → get_or (starts_from i cs) j 0 ≤ i + k)
starts_from-reached [] i k j h = absurd (omega arith)
starts_from-reached (c ∷ cs) i zero j h =
    let beyond = starts_from-gt (c ∷ cs) i j h in
    (λ p. absurd (omega arith), λ p. absurd (omega arith))
starts_from-reached (c ∷ cs) i (suc k) zero h =
    let shift : i + suc k ≡ i + 1 + k = omega arith in
    ground (arith, starts_from-reached cs (i + 1) k 0)
starts_from-reached (c ∷ cs) i (suc k) (suc j) h =
    let shift : i + suc k ≡ i + 1 + k = omega arith in
    ground (arith, starts_from-reached cs (i + 1) k j, starts_from-reached cs (i + 1) k (suc j))

loc_path :
    {a b c d : ℕ}
    → a ≡ c
    → b ≡ d
    → ◌≡◌ {A = SourceLoc} (record { line = a; col = b }) (record { line = c; col = d })
loc_path p r = cc

-- Where the scan stands after `k` bytes, in terms of the table of line starts.
scan_loc-starts :
    (cs : Bytes) (i s line col k : ℕ)
    → s ≤ i
    → col ≡ i + 1 - s
    → k ≤ length cs
    → scan_loc (record { line = line; col = col }) (take k cs) ≡ record {
      line = line + newlines (take k cs);
      col = i + k + 1 - get_or (s ∷ starts_from i cs) (newlines (take k cs)) 0;
    }
unfolding scan_loc
scan_loc-starts cs i s line col zero h e n = loc_path (omega arith) (omega arith)
scan_loc-starts [] i s line col (suc k) h e n = absurd (omega arith)
scan_loc-starts (c ∷ cs) i s line col (suc k) h e n = ground (
  arith,
  scan_loc-starts cs (i + 1) (i + 1) (line + 1) 1 k,
  scan_loc-starts cs (i + 1) s line (col + 1) k,
)

newlines-take-le : (cs : Bytes) (k : ℕ) → newlines (take k cs) ≤ newlines cs
newlines-take-le cs zero = omega arith
newlines-take-le [] (suc k) = omega arith
newlines-take-le (c ∷ cs) (suc k) = ground (arith, newlines-take-le cs k)

-- A table row that starts at or before the offset, and whose successor does not, is the row of the
-- newlines before the offset.
line-newlines :
    (content : Bytes) (offset m : ℕ)
    → m ≤ newlines content
    → get_or (0 ∷ starts_from 0 content) m 0 ≤ offset
    → (m < newlines content → offset < get_or (starts_from 0 content) m 0)
    → m ≡ newlines (take offset content)
line-newlines content offset zero h low high =
    ground (arith, newlines-take-le content offset, starts_from-reached content 0 offset 0)
line-newlines content offset (suc m) h low high = ground (
  arith,
  newlines-take-le content offset,
  starts_from-reached content 0 offset m,
  starts_from-reached content 0 offset (suc m),
)

-- What the loaders establish of a file's table.
pub record IsLoaded (src : SourceFile) : Type 0 where
  pub offsets : src.line_offsets ≡ (build_line_offsets src.content).0
  pub count : src.line_count ≡ (build_line_offsets src.content).1

get_or_pred : (x : ℕ) (xs : List ℕ) (n : ℕ) → 1 ≤ n → get_or (x ∷ xs) n 0 ≡ get_or xs (n - 1) 0
get_or_pred x xs zero h = absurd (omega arith)
get_or_pred x xs (suc n) h = let pred : suc n - 1 ≡ n = omega arith in rw pred

Located-scan_loc :
    (content : Bytes) (offset : ℕ) (loc : SourceLoc)
    → offset ≤ length content
    → Located (0 ∷ starts_from 0 content) (suc (newlines content)) offset loc
    → loc ≡ scan_loc (record { line = 1; col = 1 }) (take offset content)
Located-scan_loc content offset loc h at =
    let row : loc.line - 1 ≡ newlines (take offset content) =
      line-newlines content offset (loc.line - 1) (omega arith) at.reached
        (λ p. omega (arith, get_or_pred 0 (starts_from 0 content) loc.line at.from_one)) in
    let here : get_or (0 ∷ starts_from 0 content) (newlines (take offset content)) 0 + loc.col
        ≡ offset + 1 =
      rw row at at.column in
    loc_path (omega arith) (omega arith)
    ∙ sym (scan_loc-starts content 0 0 1 1 offset (omega arith) (omega arith) h)

-- For a loaded file below 2 GiB and an offset in it, or at its end, the binary search gives the line
-- and the column that a scan of the bytes before the offset counts.
pub source_get_loc-scan_loc :
    (src : SourceFile) (offset : ℕ)
    → IsLoaded src
    → length src.content + 1 < 2 ^ 31
    → offset ≤ length src.content
    → source_get_loc src offset ≡ scan_loc (record { line = 1; col = 1 }) (take offset src.content)
unfolding source_get_loc
source_get_loc-scan_loc src offset loaded small h =
    let few = newlines-le src.content in
    let table = build_line_offsets-starts src.content (omega arith) in
    let offsets : src.line_offsets ≡ 0 ∷ starts_from 0 src.content =
      loaded.offsets ∙ ap (λ (t : List ℕ × ℕ). t.0) table in
    let count : src.line_count ≡ suc (newlines src.content) =
      loaded.count ∙ ap (λ (t : List ℕ × ℕ). t.1) table in
    let last : suc (newlines src.content) - 1 ≡ newlines src.content = omega arith in
    let (loc, runs, at) =
      find_line-Located (0 ∷ starts_from 0 src.content) (suc (newlines src.content)) offset
        (suc (newlines src.content)) 0 (newlines src.content) (omega arith) (omega arith)
        (omega arith) (omega arith) (omega arith) (omega arith) (λ p. absurd (omega arith)) in
    rw (offsets, count, last, runs) (Located-scan_loc src.content offset loc h at)
