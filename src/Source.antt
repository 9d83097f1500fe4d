-- ===== src/Source.antt =====
-- The source file manager: compiler/include/qpc/source.h and compiler/src/source.c. Reading a file
-- from disk (`fopen` to `fclose`) is the parameter `read` of `source_load`; what `malloc` returns is
-- never NULL here.
pub mod Offsets
pub mod Location
pub mod Load
pub mod LineText
use q.Common.{
  ℕ, zero, suc, ◌+◌, ◌-◌, ◌*◌, ◌/◌, ◌%◌, ◌^◌, Bool, true, false, not, ◌&&◌, ◌||◌, List, [], ◌∷◌,
  ◌++◌, Option, none, some, Bytes, u32_mod, u32_inc, length, get_elem?, get_or, set, replicate,
  slice, ltb, leb, ◌==◌, if◌then◌else◌,
}

-- `SourceFile`; `length` is that of `content`.
pub record SourceFile : Type 0 where
  pub id : ℕ
  pub path : Bytes
  pub content : Bytes
  pub line_offsets : List ℕ
  pub line_count : ℕ

-- `SourceLoc`, both from 1.
pub record SourceLoc : Type 0 where
  pub line : ℕ
  pub col : ℕ

abbrev pub max_source_files : ℕ
max_source_files = 256

-- `g_sources` up to `g_source_count`, which is its length.
abbrev pub Registry : Type 0
Registry = List SourceFile

-- `source_registry_init`.
abbrev pub source_registry_init : Registry
source_registry_init = []

-- The first loop of `build_line_offsets`.
unfoldable pub count_lines : ℕ → Bytes → ℕ
count_lines count [] = count
count_lines count (c ∷ cs) = count_lines (if c == b'\n' then u32_inc count else count) cs

-- The second loop: `i`, `line`, and the table as filled so far.
unfoldable pub fill_offsets : Bytes → ℕ → ℕ → ℕ → List ℕ → List ℕ
fill_offsets [] i line count offsets = offsets
fill_offsets (c ∷ cs) i line count offsets =
    let starts = c == b'\n' && ltb line count in
    fill_offsets cs (i + 1) (if starts then u32_inc line else line) count
      (if starts then set offsets line ((i + 1) % u32_mod) else offsets)

-- `build_line_offsets`: the count, and the table. A fresh table reads as 0 here.
unfoldable pub build_line_offsets : Bytes → List ℕ × ℕ
unfolding count_lines fill_offsets
build_line_offsets content =
    let count = count_lines 1 content in
    (fill_offsets content 0 1 count (set (replicate count 0) 0 0), count)

-- The end of both loaders: the next entry of the table.
unfoldable pub register : Registry → Bytes → Bytes → Registry × ℕ
register files path content =
    let id = length files in
    let table = build_line_offsets content in
    (
      files
          ++ (record {
            id = id;
            path = path;
            content = content;
            line_offsets = table.0;
            line_count = table.1;
          }
              ∷ []),
      id,
    )

-- `source_load`, where `read path` is the file's content, or `none` where it cannot be opened,
-- measured or held. The outer `none` stands for -1.
unfoldable pub source_load : (Bytes → Option Bytes) → Registry → Bytes → Registry × Option ℕ
source_load read files path =
    if leb max_source_files (length files) then (files, none) else elim (read path) [
      | none ↦ (files, none)
      | some content ↦ let r = register files path content in (r.0, some r.1)
    ]

-- `source_load_string`.
unfoldable pub source_load_string : Registry → Bytes → Bytes → Registry × Option ℕ
source_load_string files name content =
    if leb max_source_files (length files)
    then (files, none)
    else let r = register files name content in (r.0, some r.1)

-- `source_get`.
unfoldable pub source_get : Registry → ℕ → Option SourceFile
source_get files id = if leb (length files) id then none else get_elem? files id

-- The loop of `source_get_loc`. `none` means that the fuel ran out.
unfoldable pub find_line : ℕ → List ℕ → ℕ → ℕ → ℕ → ℕ → Option SourceLoc
find_line zero offsets count offset lo hi = none
find_line (suc fuel) offsets count offset lo hi =
    let fallback : SourceLoc = record { line = 1; col = u32_inc offset } in
    let mid : ℕ = (lo + hi) % u32_mod / 2 in
    let up = find_line fuel offsets count offset (mid + 1) hi in
    let down = find_line fuel offsets count offset lo (mid - 1) in
    if not (leb lo hi)
    then some fallback
    else if ltb (mid + 1) count && leb (get_or offsets (mid + 1) 0) offset
    then up
    else if ltb offset (get_or offsets mid 0)
    then if mid == 0 then some fallback else down
    else some (record { line = mid + 1; col = u32_inc (offset - get_or offsets mid 0) })

abbrev or_start : Option SourceLoc → SourceLoc
or_start (some loc) = loc
or_start none = record { line = 1; col = 1 }

-- `source_get_loc`, on a file that was loaded; a round for each line is fuel enough.
unfoldable pub source_get_loc : SourceFile → ℕ → SourceLoc
unfolding find_line
source_get_loc src offset =
    or_start
      (find_line src.line_count src.line_offsets src.line_count offset 0 (src.line_count - 1))

-- The loop of `source_get_line_text`, on the bytes that are left between `start` and `end`.
unfoldable pub strip_end : ℕ → Bytes → ℕ → ℕ → ℕ
strip_end zero content start end = end
strip_end (suc fuel) content start end =
    let c : ℕ = get_or content (end - 1) 0 in
    let rest = strip_end fuel content start (end - 1) in
    if ltb start end && (c == b'\n' || c == b'\r') then rest else end

-- `source_get_line_text`; the view is `start` and the stripped end.
unfoldable pub source_get_line_text : SourceFile → ℕ → Bytes
unfolding strip_end
source_get_line_text src line =
    if line == 0 || ltb src.line_count line
    then []
    else (let idx : ℕ = line - 1 in
        let start : ℕ = get_or src.line_offsets idx 0 in
        let end : ℕ =
          (if ltb (idx + 1) src.line_count
            then get_or src.line_offsets (idx + 1) 0
            else length src.content % u32_mod) in
        slice src.content start (strip_end (end - start) src.content start end))
