-- ===== src/Examples/Sources.antt =====
-- The theorems on source files at a small text.
use q.Common.{
  ℕ, slice, suc, ◌≤◌, ◌<◌, [], ◌∷◌, Option, some, none, ◌≡◌, ◌⊎◌, refl, arith, Bytes, codes, take,
}
use q.Source.LineText.{Stripped, line_start, line_end, source_get_line_text-Stripped}
use q.Source.Load.{IsRegistry, Adds, source_load-IsRegistry, source_load_cases}
use q.Source.Location.{IsLoaded, scan_loc, source_get_loc-scan_loc}
use q.Source.Offsets.{newlines, starts_from, build_line_offsets-starts}
use q.Source.{
  SourceFile, max_source_files, build_line_offsets, count_lines, fill_offsets, source_load,
  source_get_loc, source_get_line_text,
}

abbrev text : Bytes
text = codes "let a = 1;\n\nlet b;\n"

build_line_offsets-starts_example :
    build_line_offsets text ≡ (0 ∷ starts_from 0 text, suc (newlines text))
build_line_offsets-starts_example = build_line_offsets-starts text (omega arith)

abbrev file : SourceFile
file = record {
  id = 0;
  path = codes "b.qp";
  content = text;
  line_offsets = 0 ∷ 11 ∷ 12 ∷ 19 ∷ [];
  line_count = 4;
}

file-IsLoaded : IsLoaded file
unfolding build_line_offsets count_lines fill_offsets
file-IsLoaded = record { offsets = refl; count = refl }

source_get_loc-scan_loc_example :
    source_get_loc file 16 ≡ scan_loc (record { line = 1; col = 1 }) (take 16 text)
source_get_loc-scan_loc_example =
    source_get_loc-scan_loc file 16 file-IsLoaded (omega arith) (omega arith)

scan_loc_file :
    scan_loc (record { line = 1; col = 1 }) (take 16 text) ≡ record { line = 3; col = 5 }
unfolding scan_loc
scan_loc_file = refl

abbrev disk : Bytes → Option Bytes
disk path = some text

no_files-IsRegistry : IsRegistry []
no_files-IsRegistry = record { bounded = omega arith; loaded = λ i src h. cc }

source_load-IsRegistry_example : IsRegistry (source_load disk [] (codes "b.qp")).0
source_load-IsRegistry_example = source_load-IsRegistry disk [] (codes "b.qp") no_files-IsRegistry

source_load_cases_example :
    (((source_load disk [] (codes "b.qp")).1 ≡ none)
      × ((source_load disk [] (codes "b.qp")).0 ≡ [])
      × ((max_source_files ≤ 0) ⊎ (disk (codes "b.qp") ≡ none)))
    ⊎ ((content : Bytes) × (0 < max_source_files)
        × (disk (codes "b.qp") ≡ some content)
        × ((source_load disk [] (codes "b.qp")).1 ≡ some 0)
        × Adds [] (source_load disk [] (codes "b.qp")).0 (codes "b.qp") content)
source_load_cases_example = source_load_cases disk [] (codes "b.qp")

source_get_line_text-Stripped_example :
    (stop : ℕ) × (source_get_line_text file 1 ≡ slice file.content (line_start file 1) stop)
    × Stripped file.content (line_start file 1) (line_end file 1) stop
source_get_line_text-Stripped_example =
    source_get_line_text-Stripped file 1 (omega arith) (omega arith) (omega arith)
