-- ===== src/Source/Load.antt =====
-- The registry of compiler/src/source.c: what the two loaders add, and what `source_get` returns.
use q.Common.{
  ℕ, zero, suc, ◌≤◌, ◌<◌, [], ◌∷◌, ◌++◌, Option, none, some, ◌≡◌, ◌⊎◌, refl, inl, inr, arith, Bytes,
  length, get_elem?, leb, length-append, Bool-cases, Option-cases, leb→le,
}
use q.Source.{
  SourceFile, Registry, max_source_files, build_line_offsets, register, source_load, source_get,
}

-- At most 256 files, each under its own index and with the table of its content.
pub record IsRegistry (files : Registry) : Type 0 where
  pub bounded : length files ≤ max_source_files
  pub loaded :
      (i : ℕ) (src : SourceFile)
      → get_elem? files i ≡ some src
      → (src.id ≡ i)
        × (src.line_offsets ≡ (build_line_offsets src.content).0)
        × (src.line_count ≡ (build_line_offsets src.content).1)

get_elem?-snoc :
    (files : Registry) (f : SourceFile) (i : ℕ) (src : SourceFile)
    → get_elem? (files ++ f ∷ []) i ≡ some src
    → (get_elem? files i ≡ some src) ⊎ ((i ≡ length files) × (src ≡ f))
get_elem?-snoc [] f zero src h = inr (refl, cc)
get_elem?-snoc [] f (suc i) src h = cc
get_elem?-snoc (x ∷ files) f zero src h = inl h
get_elem?-snoc (x ∷ files) f (suc i) src h = ground (arith, get_elem?-snoc files f i src h)

pub get_elem?-snoc_last :
    (files : Registry) (f : SourceFile) → get_elem? (files ++ f ∷ []) (length files) ≡ some f
get_elem?-snoc_last [] f = refl
get_elem?-snoc_last (x ∷ files) f = get_elem?-snoc_last files f

register-IsRegistry :
    (files : Registry) (path content : Bytes)
    → length files < max_source_files
    → IsRegistry files
    → IsRegistry (register files path content).0
unfolding register
register-IsRegistry files path content room r = record {
  bounded = rw length-append (omega arith);
  loaded = λ i src h. elim (get_elem?-snoc files _ i src h) [
    | inl old ↦ r.loaded i src old
    | inr (last, new) ↦ rw (new, last) (refl, refl, refl)
  ];
}

register_id :
    (files : Registry) (path content : Bytes)
    → ◌≡◌ {A = Option ℕ} (some (register files path content).1) (some (length files))
unfolding register
register_id files path content = refl

-- `source_load` keeps the registry well formed, whatever the file system answers: at most 256 files,
-- each with its index as its id and with the line table of its content.
pub source_load-IsRegistry :
    (read : Bytes → Option Bytes) (files : Registry) (path : Bytes)
    → IsRegistry files
    → IsRegistry (source_load read files path).0
unfolding source_load
source_load-IsRegistry read files path r = elim (Bool-cases (leb max_source_files (length files))) [
  | inl full ↦ rw full r
  | inr room ↦ elim (Option-cases (read path)) [
    | inl gone ↦ rw (room, gone) r
    | inr (content, there) ↦
        rw (room, there) (register-IsRegistry files path content (ground arith) r)
  ]
]

get_elem?-append_left :
    (files : Registry) (f : SourceFile) (i : ℕ)
    → i < length files
    → get_elem? (files ++ f ∷ []) i ≡ get_elem? files i
get_elem?-append_left [] f i h = absurd (omega arith)
get_elem?-append_left (x ∷ files) f zero h = refl
get_elem?-append_left (x ∷ files) f (suc i) h = get_elem?-append_left files f i (omega arith)

source_get-snoc_last :
    (files : Registry) (f : SourceFile) → source_get (files ++ f ∷ []) (length files) ≡ some f
unfolding source_get
source_get-snoc_last files f = rw length-append (ground (arith, get_elem?-snoc_last files f))

source_get-append_left :
    (files : Registry) (f : SourceFile) (i : ℕ)
    → i < length files
    → source_get (files ++ f ∷ []) i ≡ source_get files i
unfolding source_get
source_get-append_left files f i h =
    rw length-append (ground (arith, get_elem?-append_left files f i))

-- What a successful load of `content` under `path` leaves behind.
pub record Adds (files after : Registry) (path content : Bytes) : Type 0 where
  pub file : SourceFile
  pub holds_content : file.content ≡ content
  pub holds_path : file.path ≡ path
  pub found : source_get after (length files) ≡ some file
  pub others : (i : ℕ) → i < length files → source_get after i ≡ source_get files i

register-Adds :
    (files : Registry) (path content : Bytes)
    → Adds files (register files path content).0 path content
unfolding register
register-Adds files path content = record {
  file = record {
    id = length files;
    path = path;
    content = content;
    line_offsets = (build_line_offsets content).0;
    line_count = (build_line_offsets content).1;
  };
  holds_content = refl;
  holds_path = refl;
  found = source_get-snoc_last files _;
  others = λ i h. source_get-append_left files _ i h;
}

-- A load returns -1 and leaves the registry as it was, where the table is full or the file cannot be
-- read; otherwise, with fewer than 256 files in the table and
-- a file that was read, it returns the next id, under which `source_get` then finds the path and what was
-- read, and every earlier id still names what it named.
pub source_load_cases :
    (read : Bytes → Option Bytes) (files : Registry) (path : Bytes)
    → (((source_load read files path).1 ≡ none)
        × ((source_load read files path).0 ≡ files)
        × ((max_source_files ≤ length files) ⊎ (read path ≡ none)))
      ⊎ ((content : Bytes) × (length files < max_source_files)
          × (read path ≡ some content)
          × ((source_load read files path).1 ≡ some (length files))
          × Adds files (source_load read files path).0 path content)
unfolding source_load
source_load_cases read files path = elim (Bool-cases (leb max_source_files (length files))) [
  | inl full ↦ inl (rw full, rw full, inl (leb→le max_source_files (length files) full))
  | inr room ↦ elim (Option-cases (read path)) [
    | inl gone ↦ inl (rw (room, gone), rw (room, gone), inr gone)
    | inr (content, there) ↦ inr (
      content,
      ground (arith, room),
      there,
      rw (room, there) (register_id files path content),
      rw (room, there) (register-Adds files path content),
    )
  ]
]
