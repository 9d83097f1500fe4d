-- ===== src/Sema/Lookup.antt =====
-- The hashed tables of compiler/src/sema.c against the names that they declare.
use q.Common.{
  ◌<◌, List, [], ◌∷◌, some, Bytes, bytes_eq, bytes_eq_iff, ◌≡◌, refl, ap, ◌∙◌, ◌==◌, ==_iff, inl,
  inr, arith, length, get_or, length-set, get_or-set, length-replicate, get_or-replicate,
  Bool-cases, if◌then◌else◌,
}
use q.Sema.Errors.{is_member}
use q.Sema.State.{is_some}
use q.Sema.Table.{
  Symbol, SymTab, symtab_buckets, sv_hash, empty_table, find_symbol, symtab_lookup_local,
  table_insert, use_symbol, use_local,
}

pub sv_hash-lt : (name : Bytes) → sv_hash name < symtab_buckets
unfolding sv_hash
sv_hash-lt name = omega arith

-- Looking up any name after an insertion gives the inserted symbol for its own name, and what the
-- table gave before for every other name, also where the two names share a bucket.
pub symtab_lookup_local-table_insert :
    (tab : SymTab) (s : Symbol) (name : Bytes)
    → length tab ≡ symtab_buckets
    → symtab_lookup_local (table_insert tab s) name
      ≡ (if bytes_eq s.name name then some s else symtab_lookup_local tab name)
unfolding symtab_lookup_local table_insert find_symbol
symtab_lookup_local-table_insert tab s name h =
    let i = sv_hash s.name in
    let put =
      get_or-set tab i (sv_hash name) (s ∷ get_or tab i []) []
        (omega (arith, h, sv_hash-lt s.name)) in
    elim (Bool-cases (sv_hash s.name == sv_hash name)) [
      | inl e ↦
          let same : sv_hash s.name ≡ sv_hash name = (==_iff (sv_hash s.name) (sv_hash name)).0 e in
          rw put (rw e (rw same refl))
      | inr e ↦ elim (Bool-cases (bytes_eq s.name name)) [
        | inl k ↦
            let equal : s.name ≡ name = (bytes_eq_iff s.name name).0 k in
            absurd (ground (arith, ap sv_hash equal))
        | inr k ↦ rw put (rw e (rw k refl))
      ]
    ]

-- Marking a symbol as used declares nothing and hides nothing.
use_symbol-is_some :
    (chain : List Symbol) (name other : Bytes)
    → is_some (find_symbol (use_symbol chain name) other) ≡ is_some (find_symbol chain other)
unfolding find_symbol use_symbol
use_symbol-is_some [] name other = refl
use_symbol-is_some (s ∷ rest) name other = elim (Bool-cases (bytes_eq s.name name)) [
  | inl e ↦ elim (Bool-cases (bytes_eq s.name other)) [
    | inl k ↦ rw e (rw k refl)
    | inr k ↦ rw e (rw k refl)
  ]
  | inr e ↦ elim (Bool-cases (bytes_eq s.name other)) [
    | inl k ↦ rw e (rw k refl)
    | inr k ↦ rw e (rw k (use_symbol-is_some rest name other))
  ]
]

-- A table of 64 chains that declares these names.
pub record IsTable (tab : SymTab) (seen : List Bytes) : Type 0 where
  pub size : length tab ≡ symtab_buckets
  pub names : (name : Bytes) → is_some (symtab_lookup_local tab name) ≡ is_member name seen

pub empty_table-IsTable : IsTable empty_table []
unfolding symtab_lookup_local find_symbol
empty_table-IsTable = record {
  size = length-replicate {A = List Symbol} symtab_buckets [];
  names = λ name. rw (get_or-replicate {A = List Symbol} symtab_buckets (sv_hash name) []) refl;
}

table_insert-length : (tab : SymTab) (s : Symbol) → length (table_insert tab s) ≡ length tab
unfolding table_insert
table_insert-length tab s = length-set tab _ _

pub table_insert-IsTable :
    (tab : SymTab) (seen : List Bytes) (s : Symbol)
    → IsTable tab seen
    → IsTable (table_insert tab s) (s.name ∷ seen)
table_insert-IsTable tab seen s h = record {
  size = table_insert-length tab s ∙ h.size;
  names = λ name. elim (Bool-cases (bytes_eq s.name name)) [
    | inl e ↦ rw (symtab_lookup_local-table_insert tab s name h.size, e) refl
    | inr e ↦ rw (symtab_lookup_local-table_insert tab s name h.size, e) (h.names name)
  ];
}

pub use_local-IsTable :
    (tab : SymTab) (seen : List Bytes) (name : Bytes)
    → IsTable tab seen
    → IsTable (use_local tab name) seen
unfolding use_local symtab_lookup_local
use_local-IsTable tab seen name h = record {
  size = length-set tab _ _ ∙ h.size;
  names = λ other.
      let i = sv_hash name in
      let chain = get_or tab i [] in
      let put =
        get_or-set tab i (sv_hash other) (use_symbol chain name) []
          (omega (arith, h.size, sv_hash-lt name)) in
      elim (Bool-cases (sv_hash name == sv_hash other)) [
        | inl e ↦
            let same : sv_hash name ≡ sv_hash other = (==_iff (sv_hash name) (sv_hash other)).0 e in
            rw put (rw e (use_symbol-is_some chain name other ∙ (rw same (h.names other))))
        | inr e ↦ rw put (rw e (h.names other))
      ];
}
