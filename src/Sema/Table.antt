-- ===== src/Sema/Table.antt =====
-- The symbol tables of compiler/src/sema.c. A table is its 64 chains, the newest symbol first; the
-- chain of scopes through `parent` is a list, the innermost first. No table is reached but through
-- that chain, so an update in place is an update in the list.
use q.Ast.{AstNode, AstType}
use q.Common.{
  ℕ, ◌%◌, ◌*◌, Bool, true, List, [], ◌∷◌, Option, none, some, Bytes, bytes_eq, bit_xor, u32_mod,
  get_or, set, replicate, if◌then◌else◌,
}

-- `SymKind`.
pub data SymKind : Type 0 where
  sym_fn sym_struct sym_enum sym_driver sym_syscall sym_const sym_static sym_local sym_param :
      SymKind
  sym_type_alias sym_trait sym_module : SymKind

-- `Symbol`; `next` is the rest of the chain.
pub record Symbol : Type 0 where
  pub name : Bytes
  pub kind : SymKind
  pub decl : AstNode
  pub type : AstType
  pub used : Bool

abbrev pub symtab_buckets : ℕ
symtab_buckets = 64

-- `SymTab`, without its parent.
abbrev pub SymTab : Type 0
SymTab = List (List Symbol)

-- The loop of `sv_hash`, FNV-1a on a u32.
unfoldable pub hash_bytes : ℕ → Bytes → ℕ
hash_bytes h [] = h
hash_bytes h (c ∷ cs) = hash_bytes (bit_xor h c * 16777619 % u32_mod) cs

-- `sv_hash`.
unfoldable pub sv_hash : Bytes → ℕ
sv_hash sv = hash_bytes 2166136261 sv % symtab_buckets

-- A table that `memset` has cleared.
abbrev pub empty_table : SymTab
empty_table = replicate symtab_buckets []

-- The loop over a chain.
unfoldable pub find_symbol : List Symbol → Bytes → Option Symbol
find_symbol [] name = none
find_symbol (s ∷ rest) name = if bytes_eq s.name name then some s else find_symbol rest name

-- `symtab_lookup_local` on a table that is not NULL.
unfoldable pub symtab_lookup_local : SymTab → Bytes → Option Symbol
symtab_lookup_local tab name = find_symbol (get_or tab (sv_hash name) []) name

abbrev pub or_else : Option Symbol → Option Symbol → Option Symbol
or_else (some s) other = some s
or_else none other = other

-- `symtab_lookup`.
unfoldable pub symtab_lookup : List SymTab → Bytes → Option Symbol
symtab_lookup [] name = none
symtab_lookup (tab ∷ parents) name =
    or_else (symtab_lookup_local tab name) (symtab_lookup parents name)

-- The insertion of `symtab_insert` into the innermost table.
unfoldable pub table_insert : SymTab → Symbol → SymTab
table_insert tab sym = set tab (sv_hash sym.name) (sym ∷ get_or tab (sv_hash sym.name) [])

-- `sym->used = true`, on the symbol that a lookup has found: in its chain, in its table, and in the
-- chain of scopes.
unfoldable pub use_symbol : List Symbol → Bytes → List Symbol
use_symbol [] name = []
use_symbol (s ∷ rest) name =
    if bytes_eq s.name name then record s { used = true } ∷ rest else s ∷ use_symbol rest name

unfoldable pub use_local : SymTab → Bytes → SymTab
use_local tab name = set tab (sv_hash name) (use_symbol (get_or tab (sv_hash name) []) name)

abbrev pub use_if : Option Symbol → SymTab → List SymTab → List SymTab → Bytes → List SymTab
use_if (some s) tab parents used name = use_local tab name ∷ parents
use_if none tab parents used name = tab ∷ used

unfoldable pub mark_used : List SymTab → Bytes → List SymTab
mark_used [] name = []
mark_used (tab ∷ parents) name =
    use_if (symtab_lookup_local tab name) tab parents (mark_used parents name) name
