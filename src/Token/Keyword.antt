-- ===== src/Token/Keyword.antt =====
-- The keyword table and its binary search (compiler/include/qpc/token.h, `KeywordEntry`, `KEYWORDS`,
-- `keyword_lookup`), with `strncmp` as the C library documents it.
use q.Common.{
  ℕ, zero, suc, ◌+◌, ◌-◌, ◌/◌, true, false, List, [], ◌∷◌, Option, none, some, Bytes, codes, length,
  get_elem?, ltb, ◌==◌, if◌then◌else◌,
}
use q.Token.Kind.{TokenKind}

-- `KeywordEntry`.
pub record KeywordEntry : Type 0 where
  pub text : Bytes
  pub kind : TokenKind

abbrev entry : Bytes → TokenKind → KeywordEntry
entry t k = record { text = t; kind = k }

-- `KEYWORDS`, in the order of the source.
abbrev pub keywords : List KeywordEntry
keywords =
    entry (codes "Self") TokenKind.kw_self_type
    ∷ entry (codes "alloc") TokenKind.kw_alloc
    ∷ entry (codes "alias") TokenKind.kw_alias
    ∷ entry (codes "and") TokenKind.kw_and
    ∷ entry (codes "as") TokenKind.kw_as
    ∷ entry (codes "asm") TokenKind.kw_asm
    ∷ entry (codes "bool") TokenKind.kw_bool
    ∷ entry (codes "break") TokenKind.kw_break
    ∷ entry (codes "char") TokenKind.kw_char
    ∷ entry (codes "const") TokenKind.kw_const
    ∷ entry (codes "continue") TokenKind.kw_continue
    ∷ entry (codes "defer") TokenKind.kw_defer
    ∷ entry (codes "driver") TokenKind.kw_driver
    ∷ entry (codes "else") TokenKind.kw_else
    ∷ entry (codes "enum") TokenKind.kw_enum
    ∷ entry (codes "extern") TokenKind.kw_extern
    ∷ entry (codes "f32") TokenKind.kw_f32
    ∷ entry (codes "f64") TokenKind.kw_f64
    ∷ entry (codes "false") TokenKind.kw_false
    ∷ entry (codes "fn") TokenKind.kw_fn
    ∷ entry (codes "for") TokenKind.kw_for
    ∷ entry (codes "free") TokenKind.kw_free
    ∷ entry (codes "i16") TokenKind.kw_i16
    ∷ entry (codes "i32") TokenKind.kw_i32
    ∷ entry (codes "i64") TokenKind.kw_i64
    ∷ entry (codes "i8") TokenKind.kw_i8
    ∷ entry (codes "if") TokenKind.kw_if
    ∷ entry (codes "impl") TokenKind.kw_impl
    ∷ entry (codes "import") TokenKind.kw_import
    ∷ entry (codes "in") TokenKind.kw_in
    ∷ entry (codes "interrupt") TokenKind.kw_interrupt
    ∷ entry (codes "is") TokenKind.kw_is
    ∷ entry (codes "isize") TokenKind.kw_isize
    ∷ entry (codes "isr") TokenKind.kw_isr
    ∷ entry (codes "kernel") TokenKind.kw_kernel
    ∷ entry (codes "let") TokenKind.kw_let
    ∷ entry (codes "loop") TokenKind.kw_loop
    ∷ entry (codes "match") TokenKind.kw_match
    ∷ entry (codes "mmio") TokenKind.kw_mmio
    ∷ entry (codes "module") TokenKind.kw_module
    ∷ entry (codes "mut") TokenKind.kw_mut
    ∷ entry (codes "not") TokenKind.kw_not
    ∷ entry (codes "null") TokenKind.kw_null
    ∷ entry (codes "or") TokenKind.kw_or
    ∷ entry (codes "own") TokenKind.kw_own
    ∷ entry (codes "port") TokenKind.kw_port
    ∷ entry (codes "priv") TokenKind.kw_priv
    ∷ entry (codes "ptr") TokenKind.kw_ptr
    ∷ entry (codes "pub") TokenKind.kw_pub
    ∷ entry (codes "ref") TokenKind.kw_ref
    ∷ entry (codes "return") TokenKind.kw_return
    ∷ entry (codes "safe") TokenKind.kw_safe
    ∷ entry (codes "self") TokenKind.kw_self
    ∷ entry (codes "slice") TokenKind.kw_slice
    ∷ entry (codes "static") TokenKind.kw_static
    ∷ entry (codes "str") TokenKind.kw_str
    ∷ entry (codes "struct") TokenKind.kw_struct
    ∷ entry (codes "syscall") TokenKind.kw_syscall
    ∷ entry (codes "trait") TokenKind.kw_trait
    ∷ entry (codes "true") TokenKind.kw_true
    ∷ entry (codes "type") TokenKind.kw_type
    ∷ entry (codes "u16") TokenKind.kw_u16
    ∷ entry (codes "u32") TokenKind.kw_u32
    ∷ entry (codes "u64") TokenKind.kw_u64
    ∷ entry (codes "u8") TokenKind.kw_u8
    ∷ entry (codes "union") TokenKind.kw_union
    ∷ entry (codes "unsafe") TokenKind.kw_unsafe
    ∷ entry (codes "userland") TokenKind.kw_userland
    ∷ entry (codes "usize") TokenKind.kw_usize
    ∷ entry (codes "void") TokenKind.kw_void
    ∷ entry (codes "volatile") TokenKind.kw_volatile
    ∷ entry (codes "while") TokenKind.kw_while
    ∷ []

-- `KEYWORD_COUNT`.
abbrev pub keyword_count : ℕ
keyword_count = 72

-- The sign of `strncmp`.
pub data Sign : Type 0 where
  before same after : Sign

-- `strncmp(name, text, length)`, where `name` is the view of `length` bytes and `text` ends in a
-- NUL byte: the comparison stops at a byte that differs, or where both have ended.
unfoldable pub strncmp : Bytes → Bytes → Sign
strncmp [] text = same
strncmp (c ∷ name) [] = if c == 0 then same else after
strncmp (c ∷ name) (d ∷ text) =
    let rest = strncmp name text in if ltb c d then before else if ltb d c then after else rest

-- What one round of the search decides on an entry.
pub data Probe : Type 0 where
  found go_left go_right : Probe

unfoldable pub probe : Bytes → KeywordEntry → Probe
probe name e = elim (strncmp name e.text) [
  | same ↦
      if length name == length e.text
      then found
      else if ltb (length name) (length e.text)
      then go_left
      else go_right
  | before ↦ go_left
  | after ↦ go_right
]

-- The loop `while (lo <= hi)`. The signed `hi`, which may become -1, is kept as `top`, one more, so
-- `hi = mid - 1` is `top = mid`. `none` means that the fuel ran out, or a read beyond the table.
unfoldable pub search_table : ℕ → List KeywordEntry → Bytes → ℕ → ℕ → Option TokenKind
search_table zero table name lo top = none
search_table (suc fuel) table name lo top = elim (ltb lo top) [
  | false ↦ some TokenKind.identifier
  | true ↦
      let mid : ℕ = (lo + (top - 1)) / 2 in
      elim (get_elem? table mid) [
        | none ↦ none
        | some e ↦ elim (probe name e) [
          | found ↦ some e.kind
          | go_left ↦ search_table fuel table name lo mid
          | go_right ↦ search_table fuel table name (mid + 1) top
        ]
      ]
]

abbrev pub or_identifier : Option TokenKind → TokenKind
or_identifier (some k) = k
or_identifier none = TokenKind.identifier

-- `keyword_lookup`; one round more than entries is fuel enough (Token/Lookup).
unfoldable pub keyword_lookup : Bytes → TokenKind
unfolding strncmp probe search_table
keyword_lookup name = or_identifier (search_table (keyword_count + 1) keywords name 0 keyword_count)
