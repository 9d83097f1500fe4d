-- ===== src/Token/Kind.antt =====
-- Token kinds (compiler/include/qpc/token.h, `TokenKind`, `IntBase`, `Span`), their numbers, and
-- their texts (`token_kind_to_str` of compiler/src/lexer.c).
use q.Common.{ℕ, Bool, Bytes, codes, ◌==◌}

-- `TokenKind`, in the order of the enumeration.
pub data TokenKind : Type 0 where
  eof error : TokenKind
  int_literal float_literal string_literal raw_string_literal char_literal : TokenKind
  identifier : TokenKind
  kw_u8 kw_u16 kw_u32 kw_u64 kw_i8 kw_i16 kw_i32 kw_i64 kw_f32 kw_f64 kw_bool : TokenKind
  kw_char kw_str kw_void kw_usize kw_isize : TokenKind
  kw_fn kw_let kw_const kw_mut kw_struct kw_enum kw_union kw_type kw_alias kw_pub : TokenKind
  kw_priv kw_module kw_import kw_static kw_extern kw_impl kw_trait : TokenKind
  kw_if kw_else kw_match kw_for kw_while kw_loop kw_break kw_continue kw_return : TokenKind
  kw_defer : TokenKind
  kw_safe kw_unsafe kw_asm kw_volatile kw_mmio kw_port kw_isr : TokenKind
  kw_driver kw_syscall kw_interrupt kw_kernel kw_userland : TokenKind
  kw_alloc kw_free kw_ref kw_ptr kw_own kw_slice : TokenKind
  kw_as kw_in kw_is kw_not kw_and kw_or kw_true kw_false kw_null kw_self : TokenKind
  kw_self_type : TokenKind
  plus minus star slash percent : TokenKind
  amp pipe caret tilde shl shr : TokenKind
  eq_eq not_eq lt gt lt_eq gt_eq : TokenKind
  eq plus_eq minus_eq star_eq slash_eq percent_eq amp_eq pipe_eq caret_eq shl_eq : TokenKind
  shr_eq : TokenKind
  arrow fat_arrow dot_dot dot_dot_eq colon_colon question at bang : TokenKind
  lparen rparen lbrace rbrace lbracket rbracket comma colon semicolon dot hash : TokenKind
  token_count : TokenKind

-- The value of the enumerator.
unfoldable pub token_code : TokenKind → ℕ
token_code eof = 0
token_code error = 1
token_code int_literal = 2
token_code float_literal = 3
token_code string_literal = 4
token_code raw_string_literal = 5
token_code char_literal = 6
token_code identifier = 7
token_code kw_u8 = 8
token_code kw_u16 = 9
token_code kw_u32 = 10
token_code kw_u64 = 11
token_code kw_i8 = 12
token_code kw_i16 = 13
token_code kw_i32 = 14
token_code kw_i64 = 15
token_code kw_f32 = 16
token_code kw_f64 = 17
token_code kw_bool = 18
token_code kw_char = 19
token_code kw_str = 20
token_code kw_void = 21
token_code kw_usize = 22
token_code kw_isize = 23
token_code kw_fn = 24
token_code kw_let = 25
token_code kw_const = 26
token_code kw_mut = 27
token_code kw_struct = 28
token_code kw_enum = 29
token_code kw_union = 30
token_code kw_type = 31
token_code kw_alias = 32
token_code kw_pub = 33
token_code kw_priv = 34
token_code kw_module = 35
token_code kw_import = 36
token_code kw_static = 37
token_code kw_extern = 38
token_code kw_impl = 39
token_code kw_trait = 40
token_code kw_if = 41
token_code kw_else = 42
token_code kw_match = 43
token_code kw_for = 44
token_code kw_while = 45
token_code kw_loop = 46
token_code kw_break = 47
token_code kw_continue = 48
token_code kw_return = 49
token_code kw_defer = 50
token_code kw_safe = 51
token_code kw_unsafe = 52
token_code kw_asm = 53
token_code kw_volatile = 54
token_code kw_mmio = 55
token_code kw_port = 56
token_code kw_isr = 57
token_code kw_driver = 58
token_code kw_syscall = 59
token_code kw_interrupt = 60
token_code kw_kernel = 61
token_code kw_userland = 62
token_code kw_alloc = 63
token_code kw_free = 64
token_code kw_ref = 65
token_code kw_ptr = 66
token_code kw_own = 67
token_code kw_slice = 68
token_code kw_as = 69
token_code kw_in = 70
token_code kw_is = 71
token_code kw_not = 72
token_code kw_and = 73
token_code kw_or = 74
token_code kw_true = 75
token_code kw_false = 76
token_code kw_null = 77
token_code kw_self = 78
token_code kw_self_type = 79
token_code plus = 80
token_code minus = 81
token_code star = 82
token_code slash = 83
token_code percent = 84
token_code amp = 85
token_code pipe = 86
token_code caret = 87
token_code tilde = 88
token_code shl = 89
token_code shr = 90
token_code eq_eq = 91
token_code not_eq = 92
token_code lt = 93
token_code gt = 94
token_code lt_eq = 95
token_code gt_eq = 96
token_code eq = 97
token_code plus_eq = 98
token_code minus_eq = 99
token_code star_eq = 100
token_code slash_eq = 101
token_code percent_eq = 102
token_code amp_eq = 103
token_code pipe_eq = 104
token_code caret_eq = 105
token_code shl_eq = 106
token_code shr_eq = 107
token_code arrow = 108
token_code fat_arrow = 109
token_code dot_dot = 110
token_code dot_dot_eq = 111
token_code colon_colon = 112
token_code question = 113
token_code at = 114
token_code bang = 115
token_code lparen = 116
token_code rparen = 117
token_code lbrace = 118
token_code rbrace = 119
token_code lbracket = 120
token_code rbracket = 121
token_code comma = 122
token_code colon = 123
token_code semicolon = 124
token_code dot = 125
token_code hash = 126
token_code token_count = 127

-- `a == b` on the enumeration.
unfoldable pub kind_eq : TokenKind → TokenKind → Bool
unfolding token_code
kind_eq a b = token_code a == token_code b

-- `IntBase`.
pub data IntBase : Type 0 where
  dec hex bin oct : IntBase

-- `Span`: byte offsets, the end exclusive.
pub record Span : Type 0 where
  pub start : ℕ
  pub end : ℕ
  pub source_id : ℕ

-- `token_kind_to_str`.
unfoldable pub token_kind_to_str : TokenKind → Bytes
token_kind_to_str eof = codes "EOF"
token_kind_to_str error = codes "ERROR"
token_kind_to_str int_literal = codes "INT"
token_kind_to_str float_literal = codes "FLOAT"
token_kind_to_str string_literal = codes "STRING"
token_kind_to_str raw_string_literal = codes "RAW_STRING"
token_kind_to_str char_literal = codes "CHAR"
token_kind_to_str identifier = codes "IDENT"
token_kind_to_str kw_u8 = codes "u8"
token_kind_to_str kw_u16 = codes "u16"
token_kind_to_str kw_u32 = codes "u32"
token_kind_to_str kw_u64 = codes "u64"
token_kind_to_str kw_i8 = codes "i8"
token_kind_to_str kw_i16 = codes "i16"
token_kind_to_str kw_i32 = codes "i32"
token_kind_to_str kw_i64 = codes "i64"
token_kind_to_str kw_f32 = codes "f32"
token_kind_to_str kw_f64 = codes "f64"
token_kind_to_str kw_bool = codes "bool"
token_kind_to_str kw_char = codes "char"
token_kind_to_str kw_str = codes "str"
token_kind_to_str kw_void = codes "void"
token_kind_to_str kw_usize = codes "usize"
token_kind_to_str kw_isize = codes "isize"
token_kind_to_str kw_fn = codes "fn"
token_kind_to_str kw_let = codes "let"
token_kind_to_str kw_const = codes "const"
token_kind_to_str kw_mut = codes "mut"
token_kind_to_str kw_struct = codes "struct"
token_kind_to_str kw_enum = codes "enum"
token_kind_to_str kw_union = codes "union"
token_kind_to_str kw_type = codes "type"
token_kind_to_str kw_alias = codes "alias"
token_kind_to_str kw_pub = codes "pub"
token_kind_to_str kw_priv = codes "priv"
token_kind_to_str kw_module = codes "module"
token_kind_to_str kw_import = codes "import"
token_kind_to_str kw_static = codes "static"
token_kind_to_str kw_extern = codes "extern"
token_kind_to_str kw_impl = codes "impl"
token_kind_to_str kw_trait = codes "trait"
token_kind_to_str kw_if = codes "if"
token_kind_to_str kw_else = codes "else"
token_kind_to_str kw_match = codes "match"
token_kind_to_str kw_for = codes "for"
token_kind_to_str kw_while = codes "while"
token_kind_to_str kw_loop = codes "loop"
token_kind_to_str kw_break = codes "break"
token_kind_to_str kw_continue = codes "continue"
token_kind_to_str kw_return = codes "return"
token_kind_to_str kw_defer = codes "defer"
token_kind_to_str kw_safe = codes "safe"
token_kind_to_str kw_unsafe = codes "unsafe"
token_kind_to_str kw_asm = codes "asm"
token_kind_to_str kw_volatile = codes "volatile"
token_kind_to_str kw_mmio = codes "mmio"
token_kind_to_str kw_port = codes "port"
token_kind_to_str kw_isr = codes "isr"
token_kind_to_str kw_driver = codes "driver"
token_kind_to_str kw_syscall = codes "syscall"
token_kind_to_str kw_interrupt = codes "interrupt"
token_kind_to_str kw_kernel = codes "kernel"
token_kind_to_str kw_userland = codes "userland"
token_kind_to_str kw_alloc = codes "alloc"
token_kind_to_str kw_free = codes "free"
token_kind_to_str kw_ref = codes "ref"
token_kind_to_str kw_ptr = codes "ptr"
token_kind_to_str kw_own = codes "own"
token_kind_to_str kw_slice = codes "slice"
token_kind_to_str kw_as = codes "as"
token_kind_to_str kw_in = codes "in"
token_kind_to_str kw_is = codes "is"
token_kind_to_str kw_not = codes "not"
token_kind_to_str kw_and = codes "and"
token_kind_to_str kw_or = codes "or"
token_kind_to_str kw_true = codes "true"
token_kind_to_str kw_false = codes "false"
token_kind_to_str kw_null = codes "null"
token_kind_to_str kw_self = codes "self"
token_kind_to_str kw_self_type = codes "Self"
token_kind_to_str plus = codes "+"
token_kind_to_str minus = codes "-"
token_kind_to_str star = codes "*"
token_kind_to_str slash = codes "/"
token_kind_to_str percent = codes "%"
token_kind_to_str amp = codes "&"
token_kind_to_str pipe = codes "|"
token_kind_to_str caret = codes "^"
token_kind_to_str tilde = codes "~"
token_kind_to_str shl = codes "<<"
token_kind_to_str shr = codes ">>"
token_kind_to_str eq_eq = codes "=="
token_kind_to_str not_eq = codes "!="
token_kind_to_str lt = codes "<"
token_kind_to_str gt = codes ">"
token_kind_to_str lt_eq = codes "<="
token_kind_to_str gt_eq = codes ">="
token_kind_to_str eq = codes "="
token_kind_to_str plus_eq = codes "+="
token_kind_to_str minus_eq = codes "-="
token_kind_to_str star_eq = codes "*="
token_kind_to_str slash_eq = codes "/="
token_kind_to_str percent_eq = codes "%="
token_kind_to_str amp_eq = codes "&="
token_kind_to_str pipe_eq = codes "|="
token_kind_to_str caret_eq = codes "^="
token_kind_to_str shl_eq = codes "<<="
token_kind_to_str shr_eq = codes ">>="
token_kind_to_str arrow = codes "->"
token_kind_to_str fat_arrow = codes "=>"
token_kind_to_str dot_dot = codes ".."
token_kind_to_str dot_dot_eq = codes "..="
token_kind_to_str colon_colon = codes "::"
token_kind_to_str question = codes "?"
token_kind_to_str at = codes "@"
token_kind_to_str bang = codes "!"
token_kind_to_str lparen = codes "("
token_kind_to_str rparen = codes ")"
token_kind_to_str lbrace = codes "{"
token_kind_to_str rbrace = codes "}"
token_kind_to_str lbracket = codes "["
token_kind_to_str rbracket = codes "]"
token_kind_to_str comma = codes ","
token_kind_to_str colon = codes ":"
token_kind_to_str semicolon = codes ";"
token_kind_to_str dot = codes "."
token_kind_to_str hash = codes "#"
token_kind_to_str token_count = codes "<unknown>"
