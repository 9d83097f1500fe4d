-- ===== src/Codegen/Writer.antt =====
-- `CWriter` of compiler/include/qpc/codegen.h and its operations (the head of compiler/src/codegen.c).
use q.Common.{
  ℕ, zero, suc, ◌+◌, ◌-◌, ◌*◌, ◌%◌, [], ◌∷◌, ◌++◌, Bytes, codes, leb, length, take, u64_mod,
  if◌then◌else◌,
}

-- `CWriter`. `buf` holds the bytes before the terminator, so that `len` is its length; of the memory
-- that it points to, only the size `cap` is kept.
pub record CWriter : Type 0 where
  pub buf : Bytes
  pub cap : ℕ
  pub indent : ℕ

-- What a C string holds: the bytes before the first 0.
unfoldable pub c_string : Bytes → Bytes
c_string [] = []
c_string (zero ∷ bs) = []
c_string (suc b ∷ bs) = suc b ∷ c_string bs

-- `cw_init`.
unfoldable pub cw_init : CWriter
cw_init = record { buf = []; cap = 65536; indent = 0 }

-- `cw_ensure`, on a 64-bit usize.
unfoldable pub cw_ensure : ℕ → CWriter → CWriter
cw_ensure n w =
    if leb w.cap (length w.buf + n + 1) then record w { cap = ((w.cap + n) * 2) % u64_mod } else w

-- The `memcpy` behind what was written.
abbrev pub append : Bytes → CWriter → CWriter
append text w = record w { buf = w.buf ++ text }

-- `cw_write`.
unfoldable pub cw_write : Bytes → CWriter → CWriter
cw_write s w = append (c_string s) (cw_ensure (length (c_string s)) w)

-- `cw_writef` on the formatted text, of which `vsnprintf` keeps what fits in 1024 bytes with the
-- terminator.
unfoldable pub cw_writef : Bytes → CWriter → CWriter
cw_writef text w = cw_write (take 1023 text) w

-- The loop of `cw_nl`.
abbrev pub write_indent : ℕ → CWriter → CWriter
write_indent zero w = w
write_indent (suc n) w = write_indent n (cw_write (codes "    ") w)

-- `cw_nl`.
unfoldable pub cw_nl : CWriter → CWriter
cw_nl w = write_indent w.indent (cw_write (10 ∷ []) w)

-- `cw_writeln`.
unfoldable pub cw_writeln : Bytes → CWriter → CWriter
cw_writeln s w = cw_nl (cw_write s w)

-- `cw_indent` and `cw_dedent`, whose counter stays at 0.
unfoldable pub cw_indent : CWriter → CWriter
cw_indent w = record w { indent = w.indent + 1 }

unfoldable pub cw_dedent : CWriter → CWriter
cw_dedent w = record w { indent = w.indent - 1 }
