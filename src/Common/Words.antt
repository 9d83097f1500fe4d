-- ===== src/Common/Words.antt =====
-- Fixed-width unsigned integers, with their wrap-around, and the bytes of an ASCII literal.
use Prim.Native.Char.{code}
use Prim.Native.Nat.{ℕ, ◌+◌, ◌-◌, ◌%◌, ◌^◌}
use Prim.Native.String.{String}
use mathlib.Core.List.{List, [], ◌∷◌}

abbrev pub u32_mod : ℕ
u32_mod = 2 ^ 32

abbrev pub u64_mod : ℕ
u64_mod = 2 ^ 64

-- `x++` on a u32.
abbrev pub u32_inc : ℕ → ℕ
u32_inc x = (x + 1) % u32_mod

-- `a - b` on u32 values.
abbrev pub u32_sub : ℕ → ℕ → ℕ
u32_sub a b = (a + u32_mod - b) % u32_mod

abbrev pub codes : String → List ℕ
codes String.[] = []
codes (String.◌∷◌ c s) = code c ∷ codes s
