-- ===== src/Arena.antt =====
-- The arena of compiler/include/qpc/common.h: blocks that are filled from the front. A pointer is a
-- block's number and an offset in it; `malloc` is taken to succeed, and a block's bytes are not kept.
pub mod Room
pub mod Disjoint
use q.Common.{ℕ, ◌+◌, ◌*◌, ◌/◌, ◌%◌, List, [], ◌∷◌, u64_mod, ltb, length, if◌then◌else◌}

abbrev pub arena_block_size : ℕ
arena_block_size = 1024 * 1024

-- `ArenaBlock`; `next` is the order of the blocks.
pub record ArenaBlock : Type 0 where
  pub used : ℕ
  pub capacity : ℕ

-- `Arena`: `current`, and the blocks before it back to `first`.
pub record Arena : Type 0 where
  pub current : ArenaBlock
  pub earlier : List ArenaBlock

-- What `arena_alloc` returns, with the aligned size that it has taken.
pub record Allocation : Type 0 where
  pub block : ℕ
  pub offset : ℕ
  pub size : ℕ

-- `arena_init`.
abbrev pub arena_init : Arena
arena_init = record { current = record { used = 0; capacity = arena_block_size }; earlier = [] }

-- `(size + 7) & ~7` on a usize.
unfoldable pub align_size : ℕ → ℕ
align_size size = (size + 7) % u64_mod / 8 * 8

-- The test, and the new block.
unfoldable pub make_room : Arena → ℕ → Arena
make_room arena size =
    if ltb arena.current.capacity ((arena.current.used + size) % u64_mod)
    then record {
      current = record {
        used = 0;
        capacity = if ltb size arena_block_size then arena_block_size else size;
      };
      earlier = arena.current ∷ arena.earlier;
    }
    else arena

unfoldable pub take_front : Arena → ℕ → Allocation × Arena
take_front arena size = (
  record { block = length arena.earlier; offset = arena.current.used; size = size },
  record arena { current = record arena.current { used = (arena.current.used + size) % u64_mod } },
)

-- `arena_alloc`.
unfoldable pub arena_alloc : Arena → ℕ → Allocation × Arena
arena_alloc arena size = take_front (make_room arena (align_size size)) (align_size size)

-- The calls of `arena_alloc` for a sequence of sizes; the newest allocation is the first.
unfoldable pub alloc_each : Arena → List ℕ → List Allocation → List Allocation × Arena
alloc_each arena [] taken = (taken, arena)
alloc_each arena (size ∷ sizes) taken =
    alloc_each (arena_alloc arena size).1 sizes ((arena_alloc arena size).0 ∷ taken)
