-- ===== src/Examples/Memory.antt =====
-- The theorems on the arena at small requests.
use q.Arena.Disjoint.{Allocated, arena_alloc-Allocated, alloc_each-PairwiseDisjoint}
use q.Arena.Room.{PairwiseDisjoint, arena_init-IsArena}
use q.Arena.{align_size, make_room, take_front, arena_init, arena_alloc, alloc_each}
use q.Common.{[], ◌∷◌, ◌≡◌, refl, arith}

arena_alloc-Allocated_example :
    Allocated arena_init 21 (arena_alloc arena_init 21).0 (arena_alloc arena_init 21).1
arena_alloc-Allocated_example = arena_alloc-Allocated arena_init 21 arena_init-IsArena (omega arith)

alloc_each-PairwiseDisjoint_example :
    PairwiseDisjoint (alloc_each arena_init (21 ∷ 2000000 ∷ 8 ∷ []) []).0
alloc_each-PairwiseDisjoint_example =
    alloc_each-PairwiseDisjoint (21 ∷ 2000000 ∷ 8 ∷ [])
      (omega arith, (omega arith, (omega arith, tt)))

-- The second request does not fit in the first block.
alloc_each_blocks :
    (alloc_each arena_init (21 ∷ 2000000 ∷ 8 ∷ []) []).0
    ≡ record { block = 2; offset = 0; size = 8 }
      ∷ record { block = 1; offset = 0; size = 2000000 }
      ∷ record { block = 0; offset = 0; size = 24 }
      ∷ []
unfolding arena_alloc align_size make_room take_front alloc_each
alloc_each_blocks = refl
