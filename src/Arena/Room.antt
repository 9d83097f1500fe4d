-- ===== src/Arena/Room.antt =====
-- What is taken of an arena of compiler/include/qpc/common.h, and the room for one more allocation.
use q.Arena.{Arena, Allocation, arena_block_size, arena_init, align_size, make_room}
use q.Common.{
  ℕ, ◌+◌, ◌%◌, ◌≤◌, ◌<◌, ◌^◌, List, [], ◌∷◌, u64_mod, ltb, ltb_false→le, ◌≡◌, ◌≢◌, ◌⊎◌, inl, inr,
  refl, arith, length, Bool-cases, if◌then◌else◌,
}

-- The sizes that are assumed: a request of half the address space is an error elsewhere.
abbrev pub size_limit : ℕ
size_limit = 2 ^ 62

pub record IsArena (arena : Arena) : Type 0 where
  pub inside : arena.current.used ≤ arena.current.capacity
  pub aligned : arena.current.used % 8 ≡ 0
  pub bounded : arena.current.capacity ≤ 2 ^ 63

pub arena_init-IsArena : IsArena arena_init
arena_init-IsArena = record { inside = omega arith; aligned = refl; bounded = omega arith }

-- An allocation in the part of the arena that is taken.
pub data IsTaken (arena : Arena) (p : Allocation) : Type 0 where
  in_earlier : p.block < length arena.earlier → IsTaken arena p
  in_current :
      p.block ≡ length arena.earlier → p.offset + p.size ≤ arena.current.used → IsTaken arena p

-- Two allocations in different blocks, or one behind the other.
abbrev pub Disjoint : Allocation → Allocation → Type 0
Disjoint p q =
    (p.block ≢ q.block) ⊎ ((p.offset + p.size ≤ q.offset) ⊎ (q.offset + q.size ≤ p.offset))

abbrev pub AllDisjoint : Allocation → List Allocation → Type 0
AllDisjoint p [] = Unit
AllDisjoint p (q ∷ taken) = Disjoint p q × AllDisjoint p taken

abbrev pub PairwiseDisjoint : List Allocation → Type 0
PairwiseDisjoint [] = Unit
PairwiseDisjoint (p ∷ taken) = AllDisjoint p taken × PairwiseDisjoint taken

abbrev pub AllTaken : Arena → List Allocation → Type 0
AllTaken arena [] = Unit
AllTaken arena (p ∷ taken) = IsTaken arena p × AllTaken arena taken

abbrev pub AllSmall : List ℕ → Type 0
AllSmall [] = Unit
AllSmall (size ∷ sizes) = (size ≤ size_limit) × AllSmall sizes

pub align_size_bounds :
    (size : ℕ)
    → size ≤ size_limit
    → (size ≤ align_size size) × (align_size size < size + 8) × (align_size size % 8 ≡ 0)
unfolding align_size
align_size_bounds size h = (omega arith, omega arith, omega arith)

-- There is room in the block that is current then.
pub make_room-fits :
    (arena : Arena) (size : ℕ)
    → IsArena arena
    → size ≤ size_limit + 7
    → IsArena (make_room arena size)
      × ((make_room arena size).current.used + size ≤ (make_room arena size).current.capacity)
unfolding make_room
make_room-fits arena size h k =
    elim (Bool-cases (ltb arena.current.capacity ((arena.current.used + size) % u64_mod))) [
      | inl e ↦ rw e (new_block size k)
      | inr e ↦ rw e (
        h,
        omega (
          arith,
          h.inside,
          h.bounded,
          ltb_false→le arena.current.capacity ((arena.current.used + size) % u64_mod) e,
        ),
      )
    ]
  where
    new_block :
        (n : ℕ)
        → n ≤ size_limit + 7
        → IsArena (record {
          current = record {
            used = 0;
            capacity = if ltb n arena_block_size then arena_block_size else n;
          };
          earlier = arena.current ∷ arena.earlier;
        })
          × (0 + n ≤ (if ltb n arena_block_size then arena_block_size else n))
    new_block n q =
        (record { inside = ground arith; aligned = refl; bounded = ground arith }, ground arith)

pub make_room-IsTaken :
    (arena : Arena) (size : ℕ) (p : Allocation) → IsTaken arena p → IsTaken (make_room arena size) p
unfolding make_room
make_room-IsTaken arena size p h =
    elim (Bool-cases (ltb arena.current.capacity ((arena.current.used + size) % u64_mod))) [
      | inl e ↦ rw e (in_earlier (block_below p h))
      | inr e ↦ rw e h
    ]
  where
    block_below :
        (q : Allocation) → IsTaken arena q → q.block < length (arena.current ∷ arena.earlier)
    block_below q (in_earlier k) = omega (arith, k)
    block_below q (in_current k l) = omega (arith, k)
