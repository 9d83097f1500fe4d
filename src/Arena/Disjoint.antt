-- ===== src/Arena/Disjoint.antt =====
-- The allocations of compiler/include/qpc/common.h lie inside their blocks and do not overlap.
use q.Arena.{
  Arena, Allocation, arena_init, align_size, make_room, take_front, arena_alloc, alloc_each,
}
use q.Common.{ℕ, ◌+◌, ◌%◌, ◌≤◌, List, [], ◌∷◌, ◌≡◌, inl, inr, refl, arith, length}
use q.Arena.Room.{
  size_limit, IsArena, arena_init-IsArena, IsTaken, in_earlier, in_current, Disjoint, AllDisjoint,
  PairwiseDisjoint, AllTaken, AllSmall, align_size_bounds, make_room-fits, make_room-IsTaken,
}

-- The allocation that is taken from the front of the room.
module _ (arena : Arena) (size : ℕ) (h : IsArena arena) (aligned : size % 8 ≡ 0)
    (fits : arena.current.used + size ≤ arena.current.capacity) where
  take_front-IsArena : IsArena (take_front arena size).1
  unfolding take_front
  take_front-IsArena = record {
    inside = omega (arith, h.bounded);
    aligned = omega (arith, h.aligned, h.bounded);
    bounded = h.bounded;
  }

  take_front-IsTaken : IsTaken (take_front arena size).1 (take_front arena size).0
  unfolding take_front
  take_front-IsTaken = in_current refl (omega (arith, h.bounded))

  take_front-keeps : (p : Allocation) → IsTaken arena p → IsTaken (take_front arena size).1 p
  unfolding take_front
  take_front-keeps p (in_earlier k) = in_earlier k
  take_front-keeps p (in_current k l) = in_current k (omega (arith, h.bounded))

  take_front-Disjoint : (p : Allocation) → IsTaken arena p → Disjoint (take_front arena size).0 p
  unfolding take_front
  take_front-Disjoint p (in_earlier k) = inl (λ e. omega (arith, k, e))
  take_front-Disjoint p (in_current k l) = inr (inr l)

-- What one call of `arena_alloc` gives.
pub record Allocated (arena : Arena) (size : ℕ) (p : Allocation) (after : Arena) : Type 0 where
  pub large : size ≤ p.size
  pub at_8 : p.offset % 8 ≡ 0
  pub in_block : p.block ≡ length after.earlier
  pub in_bounds : p.offset + p.size ≤ after.current.capacity
  pub kept : (q : Allocation) → IsTaken arena q → IsTaken after q
  pub apart : (q : Allocation) → IsTaken arena q → Disjoint p q
  pub taken : IsTaken after p
  pub still : IsArena after

-- `arena_alloc` in an arena in order, for at most 2 ^ 62 bytes: the allocation is large enough, starts
-- at a multiple of 8, lies inside the block that is current afterwards, and overlaps nothing that was
-- taken before, which all stays taken; the arena stays in order.
pub arena_alloc-Allocated :
    (arena : Arena) (size : ℕ)
    → IsArena arena
    → size ≤ size_limit
    → Allocated arena size (arena_alloc arena size).0 (arena_alloc arena size).1
unfolding arena_alloc take_front
arena_alloc-Allocated arena size h k =
    let n = align_size size in
    let a = align_size_bounds size k in
    let room = make_room-fits arena n h (omega (arith, a.1)) in
    record {
      large = a.0;
      at_8 = room.0.aligned;
      in_block = refl;
      in_bounds = room.1;
      kept = λ q t.
          take_front-keeps (make_room arena n) n room.0 a.2 room.1 q
            (make_room-IsTaken arena n q t);
      apart = λ q t.
          take_front-Disjoint (make_room arena n) n room.0 a.2 room.1 q
            (make_room-IsTaken arena n q t);
      taken = take_front-IsTaken (make_room arena n) n room.0 a.2 room.1;
      still = take_front-IsArena (make_room arena n) n room.0 a.2 room.1;
    }

AllTaken-kept :
    (a b : Arena) (taken : List Allocation)
    → ((q : Allocation) → IsTaken a q → IsTaken b q)
    → AllTaken a taken
    → AllTaken b taken
AllTaken-kept a b [] f h = tt
AllTaken-kept a b (p ∷ taken) f h = (f p h.0, AllTaken-kept a b taken f h.1)

AllTaken-AllDisjoint :
    (a : Arena) (p : Allocation) (taken : List Allocation)
    → ((q : Allocation) → IsTaken a q → Disjoint p q)
    → AllTaken a taken
    → AllDisjoint p taken
AllTaken-AllDisjoint a p [] f h = tt
AllTaken-AllDisjoint a p (q ∷ taken) f h = (f q h.0, AllTaken-AllDisjoint a p taken f h.1)

alloc_each-Disjoint :
    (arena : Arena) (sizes : List ℕ) (taken : List Allocation)
    → IsArena arena
    → AllSmall sizes
    → AllTaken arena taken
    → PairwiseDisjoint taken
    → PairwiseDisjoint (alloc_each arena sizes taken).0
unfolding alloc_each
alloc_each-Disjoint arena [] taken h small t d = d
alloc_each-Disjoint arena (size ∷ sizes) taken h small t d =
    let r = arena_alloc-Allocated arena size h small.0 in
    alloc_each-Disjoint (arena_alloc arena size).1 sizes ((arena_alloc arena size).0 ∷ taken)
      r.still small.1 (r.taken, AllTaken-kept arena (arena_alloc arena size).1 taken r.kept t)
      (AllTaken-AllDisjoint arena (arena_alloc arena size).0 taken r.apart t, d)

-- Whatever sizes of at most 2 ^ 62 bytes are allocated from a fresh arena, one after the other, no two
-- of the allocations overlap.
pub alloc_each-PairwiseDisjoint :
    (sizes : List ℕ) → AllSmall sizes → PairwiseDisjoint (alloc_each arena_init sizes []).0
alloc_each-PairwiseDisjoint sizes small =
    alloc_each-Disjoint arena_init sizes [] arena_init-IsArena small tt tt
