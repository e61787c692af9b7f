-- ===== src/Allocator/Cores.antt =====
-- `alloc` on several cores: each runs the loop of crates/kernel/src/allocator.rs, and their loads and
-- compare-and-exchanges of `next` interleave in any order.
use cyptos.Prelude.{
  ℕ, ◌+◌, ◌^◌, ◌%◌, ◌≤◌, ◌<◌, ◌≡◌, refl, Option, none, some, List, [], ◌∷◌, Bool-cases, inl, inr,
  ltb, ◌==◌, if◌then◌else◌, u64,
}
use cyptos.Allocator.{BumpAllocator, align_up, alloc}

-- What one round makes of the value that it has loaded.
pub data Attempt : Type 0 where
  null lost : Attempt
  taken : ℕ → ℕ → Attempt

unfoldable pub attempt : ℕ → ℕ → ℕ → BumpAllocator → Attempt
attempt size align current a =
    let aligned = align_up current align in
    let new_next = u64 (aligned + size) in
    if ltb a.heap_end new_next
    then null
    else if a.next == current
    then taken aligned new_next
    else lost

-- A core outside `alloc`, before the load of a round, and after it.
pub data Core : Type 0 where
  outside : Core
  called : ℕ → ℕ → Core
  loaded : ℕ → ℕ → ℕ → Core

pub record Block : Type 0 where
  pub start : ℕ
  pub size : ℕ
  pub align : ℕ

-- The allocator, the cores, and the blocks handed out, the last one first.
pub record Heap : Type 0 where
  pub heap : BumpAllocator
  pub cores : ℕ → Core
  pub blocks : List Block

abbrev pub set_core : ℕ → Core → (ℕ → Core) → ℕ → Core
set_core i c cores j = if j == i then c else cores j

-- A power of two, and small enough not to run past the end of the address space.
abbrev pub IsRequest : ℕ → ℕ → ℕ → Type 0
IsRequest heap_end size align =
    (e : ℕ) × (f : ℕ) × (e + f ≡ 64) × (align ≡ 2 ^ e) × (heap_end + align + size < 2 ^ 64)

pub data Step (s : Heap) : Heap → Type 0 where
  call :
      (i size align : ℕ)
      → s.cores i ≡ outside
      → IsRequest s.heap.heap_end size align
      → Step s (record s { cores = set_core i (called size align) s.cores })
  load :
      (i size align : ℕ)
      → s.cores i ≡ called size align
      → Step s (record s { cores = set_core i (loaded size align s.heap.next) s.cores })
  refuse :
      (i size align current : ℕ)
      → s.cores i ≡ loaded size align current
      → attempt size align current s.heap ≡ null
      → Step s (record s { cores = set_core i outside s.cores })
  take :
      (i size align current p next : ℕ)
      → s.cores i ≡ loaded size align current
      → attempt size align current s.heap ≡ taken p next
      → Step s (record {
        heap = record (s.heap) { next = next };
        cores = set_core i outside s.cores;
        blocks = record { start = p; size = size; align = align } ∷ s.blocks;
      })
  lose :
      (i size align current : ℕ)
      → s.cores i ≡ loaded size align current
      → attempt size align current s.heap ≡ lost
      → Step s (record s { cores = set_core i (called size align) s.cores })

-- From an allocator that `init` has set up, with no core in `alloc`.
pub data Reach (heap_start heap_end : ℕ) : Heap → Type 0 where
  start : Reach heap_start heap_end (record {
    heap = record { heap_start = heap_start; heap_end = heap_end; next = heap_start };
    cores = λ i. outside;
    blocks = [];
  })
  later : {s t : Heap} → Reach heap_start heap_end s → Step s t → Reach heap_start heap_end t

abbrev pub All : (Block → Type 0) → List Block → Type 0
All P [] = Unit
All P (b ∷ bs) = P b × All P bs

-- Each block lies above all that were handed out before it.
abbrev pub Separate : List Block → Type 0
Separate [] = Unit
Separate (b ∷ bs) = All (λ c. c.start + c.size ≤ b.start) bs × Separate bs

abbrev pub IsInside : ℕ → ℕ → Block → Type 0
IsInside lo hi b = (lo ≤ b.start) × (b.start + b.size ≤ hi) × (b.start % b.align ≡ 0)

-- A round of `alloc` is an attempt: on what `compare_exchange` finds it returns, or loads again.
abbrev round : BumpAllocator → Option ℕ × BumpAllocator → Attempt → Option ℕ × BumpAllocator
round a again null = (none, a)
round a again lost = again
round a again (taken p next) = (some p, record a { next = next })

pub alloc-attempt :
    (found : ℕ) (others : List ℕ) (size align : ℕ) (a : BumpAllocator)
    → alloc (found ∷ others) size align a
      ≡ round a
          (alloc others size align (record a { next = found }))
          (attempt size align a.next (record a { next = found }))
unfolding alloc attempt
alloc-attempt found others size align a =
    elim (Bool-cases (ltb a.heap_end (u64 (align_up a.next align + size)))) [
      | inl full ↦ rw full refl
      | inr free ↦ elim (Bool-cases (found == a.next)) [
        | inl same ↦ rw (free, same) refl
        | inr other ↦ rw (free, other) refl
      ]
    ]
