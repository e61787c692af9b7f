-- ===== src/Allocator.antt =====
-- crates/kernel/src/allocator.rs: the bump allocator, over 64-bit addresses.
pub mod Blocks
pub mod Room
pub mod Cores
pub mod Separate
use cyptos.Prelude.{
  ℕ, ◌+◌, ◌-◌, ◌^◌, List, [], ◌∷◌, Option, none, some, bit_and, not64, u64, ltb, ◌==◌,
  if◌then◌else◌,
}

pub record BumpAllocator : Type 0 where
  pub heap_start : ℕ
  pub heap_end : ℕ
  pub next : ℕ

unfoldable pub new : BumpAllocator
new = record { heap_start = 0; heap_end = 0; next = 0 }

unfoldable pub init : ℕ → ℕ → BumpAllocator → BumpAllocator
init heap_start heap_end a = record {
  heap_start = heap_start;
  heap_end = heap_end;
  next = heap_start;
}

-- `(current + align - 1) & !(align - 1)`.
unfoldable pub align_up : ℕ → ℕ → ℕ
align_up current align = bit_and (u64 (u64 (current + align) + 2 ^ 64 - 1)) (not64 (align - 1))

-- The loop of `alloc`. Each entry of the list is the value that one `compare_exchange` finds in
-- `next`; once the list has run out, it finds what was loaded. `none` is the null pointer.
unfoldable pub alloc : List ℕ → ℕ → ℕ → BumpAllocator → Option ℕ × BumpAllocator
unfolding align_up
alloc [] size align a =
    let aligned = align_up a.next align in
    let new_next = u64 (aligned + size) in
    if ltb a.heap_end new_next then (none, a) else (some aligned, record a { next = new_next })
alloc (found ∷ others) size align a =
    let current = a.next in
    let aligned = align_up current align in
    let new_next = u64 (aligned + size) in
    let again = alloc others size align (record a { next = found }) in
    if ltb a.heap_end new_next
    then (none, a)
    else if found == current
    then (some aligned, record a { next = new_next })
    else again

unfoldable pub dealloc : ℕ → BumpAllocator → BumpAllocator
dealloc ptr a = a
