-- ===== src/Allocator/Room.antt =====
-- When `alloc` succeeds on one hart, and where the block lies.
use native.Mathlib.Nat.{mod-eq_of_lt}
use cyptos.Prelude.{ℕ, ◌+◌, ◌^◌, ◌≤◌, ◌<◌, ◌≡◌, arith, none, some, [], u64}
use cyptos.Allocator.{BumpAllocator, align_up, alloc}
use cyptos.Allocator.Blocks.{IsAligned, align_up-IsAligned}

-- With no other core, an alignment of 2 ^ e up to 2 ^ 64 and a heap that ends more than alignment and size
-- below 2 ^ 64: the allocation succeeds exactly if the next aligned block ends within the heap, gives that
-- block, which is less than one alignment above `next`, and otherwise changes nothing.
pub alloc-exact :
    (size e f : ℕ) (a : BumpAllocator)
    → e + f ≡ 64
    → a.next ≤ a.heap_end
    → a.heap_end + 2 ^ e + size < 2 ^ 64
    → (p : ℕ) × IsAligned a.next (2 ^ e) p
      × (p + size ≤ a.heap_end → alloc [] size (2 ^ e) a ≡ (some p, record a { next = p + size }))
      × (a.heap_end < p + size → alloc [] size (2 ^ e) a ≡ (none, a))
unfolding alloc
alloc-exact size e f a h le fits =
    let up = align_up-IsAligned a.next e f h (omega arith) in
    let sum : u64 (align_up a.next (2 ^ e) + size) ≡ align_up a.next (2 ^ e) + size =
      mod-eq_of_lt (omega (arith, up.near)) in
    (align_up a.next (2 ^ e), up, λ room. rw sum (ground arith), λ full. rw sum (ground arith))
