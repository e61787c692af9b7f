-- ===== src/Tests/Cores.antt =====
-- Two cores that load the same `next`: the first takes its block, the second loses its round and takes the block
-- above.
use cyptos.Prelude.{ℕ, ◌<◌, refl, arith, List, [], ◌∷◌}
use cyptos.Allocator.{align_up}
use cyptos.Allocator.Cores.{
  Core, outside, called, loaded, attempt, Block, Heap, set_core, IsRequest, call, load, take, lose,
  Reach, start, later, All, Separate, IsInside,
}
use cyptos.Allocator.Separate.{Reach-Separate}

abbrev low : ℕ
low = 0x8030_0004

abbrev high : ℕ
high = 0x8040_0000

request : (size : ℕ) → size < 0x1_0000 → IsRequest high size 16
request size small = (4, 60, refl, refl, omega arith)

abbrev heap_at : ℕ → (ℕ → Core) → List Block → Heap
heap_at next cores blocks = record {
  heap = record { heap_start = low; heap_end = high; next = next };
  cores = cores;
  blocks = blocks;
}

abbrev none_in : ℕ → Core
none_in i = outside

-- Both have loaded.
abbrev both : ℕ → Core
both =
    set_core 1 (loaded 40 16 low) (
      set_core 1 (called 40 16) (set_core 0 (loaded 24 16 low) (set_core 0 (called 24 16) none_in)))

race : Reach low high (heap_at low both [])
race =
    later
      (later
        (later (later start (call 0 24 16 refl (request 24 (omega arith)))) (load 0 24 16 refl))
        (call 1 40 16 refl (request 40 (omega arith))))
      (load 1 40 16 refl)

abbrev first : Block
first = record { start = 0x8030_0010; size = 24; align = 16 }

abbrev second : Block
second = record { start = 0x8030_0030; size = 40; align = 16 }

abbrev lost_round : ℕ → Core
lost_round = set_core 1 (called 40 16) (set_core 0 outside both)

taken_both : Reach low high (
    heap_at 0x8030_0058
      (set_core 1 outside (set_core 1 (loaded 40 16 0x8030_0028) lost_round))
      (second ∷ first ∷ []))
unfolding attempt align_up
taken_both =
    later
      (later
        (later (later race (take 0 24 16 low 0x8030_0010 0x8030_0028 refl refl))
          (lose 1 40 16 low refl refl))
        (load 1 40 16 refl))
      (take 1 40 16 0x8030_0028 0x8030_0030 0x8030_0058 refl refl)

Reach-Separate_example :
    All (IsInside low high) (second ∷ first ∷ []) × Separate (second ∷ first ∷ [])
Reach-Separate_example = Reach-Separate low high _ (omega arith) taken_both
