-- ===== src/Allocator/Separate.antt =====
-- What several cores are handed out: aligned blocks of the heap that do not overlap.
use native.Mathlib.Nat.{mod-eq_of_lt}
use cyptos.Prelude.{
  ℕ, ◌+◌, ◌^◌, ◌%◌, ◌≤◌, ◌≡◌, refl, sym, ap, ap₂, subst, arith, List, [], ◌∷◌, false, Bool-cases,
  inl, inr, ltb, ◌==◌, u64, ==_iff, ◌∙◌,
}
use cyptos.Allocator.{BumpAllocator, align_up}
use cyptos.Allocator.Blocks.{align_up-IsAligned}
use cyptos.Allocator.Cores.{
  null, lost, taken, attempt, Core, outside, called, loaded, Block, Heap, set_core, IsRequest, Step,
  call, load, refuse, take, lose, Reach, start, later, All, Separate, IsInside,
}

-- The request that a core is at.
abbrev Fits : ℕ → Core → Type 0
Fits heap_end outside = Unit
Fits heap_end (called size align) = IsRequest heap_end size align
Fits heap_end (loaded size align current) = IsRequest heap_end size align

record Inv (heap_start heap_end : ℕ) (s : Heap) : Type 0 where
  start_eq : s.heap.heap_start ≡ heap_start
  end_eq : s.heap.heap_end ≡ heap_end
  low : heap_start ≤ s.heap.next
  high : s.heap.next ≤ heap_end
  inside : All (IsInside heap_start s.heap.next) s.blocks
  separate : Separate s.blocks
  fits : (i : ℕ) → Fits heap_end (s.cores i)

All-map : (P Q : Block → Type 0) (bs : List Block) → ((b : Block) → P b → Q b) → All P bs → All Q bs
All-map P Q [] f h = tt
All-map P Q (b ∷ bs) f (h, hs) = (f b h, All-map P Q bs f hs)

set_core-Fits :
    (heap_end i : ℕ) (c : Core) (cores : ℕ → Core)
    → ((j : ℕ) → Fits heap_end (cores j))
    → Fits heap_end c
    → (j : ℕ) → Fits heap_end (set_core i c cores j)
set_core-Fits heap_end i c cores old new j = elim (Bool-cases (j == i)) [
  | inl same ↦ rw same new
  | inr other ↦ rw other (old j)
]

taken_inj : {p q m n : ℕ} → taken p m ≡ taken q n → (p ≡ q) × (m ≡ n)
taken_inj e = (cc, cc)

-- A block is taken from `next` on, within the heap.
attempt-taken :
    (size align current p next : ℕ) (a : BumpAllocator)
    → IsRequest a.heap_end size align
    → a.next ≤ a.heap_end
    → attempt size align current a ≡ taken p next
    → (a.next ≤ p) × (p % align ≡ 0) × (next ≡ p + size) × (next ≤ a.heap_end)
unfolding attempt
attempt-taken size align current p next a (e, f, h, is, small) high got =
    elim (Bool-cases (ltb a.heap_end (u64 (align_up current align + size)))) [
      | inl full ↦ absurd (cc_of (rw full at got))
      | inr free ↦ elim (Bool-cases (a.next == current)) [
        | inl same ↦
            let here = (==_iff a.next current).0 same in
            let (ep, en) = taken_inj (rw (free, same) at got) in
            let up = align_up-IsAligned current e f h (omega arith) in
            let q : align_up current (2 ^ e) ≡ p = ap (align_up current) (sym is) ∙ ep in
            let sum : u64 (p + size) ≡ p + size = mod-eq_of_lt (omega (arith, up.near)) in
            let fit : ltb a.heap_end next ≡ false = subst (λ n. ltb a.heap_end n ≡ false) en free in
            (
              omega (arith, up.above),
              ap₂ ◌%◌ (sym q) is ∙ up.multiple,
              sym en ∙ (ap (λ (v : ℕ). u64 (v + size)) ep ∙ sum),
              ground arith,
            )
        | inr other ↦ absurd (cc_lost (rw (free, other) at got))
      ]
    ]
  where
    cc_of : null ≡ taken p next → ⊥
    cc_of e = cc

    cc_lost : lost ≡ taken p next → ⊥
    cc_lost e = cc

module _ (heap_start heap_end : ℕ) where
  -- A core moves on and the heap is as it was.
  cores-Inv :
      (s : Heap) (i : ℕ) (c : Core)
      → Inv heap_start heap_end s
      → Fits heap_end c
      → Inv heap_start heap_end (record s { cores = set_core i c s.cores })
  cores-Inv s i c inv new = record {
    start_eq = inv.start_eq;
    end_eq = inv.end_eq;
    low = inv.low;
    high = inv.high;
    inside = inv.inside;
    separate = inv.separate;
    fits = set_core-Fits heap_end i c s.cores inv.fits new;
  }

  Step-Inv : {s t : Heap} → Step s t → Inv heap_start heap_end s → Inv heap_start heap_end t
  Step-Inv {s} (call i size align at request) inv =
      cores-Inv s i (called size align) inv (subst (λ n. IsRequest n size align) inv.end_eq request)
  Step-Inv {s} (load i size align at) inv =
      cores-Inv s i (loaded size align s.heap.next) inv (subst (Fits heap_end) at (inv.fits i))
  Step-Inv {s} (refuse i size align current at got) inv = cores-Inv s i outside inv tt
  Step-Inv {s} (lose i size align current at got) inv =
      cores-Inv s i (called size align) inv (subst (Fits heap_end) at (inv.fits i))
  Step-Inv {s} (take i size align current p next at got) inv =
      let request =
        subst (λ n. IsRequest n size align) (sym inv.end_eq)
          (subst (Fits heap_end) at (inv.fits i)) in
      let (above, multiple, end, fit) =
        attempt-taken size align current p next s.heap request (omega (arith, inv.high, inv.end_eq))
          got in
      record {
        start_eq = inv.start_eq;
        end_eq = inv.end_eq;
        low = omega (arith, inv.low);
        high = omega (arith, inv.end_eq);
        inside = (
          (omega (arith, inv.low), omega arith, multiple),
          All-map (IsInside heap_start s.heap.next) (IsInside heap_start next) s.blocks
              (λ b (lo, hi, m). (lo, omega arith, m)) inv.inside,
        );
        separate = (
          All-map (IsInside heap_start s.heap.next) (λ c. c.start + c.size ≤ p) s.blocks
              (λ b (lo, hi, m). omega arith) inv.inside,
          inv.separate,
        );
        fits = set_core-Fits heap_end i outside s.cores inv.fits tt;
      }

  Reach-Inv :
      {s : Heap} → heap_start ≤ heap_end → Reach heap_start heap_end s → Inv heap_start heap_end s
  Reach-Inv le start = record {
    start_eq = refl;
    end_eq = refl;
    low = omega arith;
    high = le;
    inside = tt;
    separate = tt;
    fits = λ i. tt;
  }
  Reach-Inv le (later r st) = Step-Inv st (Reach-Inv le r)

  -- Any number of cores that allocate on one heap, their loads and compare-and-exchanges interleaved in any order,
  -- each for an alignment of 2 ^ e up to 2 ^ 64 and a heap that ends more than alignment and size below 2 ^ 64:
  -- every block handed out is aligned and lies in the heap, and above all blocks handed out before it.
  pub Reach-Separate :
      (s : Heap)
      → heap_start ≤ heap_end
      → Reach heap_start heap_end s
      → All (IsInside heap_start heap_end) s.blocks × Separate s.blocks
  Reach-Separate s le r =
      let inv = Reach-Inv le r in
      (
        All-map (IsInside heap_start s.heap.next) (IsInside heap_start heap_end) s.blocks
            (λ b (lo, hi, m). (lo, omega (arith, inv.high), m)) inv.inside,
        inv.separate,
      )
