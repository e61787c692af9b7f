-- ===== src/Allocator/Blocks.antt =====
-- What `alloc` hands out: aligned blocks of the heap that do not overlap.
use native.Mathlib.Nat.{mod-eq_of_lt, div-add-mod', mod-lt, div-lt_iff_lt-mul, mul-mod_left}
use mathlib.Core.Path.{subst₂}
use cyptos.Prelude.{
  ℕ, zero, suc, ◌+◌, ◌-◌, ◌*◌, ◌/◌, ◌%◌, ◌^◌, ◌≤◌, ◌<◌, ◌≡◌, refl, ◌∙◌, sym, ap, ap₂, arith,
  bit_and, ltb, ◌==◌, Bool-cases, inl, inr, false, some_inj, not64, u64, bit_and_fields,
  bit_and_mask, bit_and-zero, one-le-pow, pow_add, Option, none, some, List, [], ◌∷◌,
}
use cyptos.Allocator.{BumpAllocator, align_up, alloc}

pred_mul : (a b : ℕ) → 0 < a → (a - 1) * b + b ≡ a * b
pred_mul zero b h = absurd (omega arith)
pred_mul (suc a) b h = grind arith

pow_64 : (e f : ℕ) → e + f ≡ 64 → 2 ^ f * 2 ^ e ≡ 2 ^ 64
pow_64 e f h = let q : f + e ≡ 64 = omega arith in sym (pow_add f e) ∙ ap (λ (t : ℕ). 2 ^ t) q

high_mask : (e f : ℕ) → e + f ≡ 64 → not64 (2 ^ e - 1) ≡ (2 ^ f - 1) * 2 ^ e
high_mask e f h =
    omega
      (arith, pow_64 e f h, one-le-pow e 2, pred_mul (2 ^ f) (2 ^ e) (one-le-pow f 2 (omega arith)))

masked_quotient : (f q : ℕ) → q < 2 ^ f → bit_and q (2 ^ f - 1) ≡ q
masked_quotient f q lt = bit_and_mask f q ∙ mod-eq_of_lt lt

-- `v & !(align - 1)` rounds down to a multiple of the alignment.
mask_low : (e f v : ℕ) → e + f ≡ 64 → v < 2 ^ 64 → bit_and v (not64 (2 ^ e - 1)) ≡ v / 2 ^ e * 2 ^ e
mask_low e f v h lt =
    let pos = one-le-pow e 2 (omega arith) in
    let small : v / 2 ^ e < 2 ^ f = (div-lt_iff_lt-mul pos).1 (rw (pow_64 e f h) lt) in
    let join : (2 ^ f - 1) * 2 ^ e ≡ (2 ^ f - 1) * 2 ^ e + 0 = omega arith in
    ap₂ bit_and (sym (div-add-mod' v (2 ^ e))) (high_mask e f h ∙ join)
    ∙ (bit_and_fields e (v / 2 ^ e) (2 ^ f - 1) (v % 2 ^ e) 0 (mod-lt v pos) pos
        ∙ omega (
          arith,
          ap (λ (t : ℕ). t * 2 ^ e) (masked_quotient f (v / 2 ^ e) small),
          bit_and-zero (v % 2 ^ e),
        ))

-- `align_up` gives the least multiple of the alignment from `current` on.
pub record IsAligned (current align aligned : ℕ) : Type 0 where
  pub multiple : aligned % align ≡ 0
  pub above : current ≤ aligned
  pub near : aligned < current + align

pub align_up-IsAligned :
    (current e f : ℕ)
    → e + f ≡ 64
    → current + 2 ^ e ≤ 2 ^ 64
    → IsAligned current (2 ^ e) (align_up current (2 ^ e))
unfolding align_up
align_up-IsAligned current e f h fits =
    let pos = one-le-pow e 2 (omega arith) in
    let top : u64 (u64 (current + 2 ^ e) + 2 ^ 64 - 1) ≡ current + (2 ^ e - 1) = omega arith in
    let v = current + (2 ^ e - 1) in
    let down : align_up current (2 ^ e) ≡ v / 2 ^ e * 2 ^ e =
      rw top (mask_low e f v h (omega arith)) in
    let e1 = div-add-mod' v (2 ^ e) in
    let e2 = mod-lt v pos in
    record {
      multiple = rw down (mul-mod_left (v / 2 ^ e) (2 ^ e));
      above = omega arith;
      near = omega arith;
    }

-- The values that other cores leave in `next` lie between `lo` and `hi`.
abbrev pub Between : ℕ → ℕ → List ℕ → Type 0
Between lo hi [] = Unit
Between lo hi (v ∷ vs) = (lo ≤ v) × (v ≤ hi) × Between lo hi vs

-- A block of `size` bytes at `p`, from `floor` on and within the heap, which `next` ends up behind.
pub record IsBlock (floor size align p : ℕ) (a a' : BumpAllocator) : Type 0 where
  pub multiple : p % align ≡ 0
  pub above : floor ≤ p
  pub next_eq : a'.next ≡ p + size
  pub inside : p + size ≤ a.heap_end
  pub start_eq : a'.heap_start ≡ a.heap_start
  pub end_eq : a'.heap_end ≡ a.heap_end

pairs :
    {p q : Option ℕ} {a b : BumpAllocator}
    → ◌≡◌ {A = Option ℕ × BumpAllocator} (p, a) (q, b)
    → (p ≡ q) × (a ≡ b)
pairs e = (ap (λ r. r.0) e, ap (λ r. r.1) e)

refused :
    {X : Type 0} (a b : BumpAllocator) (p : ℕ)
    → ◌≡◌ {A = Option ℕ × BumpAllocator} (none, a) (some p, b)
    → X
refused a b p e = let q = ap (λ r. r.0) e in cc

module _ (floor size e f : ℕ) (h : e + f ≡ 64) where
  taken :
      (a : BumpAllocator)
      → floor ≤ a.next
      → a.next ≤ a.heap_end
      → a.heap_end + 2 ^ e + size < 2 ^ 64
      → ltb a.heap_end (u64 (align_up a.next (2 ^ e) + size)) ≡ false
      → IsBlock floor size
          (2 ^ e)
          (align_up a.next (2 ^ e))
          a
          (record a { next = u64 (align_up a.next (2 ^ e) + size) })
  taken a lo hi fits free =
      let up = align_up-IsAligned a.next e f h (omega arith) in
      let sum : u64 (align_up a.next (2 ^ e) + size) ≡ align_up a.next (2 ^ e) + size =
        mod-eq_of_lt (omega (arith, up.near)) in
      record {
        multiple = up.multiple;
        above = omega (arith, up.above);
        next_eq = sum;
        inside = ground arith;
        start_eq = refl;
        end_eq = refl;
      }

  -- For an alignment of 2 ^ e up to 2 ^ 64 and a heap that ends more than alignment and size below 2 ^ 64:
  -- whatever values other cores leave in `next` meanwhile, between the floor and the heap's end, the
  -- block that `alloc` returns is aligned, lies above the floor and in the heap, and `next` is moved
  -- to its end.
  pub alloc-IsBlock :
      (others : List ℕ) (a a' : BumpAllocator) (p : ℕ)
      → floor ≤ a.next
      → a.next ≤ a.heap_end
      → a.heap_end + 2 ^ e + size < 2 ^ 64
      → Between floor a.heap_end others
      → alloc others size (2 ^ e) a ≡ (some p, a')
      → IsBlock floor size (2 ^ e) p a a'
  unfolding alloc
  alloc-IsBlock [] a a' p lo hi fits _ got =
      elim (Bool-cases (ltb a.heap_end (u64 (align_up a.next (2 ^ e) + size)))) [
        | inl full ↦ refused a a' p (rw full at got)
        | inr free ↦
            let (same, state) = pairs (rw free at got) in
            subst₂ (λ q s. IsBlock floor size (2 ^ e) q a s) (some_inj same) state
              (taken a lo hi fits free)
      ]
  alloc-IsBlock (v ∷ others) a a' p lo hi fits (above, below, rest) got =
      elim (Bool-cases (ltb a.heap_end (u64 (align_up a.next (2 ^ e) + size)))) [
        | inl full ↦ refused a a' p (rw full at got)
        | inr free ↦ elim (Bool-cases (v == a.next)) [
          | inl same_next ↦
              let (same, state) = pairs (rw (free, same_next) at got) in
              subst₂ (λ q s. IsBlock floor size (2 ^ e) q a s) (some_inj same) state
                (taken a lo hi fits free)
          | inr lost ↦
              let b =
                alloc-IsBlock others (record a { next = v }) a' p above below fits rest
                  (rw (free, lost) at got) in
              record {
                multiple = b.multiple;
                above = b.above;
                next_eq = b.next_eq;
                inside = b.inside;
                start_eq = b.start_eq;
                end_eq = b.end_eq;
              }
        ]
      ]
