-- ===== src/Pmp/Restore.antt =====
-- A saved configuration, loaded again: `save_current_config` and `load_task_config` of crates/kernel/src/pmp.rs.
use cyptos.Prelude.{
  ℕ, zero, suc, ◌+◌, ◌*◌, ◌%◌, ◌^◌, ◌<◌, ◌≤◌, ◌≡◌, ◌⊎◌, inl, inr, refl, sym, ◌∙◌, ap, ap₂, arith,
  false, List, [], ◌∷◌, is_power_of_two, bit_and, bit_or, bit_or_fields, bit_or-zero, ◌==◌, ==_ne,
  ==_iff, if◌then◌else◌,
}
use cyptos.Config.{pmp_count}
use cyptos.Pmp.{Loading, disable_task_entries, load_entry, load_entries, load_task_config}
use cyptos.Pmp.Region.{PmpRegion, new, napot_addr, a_napot}
use cyptos.Pmp.Hart.{PmpRegs, PmpHart, cfg}
use cyptos.Pmp.Access.{Access, matches, permits_from, user_permits}
use cyptos.Pmp.Load.{
  IsInstalled, IsGrant, IsTaskConfig, IsOpen, region_at, entry_byte, entry_addr, entry_addr_lt,
  napot_flags, load_task_config-IsInstalled,
}
use cyptos.Pmp.Isolation.{task_permits, task_entries, kernel_same}
use cyptos.Pmp.Save.{save_current_config, region_at-save_current_config}

-- What a region comes back as: one that is off as a grant of nothing, over the first 8 bytes.
abbrev filled : PmpRegion → PmpRegion
filled region = if region.size == 0 then new 0 8 0 else region

abbrev filled_list : List PmpRegion → ℕ → ℕ → List PmpRegion
filled_list regions zero idx = []
filled_list regions (suc left) idx =
    filled (region_at regions idx) ∷ filled_list regions left (idx + 1)

region_at-filled :
    (regions : List PmpRegion) (left idx i : ℕ)
    → i < left
    → region_at (filled_list regions left idx) i ≡ filled (region_at regions (idx + i))
region_at-filled regions zero idx i lt = absurd (omega arith)
region_at-filled regions (suc left) idx zero lt =
    ap (λ j. filled (region_at regions j)) (omega arith)
region_at-filled regions (suc left) idx (suc i) lt =
    region_at-filled regions left (idx + 1) i (omega arith)
    ∙ ap (λ j. filled (region_at regions j)) (omega arith)

filled_off : (region : PmpRegion) → region.size ≡ 0 → filled region ≡ new 0 8 0
filled_off region off = rw ((==_iff region.size 0).1 off) refl

filled_on : (region : PmpRegion) → IsGrant region → filled region ≡ region
filled_on region g = rw (==_ne region.size 0 (λ z. absurd (omega (arith, g.shape.least)))) refl

nothing-IsGrant : IsGrant (new 0 8 0)
unfolding is_power_of_two
nothing-IsGrant = record {
  small = omega arith;
  legal = λ e. refl;
  shape = record { power = refl; least = omega arith; aligned = refl; within = omega arith };
}

-- Regions that `load_task_config` does not tell apart.
record Alike (r s : PmpRegion) : Type 0 where
  size_eq : (r.size == 0) ≡ (s.size == 0)
  addr_eq : napot_addr r ≡ napot_addr s
  byte_eq : bit_or r.flags a_napot ≡ bit_or s.flags a_napot

-- An entry saved is like the region that it was loaded from.
again_addr : (n c : ℕ) → n < 2 ^ 54 → napot_addr (new (n * 4 % 2 ^ 64) 8 c) ≡ n
unfolding napot_addr
again_addr n c lt = omega arith

again_flags : (f : ℕ) → f < 8 → bit_or (f + 24) a_napot ≡ f + 24
again_flags f lt = ground (arith, bit_or_fields 3 3 3 f 0 lt, bit_or-zero f)

saved-Alike :
    (region : PmpRegion)
    → (region.size ≡ 0) ⊎ IsGrant region
    → Alike (new (entry_addr region * 4 % 2 ^ 64) 8 (entry_byte region)) (filled region)
saved-Alike region (inl off) =
    let e = (==_iff region.size 0).1 off in
    rw e (record { size_eq = refl; addr_eq = refl; byte_eq = refl })
saved-Alike region (inr g) =
    let e : (region.size == 0) ≡ false =
      ==_ne region.size 0 (λ z. absurd (omega (arith, g.shape.least))) in
    let size = rw e at (entry_addr_lt region (inr g)) in
    rw e (record {
      size_eq = sym e;
      addr_eq = again_addr (napot_addr region) (region.flags + 24) size;
      byte_eq = again_flags region.flags g.small ∙ sym (napot_flags region.flags g.small);
    })

module _ (hart : PmpHart) (r s : List PmpRegion) where
  load_entry-Alike :
      (idx : ℕ) (l : Loading)
      → Alike (region_at r idx) (region_at s idx)
      → load_entry hart r idx l ≡ load_entry hart s idx l
  unfolding load_entry
  load_entry-Alike idx l alike = rw (alike.size_eq, alike.addr_eq, alike.byte_eq) refl

  load_entries-Alike :
      (left idx : ℕ) (l : Loading)
      → 4 ≤ idx
      → idx + left ≤ 16
      → ((i : ℕ) → 4 ≤ i → i < 16 → Alike (region_at r i) (region_at s i))
      → load_entries hart r left idx l ≡ load_entries hart s left idx l
  unfolding load_entries
  load_entries-Alike zero idx l lo hi alike = refl
  load_entries-Alike (suc left) idx l lo hi alike =
      ap (load_entries hart r left (idx + 1)) (load_entry-Alike idx l (alike idx lo (omega arith)))
      ∙ load_entries-Alike left (idx + 1) _ (omega arith) (omega arith) alike

  -- Tasks that are alike from entry 4 on are loaded alike.
  load_task_config-Alike :
      (regs : PmpRegs)
      → ((i : ℕ) → 4 ≤ i → i < 16 → Alike (region_at r i) (region_at s i))
      → load_task_config hart r regs ≡ load_task_config hart s regs
  unfolding load_task_config
  load_task_config-Alike regs alike =
      ap finish (load_entries-Alike 12 4 start (omega arith) (omega arith) alike)
    where
      start : Loading
      start = record { regs = disable_task_entries hart regs; task_cfg0_high = 0; cfg2 = 0 }

      finish : Loading → PmpRegs
      finish l =
          hart.csrw_cfg2 l.cfg2
            (hart.csrw_cfg0 (bit_or (bit_and regs.cfg0 0xffff_ffff) l.task_cfg0_high) l.regs)

abbrev refilled : List PmpRegion → List PmpRegion
refilled regions = filled_list regions pmp_count 0

module _ (regions : List PmpRegion) (valid : IsTaskConfig regions) where
  refilled_at : (i : ℕ) → i < 16 → region_at (refilled regions) i ≡ filled (region_at regions i)
  refilled_at i lt =
      region_at-filled regions 16 0 i lt ∙ ap (λ j. filled (region_at regions j)) (omega arith)

  saved_at :
      (before after : PmpRegs) (i : ℕ)
      → IsInstalled regions before after
      → 4 ≤ i
      → i < 16
      → Alike (region_at (save_current_config after) i) (region_at (refilled regions) i)
  saved_at before after i h lo hi =
      let saved =
        region_at-save_current_config after i hi
        ∙ ap₂ (λ (a : ℕ) c. new (a * 4 % 2 ^ 64) 8 c) (h.task_addr i lo hi) (h.task_cfg i lo hi) in
      rw (saved, refilled_at i hi) (saved-Alike (region_at regions i) (valid i lo hi))

  filled-IsTaskConfig : IsTaskConfig (refilled regions)
  filled-IsTaskConfig i lo hi = rw (refilled_at i hi) (elim (valid i lo hi) [
    | inl off ↦ rw (filled_off (region_at regions i) off) (inr nothing-IsGrant)
    | inr g ↦ rw (filled_on (region_at regions i) g) (inr g)
  ])

  filled_permits :
      (access : Access) (a left i : ℕ)
      → 8 ≤ a
      → 4 ≤ i
      → i + left ≤ 16
      → task_permits (refilled regions) access a left i ≡ task_permits regions access a left i
  filled_permits access a zero i high lo hi = refl
  filled_permits access a (suc left) i high lo hi =
      let rest = filled_permits access a left (i + 1) high (omega arith) (omega arith) in
      rw (rest, refilled_at i (omega arith))
        (elim (valid i lo (omega arith)) [
          | inl off ↦ rw (filled_off (region_at regions i) off) (ground (arith, off))
          | inr g ↦ rw (filled_on (region_at regions i) g) refl
        ])

-- Registers that agree on entries 0 to 3 and on what the others decide.
permits_same :
    (x y : PmpRegs) (access : Access) (a : ℕ)
    → ((i : ℕ) → i < 4 → (matches x i a ≡ matches y i a) × (cfg x i ≡ cfg y i))
    → permits_from x access a 12 4 ≡ permits_from y access a 12 4
    → user_permits x access a ≡ user_permits y access a
unfolding user_permits permits_from
permits_same x y access a kernel rest =
    step 15 0 (omega arith)
      (step 14 1 (omega arith) (step 13 2 (omega arith) (step 12 3 (omega arith) rest)))
  where
    step :
        (left i : ℕ)
        → i < 4
        → permits_from x access a left (i + 1) ≡ permits_from y access a left (i + 1)
        → permits_from x access a (suc left) i ≡ permits_from y access a (suc left) i
    step left i lt rest = let (m, c) = kernel i lt in rw (m, c, rest) refl

-- A task's configuration that is saved and loaded again: from address 8 on U-mode may do exactly what it may when
-- the task itself is loaded, for a task whose regions are off or NAPOT grants, on any hart whose task entries are
-- not locked and whose kernel entries hold legal bytes.
pub user_permits-save_current_config :
    (hart : PmpHart) (regions : List PmpRegion) (before after now : PmpRegs) (access : Access)
    (a : ℕ)
    → IsTaskConfig regions
    → IsInstalled regions before after
    → IsOpen now
    → 8 ≤ a
    → user_permits (load_task_config hart (save_current_config after) now) access a
      ≡ user_permits (load_task_config hart regions now) access a
user_permits-save_current_config hart regions before after now access a valid inst o high =
    let again =
      load_task_config-Alike hart (save_current_config after) (refilled regions) now
        (λ i. saved_at regions valid before after i inst) in
    let x =
      load_task_config-IsInstalled hart now o (refilled regions)
        (filled-IsTaskConfig regions valid) in
    let y = load_task_config-IsInstalled hart now o regions valid in
    rw again (
      permits_same _ _ access a
        (λ i lt. (
          kernel_same _ now _ access a (filled-IsTaskConfig regions valid) x i lt
              ∙ sym (kernel_same _ now _ access a valid y i lt),
          x.kernel_cfg i lt ∙ sym (y.kernel_cfg i lt),
        ))
        (task_entries _ now _ access a (filled-IsTaskConfig regions valid) x 12 4 (omega arith)
            (omega arith)
          ∙ (filled_permits regions valid access a 12 4 high (omega arith) (omega arith)
              ∙ sym (task_entries _ now _ access a valid y 12 4 (omega arith) (omega arith)))))
