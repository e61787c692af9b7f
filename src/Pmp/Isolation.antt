-- ===== src/Pmp/Isolation.antt =====
-- What a task may access after `load_task_config`: the hardware's decision for U-mode, entry by entry,
-- against the task's list of regions.
use cyptos.Prelude.{
  ℕ, zero, suc, ◌+◌, ◌*◌, ◌/◌, ◌≤◌, ◌<◌, ◌≡◌, refl, ◌⊎◌, inl, inr, ◌∙◌, ap, ap₂, arith, Bool, true,
  false, List, ltb, leb, ◌==◌, ◌&&◌, if◌then◌else◌,
}
use cyptos.Pmp.{load_task_config}
use cyptos.Pmp.Region.{PmpRegion}
use cyptos.Pmp.Hart.{PmpRegs, PmpHart, cfg, mode}
use cyptos.Pmp.Access.{
  Access, load, store, fetch, napot_matches, tor_bottom, matches, grants, permits_from,
  user_permits,
}
use cyptos.Pmp.Napot.{napot_matches-napot_addr}
use cyptos.Pmp.Load.{
  IsGrant, region_at, IsTaskConfig, IsOpen, entry_byte, entry_addr, IsInstalled,
  load_task_config-IsInstalled,
}

-- The bytes of a region, and the task's right to one: the first of its regions that holds it decides.
abbrev pub in_region : PmpRegion → ℕ → Bool
in_region region a = leb region.base a && ltb a (region.base + region.size)

abbrev pub task_permits : List PmpRegion → Access → ℕ → ℕ → ℕ → Bool
task_permits regions access a zero i = false
task_permits regions access a (suc left) i =
    let rest = task_permits regions access a left (i + 1) in
    if in_region (region_at regions i) a then grants access (region_at regions i).flags else rest

abbrev pub by_mode : PmpRegs → ℕ → ℕ → ℕ → ℕ → Bool
by_mode regs c bottom top a =
    if mode c == 0
    then false
    else if mode c == 1
    then leb bottom a && ltb a (top * 4)
    else if mode c == 2
    then a / 4 == top
    else napot_matches top a

-- An entry that is off matches nothing, and a grant matches its region.
entry_matches :
    (regs : PmpRegs) (region : PmpRegion) (bottom a : ℕ)
    → (region.size ≡ 0) ⊎ IsGrant region
    → by_mode regs (entry_byte region) bottom (entry_addr region) a ≡ in_region region a
entry_matches regs region bottom a (inl off) = ground arith
entry_matches regs region bottom a (inr g) =
    ground (arith, g.small, g.shape.least, napot_matches-napot_addr region a g.shape)

entry_grants :
    (access : Access) (region : PmpRegion)
    → IsGrant region
    → grants access (entry_byte region) ≡ grants access region.flags
entry_grants load region g = ground (arith, g.small, g.shape.least)
entry_grants store region g = ground (arith, g.small, g.shape.least)
entry_grants fetch region g = ground (arith, g.small, g.shape.least)

-- No region, no byte: the fall-back of a list that is too short is off.
entry_step :
    (regs : PmpRegs) (regions : List PmpRegion) (bottom a i : ℕ) (access : Access)
    (rest rest' : Bool)
    → ((region_at regions i).size ≡ 0) ⊎ IsGrant (region_at regions i)
    → rest ≡ rest'
    → (if by_mode regs
          (entry_byte (region_at regions i))
          bottom
          (entry_addr (region_at regions i))
          a
        then grants access (entry_byte (region_at regions i))
        else rest)
      ≡ (if in_region (region_at regions i) a
          then grants access (region_at regions i).flags
          else rest')
entry_step regs regions bottom a i access rest rest' (inl off) e =
    rw (entry_matches regs (region_at regions i) bottom a (inl off)) (ground arith)
entry_step regs regions bottom a i access rest rest' (inr g) e = rw (
  entry_matches regs (region_at regions i) bottom a (inr g),
  entry_grants access (region_at regions i) g,
  e,
)

pub matches_lem :
    (regs : PmpRegs) (i a c top : ℕ)
    → cfg regs i ≡ c
    → regs.addr i ≡ top
    → matches regs i a ≡ by_mode regs c (tor_bottom regs i) top a
unfolding matches
matches_lem regs i a c top ec et = ap₂ (λ c t. by_mode regs c (tor_bottom regs i) t a) ec et

module _ (regions : List PmpRegion) (before after : PmpRegs) (access : Access) (a : ℕ)
    (valid : IsTaskConfig regions) (inst : IsInstalled regions before after) where
  pub task_entries :
      (left i : ℕ)
      → 4 ≤ i
      → i + left ≤ 16
      → permits_from after access a left i ≡ task_permits regions access a left i
  unfolding permits_from
  task_entries zero i lo hi = refl
  task_entries (suc left) i lo hi =
      let ec = inst.task_cfg i lo (omega arith) in
      let et = inst.task_addr i lo (omega arith) in
      let m = matches_lem after i a _ _ ec et in
      rw (m, ec)
        (entry_step after regions (tor_bottom after i) a i access _ _ (valid i lo (omega arith))
          (task_entries left (i + 1) (omega arith) (omega arith)))

  bottom_same : (i : ℕ) → i < 4 → tor_bottom after i ≡ tor_bottom before i
  bottom_same zero lt = refl
  bottom_same (suc i) lt = ap (λ (t : ℕ). t * 4) (inst.kernel_addr i (omega arith))

  pub kernel_same : (i : ℕ) → i < 4 → matches after i a ≡ matches before i a
  unfolding matches
  kernel_same i lt =
      matches_lem after i a _ _ (inst.kernel_cfg i lt) (inst.kernel_addr i lt)
      ∙ ap (λ b. by_mode before (cfg before i) b (before.addr i) a) (bottom_same i lt)

  skip :
      (left i : ℕ)
      → matches after i a ≡ false
      → permits_from after access a (suc left) i ≡ permits_from after access a left (i + 1)
  unfolding permits_from
  skip left i e = rw e refl

  pub user_permits_installed :
      ((i : ℕ) → i < 4 → matches before i a ≡ false)
      → user_permits after access a ≡ task_permits regions access a 12 4
  unfolding user_permits
  user_permits_installed off =
      let missed = λ (i : ℕ) (lt : i < 4). kernel_same i lt ∙ off i lt in
      skip 15 0 (missed 0 (omega arith))
      ∙ (skip 14 1 (missed 1 (omega arith))
          ∙ (skip 13 2 (missed 2 (omega arith))
              ∙ (skip 12 3 (missed 3 (omega arith))
                  ∙ task_entries 12 4 (omega arith) (omega arith))))

  hit :
      (left i : ℕ)
      → matches after i a ≡ true
      → permits_from after access a (suc left) i ≡ grants access (cfg after i)
  unfolding permits_from
  hit left i e = rw e refl

  pub kernel_decides :
      (i : ℕ)
      → i < 4
      → matches before i a ≡ true
      → ((j : ℕ) → j < i → matches before j a ≡ false)
      → user_permits after access a ≡ grants access (cfg before i)
  unfolding user_permits
  kernel_decides i lt on off =
      by_index i lt (kernel_same i lt ∙ on) (λ j l. kernel_same j (omega arith) ∙ off j l)
      ∙ ap (grants access) (inst.kernel_cfg i lt)
    where
      by_index :
          (i : ℕ)
          → i < 4
          → matches after i a ≡ true
          → ((j : ℕ) → j < i → matches after j a ≡ false)
          → permits_from after access a 16 0 ≡ grants access (cfg after i)
      by_index zero lt on off = hit 15 0 on
      by_index (suc zero) lt on off = skip 15 0 (off 0 (omega arith)) ∙ hit 14 1 on
      by_index (suc (suc zero)) lt on off =
          skip 15 0 (off 0 (omega arith)) ∙ (skip 14 1 (off 1 (omega arith)) ∙ hit 13 2 on)
      by_index (suc (suc (suc zero))) lt on off =
          skip 15 0 (off 0 (omega arith))
          ∙ (skip 14 1 (off 1 (omega arith)) ∙ (skip 13 2 (off 2 (omega arith)) ∙ hit 12 3 on))
      by_index (suc (suc (suc (suc i)))) lt on off = absurd (omega arith)

-- Where the task entries are not locked and the kernel's bytes are legal: once a task whose regions are off
-- or NAPOT grants is loaded, U-mode may access a byte that no kernel entry matches exactly as the first of
-- the task's regions from entry 4 on that holds the byte allows, and not at all if none does.
pub user_permits-load_task_config :
    (hart : PmpHart) (regs : PmpRegs) (regions : List PmpRegion) (access : Access) (a : ℕ)
    → IsOpen regs
    → IsTaskConfig regions
    → ((i : ℕ) → i < 4 → matches regs i a ≡ false)
    → user_permits (load_task_config hart regions regs) access a
      ≡ task_permits regions access a 12 4
user_permits-load_task_config hart regs regions access a o valid off =
    user_permits_installed regions regs (load_task_config hart regions regs) access a valid
      (load_task_config-IsInstalled hart regs o regions valid) off

-- Where the task entries are not locked and the kernel's bytes are legal: whatever task with regions that
-- are off or NAPOT grants is loaded, a byte that a kernel entry matches is open to U-mode exactly as the
-- first such entry says.
pub user_permits-kernel_entry :
    (hart : PmpHart) (regs : PmpRegs) (regions : List PmpRegion) (access : Access) (a i : ℕ)
    → IsOpen regs
    → IsTaskConfig regions
    → i < 4
    → matches regs i a ≡ true
    → ((j : ℕ) → j < i → matches regs j a ≡ false)
    → user_permits (load_task_config hart regions regs) access a ≡ grants access (cfg regs i)
user_permits-kernel_entry hart regs regions access a i o valid lt on off =
    kernel_decides regions regs (load_task_config hart regions regs) access a valid
      (load_task_config-IsInstalled hart regs o regions valid) i lt on off
