-- ===== src/Pmp/Guarded.antt =====
-- The registers with the kernel's entries in place, and with a task's loaded beside them.
use cyptos.Prelude.{
  ℕ, zero, suc, ◌≤◌, ◌<◌, ◌≡◌, refl, ◌⊎◌, ◌∙◌, sym, ap, subst, arith, false, List, ==_ne,
}
use cyptos.Pmp.{LinkerSymbols, load_task_config}
use cyptos.Pmp.Region.{PmpRegion}
use cyptos.Pmp.Hart.{PmpRegs, PmpHart, cfg, locked, IsLegal}
use cyptos.Pmp.Load.{
  IsTaskConfig, IsOpen, IsGrant, IsInstalled, region_at, entry_byte, entry_addr, entry_byte_lt,
  load_task_config-IsInstalled,
}
use cyptos.Pmp.Boot.{Holds}
use cyptos.Pmp.Init.{kernel_cfg, kernel_addr}

kernel-IsLegal : (i : ℕ) → i < 4 → IsLegal (kernel_cfg i)
kernel-IsLegal zero lt = (refl, λ _. refl)
kernel-IsLegal (suc zero) lt = (refl, λ _. refl)
kernel-IsLegal (suc (suc zero)) lt = (refl, λ e. absurd (omega arith))
kernel-IsLegal (suc (suc (suc zero))) lt = (refl, λ e. absurd (omega arith))
kernel-IsLegal (suc (suc (suc (suc i)))) lt = absurd (omega arith)

-- The kernel's four entries are in place.
pub record IsGuarded (k : LinkerSymbols) (regs : PmpRegs) : Type 0 where
  pub cfg_eq : (i : ℕ) → i < 4 → cfg regs i ≡ kernel_cfg i
  pub addr_eq : (i : ℕ) → i < 4 → regs.addr i ≡ kernel_addr k i

pub Holds-IsGuarded :
    {k : LinkerSymbols} {regs : PmpRegs} → Holds kernel_cfg (kernel_addr k) regs → IsGuarded k regs
Holds-IsGuarded h = record {
  cfg_eq = λ i lt. h.cfg_eq i (omega arith);
  addr_eq = λ i lt. h.addr_eq i (omega arith);
}

pub IsGuarded-IsOpen :
    {k : LinkerSymbols} {regs : PmpRegs}
    → IsGuarded k regs
    → ((i : ℕ) → 4 ≤ i → i < 16 → locked (cfg regs i) ≡ false)
    → IsOpen regs
IsGuarded-IsOpen h task_open = record {
  kernel_legal = λ i lt. subst IsLegal (sym (h.cfg_eq i lt)) (kernel-IsLegal i lt);
  task_open = task_open;
}

pub booted-IsOpen :
    (k : LinkerSymbols) {regs : PmpRegs} → Holds kernel_cfg (kernel_addr k) regs → IsOpen regs
booted-IsOpen k h = IsGuarded-IsOpen (Holds-IsGuarded {k = k} h) λ i lo hi.
    ap locked (h.cfg_eq i hi)
    ∙ rw
        (
          ==_ne i 3 (λ q. absurd (omega arith)),
          ==_ne i 2 (λ q. absurd (omega arith)),
          ==_ne i 1 (λ q. absurd (omega arith)),
        )
        refl

-- The task's regions are in entries 4 to 15.
pub record IsLoaded (regions : List PmpRegion) (regs : PmpRegs) : Type 0 where
  pub cfg_eq : (i : ℕ) → 4 ≤ i → i < 16 → cfg regs i ≡ entry_byte (region_at regions i)
  pub addr_eq : (i : ℕ) → 4 ≤ i → i < 16 → regs.addr i ≡ entry_addr (region_at regions i)

pub IsLoaded-IsInstalled :
    {regions : List PmpRegion} {regs : PmpRegs}
    → IsLoaded regions regs
    → IsInstalled regions regs regs
IsLoaded-IsInstalled l = record {
  kernel_cfg = λ i lt. refl;
  kernel_addr = λ i lt. refl;
  task_cfg = l.cfg_eq;
  task_addr = l.addr_eq;
}

entry_byte-locked :
    (region : PmpRegion) → (region.size ≡ 0) ⊎ IsGrant region → locked (entry_byte region) ≡ false
entry_byte-locked region g = let (small, _) = entry_byte_lt region g in ground arith

-- A loaded task leaves its entries open for the next.
pub IsLoaded-IsOpen :
    {k : LinkerSymbols} {regions : List PmpRegion} {regs : PmpRegs}
    → IsGuarded k regs
    → IsTaskConfig regions
    → IsLoaded regions regs
    → IsOpen regs
IsLoaded-IsOpen {regions} g valid l = IsGuarded-IsOpen g λ i lo hi.
    ap locked (l.cfg_eq i lo hi) ∙ entry_byte-locked (region_at regions i) (valid i lo hi)

-- `load_task_config` on a guarded hart.
pub load_task_config-IsLoaded :
    (hart : PmpHart) {k : LinkerSymbols} (regions : List PmpRegion) (regs : PmpRegs)
    → IsGuarded k regs
    → IsOpen regs
    → IsTaskConfig regions
    → IsGuarded k (load_task_config hart regions regs)
      × IsLoaded regions (load_task_config hart regions regs)
load_task_config-IsLoaded hart regions regs g o valid =
    let inst = load_task_config-IsInstalled hart regs o regions valid in
    (
      record {
        cfg_eq = λ i lt. inst.kernel_cfg i lt ∙ g.cfg_eq i lt;
        addr_eq = λ i lt. inst.kernel_addr i lt ∙ g.addr_eq i lt;
      },
      record { cfg_eq = inst.task_cfg; addr_eq = inst.task_addr },
    )
