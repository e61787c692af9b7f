-- ===== src/Pmp.antt =====
-- crates/kernel/src/pmp.rs: programming the PMP entries of a hart. Entries 0 to 3 are the kernel's,
-- entries 4 to 15 the running task's.
pub mod Region
pub mod Hart
pub mod Bytes
pub mod Napot
pub mod Access
pub mod Load
pub mod Isolation
pub mod Boot
pub mod Init
pub mod Guarded
pub mod Boundary
pub mod Save
pub mod Restore
use cyptos.Prelude.{
  ℕ, zero, suc, ◌+◌, ◌-◌, ◌*◌, ◌%◌, Bool, true, false, List, [], ◌∷◌, bit_and, bit_or, not, ◌&&◌,
  ◌||◌, ltb, String, leb, ◌==◌, if◌then◌else◌, not64, ◌<<<◌, ◌>>>◌, is_power_of_two, get_or,
}
use cyptos.Config.{pmp_count}
use Region.{PmpRegion, new, napot_addr, flag_x, flag_rw, flag_l, a_off, a_tor, a_napot}
use Hart.{PmpRegs, PmpHart}

-- The locals of the loop in `load_task_config`.
pub record Loading : Type 0 where
  pub regs : PmpRegs
  pub task_cfg0_high : ℕ
  pub cfg2 : ℕ

-- The boundaries that board/qemu-virt/linker.ld defines.
pub record LinkerSymbols : Type 0 where
  pub stext : ℕ
  pub user_text_end : ℕ
  pub eheap : ℕ

module _ (hart : PmpHart) where
  open hart use {csrw_cfg0, csrw_cfg2, csrw_addr}

  -- One round of the loop, at entry `idx`.
  unfoldable pub load_entry : List PmpRegion → ℕ → Loading → Loading
  load_entry regions idx s =
      let region = get_or regions idx (new 0 0 0) in
      if region.size == 0
      then record s { regs = csrw_addr idx 0 s.regs }
      else (let cfg_byte = bit_or region.flags a_napot in
          let shift = idx % 8 * 8 in
          let regs' = csrw_addr idx (napot_addr region) s.regs in
          if ltb idx 8
          then record s {
            regs = regs';
            task_cfg0_high = bit_or s.task_cfg0_high (cfg_byte <<< shift);
          }
          else record s { regs = regs'; cfg2 = bit_or s.cfg2 (cfg_byte <<< shift) })

  -- `for idx in 4..PMP_COUNT`, with `left` rounds to go.
  unfoldable pub load_entries : List PmpRegion → ℕ → ℕ → Loading → Loading
  load_entries regions zero idx s = s
  load_entries regions (suc left) idx s =
      load_entries regions left (idx + 1) (load_entry regions idx s)

  -- Step 1: task entries off, the kernel's bytes kept.
  unfoldable pub disable_task_entries : PmpRegs → PmpRegs
  disable_task_entries regs = csrw_cfg2 0 (csrw_cfg0 (bit_and regs.cfg0 0xffff_ffff) regs)

  unfoldable pub load_task_config : List PmpRegion → PmpRegs → PmpRegs
  load_task_config regions regs =
      let kernel_cfg0_bits = bit_and regs.cfg0 0xffff_ffff in
      let s =
        load_entries regions (pmp_count - 4) 4
          (record { regs = disable_task_entries regs; task_cfg0_high = 0; cfg2 = 0 }) in
      csrw_cfg2 s.cfg2 (csrw_cfg0 (bit_or kernel_cfg0_bits s.task_cfg0_high) s.regs)

  unfoldable pub set_pmpcfg : ℕ → ℕ → PmpRegs → PmpRegs
  set_pmpcfg idx cfg regs =
      let shift = idx % 8 * 8 in
      let mask = not64 (0xff <<< shift) in
      let val = cfg <<< shift in
      if ltb idx 8
      then csrw_cfg0 (bit_or (bit_and regs.cfg0 mask) val) regs
      else csrw_cfg2 (bit_or (bit_and regs.cfg2 mask) val) regs

  -- The function's result, what it prints, and the registers.
  unfoldable pub configure_region : ℕ → PmpRegion → PmpRegs → Bool × String × PmpRegs
  unfolding set_pmpcfg
  configure_region idx region regs =
      if leb pmp_count idx
      then (false, "", regs)
      else if not (is_power_of_two region.size) || ltb region.size 8
      then (false, "[pmp] Invalid region size (must be power of 2 >= 8)\n", regs)
      else if not (bit_and region.base (region.size - 1) == 0)
      then (false, "[pmp] Base not aligned to size\n", regs)
      else (
        true,
        "",
        set_pmpcfg idx (bit_or region.flags a_napot) (csrw_addr idx (napot_addr region) regs),
      )

  clear_addrs : ℕ → ℕ → PmpRegs → PmpRegs
  clear_addrs zero i regs = regs
  clear_addrs (suc left) i regs = clear_addrs left (i + 1) (csrw_addr i 0 regs)

  unfoldable pub clear_all : PmpRegs → PmpRegs
  unfolding clear_addrs
  clear_all regs = clear_addrs pmp_count 0 (csrw_cfg2 0 (csrw_cfg0 0 regs))

  unfoldable pub kernel_entry_regions : LinkerSymbols → List PmpRegion
  kernel_entry_regions k =
      new k.stext 0 a_off
      ∷ new k.user_text_end 0 (bit_or (bit_or flag_x flag_l) a_tor)
      ∷ new k.eheap 0 (bit_or (bit_or flag_rw flag_l) a_tor)
      ∷ new 0x1000_0000 0x0000_1000 (bit_or flag_rw flag_l)
      ∷ []

  -- One round of the loop in `init`.
  unfoldable pub install : ℕ → PmpRegion → PmpRegs → PmpRegs
  unfolding set_pmpcfg configure_region
  install i region regs =
      let addr_mode = bit_and region.flags 0b0001_1000 in
      if addr_mode == a_tor
      then set_pmpcfg i region.flags (csrw_addr i (region.base >>> 2) regs)
      else if ltb 0 region.size
      then (configure_region i region regs).2
      else if addr_mode == a_off && ltb 0 region.base
      then csrw_addr i (region.base >>> 2) regs
      else regs

  unfoldable pub install_all : ℕ → List PmpRegion → PmpRegs → PmpRegs
  install_all i [] regs = regs
  install_all i (region ∷ regions) regs = install_all (i + 1) regions (install i region regs)

  unfoldable pub init : LinkerSymbols → PmpRegs → PmpRegs
  unfolding clear_all kernel_entry_regions install_all
  init k regs = install_all 0 (kernel_entry_regions k) (clear_all regs)
