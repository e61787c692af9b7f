-- ===== src/Pmp/Load/Loop.antt =====
-- The loop of `load_task_config`: an invariant over the registers and the two accumulators.
use native.Mathlib.Nat.{add_comm}
use cyptos.Prelude.{
  ℕ, zero, suc, ◌+◌, ◌-◌, ◌*◌, ◌/◌, ◌%◌, ◌^◌, ◌<◌, ◌≤◌, ◌≡◌, ◌⊎◌, inl, inr, false, List, arith, ltb,
  ◌==◌, if◌then◌else◌, bit_or, bit_or_high, bit_or-zero, get_or, ◌<<<◌, ◌∙◌, dec_lt, ℕ_discrete, ap,
  sym, subst, lt→ltb,
}
use cyptos.Pmp.Region.{PmpRegion, new, napot_addr, a_napot}
use cyptos.Pmp.Hart.{PmpRegs, PmpHart, cfg, locked, addr_locked, IsLegal}
use cyptos.Pmp.Bytes.{pack, AreBytes, or_byte}
use cyptos.Pmp.Napot.{IsNapot, napot_addr_lt}
use cyptos.Pmp.{Loading, load_entry, load_entries}

-- A region that grants something: some of R, W and X, never W without R, over a NAPOT range.
pub record IsGrant (region : PmpRegion) : Type 0 where
  pub small : region.flags < 8
  pub legal : region.flags % 2 ≡ 0 → region.flags / 2 % 2 ≡ 0
  pub shape : IsNapot region

abbrev pub region_at : List PmpRegion → ℕ → PmpRegion
region_at regions i = get_or regions i (new 0 0 0)

-- What a task may bring: from entry 4 on, each region is off or a grant.
abbrev pub IsTaskConfig : List PmpRegion → Type 0
IsTaskConfig regions =
    (i : ℕ) → 4 ≤ i → i < 16 → ((region_at regions i).size ≡ 0) ⊎ IsGrant (region_at regions i)

-- The task's entries are not locked; the kernel's hold legal bytes.
pub record IsOpen (regs : PmpRegs) : Type 0 where
  pub kernel_legal : (i : ℕ) → i < 4 → IsLegal (cfg regs i)
  pub task_open : (i : ℕ) → 4 ≤ i → i < 16 → locked (cfg regs i) ≡ false

-- The byte and the address that a region is to have in its entry.
abbrev pub entry_byte : PmpRegion → ℕ
entry_byte region = if region.size == 0 then 0 else region.flags + 24

abbrev pub entry_addr : PmpRegion → ℕ
entry_addr region = if region.size == 0 then 0 else napot_addr region

pub entry_addr_lt :
    (region : PmpRegion) → (region.size ≡ 0) ⊎ IsGrant region → entry_addr region < 2 ^ 54
entry_addr_lt region (inl off) = ground arith
entry_addr_lt region (inr g) = ground (arith, napot_addr_lt region g.shape)

pub entry_byte_lt :
    (region : PmpRegion)
    → (region.size ≡ 0) ⊎ IsGrant region
    → (entry_byte region < 32) × IsLegal (entry_byte region)
entry_byte_lt region (inl off) = ground arith
entry_byte_lt region (inr g) = ground arith

-- The bytes that the loop gathers for the two registers.
abbrev pub task_bytes : List PmpRegion → ℕ → ℕ
task_bytes regions i = if ltb i 4 then 0 else entry_byte (region_at regions i)

abbrev pub upper_bytes : List PmpRegion → ℕ → ℕ
upper_bytes regions i = entry_byte (region_at regions (i + 8))

or_at :
    (bs : ℕ → ℕ) (acc b k n i : ℕ)
    → AreBytes bs
    → i < 8
    → acc ≡ pack bs i
    → b ≡ bs i
    → k ≡ i * 8
    → n ≡ suc i
    → bit_or acc (b <<< k) ≡ pack bs n
or_at bs acc b k n i h lt ea eb ek en = rw (ea, eb, ek, en) (or_byte bs h i lt)

-- `flags | A_NAPOT`.
pub napot_flags : (f : ℕ) → f < 8 → bit_or f a_napot ≡ f + 24
napot_flags f lt = bit_or_high 3 3 f lt ∙ add_comm 24 f

module _ (hart : PmpHart) (regions : List PmpRegion) where
  open hart use {csrw_cfg0, csrw_cfg2, csrw_addr}

  -- One round: the address, and the byte in one of the two accumulators.
  load_entry_lem :
      (idx : ℕ) (s : Loading)
      → (((region_at regions idx).size ≡ 0) ⊎ IsGrant (region_at regions idx))
      → load_entry hart regions idx s ≡ record {
        regs = csrw_addr idx (entry_addr (region_at regions idx)) s.regs;
        task_cfg0_high =
            if ltb idx 8
            then bit_or s.task_cfg0_high (entry_byte (region_at regions idx) <<< (idx % 8 * 8))
            else s.task_cfg0_high;
        cfg2 =
            if ltb idx 8
            then s.cfg2
            else bit_or s.cfg2 (entry_byte (region_at regions idx) <<< (idx % 8 * 8));
      }
  unfolding load_entry
  load_entry_lem idx s (inl off) = ground (arith, bit_or-zero s.task_cfg0_high, bit_or-zero s.cfg2)
  load_entry_lem idx s (inr g) = ground (arith, napot_flags (region_at regions idx).flags g.small)

  -- After the entries below `idx`, from registers `regs` whose task entries are off.
  pub record Loaded (regs : PmpRegs) (idx : ℕ) (s : Loading) : Type 0 where
    pub cfg0_kept : s.regs.cfg0 ≡ regs.cfg0
    pub cfg2_kept : s.regs.cfg2 ≡ regs.cfg2
    pub addr_kept : (i : ℕ) → i < 4 → s.regs.addr i ≡ regs.addr i
    pub addr_set : (i : ℕ) → 4 ≤ i → i < idx → s.regs.addr i ≡ entry_addr (region_at regions i)
    pub high : s.task_cfg0_high ≡ pack (task_bytes regions) (if ltb idx 8 then idx else 8)
    pub upper : s.cfg2 ≡ pack (upper_bytes regions) (idx - 8)

  module _ (valid : IsTaskConfig regions) where
    pub task_bytes-AreBytes : AreBytes (task_bytes regions)
    task_bytes-AreBytes i lt = elim (dec_lt i 4) [
      | yes below ↦ ground arith
      | no above ↦
          ground (arith, entry_byte_lt (region_at regions i) (valid i (omega arith) (omega arith)))
    ]

    pub upper_bytes-AreBytes : AreBytes (upper_bytes regions)
    upper_bytes-AreBytes i lt =
        let (small, _) =
          entry_byte_lt (region_at regions (i + 8)) (valid (i + 8) (omega arith) (omega arith)) in
        omega arith

    module _ (regs : PmpRegs) (off : (i : ℕ) → 4 ≤ i → i < 16 → cfg regs i ≡ 0) where
      addr_open :
          (now : PmpRegs) (idx : ℕ)
          → now.cfg0 ≡ regs.cfg0
          → now.cfg2 ≡ regs.cfg2
          → 4 ≤ idx
          → idx < 16
          → addr_locked now idx ≡ false
      addr_open now idx e0 e2 lo hi = ground (arith, off idx, off (idx + 1))

      load_entry-Loaded :
          (idx : ℕ) (s : Loading)
          → 4 ≤ idx
          → idx < 16
          → Loaded regs idx s
          → Loaded regs (idx + 1) (load_entry hart regions idx s)
      load_entry-Loaded idx s lo hi inv = rw (load_entry_lem idx s (valid idx lo hi)) (record {
        cfg0_kept = hart.addr_cfg0 idx _ s.regs ∙ inv.cfg0_kept;
        cfg2_kept = hart.addr_cfg2 idx _ s.regs ∙ inv.cfg2_kept;
        addr_kept = λ i lt. hart.addr_other idx _ s.regs i (omega arith) ∙ inv.addr_kept i lt;
        addr_set = λ i lo' lt. address i lo' lt;
        high = high';
        upper = upper';
      })
        where
          new_regs : PmpRegs
          new_regs = csrw_addr idx (entry_addr (region_at regions idx)) s.regs

          address :
              (i : ℕ) → 4 ≤ i → i < idx + 1 → new_regs.addr i ≡ entry_addr (region_at regions i)
          address i lo' lt = elim (ℕ_discrete i idx) [
            | yes e ↦ rw e (
                hart.addr_self idx _ s.regs hi
                  (entry_addr_lt (region_at regions idx) (valid idx lo hi))
                  (addr_open s.regs idx inv.cfg0_kept inv.cfg2_kept lo hi))
            | no ne ↦
                hart.addr_other idx _ s.regs i (λ e. ne (sym e)) ∙ inv.addr_set i lo' (omega arith)
          ]

          b : ℕ
          b = entry_byte (region_at regions idx)

          high' :
              (if ltb idx 8
                then bit_or s.task_cfg0_high (b <<< (idx % 8 * 8))
                else s.task_cfg0_high)
              ≡ pack (task_bytes regions) (if ltb (idx + 1) 8 then idx + 1 else 8)
          high' = elim (dec_lt idx 8) [
            | yes lt ↦ rw (lt→ltb idx 8 lt) (
                or_at (task_bytes regions) s.task_cfg0_high b (idx % 8 * 8) _ idx
                  task_bytes-AreBytes lt (inv.high ∙ rw (lt→ltb idx 8 lt)) (ground arith)
                  (omega arith) (ground arith))
            | no ge ↦ ground arith
          ]

          upper' :
              (if ltb idx 8 then s.cfg2 else bit_or s.cfg2 (b <<< (idx % 8 * 8)))
              ≡ pack (upper_bytes regions) (idx + 1 - 8)
          upper' = elim (dec_lt idx 8) [
            | yes lt ↦
                rw (lt→ltb idx 8 lt) (inv.upper ∙ ap (pack (upper_bytes regions)) (omega arith))
            | no ge ↦
                let e : idx - 8 + 8 ≡ idx = omega arith in
                let f : ltb idx 8 ≡ false = ground arith in
                rw f (
                  or_at (upper_bytes regions) s.cfg2 b (idx % 8 * 8) _ (idx - 8)
                    upper_bytes-AreBytes (omega arith) inv.upper
                    (ap (λ i. entry_byte (region_at regions i)) (sym e)) (omega arith)
                    (omega arith))
          ]

      pub load_entries-Loaded :
          (left idx : ℕ) (s : Loading)
          → 4 ≤ idx
          → left + idx ≡ 16
          → Loaded regs idx s
          → Loaded regs 16 (load_entries hart regions left idx s)
      unfolding load_entries
      load_entries-Loaded zero idx s lo e inv =
          let e' : idx ≡ 16 = omega arith in subst (λ i. Loaded regs i s) e' inv
      load_entries-Loaded (suc left) idx s lo e inv =
          load_entries-Loaded left (idx + 1) (load_entry hart regions idx s) (omega arith)
            (omega arith) (load_entry-Loaded idx s lo (omega arith) inv)
