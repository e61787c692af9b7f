-- ===== src/Pmp/Load.antt =====
-- `load_task_config`: entries 4 to 15 become the task's regions, and entries 0 to 3 stay.
mod Loop
pub use Loop.{
  IsGrant, region_at, IsTaskConfig, IsOpen, entry_byte, entry_addr, entry_addr_lt, entry_byte_lt,
  napot_flags,
}
use Loop.{
  Loaded, load_entries-Loaded, task_bytes, upper_bytes, task_bytes-AreBytes, upper_bytes-AreBytes,
}
use native.Mathlib.Nat.{zero-div}
use cyptos.Prelude.{
  ℕ, zero, suc, ◌+◌, ◌-◌, ◌*◌, ◌/◌, ◌%◌, ◌^◌, ◌<◌, ◌≤◌, ◌≡◌, refl, inl, inr, Bool, true, false,
  List, arith, ltb, if◌then◌else◌, bit_and, bit_or, bit_and_mask, bit_or_high, Bool-cases, ◌∙◌,
  dec_lt, sym, subst, ap, ap₂,
}
use cyptos.Pmp.Region.{PmpRegion}
use cyptos.Pmp.Hart.{PmpRegs, PmpHart, byte, cfg, locked, IsLegal}
use cyptos.Pmp.Bytes.{pack, AreBytes, byte-pack, low_word, join_words}
use cyptos.Pmp.{Loading, disable_task_entries, load_entries, load_task_config}

-- Entries 0 to 3 are as before, and entries 4 to 15 hold the regions.
pub record IsInstalled (regions : List PmpRegion) (before after : PmpRegs) : Type 0 where
  pub kernel_cfg : (i : ℕ) → i < 4 → cfg after i ≡ cfg before i
  pub kernel_addr : (i : ℕ) → i < 4 → after.addr i ≡ before.addr i
  pub task_cfg : (i : ℕ) → 4 ≤ i → i < 16 → cfg after i ≡ entry_byte (region_at regions i)
  pub task_addr : (i : ℕ) → 4 ≤ i → i < 16 → after.addr i ≡ entry_addr (region_at regions i)

-- A zero byte, at any shift.
pub div_zero : (k : ℕ) → 0 / 2 ^ k % 256 ≡ 0
div_zero k = rw zero-div

module _ (hart : PmpHart) where
  open hart use {csrw_cfg0, csrw_cfg2}

  -- A byte that is written as it is stays, locked or not.
  pub cfg0_same :
      (val : ℕ) (regs : PmpRegs) (i : ℕ)
      → i < 8
      → IsLegal (cfg regs i)
      → byte val i ≡ cfg regs i
      → cfg (csrw_cfg0 val regs) i ≡ cfg regs i
  cfg0_same val regs i lt legal e = elim (Bool-cases (locked (cfg regs i))) [
    | inl shut ↦ hart.cfg0_locked val regs i lt shut
    | inr free ↦ hart.cfg0_open val regs i lt free (subst IsLegal (sym e) legal) ∙ e
  ]

  abbrev kernel_bits : PmpRegs → ℕ
  kernel_bits regs = bit_and regs.cfg0 0xffff_ffff

  module _ (regs : PmpRegs) (o : IsOpen regs) where
    disable-kernel : (i : ℕ) → i < 4 → cfg (disable_task_entries hart regs) i ≡ cfg regs i
    unfolding disable_task_entries
    disable-kernel i lt =
        hart.cfg2_other 0 _ i (omega arith)
        ∙ cfg0_same (kernel_bits regs) regs i (omega arith) (o.kernel_legal i lt)
            (ground (arith, low_word regs.cfg0 i))

    disable-off : (i : ℕ) → 4 ≤ i → i < 16 → cfg (disable_task_entries hart regs) i ≡ 0
    unfolding disable_task_entries
    disable-off i lo hi = elim (dec_lt i 8) [
      | yes lt ↦
          let zeroed : byte (kernel_bits regs) i ≡ 0 = ground (arith, low_word regs.cfg0 i) in
          hart.cfg2_other 0 _ i lt
          ∙ (hart.cfg0_open (kernel_bits regs) regs i lt (o.task_open i lo hi)
                (subst IsLegal (sym zeroed) (refl, λ _. refl))
              ∙ zeroed)
      | no ge ↦
          let now = hart.cfg0_other (kernel_bits regs) regs i (omega arith) hi in
          let zeroed : byte 0 (i % 8) ≡ 0 = div_zero (8 * (i % 8)) in
          hart.cfg2_open 0 (csrw_cfg0 (kernel_bits regs) regs) i (omega arith) hi
            (ap locked now ∙ o.task_open i lo hi) (subst IsLegal (sym zeroed) (refl, λ _. refl))
          ∙ zeroed
    ]

    module _ (regions : List PmpRegion) (valid : IsTaskConfig regions) (s : Loading)
        (loop : Loaded hart regions (disable_task_entries hart regs) 16 s) where
      abbrev half_done : PmpRegs
      half_done = csrw_cfg0 (bit_or (kernel_bits regs) s.task_cfg0_high) s.regs

      cfg-loop : (i : ℕ) → cfg s.regs i ≡ cfg (disable_task_entries hart regs) i
      cfg-loop i =
          ap₂ (λ a b. if ltb i 8 then byte a i else byte b (i % 8)) loop.cfg0_kept loop.cfg2_kept

      written :
          (i : ℕ)
          → i < 8
          → byte (bit_or (kernel_bits regs) s.task_cfg0_high) i
            ≡ (if ltb i 4 then byte regs.cfg0 i else entry_byte (region_at regions i))
      written i lt =
          let low : s.task_cfg0_high % 2 ^ 32 ≡ 0 = rw (loop.high) (omega arith) in
          let b : byte s.task_cfg0_high i ≡ task_bytes regions i =
            rw (loop.high)
              (byte-pack (task_bytes regions) (task_bytes-AreBytes hart regions valid) i lt) in
          ground (arith, join_words regs.cfg0 s.task_cfg0_high i low lt)

      kernel : (i : ℕ) → i < 4 → cfg half_done i ≡ cfg regs i
      kernel i lt =
          let before : cfg s.regs i ≡ cfg regs i = cfg-loop i ∙ disable-kernel i lt in
          cfg0_same _ s.regs i (omega arith) (subst IsLegal (sym before) (o.kernel_legal i lt))
            (ground (arith, written i))
          ∙ before

      off : (i : ℕ) → 4 ≤ i → i < 16 → cfg s.regs i ≡ 0
      off i lo hi = cfg-loop i ∙ disable-off i lo hi

      legal : (i : ℕ) → 4 ≤ i → i < 16 → IsLegal (entry_byte (region_at regions i))
      legal i lo hi = (entry_byte_lt (region_at regions i) (valid i lo hi)).1

      task :
          (i : ℕ)
          → 4 ≤ i
          → i < 16
          → cfg (csrw_cfg2 s.cfg2 half_done) i ≡ entry_byte (region_at regions i)
      task i lo hi = elim (dec_lt i 8) [
        | yes lt ↦
            let b : byte (bit_or (kernel_bits regs) s.task_cfg0_high) i
                ≡ entry_byte (region_at regions i) =
              ground (arith, written i) in
            hart.cfg2_other s.cfg2 half_done i lt
            ∙ (hart.cfg0_open _ s.regs i lt (ap locked (off i lo hi))
                  (subst IsLegal (sym b) (legal i lo hi))
                ∙ b)
        | no ge ↦
            let e : i % 8 + 8 ≡ i = omega arith in
            let b : byte s.cfg2 (i % 8) ≡ entry_byte (region_at regions i) = rw (loop.upper) (
              byte-pack (upper_bytes regions) (upper_bytes-AreBytes hart regions valid) (i % 8)
                (omega arith)
              ∙ ap (λ j. entry_byte (region_at regions j)) e) in
            let same =
              hart.cfg0_other (bit_or (kernel_bits regs) s.task_cfg0_high) s.regs i (omega arith)
                hi in
            hart.cfg2_open s.cfg2 half_done i (omega arith) hi (ap locked (same ∙ off i lo hi))
              (subst IsLegal (sym b) (legal i lo hi))
            ∙ b
      ]

      addr_same : (i : ℕ) → (csrw_cfg2 s.cfg2 half_done).addr i ≡ s.regs.addr i
      addr_same i = hart.cfg2_addr _ _ i ∙ hart.cfg0_addr _ _ i

      disabled : (i : ℕ) → (disable_task_entries hart regs).addr i ≡ regs.addr i
      unfolding disable_task_entries
      disabled i = hart.cfg2_addr _ _ i ∙ hart.cfg0_addr _ _ i

      finish-IsInstalled : IsInstalled regions regs (csrw_cfg2 s.cfg2 half_done)
      finish-IsInstalled = record {
        kernel_cfg = λ i lt. hart.cfg2_other s.cfg2 _ i (omega arith) ∙ kernel i lt;
        kernel_addr = λ i lt. addr_same i ∙ (loop.addr_kept i lt ∙ disabled i);
        task_cfg = task;
        task_addr = λ i lo hi. addr_same i ∙ loop.addr_set i lo hi;
      }

    start-Loaded :
        (regions : List PmpRegion)
        → Loaded hart regions
            (disable_task_entries hart regs)
            4
            (record { regs = disable_task_entries hart regs; task_cfg0_high = 0; cfg2 = 0 })
    start-Loaded regions = record {
      cfg0_kept = refl;
      cfg2_kept = refl;
      addr_kept = λ i lt. refl;
      addr_set = λ i lo lt. absurd (omega arith);
      high = refl;
      upper = refl;
    }

    -- Where the task entries are not locked and the kernel's bytes are legal: for a task whose regions
    -- are off or NAPOT grants, entries 0 to 3 stay as they were and entries 4 to 15 become the task's.
    pub load_task_config-IsInstalled :
        (regions : List PmpRegion)
        → IsTaskConfig regions
        → IsInstalled regions regs (load_task_config hart regions regs)
    unfolding load_task_config
    load_task_config-IsInstalled regions valid = finish-IsInstalled regions valid _ (
        load_entries-Loaded hart regions valid (disable_task_entries hart regs) disable-off 12 4 _
          (omega arith) refl (start-Loaded regions))
