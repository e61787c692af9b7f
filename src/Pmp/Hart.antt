-- ===== src/Pmp/Hart.antt =====
-- The PMP registers of a hart, and what the RISC-V privileged specification (section 3.7) says of a
-- CSR write to them. The hart itself is a parameter of the model: `PmpHart` is the interface that
-- crates/kernel/src/pmp.rs relies on.
use cyptos.Prelude.{
  ℕ, ◌+◌, ◌*◌, ◌/◌, ◌%◌, ◌^◌, ◌<◌, ◌≤◌, ◌≡◌, ◌≢◌, Bool, true, false, ◌&&◌, ◌||◌, ltb, ◌==◌,
  if◌then◌else◌,
}

-- What `csrr` reads: pmpcfg0, pmpcfg2, and pmpaddr0 to pmpaddr15.
pub record PmpRegs : Type 0 where
  pub cfg0 : ℕ
  pub cfg2 : ℕ
  pub addr : ℕ → ℕ

-- Byte `i` of a configuration register.
abbrev pub byte : ℕ → ℕ → ℕ
byte val i = val / 2 ^ (8 * i) % 256

-- The configuration byte of entry `i`.
abbrev pub cfg : PmpRegs → ℕ → ℕ
cfg regs i = if ltb i 8 then byte regs.cfg0 i else byte regs.cfg2 (i % 8)

-- Bit 7, and the address-matching mode in bits 4:3.
abbrev pub locked : ℕ → Bool
locked c = c / 128 == 1

abbrev pub mode : ℕ → ℕ
mode c = c / 8 % 4

-- pmpaddr `i` is not writable if entry `i` is locked, or bounds a locked TOR entry from below.
abbrev pub addr_locked : PmpRegs → ℕ → Bool
addr_locked regs i =
    locked (cfg regs i) || ltb i 15 && (locked (cfg regs (i + 1)) && mode (cfg regs (i + 1)) == 1)

-- Bits 6:5 are zero, and the reserved combination W without R does not occur.
abbrev pub IsLegal : ℕ → Type 0
IsLegal c = (c / 32 % 4 ≡ 0) × (c % 2 ≡ 0 → c / 2 % 2 ≡ 0)

pub record PmpHart : Type 0 where
  pub csrw_cfg0 : ℕ → PmpRegs → PmpRegs
  pub csrw_cfg2 : ℕ → PmpRegs → PmpRegs
  pub csrw_addr : ℕ → ℕ → PmpRegs → PmpRegs
  -- a locked byte ignores the write, any other takes a legal byte
  pub cfg0_locked :
      (val : ℕ) (regs : PmpRegs) (i : ℕ)
      → i < 8
      → locked (cfg regs i) ≡ true
      → cfg (csrw_cfg0 val regs) i ≡ cfg regs i
  pub cfg0_open :
      (val : ℕ) (regs : PmpRegs) (i : ℕ)
      → i < 8
      → locked (cfg regs i) ≡ false
      → IsLegal (byte val i)
      → cfg (csrw_cfg0 val regs) i ≡ byte val i
  pub cfg0_other :
      (val : ℕ) (regs : PmpRegs) (i : ℕ) → 8 ≤ i → i < 16 → cfg (csrw_cfg0 val regs) i ≡ cfg regs i
  pub cfg0_addr : (val : ℕ) (regs : PmpRegs) (i : ℕ) → (csrw_cfg0 val regs).addr i ≡ regs.addr i
  pub cfg2_locked :
      (val : ℕ) (regs : PmpRegs) (i : ℕ)
      → 8 ≤ i
      → i < 16
      → locked (cfg regs i) ≡ true
      → cfg (csrw_cfg2 val regs) i ≡ cfg regs i
  pub cfg2_open :
      (val : ℕ) (regs : PmpRegs) (i : ℕ)
      → 8 ≤ i
      → i < 16
      → locked (cfg regs i) ≡ false
      → IsLegal (byte val (i % 8))
      → cfg (csrw_cfg2 val regs) i ≡ byte val (i % 8)
  pub cfg2_other :
      (val : ℕ) (regs : PmpRegs) (i : ℕ) → i < 8 → cfg (csrw_cfg2 val regs) i ≡ cfg regs i
  pub cfg2_addr : (val : ℕ) (regs : PmpRegs) (i : ℕ) → (csrw_cfg2 val regs).addr i ≡ regs.addr i
  -- an address register holds 54 bits
  pub addr_self :
      (i val : ℕ) (regs : PmpRegs)
      → i < 16
      → val < 2 ^ 54
      → addr_locked regs i ≡ false
      → (csrw_addr i val regs).addr i ≡ val
  pub addr_sealed :
      (i val : ℕ) (regs : PmpRegs)
      → i < 16
      → addr_locked regs i ≡ true
      → (csrw_addr i val regs).addr i ≡ regs.addr i
  pub addr_other :
      (i val : ℕ) (regs : PmpRegs) (j : ℕ) → i ≢ j → (csrw_addr i val regs).addr j ≡ regs.addr j
  pub addr_cfg0 : (i val : ℕ) (regs : PmpRegs) → (csrw_addr i val regs).cfg0 ≡ regs.cfg0
  pub addr_cfg2 : (i val : ℕ) (regs : PmpRegs) → (csrw_addr i val regs).cfg2 ≡ regs.cfg2
