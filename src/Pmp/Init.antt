-- ===== src/Pmp/Init.antt =====
-- `init` on any hart fresh from reset: the kernel's four entries.
use cyptos.Prelude.{
  ℕ, ◌/◌, ◌%◌, ◌^◌, ◌<◌, ◌≤◌, ◌≡◌, refl, sym, subst, false, arith, lt→ltb, is_power_of_two, ◌>>>◌,
}
use cyptos.Pmp.Region.{new, napot_addr}
use cyptos.Pmp.Hart.{PmpRegs, PmpHart, cfg, locked, IsLegal}
use cyptos.Pmp.Boot.{Holds, at_entry, csrw_addr-Holds, set_pmpcfg-Holds, clear_all-Holds}
use cyptos.Pmp.{LinkerSymbols, set_pmpcfg, install, clear_all, init}

-- The three boundaries are multiples of four in this order, within 56 bits of address.
pub record IsLinked (k : LinkerSymbols) : Type 0 where
  pub text_pos : 0 < k.stext
  pub text_end : k.stext ≤ k.user_text_end
  pub heap_end : k.user_text_end ≤ k.eheap
  pub within : k.eheap < 2 ^ 56
  pub text_aligned : k.stext % 4 ≡ 0
  pub text_end_aligned : k.user_text_end % 4 ≡ 0
  pub heap_end_aligned : k.eheap % 4 ≡ 0

abbrev pub kernel_cfg : ℕ → ℕ
kernel_cfg = at_entry 3 0x9b (at_entry 2 0x8b (at_entry 1 0x8c (λ i. 0)))

abbrev pub kernel_addr : LinkerSymbols → ℕ → ℕ
kernel_addr k = at_entry 3 0x0400_01ff (
    at_entry 2 (k.eheap / 4) (at_entry 1 (k.user_text_end / 4) (at_entry 0 (k.stext / 4) (λ i. 0))))

module _ (hart : PmpHart) (k : LinkerSymbols) (linked : IsLinked k) where
  open hart use {csrw_addr}

  -- A round of the loop for a TOR entry, and the NAPOT entry's.
  abbrev tor_round : ℕ → ℕ → ℕ → PmpRegs → PmpRegs
  tor_round i flags top regs = set_pmpcfg hart i flags (csrw_addr i (top >>> 2) regs)

  abbrev uart_round : PmpRegs → PmpRegs
  uart_round regs = set_pmpcfg hart 3 0x9b (csrw_addr 3 0x0400_01ff regs)

  abbrev rounds : PmpRegs → PmpRegs
  rounds regs = uart_round (
      tor_round 2 0x8b k.eheap
        (tor_round 1 0x8c k.user_text_end (csrw_addr 0 (k.stext >>> 2) regs)))

  init-rounds : (regs : PmpRegs) → init hart k regs ≡ rounds (clear_all hart regs)
  unfolding init install is_power_of_two napot_addr
  init-rounds regs = rw (lt→ltb 0 k.stext linked.text_pos) refl

  -- The bytes after each round.
  abbrev cfg_1 : ℕ → ℕ
  cfg_1 = at_entry 1 0x8c (λ i. 0)

  abbrev cfg_2 : ℕ → ℕ
  cfg_2 = at_entry 2 0x8b cfg_1

  at_entry-IsLegal :
      (i c : ℕ) (f : ℕ → ℕ)
      → IsLegal c
      → ((j : ℕ) → IsLegal (f j))
      → (j : ℕ) → IsLegal (at_entry i c f j)
  at_entry-IsLegal i c f new old j = ground (arith, new, old j)

  cfg_1-IsLegal : (j : ℕ) → IsLegal (cfg_1 j)
  cfg_1-IsLegal = at_entry-IsLegal 1 0x8c (λ i. 0) (refl, λ _. refl) (λ j. (refl, λ _. refl))

  cfg_2-IsLegal : (j : ℕ) → IsLegal (cfg_2 j)
  cfg_2-IsLegal = at_entry-IsLegal 2 0x8b cfg_1 (refl, λ e. absurd (omega arith)) cfg_1-IsLegal

  -- The kernel's entries after `init`, and all others off.
  pub init-Holds :
      (regs : PmpRegs)
      → ((i : ℕ) → i < 16 → locked (cfg regs i) ≡ false)
      → Holds kernel_cfg (kernel_addr k) (init hart k regs)
  init-Holds regs reset =
      let h0 =
        csrw_addr-Holds hart _ _ (clear_all hart regs) 0 (k.stext / 4)
          (clear_all-Holds hart regs reset) (omega arith)
          (omega (arith, linked.text_end, linked.heap_end, linked.within)) (refl, λ _. refl) in
      let h1 =
        csrw_addr-Holds hart _ _ _ 1 (k.user_text_end / 4) h0 (omega arith)
          (omega (arith, linked.heap_end, linked.within)) (refl, λ _. refl) in
      let c1 =
        set_pmpcfg-Holds hart _ _ _ 1 0x8c h1 (omega arith) (omega arith) (refl, λ _. refl)
          (λ j _. (refl, λ _. refl)) refl in
      let h2 =
        csrw_addr-Holds hart _ _ _ 2 (k.eheap / 4) c1 (omega arith) (omega (arith, linked.within))
          (refl, λ _. refl) in
      let c2 =
        set_pmpcfg-Holds hart _ _ _ 2 0x8b h2 (omega arith) (omega arith)
          (refl, λ e. absurd (omega arith)) (λ j _. cfg_1-IsLegal j) refl in
      let h3 =
        csrw_addr-Holds hart _ _ _ 3 0x0400_01ff c2 (omega arith) (omega arith) (refl, λ _. refl) in
      let c3 =
        set_pmpcfg-Holds hart _ _ _ 3 0x9b h3 (omega arith) (omega arith)
          (refl, λ e. absurd (omega arith)) (λ j _. cfg_2-IsLegal j) refl in
      subst (Holds kernel_cfg (kernel_addr k)) (sym (init-rounds regs)) c3
