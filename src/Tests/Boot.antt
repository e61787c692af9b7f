-- ===== src/Tests/Boot.antt =====
-- The registers that `init` leaves on the sample hart after reset, and what stays open to U-mode.
use cyptos.Prelude.{
  ℕ, zero, suc, ◌*◌, ◌%◌, ◌≤◌, ◌<◌, ◌≡◌, refl, sym, ap₂, subst, true, false, arith, dec_lt,
  is_power_of_two, ltb, if◌then◌else◌,
}
use cyptos.Pmp
use cyptos.Pmp.{LinkerSymbols, load_task_config}
use cyptos.Pmp.Hart.{PmpRegs, IsLegal, byte, cfg, locked}
use cyptos.Pmp.Access.{store, matches, grants, user_permits}
use cyptos.Pmp.Load.{IsOpen, div_zero}
use cyptos.Pmp.Isolation.{user_permits-kernel_entry}
use cyptos.Tests.Board.{board}
use cyptos.Tests.Table.{sample_regions, sample-IsTaskConfig, reset_regs}

abbrev symbols : LinkerSymbols
symbols = record { stext = 0x8000_0000; user_text_end = 0x8000_4000; eheap = 0x8040_0000 }

abbrev booted : PmpRegs
booted = Pmp.init board symbols reset_regs

booted_cfg0 : booted.cfg0 ≡ 0x9b8b_8c00
unfolding Pmp.init Pmp.install is_power_of_two
booted_cfg0 = refl

booted_cfg2 : booted.cfg2 ≡ 0
unfolding Pmp.init Pmp.install is_power_of_two
booted_cfg2 = refl

abbrev known : PmpRegs
known = record { cfg0 = 0x9b8b_8c00; cfg2 = 0; addr = λ i. 0 }

booted-cfg : (i : ℕ) → cfg known i ≡ cfg booted i
booted-cfg i =
    ap₂ (λ a b. if ltb i 8 then byte a i else byte b (i % 8)) (sym booted_cfg0) (sym booted_cfg2)

known-IsLegal : (i : ℕ) → i < 4 → IsLegal (cfg known i)
known-IsLegal zero lt = (refl, λ _. refl)
known-IsLegal (suc zero) lt = (refl, λ _. refl)
known-IsLegal (suc (suc zero)) lt = (refl, λ e. absurd (omega arith))
known-IsLegal (suc (suc (suc zero))) lt = (refl, λ e. absurd (omega arith))
known-IsLegal (suc (suc (suc (suc i)))) lt = absurd (omega arith)

known_open : (i : ℕ) → 4 ≤ i → i < 16 → locked (cfg known i) ≡ false
known_open i lo hi = elim (dec_lt i 8) [
  | yes low ↦ four i lo low
  | no high ↦ ground (arith, div_zero (8 * (i % 8)))
]
  where
    four : (i : ℕ) → 4 ≤ i → i < 8 → locked (cfg known i) ≡ false
    four (suc (suc (suc (suc zero)))) lo low = refl
    four (suc (suc (suc (suc (suc zero))))) lo low = refl
    four (suc (suc (suc (suc (suc (suc zero)))))) lo low = refl
    four (suc (suc (suc (suc (suc (suc (suc zero))))))) lo low = refl
    four (suc (suc (suc (suc (suc (suc (suc (suc i)))))))) lo low = absurd (omega arith)
    four zero lo low = absurd (omega arith)
    four (suc zero) lo low = absurd (omega arith)
    four (suc (suc zero)) lo low = absurd (omega arith)
    four (suc (suc (suc zero))) lo low = absurd (omega arith)

booted-IsOpen : IsOpen booted
booted-IsOpen = record {
  kernel_legal = λ i lt. subst IsLegal (booted-cfg i) (known-IsLegal i lt);
  task_open = λ i lo hi. subst (λ c. locked c ≡ false) (booted-cfg i) (known_open i lo hi);
}

-- A byte of the kernel's heap: entry 2 matches it before any entry of a task is asked.
missed : (j : ℕ) → j < 2 → matches booted j 0x8030_0000 ≡ false
unfolding Pmp.init Pmp.install is_power_of_two matches
missed zero lt = refl
missed (suc zero) lt = refl
missed (suc (suc j)) lt = absurd (omega arith)

user_permits-kernel_entry_example :
    user_permits (load_task_config board sample_regions booted) store 0x8030_0000
    ≡ grants store (cfg booted 2)
unfolding Pmp.init Pmp.install is_power_of_two matches
user_permits-kernel_entry_example =
    user_permits-kernel_entry board booted sample_regions store 0x8030_0000 2 booted-IsOpen
      sample-IsTaskConfig (omega arith) refl missed

-- Entry 2 grants the store.
entry_2_grants : grants store (cfg booted 2) ≡ true
unfolding Pmp.init Pmp.install is_power_of_two
entry_2_grants = refl
