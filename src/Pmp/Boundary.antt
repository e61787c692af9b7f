-- ===== src/Pmp/Boundary.antt =====
-- What U-mode may access after `init` and `load_task_config`, byte by byte over the whole address space.
use cyptos.Pmp.Guarded.{
  IsGuarded, IsLoaded, Holds-IsGuarded, booted-IsOpen, load_task_config-IsLoaded,
  IsLoaded-IsInstalled,
}
use cyptos.Prelude.{
  ℕ, zero, suc, ◌*◌, ◌≤◌, ◌<◌, ◌≡◌, refl, inl, inr, ◌∙◌, ap, ap₂, arith, Bool, true, false, List,
  ltb, leb, ◌&&◌, if◌then◌else◌, Bool-cases, is_power_of_two,
}
use cyptos.Pmp.{LinkerSymbols, load_task_config, init}
use cyptos.Pmp.Region.{PmpRegion, new, napot_addr}
use cyptos.Pmp.Hart.{PmpRegs, PmpHart, cfg, locked}
use cyptos.Pmp.Access.{Access, load, store, fetch, matches, grants, user_permits}
use cyptos.Pmp.Napot.{IsNapot, napot_matches-napot_addr}
use cyptos.Pmp.Load.{IsTaskConfig}
use cyptos.Pmp.Init.{IsLinked, kernel_cfg, init-Holds}
use cyptos.Pmp.Isolation.{matches_lem, task_permits, user_permits_installed, kernel_decides}

abbrev pub between : ℕ → ℕ → ℕ → Bool
between lo hi a = leb lo a && ltb a hi

abbrev pub is_fetch : Access → Bool
is_fetch load = false
is_fetch store = false
is_fetch fetch = true

abbrev pub is_data : Access → Bool
is_data load = true
is_data store = true
is_data fetch = false

-- The kernel's and the users' code may be run; the kernel's data and the UART may be read and written;
-- anything else is as the task's regions say.
abbrev pub boot_permits : LinkerSymbols → List PmpRegion → Access → ℕ → Bool
boot_permits k regions access a =
    if between k.stext k.user_text_end a
    then is_fetch access
    else if between k.user_text_end k.eheap a
    then is_data access
    else if between 0x1000_0000 0x1000_1000 a
    then is_data access
    else task_permits regions access a 12 4

abbrev uart : PmpRegion
uart = new 0x1000_0000 0x1000 (0x83)

uart-IsNapot : IsNapot uart
unfolding is_power_of_two
uart-IsNapot = record { power = refl; least = omega arith; aligned = refl; within = omega arith }

grants_text : (access : Access) → grants access 0x8c ≡ is_fetch access
grants_text load = refl
grants_text store = refl
grants_text fetch = refl

grants_data : (access : Access) → grants access 0x8b ≡ is_data access
grants_data load = refl
grants_data store = refl
grants_data fetch = refl

grants_uart : (access : Access) → grants access 0x9b ≡ is_data access
grants_uart load = refl
grants_uart store = refl
grants_uart fetch = refl

module _ (k : LinkerSymbols) (linked : IsLinked k) (regs : PmpRegs) (h : IsGuarded k regs) where
  module _ (a : ℕ) where
    entry_0 : matches regs 0 a ≡ false
    entry_0 = matches_lem regs 0 a _ _ (h.cfg_eq 0 (omega arith)) refl

    entry_1 : matches regs 1 a ≡ between k.stext k.user_text_end a
    entry_1 =
        matches_lem regs 1 a _ _ (h.cfg_eq 1 (omega arith)) (h.addr_eq 1 (omega arith))
        ∙ ap₂ (λ lo hi. between lo hi a)
            (ap (λ (t : ℕ). t * 4) (h.addr_eq 0 (omega arith)) ∙ omega (arith, linked.text_aligned))
            (omega (arith, linked.text_end_aligned))

    entry_2 : matches regs 2 a ≡ between k.user_text_end k.eheap a
    entry_2 =
        matches_lem regs 2 a _ _ (h.cfg_eq 2 (omega arith)) (h.addr_eq 2 (omega arith))
        ∙ ap₂ (λ lo hi. between lo hi a)
            (ap (λ (t : ℕ). t * 4) (h.addr_eq 1 (omega arith))
              ∙ omega (arith, linked.text_end_aligned))
            (omega (arith, linked.heap_end_aligned))

    entry_3 : matches regs 3 a ≡ between 0x1000_0000 0x1000_1000 a
    unfolding napot_addr
    entry_3 =
        matches_lem regs 3 a _ _ (h.cfg_eq 3 (omega arith)) (h.addr_eq 3 (omega arith))
        ∙ napot_matches-napot_addr uart a uart-IsNapot

module _ (k : LinkerSymbols) (regions : List PmpRegion) (regs : PmpRegs) (access : Access) (a : ℕ)
    (linked : IsLinked k) (h : IsGuarded k regs) (valid : IsTaskConfig regions)
    (l : IsLoaded regions regs) where
  by_entry :
      (i : ℕ)
      → i < 4
      → matches regs i a ≡ true
      → ((j : ℕ) → j < i → matches regs j a ≡ false)
      → user_permits regs access a ≡ grants access (kernel_cfg i)
  by_entry i lt on off =
      kernel_decides regions regs regs access a valid (IsLoaded-IsInstalled l) i lt on off
      ∙ ap (grants access) (h.cfg_eq i lt)

  -- No entry below `i` matches.
  off_below :
      (i : ℕ)
      → i ≤ 4
      → (1 < i → between k.stext k.user_text_end a ≡ false)
      → (2 < i → between k.user_text_end k.eheap a ≡ false)
      → (3 < i → between 0x1000_0000 0x1000_1000 a ≡ false)
      → (j : ℕ) → j < i
      → matches regs j a ≡ false
  off_below i le e1 e2 e3 zero lt = entry_0 k linked regs h a
  off_below i le e1 e2 e3 (suc zero) lt = entry_1 k linked regs h a ∙ e1 (omega arith)
  off_below i le e1 e2 e3 (suc (suc zero)) lt = entry_2 k linked regs h a ∙ e2 (omega arith)
  off_below i le e1 e2 e3 (suc (suc (suc zero))) lt = entry_3 k linked regs h a ∙ e3 (omega arith)
  off_below i le e1 e2 e3 (suc (suc (suc (suc j)))) lt = absurd (omega arith)

  -- On a hart with the kernel's entries in place and a task's loaded: what U-mode may do.
  pub permitted : user_permits regs access a ≡ boot_permits k regions access a
  permitted = elim (Bool-cases (between k.stext k.user_text_end a)) [
    | inl text ↦
        by_entry 1 (omega arith) (entry_1 k linked regs h a ∙ text) (
          off_below 1 (omega arith) (λ q. absurd (omega arith)) (λ q. absurd (omega arith))
            (λ q. absurd (omega arith)))
        ∙ (grants_text access ∙ rw text refl)
    | inr not_text ↦ elim (Bool-cases (between k.user_text_end k.eheap a)) [
      | inl is_kernel ↦
          by_entry 2 (omega arith) (entry_2 k linked regs h a ∙ is_kernel) (
            off_below 2 (omega arith) (λ _. not_text) (λ q. absurd (omega arith))
              (λ q. absurd (omega arith)))
          ∙ (grants_data access ∙ rw (not_text, is_kernel) refl)
      | inr not_kernel ↦ elim (Bool-cases (between 0x1000_0000 0x1000_1000 a)) [
        | inl is_uart ↦
            by_entry 3 (omega arith) (entry_3 k linked regs h a ∙ is_uart) (
              off_below 3 (omega arith) (λ _. not_text) (λ _. not_kernel)
                (λ q. absurd (omega arith)))
            ∙ (grants_uart access ∙ rw (not_text, not_kernel, is_uart) refl)
        | inr other ↦
            user_permits_installed regions regs regs access a valid (IsLoaded-IsInstalled l)
              (off_below 4 (omega arith) (λ _. not_text) (λ _. not_kernel) (λ _. other))
            ∙ rw (not_text, not_kernel, other) refl
      ]
    ]
  ]

module _ (hart : PmpHart) (k : LinkerSymbols) (reset : PmpRegs) (regions : List PmpRegion)
    (access : Access) (a : ℕ) (linked : IsLinked k) where
  -- On a hart of which no entry is locked, for boundaries in order and aligned, and for any task whose
  -- regions are off or NAPOT grants: after `init` and `load_task_config`, U-mode may execute all code from
  -- _stext to _user_text_end, and not read or write it, may read and write all of the kernel's data up to
  -- _eheap and the UART, and has elsewhere what the first of the task's regions that holds the byte grants.
  pub user_permits-init :
      ((i : ℕ) → i < 16 → locked (cfg reset i) ≡ false)
      → IsTaskConfig regions
      → user_permits (load_task_config hart regions (init hart k reset)) access a
        ≡ boot_permits k regions access a
  user_permits-init unlocked valid =
      let h = init-Holds hart k linked reset unlocked in
      let (g, l) =
        load_task_config-IsLoaded hart regions (init hart k reset) (Holds-IsGuarded {k = k} h)
          (booted-IsOpen k h) valid in
      permitted k regions (load_task_config hart regions (init hart k reset)) access a linked g
        valid l
