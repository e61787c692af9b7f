-- ===== src/Pmp/Boot.antt =====
-- `clear_all` and `init` on the registers of any hart that is fresh from reset.
use native.Mathlib.Nat.{mod-eq_of_lt}
use cyptos.Prelude.{
  ℕ, zero, suc, ◌+◌, ◌*◌, ◌/◌, ◌%◌, ◌^◌, ◌<◌, ◌≡◌, refl, ◌∙◌, sym, ap, ap₂, subst, false, arith,
  ltb, lt→ltb, ◌==◌, ==_refl, ==_ne, if◌then◌else◌, ◌&&◌, dec_lt, ℕ_discrete,
}
use cyptos.Pmp.Hart.{PmpRegs, PmpHart, byte, cfg, locked, mode, addr_locked, IsLegal}
use cyptos.Pmp.Bytes.{pack, byte-pack, put, set_byte}
use cyptos.Pmp.Load.{div_zero, cfg0_same}
use cyptos.Pmp.{set_pmpcfg, clear_addrs, clear_all}

-- The registers hold these configuration bytes and these addresses.
pub record Holds (f g : ℕ → ℕ) (regs : PmpRegs) : Type 0 where
  pub cfg_eq : (i : ℕ) → i < 16 → cfg regs i ≡ f i
  pub addr_eq : (i : ℕ) → i < 16 → regs.addr i ≡ g i

-- `f` with `v` at `i`.
abbrev pub at_entry : ℕ → ℕ → (ℕ → ℕ) → ℕ → ℕ
at_entry i v f j = if j == i then v else f j

-- Writable: neither entry `i` nor a TOR entry above it is locked.
abbrev pub IsFree : (ℕ → ℕ) → ℕ → Type 0
IsFree f i =
    (locked (f i) ≡ false) × (i < 15 → (locked (f (i + 1)) && mode (f (i + 1)) == 1) ≡ false)

module _ (hart : PmpHart) where
  open hart use {csrw_cfg0, csrw_cfg2, csrw_addr}

  free_addr :
      (f g : ℕ → ℕ) (regs : PmpRegs) (i : ℕ)
      → Holds f g regs
      → i < 16
      → IsFree f i
      → addr_locked regs i ≡ false
  free_addr f g regs i h lt free = elim (dec_lt i 15) [
    | yes below ↦
        rw (h.cfg_eq i lt, h.cfg_eq (i + 1) (omega arith), free.0, free.1 below) (ground arith)
    | no not_below ↦ rw (h.cfg_eq i lt, free.0) (ground arith)
  ]

  pub csrw_addr-Holds :
      (f g : ℕ → ℕ) (regs : PmpRegs) (i v : ℕ)
      → Holds f g regs
      → i < 16
      → v < 2 ^ 54
      → IsFree f i
      → Holds f (at_entry i v g) (csrw_addr i v regs)
  csrw_addr-Holds f g regs i v h lt small free = record {
    cfg_eq = λ j lj.
        ap₂ (λ a b. if ltb j 8 then byte a j else byte b (j % 8)) (hart.addr_cfg0 i v regs)
          (hart.addr_cfg2 i v regs)
        ∙ h.cfg_eq j lj;
    addr_eq = λ j lj. elim (ℕ_discrete j i) [
      | yes e ↦
          rw (e, ==_refl i) (hart.addr_self i v regs lt small (free_addr f g regs i h lt free))
      | no ne ↦ rw (==_ne j i ne) (hart.addr_other i v regs j (λ q. ne (sym q)) ∙ h.addr_eq j lj)
    ];
  }

  set_pmpcfg_lem :
      (i c : ℕ) (regs : PmpRegs)
      → i < 8
      → c < 256
      → set_pmpcfg hart i c regs ≡ csrw_cfg0 (pack (put i c regs.cfg0) 8) regs
  unfolding set_pmpcfg
  set_pmpcfg_lem i c regs lt small =
      rw (mod-eq_of_lt {n = i} {m = 8} lt, lt→ltb i 8 lt)
        (ap (λ v. csrw_cfg0 v regs) (set_byte regs.cfg0 c i small lt))

  put-byte : (i c v j : ℕ) → c < 256 → j < 8 → byte (pack (put i c v) 8) j ≡ put i c v j
  put-byte i c v j small lt = byte-pack (put i c v) (λ k _. ground arith) j lt

  pub set_pmpcfg-Holds :
      (f g : ℕ → ℕ) (regs : PmpRegs) (i c : ℕ)
      → Holds f g regs
      → i < 8
      → c < 256
      → IsLegal c
      → ((j : ℕ) → j < 8 → IsLegal (f j))
      → locked (f i) ≡ false
      → Holds (at_entry i c f) g (set_pmpcfg hart i c regs)
  set_pmpcfg-Holds f g regs i c h lt small legal all free =
      subst (Holds (at_entry i c f) g) (sym (set_pmpcfg_lem i c regs lt small)) (record {
        cfg_eq = λ j lj. elim (dec_lt j 8) [
          | yes low ↦ low_entry j low
          | no high ↦
              hart.cfg0_other _ regs j (omega arith) lj
              ∙ (h.cfg_eq j lj ∙ rw (==_ne j i (λ q. absurd (omega arith))) refl)
        ];
        addr_eq = λ j lj. hart.cfg0_addr _ regs j ∙ h.addr_eq j lj;
      })
    where
      new : (j : ℕ) → j < 8 → byte (pack (put i c regs.cfg0) 8) j ≡ put i c regs.cfg0 j
      new j lj = put-byte i c regs.cfg0 j small lj

      is_low : (j : ℕ) → j < 8 → cfg regs j ≡ byte regs.cfg0 j
      is_low j lj = rw (lt→ltb j 8 lj) refl

      low_entry :
          (j : ℕ) → j < 8 → cfg (csrw_cfg0 (pack (put i c regs.cfg0) 8) regs) j ≡ at_entry i c f j
      low_entry j lj = elim (ℕ_discrete j i) [
        | yes e ↦
            let b : byte (pack (put i c regs.cfg0) 8) j ≡ c = new j lj ∙ rw (e, ==_refl i) refl in
            hart.cfg0_open _ regs j lj (ap locked (h.cfg_eq j (omega arith) ∙ ap f e) ∙ free)
              (subst IsLegal (sym b) legal)
            ∙ (b ∙ rw (e, ==_refl i) refl)
        | no ne ↦
            let b : byte (pack (put i c regs.cfg0) 8) j ≡ cfg regs j =
              new j lj ∙ (rw (==_ne j i ne) refl ∙ sym (is_low j lj)) in
            cfg0_same hart _ regs j lj (subst IsLegal (sym (h.cfg_eq j (omega arith))) (all j lj)) b
            ∙ (h.cfg_eq j (omega arith) ∙ rw (==_ne j i ne) refl)
      ]

  -- Fresh from reset no entry is locked.
  module _ (regs : PmpRegs) (reset : (i : ℕ) → i < 16 → locked (cfg regs i) ≡ false) where
    abbrev zeroed : PmpRegs
    zeroed = csrw_cfg2 0 (csrw_cfg0 0 regs)

    none-IsLegal : (k : ℕ) → IsLegal (0 / 2 ^ k % 256)
    none-IsLegal k = subst IsLegal (sym (div_zero k)) (refl, λ _. refl)

    zeroed-cfg : (i : ℕ) → i < 16 → cfg zeroed i ≡ 0
    zeroed-cfg i lt = elim (dec_lt i 8) [
      | yes low ↦
          hart.cfg2_other 0 (csrw_cfg0 0 regs) i low
          ∙ (hart.cfg0_open 0 regs i low (reset i lt) (none-IsLegal (8 * i)) ∙ div_zero (8 * i))
      | no high ↦
          let same = hart.cfg0_other 0 regs i (omega arith) lt in
          hart.cfg2_open 0 (csrw_cfg0 0 regs) i (omega arith) lt (ap locked same ∙ reset i lt)
            (none-IsLegal (8 * (i % 8)))
          ∙ div_zero (8 * (i % 8))
    ]

    -- The addresses below `i` are cleared.
    clear_addrs-Holds :
        (left i : ℕ) (g : ℕ → ℕ) (r : PmpRegs)
        → i + left ≡ 16
        → Holds (λ j. 0) g r
        → ((j : ℕ) → j < i → g j ≡ 0)
        → Holds (λ j. 0) (λ j. 0) (clear_addrs hart left i r)
    unfolding clear_addrs
    clear_addrs-Holds zero i g r e h done = record {
      cfg_eq = h.cfg_eq;
      addr_eq = λ j lt. h.addr_eq j lt ∙ done j (omega arith);
    }
    clear_addrs-Holds (suc left) i g r e h done =
        clear_addrs-Holds left (i + 1) (at_entry i 0 g) (csrw_addr i 0 r) (omega arith)
          (csrw_addr-Holds (λ j. 0) g r i 0 h (omega arith) (omega arith) (refl, λ _. refl))
          (λ j lt. elim (ℕ_discrete j i) [
            | yes same ↦ rw (same, ==_refl i) refl
            | no ne ↦ rw (==_ne j i ne) (done j (omega arith))
          ])

    pub clear_all-Holds : Holds (λ j. 0) (λ j. 0) (clear_all hart regs)
    unfolding clear_all
    clear_all-Holds =
        clear_addrs-Holds 16 0 zeroed.addr zeroed refl
          (record { cfg_eq = zeroed-cfg; addr_eq = λ i lt. refl }) (λ j lt. absurd (omega arith))
