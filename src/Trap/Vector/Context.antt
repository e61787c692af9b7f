-- ===== src/Trap/Vector/Context.antt =====
-- `context_switch`: what it does to two contexts that do not overlap.
use cyptos.Prelude.{ℕ, ◌+◌, ◌/◌, ◌%◌, ◌^◌, ◌≤◌, ◌<◌, ◌≡◌, refl, ◌⊎◌, ◌∙◌, ap, arith, ==_refl, ==_ne}
use cyptos.Arch.Asm.{a0, a1, Cpu, set_reg, set_mem, mret_mstatus, frame_of_regs, frame_at}
use cyptos.Trap.Vector.{with_arguments, context_switch}
use cyptos.Trap.Vector.Switch.{switch_code_lem}

-- Memory with the two CSRs in the old context.
module _ (mem : ℕ → ℕ) (old new mepc mstatus : ℕ)
    (apart : (old + 264 ≤ new) ⊎ (new + 264 ≤ old)) where
  abbrev with_csrs : ℕ → ℕ
  with_csrs = set_mem (old + 256) mstatus (set_mem (old + 248) mepc mem)

  apart_at : (off : ℕ) → off < 264 → with_csrs (new + off) ≡ mem (new + off)
  apart_at off lt =
      rw
        (==_ne (new + off) (old + 256) (ground arith), ==_ne (new + off) (old + 248) (ground arith))
        refl

  apart-frame : frame_at with_csrs new ≡ frame_at mem new
  apart-frame = λ k. record {
    ra = apart_at 0 (omega arith) k;
    t0 = apart_at 8 (omega arith) k;
    t1 = apart_at 16 (omega arith) k;
    t2 = apart_at 24 (omega arith) k;
    t3 = apart_at 32 (omega arith) k;
    t4 = apart_at 40 (omega arith) k;
    t5 = apart_at 48 (omega arith) k;
    t6 = apart_at 56 (omega arith) k;
    a0 = apart_at 64 (omega arith) k;
    a1 = apart_at 72 (omega arith) k;
    a2 = apart_at 80 (omega arith) k;
    a3 = apart_at 88 (omega arith) k;
    a4 = apart_at 96 (omega arith) k;
    a5 = apart_at 104 (omega arith) k;
    a6 = apart_at 112 (omega arith) k;
    a7 = apart_at 120 (omega arith) k;
    s0 = apart_at 128 (omega arith) k;
    s1 = apart_at 136 (omega arith) k;
    s2 = apart_at 144 (omega arith) k;
    s3 = apart_at 152 (omega arith) k;
    s4 = apart_at 160 (omega arith) k;
    s5 = apart_at 168 (omega arith) k;
    s6 = apart_at 176 (omega arith) k;
    s7 = apart_at 184 (omega arith) k;
    s8 = apart_at 192 (omega arith) k;
    s9 = apart_at 200 (omega arith) k;
    s10 = apart_at 208 (omega arith) k;
    s11 = apart_at 216 (omega arith) k;
    gp = apart_at 224 (omega arith) k;
    tp = apart_at 232 (omega arith) k;
    sp = apart_at 240 (omega arith) k;
  }

-- `context_switch(old, new)` on contexts that do not overlap: the old one receives all registers, with a0
-- and a1 as the arguments, mepc and mstatus; the registers come from the new one, and the hart goes on at its
-- mepc, in the mode and with the mstatus that `mret` makes of its mstatus.
pub context_switch_lem :
    (old new : ℕ) (c : Cpu)
    → old + 264 ≤ 2 ^ 64
    → new + 264 ≤ 2 ^ 64
    → (old + 264 ≤ new) ⊎ (new + 264 ≤ old)
    → (frame_at (context_switch old new c).mem old
        ≡ frame_of_regs (set_reg a1 new (set_reg a0 old c.regs)))
      × ((context_switch old new c).mem (old + 248) ≡ c.mepc)
      × ((context_switch old new c).mem (old + 256) ≡ c.mstatus)
      × (frame_of_regs (context_switch old new c).regs ≡ frame_at c.mem new)
      × ((context_switch old new c).pc ≡ c.mem (new + 248))
      × ((context_switch old new c).mode ≡ c.mem (new + 256) / 2 ^ 11 % 4)
      × ((context_switch old new c).mstatus ≡ mret_mstatus (c.mem (new + 256)))
unfolding context_switch
context_switch_lem old new c room fits apart =
    let to_old = apart_at c.mem old new c.mepc c.mstatus apart in
    let (saved_regs, loaded, pc, mode, st, above) =
      switch_code_lem (λ x. x) (with_arguments old new c) old new refl refl room fits
        (ground arith) in
    (
      saved_regs,
      above (old + 248) (omega arith)
          ∙ rw (==_ne (old + 248) (old + 256) (λ q. absurd (omega arith)), ==_refl (old + 248))
              refl,
      above (old + 256) (omega arith) ∙ rw (==_refl (old + 256)) refl,
      loaded ∙ apart-frame c.mem old new c.mepc c.mstatus apart,
      pc ∙ to_old 248 (omega arith),
      mode ∙ ap (λ v. v / 2 ^ 11 % 4) (to_old 256 (omega arith)),
      st ∙ ap mret_mstatus (to_old 256 (omega arith)),
    )
