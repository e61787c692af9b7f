-- ===== src/Trap/Vector/Switch.antt =====
-- `do_context_switch_asm`: the registers go to the old context, and come from the new one.
use native.Mathlib.Nat.{mod-eq_of_lt}
use cyptos.Prelude.{
  ℕ, ◌+◌, ◌/◌, ◌%◌, ◌^◌, ◌≤◌, ◌<◌, ◌≡◌, refl, ◌⊎◌, inr, ◌∙◌, sym, ap, arith, some, u64,
}
use cyptos.Arch.Asm.{
  Reg, ra, sp, gp, tp, t0, t1, t2, s0, s1, a0, a1, a2, a3, a4, a5, a6, a7, s2, s3, s4, s5, s6, s7,
  s8, s9, s10, s11, t3, t4, t5, t6, Cpu, run, mret_mstatus, frame_of_regs, frame_at,
}
use cyptos.Trap.Vector.{saved_offsets, load_code, switch_code}
use cyptos.Trap.Vector.Stores.{store_all, run-save, stored_at, store_all-outside, store_all-at}

-- The loads, from a hart whose a1 is `new`.
module _ (callee : Cpu → Cpu) (d : Cpu) (new : ℕ) (is_new : d.regs a1 ≡ new)
    (fits : new + 264 ≤ 2 ^ 64) where
  at : (off : ℕ) → off < 264 → d.mem (u64 (d.regs a1 + off)) ≡ d.mem (new + off)
  at off lt = ap d.mem (ap (λ b. u64 (b + off)) is_new ∙ mod-eq_of_lt (omega arith))

  loaded-frame : frame_of_regs (run callee load_code d).regs ≡ frame_at d.mem new
  unfolding run
  loaded-frame = λ k. record {
    ra = at 0 (omega arith) k;
    t0 = at 8 (omega arith) k;
    t1 = at 16 (omega arith) k;
    t2 = at 24 (omega arith) k;
    t3 = at 32 (omega arith) k;
    t4 = at 40 (omega arith) k;
    t5 = at 48 (omega arith) k;
    t6 = at 56 (omega arith) k;
    a0 = at 64 (omega arith) k;
    a1 = at 72 (omega arith) k;
    a2 = at 80 (omega arith) k;
    a3 = at 88 (omega arith) k;
    a4 = at 96 (omega arith) k;
    a5 = at 104 (omega arith) k;
    a6 = at 112 (omega arith) k;
    a7 = at 120 (omega arith) k;
    s0 = at 128 (omega arith) k;
    s1 = at 136 (omega arith) k;
    s2 = at 144 (omega arith) k;
    s3 = at 152 (omega arith) k;
    s4 = at 160 (omega arith) k;
    s5 = at 168 (omega arith) k;
    s6 = at 176 (omega arith) k;
    s7 = at 184 (omega arith) k;
    s8 = at 192 (omega arith) k;
    s9 = at 200 (omega arith) k;
    s10 = at 208 (omega arith) k;
    s11 = at 216 (omega arith) k;
    gp = at 224 (omega arith) k;
    tp = at 232 (omega arith) k;
    sp = at 240 (omega arith) k;
  }

  loaded-state :
      ((run callee load_code d).pc ≡ d.mem (new + 248))
      × ((run callee load_code d).mode ≡ d.mem (new + 256) / 2 ^ 11 % 4)
      × ((run callee load_code d).mstatus ≡ mret_mstatus (d.mem (new + 256)))
      × ((run callee load_code d).mem ≡ d.mem)
  unfolding run
  loaded-state = (
    at 248 (omega arith),
    ap (λ v. v / 2 ^ 11 % 4) (at 256 (omega arith)),
    ap mret_mstatus (at 256 (omega arith)),
    refl,
  )

module _ (c : Cpu) (fits : c.regs a0 + 264 ≤ 2 ^ 64) where
  abbrev saved : Cpu
  saved = record c { mem = store_all c.regs (c.regs a0) saved_offsets c.mem }

  field :
      (off : ℕ) (r : Reg)
      → off < 248
      → stored_at off saved_offsets ≡ some r
      → saved.mem (c.regs a0 + off) ≡ c.regs r
  field off r lt e =
      store_all-at c.regs (c.regs a0) 248 (omega arith) saved_offsets c.mem off (omega arith) lt
      ∙ rw e refl

  saved-frame : frame_at saved.mem (c.regs a0) ≡ frame_of_regs c.regs
  saved-frame = λ k. record {
    ra = field 0 ra (omega arith) refl k;
    t0 = field 8 t0 (omega arith) refl k;
    t1 = field 16 t1 (omega arith) refl k;
    t2 = field 24 t2 (omega arith) refl k;
    t3 = field 32 t3 (omega arith) refl k;
    t4 = field 40 t4 (omega arith) refl k;
    t5 = field 48 t5 (omega arith) refl k;
    t6 = field 56 t6 (omega arith) refl k;
    a0 = field 64 a0 (omega arith) refl k;
    a1 = field 72 a1 (omega arith) refl k;
    a2 = field 80 a2 (omega arith) refl k;
    a3 = field 88 a3 (omega arith) refl k;
    a4 = field 96 a4 (omega arith) refl k;
    a5 = field 104 a5 (omega arith) refl k;
    a6 = field 112 a6 (omega arith) refl k;
    a7 = field 120 a7 (omega arith) refl k;
    s0 = field 128 s0 (omega arith) refl k;
    s1 = field 136 s1 (omega arith) refl k;
    s2 = field 144 s2 (omega arith) refl k;
    s3 = field 152 s3 (omega arith) refl k;
    s4 = field 160 s4 (omega arith) refl k;
    s5 = field 168 s5 (omega arith) refl k;
    s6 = field 176 s6 (omega arith) refl k;
    s7 = field 184 s7 (omega arith) refl k;
    s8 = field 192 s8 (omega arith) refl k;
    s9 = field 200 s9 (omega arith) refl k;
    s10 = field 208 s10 (omega arith) refl k;
    s11 = field 216 s11 (omega arith) refl k;
    gp = field 224 gp (omega arith) refl k;
    tp = field 232 tp (omega arith) refl k;
    sp = field 240 sp (omega arith) refl k;
  }

  kept :
      (new off : ℕ)
      → (c.regs a0 + 248 ≤ new) ⊎ (new + 264 ≤ c.regs a0)
      → off < 264
      → saved.mem (new + off) ≡ c.mem (new + off)
  kept new off apart lt =
      store_all-outside c.regs (c.regs a0) 248 (omega arith) saved_offsets c.mem (new + off)
        (omega arith) (ground arith)

  kept-frame :
      (new : ℕ)
      → (c.regs a0 + 248 ≤ new) ⊎ (new + 264 ≤ c.regs a0)
      → frame_at saved.mem new ≡ frame_at c.mem new
  kept-frame new apart = λ k. record {
    ra = kept new 0 apart (omega arith) k;
    t0 = kept new 8 apart (omega arith) k;
    t1 = kept new 16 apart (omega arith) k;
    t2 = kept new 24 apart (omega arith) k;
    t3 = kept new 32 apart (omega arith) k;
    t4 = kept new 40 apart (omega arith) k;
    t5 = kept new 48 apart (omega arith) k;
    t6 = kept new 56 apart (omega arith) k;
    a0 = kept new 64 apart (omega arith) k;
    a1 = kept new 72 apart (omega arith) k;
    a2 = kept new 80 apart (omega arith) k;
    a3 = kept new 88 apart (omega arith) k;
    a4 = kept new 96 apart (omega arith) k;
    a5 = kept new 104 apart (omega arith) k;
    a6 = kept new 112 apart (omega arith) k;
    a7 = kept new 120 apart (omega arith) k;
    s0 = kept new 128 apart (omega arith) k;
    s1 = kept new 136 apart (omega arith) k;
    s2 = kept new 144 apart (omega arith) k;
    s3 = kept new 152 apart (omega arith) k;
    s4 = kept new 160 apart (omega arith) k;
    s5 = kept new 168 apart (omega arith) k;
    s6 = kept new 176 apart (omega arith) k;
    s7 = kept new 184 apart (omega arith) k;
    s8 = kept new 192 apart (omega arith) k;
    s9 = kept new 200 apart (omega arith) k;
    s10 = kept new 208 apart (omega arith) k;
    s11 = kept new 216 apart (omega arith) k;
    gp = kept new 224 apart (omega arith) k;
    tp = kept new 232 apart (omega arith) k;
    sp = kept new 240 apart (omega arith) k;
  }

pub switch_code_lem :
    (callee : Cpu → Cpu) (c : Cpu) (old new : ℕ)
    → c.regs a0 ≡ old
    → c.regs a1 ≡ new
    → old + 264 ≤ 2 ^ 64
    → new + 264 ≤ 2 ^ 64
    → (old + 248 ≤ new) ⊎ (new + 264 ≤ old)
    → (frame_at (run callee switch_code c).mem old ≡ frame_of_regs c.regs)
      × (frame_of_regs (run callee switch_code c).regs ≡ frame_at c.mem new)
      × ((run callee switch_code c).pc ≡ c.mem (new + 248))
      × ((run callee switch_code c).mode ≡ c.mem (new + 256) / 2 ^ 11 % 4)
      × ((run callee switch_code c).mstatus ≡ mret_mstatus (c.mem (new + 256)))
      × ((a : ℕ) → old + 248 ≤ a → (run callee switch_code c).mem a ≡ c.mem a)
switch_code_lem callee c old new is_old is_new room fits apart =
    let room' : c.regs a0 + 264 ≤ 2 ^ 64 = omega arith in
    let apart' : (c.regs a0 + 248 ≤ new) ⊎ (new + 264 ≤ c.regs a0) = ground arith in
    let d = saved c room' in
    let whole : run callee switch_code c ≡ run callee load_code d =
      run-save callee a0 saved_offsets load_code c in
    let (pc, mode, st, mem) = loaded-state callee d new is_new fits in
    let csr = kept c room' new in
    (
      ap (λ x. frame_at x.mem old) whole
          ∙ (ap (λ m. frame_at m old) mem
              ∙ (ap (frame_at d.mem) (sym is_old) ∙ saved-frame c room')),
      ap (λ x. frame_of_regs x.regs) whole
          ∙ (loaded-frame callee d new is_new fits ∙ kept-frame c room' new apart'),
      ap (λ x. x.pc) whole ∙ (pc ∙ csr 248 apart' (omega arith)),
      ap (λ x. x.mode) whole ∙ (mode ∙ ap (λ v. v / 2 ^ 11 % 4) (csr 256 apart' (omega arith))),
      ap (λ x. x.mstatus) whole ∙ (st ∙ ap mret_mstatus (csr 256 apart' (omega arith))),
      λ b above.
          ap (λ x. x.mem b) whole
          ∙ (ap (λ m. m b) mem
              ∙ store_all-outside c.regs (c.regs a0) 248 (omega arith) saved_offsets c.mem b
                  (omega arith) (inr (omega arith))),
    )
