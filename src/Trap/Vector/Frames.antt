-- ===== src/Trap/Vector/Frames.antt =====
-- `trap_vector`: the frame that the handler is given, and the registers that come back.
use native.Mathlib.Nat.{mod-eq_of_lt}
use cyptos.Prelude.{
  ℕ, ◌+◌, ◌-◌, ◌/◌, ◌%◌, ◌^◌, ◌≤◌, ◌<◌, ◌≡◌, refl, ◌⊎◌, ◌∙◌, ap, arith, List, [], ◌∷◌, ◌++◌, some,
  ==_refl, ==_ne, u64,
}
use cyptos.Arch.Frame.{TrapFrame}
use cyptos.Arch.Asm.{
  Reg, ra, sp, gp, tp, t0, t1, t2, s0, s1, a0, a1, a2, a3, a4, a5, a6, a7, s2, s3, s4, s5, s6, s7,
  s8, s9, s10, s11, t3, t4, t5, t6, Cpu, set_reg, set_mem, Instr, sd, mv, csrr_mscratch, call, run,
  mret_mstatus, frame_of_regs, frame_at,
}
use cyptos.Trap.Vector.{gpr_offsets, trap_entry, trap_exit, trap_vector}
use cyptos.Trap.Vector.Stores.{store_all, run-save, stored_at, store_all-outside, store_all-at}

-- What `trap_vector` relies on: at `d` the handler keeps sp, as the calling convention says, and leaves the
-- given frame, mepc and mstatus.
pub record Handles (handler : Cpu → Cpu) (d : Cpu) (frame : TrapFrame) (mepc mstatus : ℕ)
    : Type 0 where
  pub sp_kept : (handler d).regs sp ≡ d.regs sp
  pub frame_eq : frame_at (handler d).mem (d.regs a0) ≡ frame
  pub mepc_eq : (handler d).mepc ≡ mepc
  pub mstatus_eq : (handler d).mstatus ≡ mstatus

module _ (c : Cpu) (room : 256 ≤ c.regs sp) (word : c.regs sp < 2 ^ 64) where
  abbrev base : ℕ
  base = c.regs sp - 256

  -- The hart at the call of the handler.
  abbrev pub entered : Cpu
  entered = record c {
    regs = set_reg a0 base (set_reg t0 (c.regs sp) (set_reg sp base c.regs));
    mem =
        set_mem (base + 240) (c.regs sp)
          (store_all (set_reg sp base c.regs) base gpr_offsets c.mem);
    mscratch = c.regs sp;
  }

  abbrev lowered : Cpu
  lowered = record c {
    regs = set_reg sp (u64 (c.regs sp + (2 ^ 64 - 256))) c.regs;
    mscratch = c.regs sp;
  }

  base_lem : u64 (c.regs sp + (2 ^ 64 - 256)) ≡ base
  base_lem = omega arith

  spilled : ℕ → ℕ → Cpu
  spilled b top = record c {
    regs = set_reg a0 b (set_reg t0 (c.regs sp) (set_reg sp b c.regs));
    mem = set_mem top (c.regs sp) (store_all (set_reg sp b c.regs) b gpr_offsets c.mem);
    mscratch = c.regs sp;
  }

  top_lem : u64 (base + 240) ≡ base + 240
  top_lem = mod-eq_of_lt (omega arith)

  pub run-trap_entry :
      (callee : Cpu → Cpu) (rest : List Instr)
      → run callee (trap_entry ++ rest) c ≡ run callee rest entered
  unfolding run spilled
  run-trap_entry callee rest =
      run-save callee sp gpr_offsets (csrr_mscratch t0 ∷ sd t0 240 sp ∷ mv a0 sp ∷ rest) lowered
      ∙ (ap (λ b. run callee rest (spilled b (u64 (b + 240)))) base_lem
          ∙ ap (λ t. run callee rest (spilled base t)) top_lem)

  field :
      (off : ℕ) (r : Reg)
      → off < 240
      → stored_at off gpr_offsets ≡ some r
      → entered.mem (base + off) ≡ set_reg sp base c.regs r
  field off r lt e = rw (==_ne (base + off) (base + 240) (λ q. absurd (omega arith))) (
      store_all-at (set_reg sp base c.regs) base 256 (omega arith) gpr_offsets c.mem off
        (omega arith) (omega arith)
      ∙ rw e refl)

  top_field : entered.mem (base + 240) ≡ c.regs sp
  top_field = rw (==_refl (base + 240)) refl

  -- The handler is given the registers of the interrupted code.
  pub entered-frame : frame_at entered.mem base ≡ frame_of_regs c.regs
  entered-frame = λ k. record {
    ra = field 0 ra (omega arith) refl k;
    t0 = field 8 t0 (omega arith) refl k;
    t1 = field 16 t1 (omega arith) refl k;
    t2 = field 24 t2 (omega arith) refl k;
    t3 = field 32 t3 (omega arith) refl k;
    t4 = field 40 t4 (omega arith) refl k;
    t5 = field 48 t5 (omega arith) refl k;
    t6 = field 56 t6 (omega arith) refl k;
    a0 = field 64 a0 (omega arith) refl k;
    a1 = field 72 a1 (omega arith) refl k;
    a2 = field 80 a2 (omega arith) refl k;
    a3 = field 88 a3 (omega arith) refl k;
    a4 = field 96 a4 (omega arith) refl k;
    a5 = field 104 a5 (omega arith) refl k;
    a6 = field 112 a6 (omega arith) refl k;
    a7 = field 120 a7 (omega arith) refl k;
    s0 = field 128 s0 (omega arith) refl k;
    s1 = field 136 s1 (omega arith) refl k;
    s2 = field 144 s2 (omega arith) refl k;
    s3 = field 152 s3 (omega arith) refl k;
    s4 = field 160 s4 (omega arith) refl k;
    s5 = field 168 s5 (omega arith) refl k;
    s6 = field 176 s6 (omega arith) refl k;
    s7 = field 184 s7 (omega arith) refl k;
    s8 = field 192 s8 (omega arith) refl k;
    s9 = field 200 s9 (omega arith) refl k;
    s10 = field 208 s10 (omega arith) refl k;
    s11 = field 216 s11 (omega arith) refl k;
    gp = field 224 gp (omega arith) refl k;
    tp = field 232 tp (omega arith) refl k;
    sp = top_field k;
  }

-- The loads of `trap_exit`, if no address wraps.
module _ (callee : Cpu → Cpu) (d : Cpu) (fits : d.regs sp + 256 ≤ 2 ^ 64) where
  at : (off : ℕ) → off < 256 → d.mem (u64 (d.regs sp + off)) ≡ d.mem (d.regs sp + off)
  at off lt = ap d.mem (mod-eq_of_lt (omega arith))

  pub exit-frame : frame_of_regs (run callee trap_exit d).regs ≡ frame_at d.mem (d.regs sp)
  unfolding run
  exit-frame = λ k. record {
    ra = at 0 (omega arith) k;
    t0 = at 8 (omega arith) k;
    t1 = at 16 (omega arith) k;
    t2 = at 24 (omega arith) k;
    t3 = at 32 (omega arith) k;
    t4 = at 40 (omega arith) k;
    t5 = at 48 (omega arith) k;
    t6 = at 56 (omega arith) k;
    a0 = at 64 (omega arith) k;
    a1 = at 72 (omega arith) k;
    a2 = at 80 (omega arith) k;
    a3 = at 88 (omega arith) k;
    a4 = at 96 (omega arith) k;
    a5 = at 104 (omega arith) k;
    a6 = at 112 (omega arith) k;
    a7 = at 120 (omega arith) k;
    s0 = at 128 (omega arith) k;
    s1 = at 136 (omega arith) k;
    s2 = at 144 (omega arith) k;
    s3 = at 152 (omega arith) k;
    s4 = at 160 (omega arith) k;
    s5 = at 168 (omega arith) k;
    s6 = at 176 (omega arith) k;
    s7 = at 184 (omega arith) k;
    s8 = at 192 (omega arith) k;
    s9 = at 200 (omega arith) k;
    s10 = at 208 (omega arith) k;
    s11 = at 216 (omega arith) k;
    gp = at 224 (omega arith) k;
    tp = at 232 (omega arith) k;
    sp = at 240 (omega arith) k;
  }

  pub exit-state :
      ((run callee trap_exit d).pc ≡ d.mepc)
      × ((run callee trap_exit d).mode ≡ d.mstatus / 2 ^ 11 % 4)
      × ((run callee trap_exit d).mstatus ≡ mret_mstatus d.mstatus)
  unfolding run
  exit-state = (refl, refl, refl)

-- The frame that the handler is given holds all registers of the interrupted code; it lies in the 256
-- bytes below that code's sp, whatever sp is and whichever mode the code ran in, and memory outside those
-- bytes is as before.
pub trap_entry-frame :
    (callee : Cpu → Cpu) (c : Cpu)
    → 256 ≤ c.regs sp
    → c.regs sp < 2 ^ 64
    → ((run callee trap_entry c).regs a0 ≡ c.regs sp - 256)
      × (frame_at (run callee trap_entry c).mem (c.regs sp - 256) ≡ frame_of_regs c.regs)
      × ((a : ℕ)
          → (a < c.regs sp - 256) ⊎ (c.regs sp ≤ a)
          → (run callee trap_entry c).mem a ≡ c.mem a)
unfolding run
trap_entry-frame callee c room word =
    let e : run callee trap_entry c ≡ entered c room word = run-trap_entry c room word callee [] in
    (
      ap (λ d. d.regs a0) e,
      ap (λ d. frame_at d.mem (c.regs sp - 256)) e ∙ entered-frame c room word,
      λ a out. ap (λ d. d.mem a) e ∙ outside a out,
    )
  where
    outside :
        (a : ℕ) → (a < c.regs sp - 256) ⊎ (c.regs sp ≤ a) → (entered c room word).mem a ≡ c.mem a
    outside a out = rw (==_ne a (c.regs sp - 256 + 240) (ground arith)) (
        store_all-outside (set_reg sp (c.regs sp - 256) c.regs) (c.regs sp - 256) 256 (omega arith)
          gpr_offsets c.mem a (omega arith) (ground arith))

-- `trap_vector` as a whole: for a handler that, given the frame of the interrupted registers in a0, leaves
-- `frame` there, keeps sp, and leaves `mepc` and `mstatus`, the hart goes on at `mepc`, in the mode and with
-- the mstatus that `mret` makes of `mstatus`, and with exactly the registers of `frame`.
pub trap_vector_lem :
    (handler : Cpu → Cpu) (c : Cpu) (frame : TrapFrame) (mepc mstatus : ℕ)
    → 256 ≤ c.regs sp
    → c.regs sp < 2 ^ 64
    → ((d : Cpu)
        → frame_at d.mem (d.regs a0) ≡ frame_of_regs c.regs
        → d.mepc ≡ c.mepc
        → d.mstatus ≡ c.mstatus
        → Handles handler d frame mepc mstatus)
    → (frame_of_regs (trap_vector handler c).regs ≡ frame)
      × ((trap_vector handler c).pc ≡ mepc)
      × ((trap_vector handler c).mode ≡ mstatus / 2 ^ 11 % 4)
      × ((trap_vector handler c).mstatus ≡ mret_mstatus mstatus)
unfolding trap_vector run
trap_vector_lem handler c frame mepc mstatus room word handles =
    let d = handler (entered c room word) in
    let h = handles (entered c room word) (entered-frame c room word) refl refl in
    let whole : trap_vector handler c ≡ run handler trap_exit d =
      run-trap_entry c room word handler (call ∷ trap_exit) in
    let fits : d.regs sp + 256 ≤ 2 ^ 64 = omega (arith, h.sp_kept) in
    let (pc, mode, st) = exit-state handler d fits in
    (
      ap (λ x. frame_of_regs x.regs) whole
          ∙ (exit-frame handler d fits ∙ (ap (frame_at d.mem) h.sp_kept ∙ h.frame_eq)),
      ap (λ x. x.pc) whole ∙ (pc ∙ h.mepc_eq),
      ap (λ x. x.mode) whole ∙ (mode ∙ ap (λ v. v / 2 ^ 11 % 4) h.mstatus_eq),
      ap (λ x. x.mstatus) whole ∙ (st ∙ ap mret_mstatus h.mstatus_eq),
    )
