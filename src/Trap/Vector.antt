-- ===== src/Trap/Vector.antt =====
-- The naked functions of crates/kernel/src/trap.rs: `trap_vector` and `do_context_switch_asm`, and
-- `context_switch`, which ends in the latter.
pub mod Stores
pub mod Frames
pub mod Memory
pub mod Switch
pub mod Context
use mathlib.Core.List.{map}
use cyptos.Prelude.{ℕ, ◌+◌, ◌-◌, ◌^◌, List, [], ◌∷◌, ◌++◌}
use cyptos.Arch.Asm.{
  Reg, ra, sp, gp, tp, t0, t1, t2, s0, s1, a0, a1, a2, a3, a4, a5, a6, a7, s2, s3, s4, s5, s6, s7,
  s8, s9, s10, s11, t3, t4, t5, t6, Cpu, set_reg, set_mem, Instr, sd, ld, addi, mv, csrw_mscratch,
  csrr_mscratch, csrw_mepc, csrw_mstatus, call, mret, run,
}

-- The registers that both functions store and load one after the other, with their offsets.
abbrev pub gpr_offsets : List (Reg × ℕ)
gpr_offsets =
    (ra, 0)
    ∷ (t0, 8)
    ∷ (t1, 16)
    ∷ (t2, 24)
    ∷ (t3, 32)
    ∷ (t4, 40)
    ∷ (t5, 48)
    ∷ (t6, 56)
    ∷ (a0, 64)
    ∷ (a1, 72)
    ∷ (a2, 80)
    ∷ (a3, 88)
    ∷ (a4, 96)
    ∷ (a5, 104)
    ∷ (a6, 112)
    ∷ (a7, 120)
    ∷ (s0, 128)
    ∷ (s1, 136)
    ∷ (s2, 144)
    ∷ (s3, 152)
    ∷ (s4, 160)
    ∷ (s5, 168)
    ∷ (s6, 176)
    ∷ (s7, 184)
    ∷ (s8, 192)
    ∷ (s9, 200)
    ∷ (s10, 208)
    ∷ (s11, 216)
    ∷ (gp, 224)
    ∷ (tp, 232)
    ∷ []

abbrev pub save_to : Reg → Reg × ℕ → Instr
save_to base (r, off) = sd r off base

abbrev pub load_from : Reg → Reg × ℕ → Instr
load_from base (r, off) = ld r off base

-- Up to the call of the handler.
abbrev pub trap_entry : List Instr
trap_entry =
    csrw_mscratch sp
    ∷ addi sp sp (2 ^ 64 - 256)
    ∷ (map (save_to sp) gpr_offsets ++ csrr_mscratch t0 ∷ sd t0 240 sp ∷ mv a0 sp ∷ [])

-- Behind it.
abbrev pub trap_exit : List Instr
trap_exit = map (load_from sp) gpr_offsets ++ ld sp 240 sp ∷ mret ∷ []

unfoldable pub trap_vector : (Cpu → Cpu) → Cpu → Cpu
unfolding run
trap_vector handler = run handler (trap_entry ++ call ∷ trap_exit)

-- a1 is the base of the loads, so it comes last.
abbrev pub loaded_first : List (Reg × ℕ)
loaded_first =
    (ra, 0)
    ∷ (t0, 8)
    ∷ (t1, 16)
    ∷ (t2, 24)
    ∷ (t3, 32)
    ∷ (t4, 40)
    ∷ (t5, 48)
    ∷ (t6, 56)
    ∷ (a0, 64)
    ∷ (a2, 80)
    ∷ (a3, 88)
    ∷ (a4, 96)
    ∷ (a5, 104)
    ∷ (a6, 112)
    ∷ (a7, 120)
    ∷ (s0, 128)
    ∷ (s1, 136)
    ∷ (s2, 144)
    ∷ (s3, 152)
    ∷ (s4, 160)
    ∷ (s5, 168)
    ∷ (s6, 176)
    ∷ (s7, 184)
    ∷ (s8, 192)
    ∷ (s9, 200)
    ∷ (s10, 208)
    ∷ (s11, 216)
    ∷ (gp, 224)
    ∷ (tp, 232)
    ∷ (sp, 240)
    ∷ []

abbrev pub saved_offsets : List (Reg × ℕ)
saved_offsets = gpr_offsets ++ (sp, 240) ∷ []

abbrev pub load_code : List Instr
load_code =
    ld t0 248 a1
    ∷ csrw_mepc t0
    ∷ ld t0 256 a1
    ∷ csrw_mstatus t0
    ∷ (map (load_from a1) loaded_first ++ ld a1 72 a1 ∷ mret ∷ [])

abbrev pub switch_code : List Instr
switch_code = map (save_to a0) saved_offsets ++ load_code

-- `context_switch(old, new)`: the two CSRs go to `old`, and a0 and a1 hold the arguments of the call.
abbrev pub with_arguments : ℕ → ℕ → Cpu → Cpu
with_arguments old new c = record c {
  regs = set_reg a1 new (set_reg a0 old c.regs);
  mem = set_mem (old + 256) c.mstatus (set_mem (old + 248) c.mepc c.mem);
}

unfoldable pub context_switch : ℕ → ℕ → Cpu → Cpu
unfolding run
context_switch old new c = run (λ c. c) switch_code (with_arguments old new c)
