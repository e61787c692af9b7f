-- ===== src/Tests/Assembly.antt =====
-- A hart that has trapped, a handler that steps over an instruction, and the naked functions on them.
use cyptos.Prelude.{ℕ, ◌+◌, ◌*◌, ◌<◌, ◌≤◌, ◌≡◌, refl, ap, ◌⊎◌, inl, arith}
use cyptos.Arch.Asm.{a0, a1, Cpu, number, set_reg, run, mret_mstatus, frame_of_regs, frame_at}
use cyptos.Trap.Vector.{trap_entry, trap_vector, context_switch}
use cyptos.Trap.Vector.Frames.{trap_entry-frame, trap_vector_lem}
use cyptos.Trap.Vector.Context.{context_switch_lem}

-- Every register holds 4096 times its number, so sp is 8192; each doubleword holds twice its address.
abbrev user_cpu : Cpu
user_cpu = record {
  regs = λ r. 4096 * number r;
  mem = λ a. 2 * a;
  mscratch = 0;
  mepc = 0x8000_2000;
  mstatus = 0x80;
  pc = 0x8000_1000;
  mode = 3;
}

-- A handler that steps over an `ecall`, and leaves the rest.
abbrev step_over : Cpu → Cpu
step_over d = record d { mepc = d.mepc + 4 }

trap_entry-frame_example :
    ((run step_over trap_entry user_cpu).regs a0 ≡ 7936)
    × (frame_at (run step_over trap_entry user_cpu).mem 7936 ≡ frame_of_regs user_cpu.regs)
    × ((a : ℕ) → (a < 7936) ⊎ (8192 ≤ a) → (run step_over trap_entry user_cpu).mem a ≡ 2 * a)
trap_entry-frame_example = trap_entry-frame step_over user_cpu (omega arith) (omega arith)

trap_vector_lem_example :
    (frame_of_regs (trap_vector step_over user_cpu).regs ≡ frame_of_regs user_cpu.regs)
    × ((trap_vector step_over user_cpu).pc ≡ 0x8000_2004)
    × ((trap_vector step_over user_cpu).mode ≡ 0)
    × ((trap_vector step_over user_cpu).mstatus ≡ 0x88)
trap_vector_lem_example =
    trap_vector_lem step_over user_cpu (frame_of_regs user_cpu.regs) 0x8000_2004 0x80 (omega arith)
      (omega arith)
      λ d is_frame at_mepc status. record {
        sp_kept = refl;
        frame_eq = is_frame;
        mepc_eq = ap (λ p. p + 4) at_mepc;
        mstatus_eq = status;
      }

context_switch_lem_example :
    (frame_at (context_switch 0x1000 0x2000 user_cpu).mem 0x1000
      ≡ frame_of_regs (set_reg a1 0x2000 (set_reg a0 0x1000 user_cpu.regs)))
    × ((context_switch 0x1000 0x2000 user_cpu).mem 0x10f8 ≡ 0x8000_2000)
    × ((context_switch 0x1000 0x2000 user_cpu).mem 0x1100 ≡ 0x80)
    × (frame_of_regs (context_switch 0x1000 0x2000 user_cpu).regs ≡ frame_at user_cpu.mem 0x2000)
    × ((context_switch 0x1000 0x2000 user_cpu).pc ≡ 0x41f0)
    × ((context_switch 0x1000 0x2000 user_cpu).mode ≡ 0)
    × ((context_switch 0x1000 0x2000 user_cpu).mstatus ≡ mret_mstatus 0x4200)
context_switch_lem_example =
    context_switch_lem 0x1000 0x2000 user_cpu (omega arith) (omega arith) (inl (omega arith))
