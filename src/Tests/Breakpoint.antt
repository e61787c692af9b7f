-- ===== src/Tests/Breakpoint.antt =====
-- A breakpoint of the echo task, from its registers to its registers.
use cyptos.Prelude.{ℕ, ◌+◌, ◌*◌, ◌≡◌, u64}
use cyptos.Arch.Asm.{Cpu, sp, number, set_reg, frame_of_regs}
use cyptos.Arch.Frame.{TrapFrame}
use cyptos.Machine.{Machine, Outcome, done, panicked}
use cyptos.Trap.Vector.Frames.{Handles}
use cyptos.System.{Event}
use cyptos.Tests.Spawning.{waiting-IsBooted}
use cyptos.Tests.System.{event, w1}

-- The kernel's memory: here the tick count, at an address below the heap.
abbrev Holds : (ℕ → ℕ) → Machine → Type 0
Holds mem m = mem 0x8000_8000 ≡ m.tick_count

-- Every register holds 4096 times its number, but sp is the top of the task's stack.
abbrev cpu : Cpu
cpu = record {
  regs = set_reg sp (waiting-IsBooted.echo_bottom + 8192) (λ r. 4096 * number r);
  mem = λ a. w1.machine.tick_count;
  mscratch = 0;
  mepc = 0x8000_2010;
  mstatus = 0x80;
  pc = 0x8000_0200;
  mode = 3;
}

abbrev ebreak : Event
ebreak = event (frame_of_regs cpu.regs) 0x80 3

-- What the handler does on a breakpoint.
abbrev step_over : Cpu → Cpu
step_over d = record d { mepc = u64 (d.mepc + 4) }

abbrev Leaves : Cpu → Outcome TrapFrame → Type 0
Leaves d (done frame' m') =
    Handles step_over d frame' m'.csr.mepc m'.csr.mstatus × Holds (step_over d).mem m'
Leaves d (panicked m') = ⊥
