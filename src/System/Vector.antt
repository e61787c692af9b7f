-- ===== src/System/Vector.antt =====
-- A trap of a user task with the kernel's state in memory: the task's stores, those of `trap_vector`, and the
-- compiled `trap_handler` that it calls.
use cyptos.Prelude.{ℕ, ◌+◌, ◌<◌, ◌≤◌, ◌≡◌, ◌≢◌, ◌⊎◌, List, [], ◌∷◌}
use cyptos.Arch.Asm.{sp, a0, Cpu, frame_at}
use cyptos.Arch.Frame.{TrapFrame}
use cyptos.Machine.{Machine, done}
use cyptos.Pmp.Hart.{PmpHart}
use cyptos.Sched.Task.{Task}
use cyptos.Trap.{trap_handler}
use cyptos.Trap.Vector.Frames.{Handles}
use cyptos.System.{Event, stack_of, Within, enter}

-- `Holds mem m`: memory holds the scheduler, the allocator and the tick count of `m`, where the compiler and the
-- linker have put them. The CSRs, the PMP, the CLINT and the UART are not in memory.
pub record IsLayout (Holds : (ℕ → ℕ) → Machine → Type 0) (m : Machine) (t : Task) : Type 0 where
  -- none of it lies in the stack of the task
  pub apart :
      (mem mem' : ℕ → ℕ)
      → ((a : ℕ)
          → (a < (stack_of t).base) ⊎ ((stack_of t).base + (stack_of t).size ≤ a)
          → mem' a ≡ mem a)
      → Holds mem m
      → Holds mem' m
  pub in_memory : (mem : ℕ → ℕ) (e : Event) → Holds mem m → Holds mem (enter e m)

-- What the compiler promises of the function that `trap_vector` calls, on the machine `m`: called with its state in
-- memory, a frame at a0, and `depth` bytes of the stack from `low` on left below sp, it does what `trap_handler` does
-- to the frame and the machine, and keeps sp.
abbrev pub IsCompiled :
    PmpHart → ((ℕ → ℕ) → Machine → Type 0) → Machine → ℕ → ℕ → (Cpu → Cpu) → Type 0
IsCompiled hart Holds m low depth handler =
    (d : Cpu) (frame' : TrapFrame) (m' : Machine)
    → Holds d.mem m
    → low + depth ≤ d.regs sp
    → d.regs a0 ≡ d.regs sp
    → d.mepc ≡ m.csr.mepc
    → d.mstatus ≡ m.csr.mstatus
    → trap_handler hart (frame_at d.mem (d.regs a0)) m ≡ done frame' m'
    → Handles handler d frame' m'.csr.mepc m'.csr.mstatus × Holds (handler d).mem m'

-- An address that is not stored to.
abbrev pub NotIn : ℕ → List ℕ → Type 0
NotIn a [] = Unit
NotIn a (b ∷ addresses) = (a ≢ b) × NotIn a addresses

-- What `OwnStack` says of the user task that is current.
record Room (t : Task) (e : Event) : Type 0 where
  low : (stack_of t).base + 256 + e.depth ≤ e.frame.sp
  high : e.frame.sp ≤ (stack_of t).base + (stack_of t).size
  stores : Within (stack_of t).base ((stack_of t).base + (stack_of t).size) e.stored
