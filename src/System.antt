-- ===== src/System.antt =====
-- The kernel and what it runs under: a trap, with whatever the interrupted code and the devices have done
-- since the last one, and the kernel's answer to it.
pub mod Table
pub mod Sound
pub mod Safe
pub mod Dispatch
pub mod Kept
pub mod Reach
pub mod Scheduling
pub mod Isolation
pub mod Preempt
pub mod Nearer
pub mod Fair
pub mod Clock
pub mod Vector
use cyptos.Prelude.{ℕ, ◌+◌, ◌/◌, ◌%◌, ◌^◌, ◌<◌, ◌≤◌, ◌≡◌, ◌≢◌, List, [], ◌∷◌, Option, none, some}
use cyptos.Arch.Csr.{Csr}
use cyptos.Arch.Frame.{TrapFrame}
use cyptos.Pmp.Hart.{PmpHart}
use cyptos.Machine.{Machine, done}
use cyptos.Pmp.Load.{region_at}
use cyptos.Pmp.Region.{PmpRegion}
use cyptos.Sched.Policy.{idle_task_index}
use cyptos.Sched.Table.Slots.{slot_at}
use cyptos.Sched.Task.{Task}
use cyptos.Trap.{trap_handler}

-- The machine between two traps, and the mode that the hart runs in: 0 is U-mode and 3 is M-mode.
pub record World : Type 0 where
  pub machine : Machine
  pub mode : ℕ

-- What a trap finds: the registers of the interrupted code, the CSRs that the hart sets, the time, the
-- bytes that the UART has received, and what has been stored.
pub record Event : Type 0 where
  pub frame : TrapFrame
  pub mstatus : ℕ
  pub mcause : ℕ
  pub mepc : ℕ
  pub mtval : ℕ
  pub mtime : ℕ
  pub rx : List ℕ
  -- the addresses that the interrupted code has stored to since the last trap
  pub stored : List ℕ
  -- the bytes of stack that the compiled `trap_handler` takes below the frame
  pub depth : ℕ

abbrev pub mpp_of : ℕ → ℕ
mpp_of mstatus = mstatus / 2 ^ 11 % 4

abbrev pub enter : Event → Machine → Machine
enter e m = record m {
  csr = record (m.csr) { mstatus = e.mstatus; mcause = e.mcause; mepc = e.mepc; mtval = e.mtval };
  clint = record (m.clint) { mtime = e.mtime };
  console = record (m.console) { rx = e.rx };
}

-- The stack region that a user task was created with.
abbrev pub stack_of : Task → PmpRegion
stack_of t = region_at t.pmp_config.regions 5

abbrev pub Within : ℕ → ℕ → List ℕ → Type 0
Within lo hi [] = Unit
Within lo hi (a ∷ addresses) = (lo ≤ a) × (a < hi) × Within lo hi addresses

-- The interrupted code has kept to its own stack. This is an assumption on the tasks: entry 2 leaves the kernel's
-- data open to U-mode, and `trap_vector` pushes its frame below whatever sp it finds, so that neither is enforced.
-- `kmain` and the idle task only wait: they store nothing, and idle leaves sp where its context has it.
pub data OwnStack (m : Machine) (e : Event) : Type 0 where
  in_kmain : m.scheduler.current ≡ none → e.stored ≡ [] → OwnStack m e
  in_idle :
      (t : Task)
      → m.scheduler.current ≡ some idle_task_index
      → slot_at m.scheduler.tasks idle_task_index ≡ some t
      → e.frame.sp ≡ t.context.sp
      → e.stored ≡ []
      → OwnStack m e
  in_user :
      (c : ℕ) (t : Task)
      → c ≢ idle_task_index
      → m.scheduler.current ≡ some c
      → slot_at m.scheduler.tasks c ≡ some t
      → (stack_of t).base + 256 + e.depth ≤ e.frame.sp
      → e.frame.sp ≤ (stack_of t).base + (stack_of t).size
      → Within (stack_of t).base ((stack_of t).base + (stack_of t).size) e.stored
      → OwnStack m e

-- The hart puts the mode that it ran in into MPP; mtime stays in reach of 64 bits; the code kept to its stack.
pub record IsFrom (w : World) (e : Event) : Type 0 where
  pub mpp_eq : mpp_of e.mstatus ≡ w.mode
  pub small : e.mstatus < 2 ^ 64
  pub fits : e.mtime + 100_000 < 2 ^ 64
  pub own : OwnStack w.machine e

-- `mret` goes to the mode in MPP.
abbrev pub leave : Machine → World
leave m = record { machine = m; mode = mpp_of m.csr.mstatus }

pub data Step (hart : PmpHart) (w w' : World) : Type 0 where
  trap :
      (e : Event) (frame' : TrapFrame) (m' : Machine)
      → IsFrom w e
      → trap_handler hart e.frame (enter e w.machine) ≡ done frame' m'
      → w' ≡ leave m'
      → Step hart w w'

pub data Reaches (hart : PmpHart) (w : World) : World → Type 0 where
  here : Reaches hart w w
  then : {v u : World} → Reaches hart w v → Step hart v u → Reaches hart w u
