-- ===== src/Boot.antt =====
-- crates/kernel/src/main.rs: the boot sequence of `kmain`, up to the loop that waits for the first timer
-- interrupt.
pub mod Entry
pub mod Steps
pub mod Spawns
pub mod Stages
pub mod Ready
pub mod Panic
pub mod First
use cyptos.Prelude.{ℕ, ◌+◌, String, List, [], ◌∷◌, Option, none, some}
use cyptos.Config.{uart_base}
use cyptos.Allocator
use cyptos.Allocator.{dealloc}
use cyptos.Machine.{Machine, M, ◌>>=◌, ◌>>◌, pure, done, modify, say, dec}
use cyptos.Pmp
use cyptos.Pmp.{LinkerSymbols}
use cyptos.Pmp.Hart.{PmpHart}
use cyptos.Serial
use cyptos.Sched.Scheduler
use cyptos.Sched.Spec.{expect, allocate, machine, user, spawn}
use cyptos.Timer
use cyptos.Timer.{enable_interrupts}
use cyptos.Trap

-- The addresses that the linker gives: the symbols and the functions that the boot code names.
pub record Image : Type 0 where
  pub symbols : LinkerSymbols
  pub sheap : ℕ
  pub user_text_start : ℕ
  pub vector : ℕ
  pub idle_task_entry : ℕ
  pub user_echo_task : ℕ
  pub user_violation_task : ℕ

unfoldable pub print_banner : M (Unit {0})
print_banner = do
  modify λ m. record m { console = Serial.init m.console }
  say "CyptOS v0.1.0\n"
  say "RV64 bare-metal microkernel\n"
  say "----------------------------\n"

-- The vector of three bytes is allocated, and given back at the end of its block.
unfoldable pub init_heap : Image → M (Unit {0})
unfolding allocate dealloc
init_heap image = do
  modify λ m. record m { allocator = Allocator.init image.sheap image.symbols.eheap m.allocator }
  say "[alloc] Heap initialized\n"
  ptr ← allocate 3 1
  v ← expect ptr
  say "[alloc] Test alloc ok, len="
  dec 3
  say "\n"
  modify λ m. record m { allocator = dealloc v m.allocator }

unfoldable pub spawn_idle_task : Image → M (Unit {0})
unfolding spawn
spawn_idle_task image = do
  idle_id ← spawn (machine image.idle_task_entry)
  say "[sched] idle task created: "
  dec idle_id
  say "\n"

unfoldable pub spawn_echo_task : Image → M (Unit {0})
unfolding spawn
spawn_echo_task image = do
  task0_id ←
      spawn (user image.user_echo_task image.user_text_start 0x1000 ((uart_base, 0x1000) ∷ []))
  say "[sched] task created: "
  dec task0_id
  say "\n"

unfoldable pub spawn_violation_task : Image → M (Unit {0})
unfolding spawn
spawn_violation_task image = do
  task1_id ← spawn (user image.user_violation_task image.user_text_start 0x1000 [])
  say "[sched] task created: "
  dec task1_id
  say "\n"

-- Up to the loop on `wfi`.
unfoldable pub start_scheduler : M (Unit {0})
unfolding Scheduler.init enable_interrupts
start_scheduler = do
  Scheduler.init
  enable_interrupts
  say "[kernel] Scheduler started — idle task handles wfi\n"

unfoldable pub pmp_init : PmpHart → Image → M (Unit {0})
unfolding Pmp.init
pmp_init hart image = do
  modify λ m. record m { pmp = Pmp.init hart image.symbols m.pmp }
  say "[pmp] Kernel entries locked\n"

unfoldable pub kmain : PmpHart → Image → M (Unit {0})
unfolding print_banner init_heap pmp_init spawn_idle_task spawn_echo_task spawn_violation_task
    start_scheduler Timer.init Trap.init
kmain hart image = do
  print_banner
  init_heap image
  Trap.init image.vector
  pmp_init hart image
  Timer.init
  spawn_idle_task image
  spawn_echo_task image
  spawn_violation_task image
  start_scheduler

-- The panic handler, up to its waiting loop; the argument is the location, if there is one.
unfoldable pub panic : Option (String × ℕ) → M (Unit {0})
panic none = say "\n!!! KERNEL PANIC !!!\n"
panic (some (file, line)) = do
  say "\n!!! KERNEL PANIC !!!\n"
  say "at "
  say file
  say ":"
  dec line
  say "\n"
