-- ===== src/Tests/Spawning.antt =====
-- The symbols, the heap and the machine at boot, and the theorems on allocation, spawning, boot and the
-- kernel's PMP entries applied to them.
use cyptos.Prelude.{ℕ, ◌+◌, ◌<◌, ◌≤◌, ◌≡◌, refl, true, arith, List, [], ◌∷◌, none, some}
use cyptos.Allocator.{BumpAllocator, alloc}
use cyptos.Allocator.Blocks.{IsAligned}
use cyptos.Allocator.Room.{alloc-exact}
use cyptos.Machine.{Returns-done, Machine, done, Returns}
use cyptos.Pmp.{LinkerSymbols, load_task_config}
use cyptos.Pmp
use cyptos.Pmp.Region.{PmpRegion, new, flag_rx}
use cyptos.Pmp.Access.{store, user_permits}
use cyptos.Pmp.Boundary.{user_permits-init}
use cyptos.Pmp.Init.{IsLinked}
use cyptos.Pmp.Load.{IsGrant}
use cyptos.Sched.Task.{TaskId}
use cyptos.Sched.Table.{SchedulerState, umode_task, initial}
use cyptos.Sched.Table.Create.{Added}
use cyptos.Sched.Table.Valid.{IsValid}
use cyptos.Sched.Spec.{spawn, user}
use cyptos.Sched.Spec.Layout.{IsLaid}
use cyptos.Sched.Spec.Spawn.{with_stack, spawn-user}
use cyptos.Arch.Frame.{TrapFrame, copy_to_frame, new_umode}
use cyptos.Pmp.Load.{IsInstalled}
use cyptos.Sched.Scheduler.{schedule}
use cyptos.Boot.First.{echo_task, schedule-first}
use cyptos.Boot.{Image, kmain}
use cyptos.Boot.Stages.{initial-IsValid, IsReset}
use cyptos.Boot.Ready.{IsBooted, kmain_lem}
use cyptos.Tests.Board.{board}
use cyptos.Tests.Table.{
  frame_of, code-IsNapot, sample_regions, sample-IsTaskConfig, reset_regs, reset_open, trapped,
}

abbrev symbols : LinkerSymbols
symbols = record { stext = 0x8000_0000; user_text_end = 0x8000_4000; eheap = 0x8040_0000 }

pub symbols-IsLinked : IsLinked symbols
symbols-IsLinked = record {
  text_pos = omega arith;
  text_end = omega arith;
  heap_end = omega arith;
  within = omega arith;
  text_aligned = refl;
  text_end_aligned = refl;
  heap_end_aligned = refl;
}

user_permits-init_example :
    user_permits
      (load_task_config board sample_regions (Pmp.init board symbols reset_regs))
      store
      0x8030_0000
    ≡ true
user_permits-init_example =
    user_permits-init board symbols reset_regs sample_regions store 0x8030_0000 symbols-IsLinked
      reset_open sample-IsTaskConfig

code-IsGrant : IsGrant (new 0x8000_2000 0x1000 flag_rx)
code-IsGrant = record {
  small = omega arith;
  legal = λ e. absurd (omega arith);
  shape = code-IsNapot;
}

abbrev heap : BumpAllocator
heap = record { heap_start = 0x8020_0000; heap_end = 0x8040_0000; next = 0x8020_0003 }

alloc-exact_example :
    (p : ℕ) × IsAligned 0x8020_0003 16 p
    × (p + 24 ≤ 0x8040_0000 → alloc [] 24 16 heap ≡ (some p, record heap { next = p + 24 }))
    × (0x8040_0000 < p + 24 → alloc [] 24 16 heap ≡ (none, heap))
alloc-exact_example = alloc-exact 24 4 60 heap refl (omega arith) (omega arith)

-- The machine at reset.
abbrev pub at_reset : Machine
at_reset = record (trapped 0) {
  pmp = reset_regs;
  allocator = heap;
  scheduler = record { current = none; tasks = none ∷ none ∷ none ∷ none ∷ [] };
}

empty-IsValid : IsValid at_reset.scheduler
unfolding initial
empty-IsValid = initial-IsValid

spawn-user_example :
    (id : TaskId) × (bottom : ℕ) × (regions : List PmpRegion) × (s' : SchedulerState) × (spawn
        (user 0x8000_2000 0x8000_2000 0x1000 [])
        at_reset
      ≡ done id (record (with_stack bottom at_reset) { scheduler = s' }))
    × IsAligned 0x8020_0003 8192 bottom
    × IsLaid 0x8000_2000 0x1000 [] bottom regions
    × Added (umode_task 0x8000_2000 (bottom + 8192) regions) at_reset.scheduler id s'
    × IsValid s'
spawn-user_example =
    spawn-user 0x8000_2000 0x8000_2000 0x1000 [] at_reset 0 code-IsGrant tt (omega arith)
      (record { before_end = omega arith; within = omega arith }) (omega arith) empty-IsValid
      (omega arith) refl

abbrev pub image : Image
image = record {
  symbols = symbols;
  sheap = 0x8020_0000;
  user_text_start = 0x8000_2000;
  vector = 0x8000_0200;
  idle_task_entry = 0x8000_0100;
  user_echo_task = 0x8000_2000;
  user_violation_task = 0x8000_2400;
}

at_reset-IsReset : IsReset image at_reset
unfolding initial
at_reset-IsReset = record {
  linked = symbols-IsLinked;
  reset = reset_open;
  heap_room = omega arith;
  within = omega arith;
  code = code-IsGrant;
  small = omega arith;
  no_tasks = refl;
  fits = omega arith;
}

kmain_lem_example : Returns (kmain board image at_reset) (λ _ m'. IsBooted image at_reset m')
kmain_lem_example = kmain_lem board image at_reset at_reset-IsReset

-- What `kmain` leaves, and the machine that its first timer interrupt finds.
pub booted :
    (r : Unit {0}) × (m' : Machine) × (kmain board image at_reset ≡ done r m')
    × IsBooted image at_reset m'
booted =
    Returns-done (kmain board image at_reset) _ (kmain_lem board image at_reset at_reset-IsReset)

abbrev pub waiting : Machine
waiting = booted.1

pub waiting-IsBooted : IsBooted image at_reset waiting
waiting-IsBooted = booted.3

abbrev interrupted : Machine
interrupted = record waiting { csr = record (waiting.csr) { mstatus = 0x1880 } }

schedule-first_example :
    (frame' : TrapFrame) × (n' : Machine) × (schedule board (frame_of 7) interrupted
      ≡ done frame' n')
    × (n'.scheduler.current ≡ some 1)
    × (frame'
        ≡ copy_to_frame (new_umode 0x8000_2000 (waiting-IsBooted.echo_bottom + 8192)) (frame_of 7))
    × (n'.csr.mepc ≡ 0x8000_2000)
    × (n'.csr.mstatus ≡ 0x80)
    × IsInstalled (echo_task waiting-IsBooted).pmp_config.regions interrupted.pmp n'.pmp
    × IsValid n'.scheduler
schedule-first_example =
    schedule-first board image at_reset waiting interrupted (frame_of 7) waiting-IsBooted refl refl
      (omega arith)
