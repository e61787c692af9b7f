-- ===== src/Tests/System.antt =====
-- The booted system after its first and its second timer interrupt, and the theorems on reachable worlds
-- applied there.
use cyptos.Prelude.{
  ℕ, ◌+◌, ◌^◌, ◌≤◌, ◌≡◌, ◌≢◌, refl, ◌∙◌, sym, ap, pair_inj, inr, false, Option, some, arith, [],
}
use cyptos.Arch.Frame.{TrapFrame}
use cyptos.Machine.{Machine, done}
use cyptos.Pmp.Access.{store, load, user_permits}
use cyptos.Pmp.Boundary.{boot_permits}
use cyptos.Sched.Policy.{select_next_ready}
use cyptos.Sched.Scheduler.Switch.{schedule-Switched}
use cyptos.Sched.Scheduler.Kill.{IsDead}
use cyptos.Sched.Task.{Task, running, new_task}
use cyptos.Sched.Table.{
  SchedulerState, SwitchTarget, umode_task, mmode_task, start_all, pick, run_task, save_task,
  target_of, dispatch, update_current, update_slot, is_ready,
}
use cyptos.Sched.Table.Slots.{slot_at}
use cyptos.Boot.First.{pick_first, begun}
use cyptos.Boot.Stages.{three}
use cyptos.Trap.Handle.{ticked, trap_handler-tick}
use cyptos.Pmp.Region.{PmpRegion, new, flag_rw}
use cyptos.Sched.Table.Create.{copied_at}
use cyptos.System.{
  World, stack_of, Event, OwnStack, in_kmain, in_user, IsFrom, Step, Reaches, here, then, trap,
  leave, enter,
}
use cyptos.System.Isolation.{
  configs_of, waiting_in, reached, user_permits-reached, trap_handler-progress, dead-forever,
  user_fault-final,
}
use cyptos.UserTask.Violation.{user_violation_task_lem}
use cyptos.Trap.{trap_handler}
use cyptos.Tests.Board.{board}
use cyptos.Tests.Table.{frame_of}
use cyptos.Tests.Spawning.{image, at_reset, waiting, waiting-IsBooted, symbols-IsLinked}

abbrev pub start : World
start = waiting_in waiting

abbrev pub Reached : World → Type 0
Reached w = Reaches board start w

abbrev pub event : TrapFrame → ℕ → ℕ → Event
event frame mstatus mcause = record {
  frame = frame;
  mstatus = mstatus;
  mcause = mcause;
  mepc = 0x8000_2010;
  mtval = 0;
  mtime = 5_000_000;
  rx = [];
  stored = [];
  depth = 256;
}

abbrev pub timer : TrapFrame → ℕ → Event
timer frame mstatus = event frame mstatus (2 ^ 63 + 7)

-- The interrupted registers with sp at the top of a stack.
abbrev pub stack_frame : ℕ → TrapFrame
stack_frame bottom = record (frame_of 7) { sp = bottom + 8192 }

abbrev pub echo_frame : TrapFrame
echo_frame = stack_frame waiting-IsBooted.echo_bottom

pub on_top :
    (bottom : ℕ) (r : PmpRegion)
    → r ≡ new bottom 8192 flag_rw
    → (r.base + 256 + 256 ≤ bottom + 8192) × (bottom + 8192 ≤ r.base + r.size)
on_top bottom r e = rw e (omega arith, omega arith)

-- A timer interrupt, for which the table's outcome is known.
pub tick :
    (w : World) (frame : TrapFrame) (mstatus : ℕ) (target : Option SwitchTarget)
    (s' : SchedulerState)
    → Reached w
    → IsFrom w (timer frame mstatus)
    → pick frame 0x8000_2010 mstatus w.machine.scheduler ≡ some (target, s')
    → (frame' : TrapFrame) × (n : Machine) × (trap_handler board frame
          (enter (timer frame mstatus) w.machine)
        ≡ done frame' n)
      × (n.scheduler ≡ s')
tick w frame mstatus target s' r from picked =
    let m = enter (timer frame mstatus) w.machine in
    let (k, ticks) = trap_handler-tick board frame m refl from.fits in
    let (frame', n, out, (_, picked', _), _) =
      schedule-Switched board frame (ticked board frame k m) from.small
        (reached board image at_reset waiting waiting-IsBooted r).sound.valid in
    (frame', n, ticks ∙ out, (pair_inj (sym picked' ∙ picked)).1)

after_tick :
    (w : World) (frame : TrapFrame) (mstatus : ℕ) (target : Option SwitchTarget)
    (s' : SchedulerState)
    → Reached w
    → IsFrom w (timer frame mstatus)
    → pick frame 0x8000_2010 mstatus w.machine.scheduler ≡ some (target, s')
    → (w' : World) × Reached w' × (w'.machine.scheduler ≡ s')
unfolding tick
after_tick w frame mstatus target s' r from picked =
    let (frame', n, out, same) = tick w frame mstatus target s' r from picked in
    (leave n, then r (trap (timer frame mstatus) frame' n from out refl), same)

abbrev pub idle_task : Task
idle_task = begun (mmode_task 0x8000_0100 (waiting-IsBooted.idle_bottom + 8192) 0)

abbrev pub echo_task : Task
echo_task =
    begun
      (umode_task 0x8000_2000 (waiting-IsBooted.echo_bottom + 8192) waiting-IsBooted.echo_regions 1)

abbrev pub violation_task : Task
violation_task = begun (
    umode_task 0x8000_2400 (waiting-IsBooted.violation_bottom + 8192)
      waiting-IsBooted.violation_regions 2)

abbrev pub state_1 : SchedulerState
state_1 = record {
  current = some 1;
  tasks = three (some idle_task) (some (run_task echo_task)) (some violation_task);
}

start-OwnStack : {mcause : ℕ} → OwnStack start.machine (event (frame_of 7) 0x1880 mcause)
start-OwnStack = in_kmain waiting-IsBooted.current_eq refl

pub world_1 : (w : World) × Reached w × (w.machine.scheduler ≡ state_1)
unfolding start_all umode_task mmode_task new_task
world_1 =
    after_tick start (frame_of 7) 0x1880 _ state_1 here
      (record { mpp_eq = refl; small = omega arith; fits = omega arith; own = start-OwnStack })
      (pick_first (frame_of 7) 0x8000_2010 0x1880 idle_task echo_task violation_task
        waiting.scheduler waiting-IsBooted.current_eq waiting-IsBooted.tasks_eq refl)

abbrev pub w1 : World
w1 = world_1.0

user_permits-reached_example :
    (w1.mode ≡ 0)
    × (running ≡ running)
    × ((run_task echo_task).pmp_config.regions ≡ configs_of waiting 1)
    × (user_permits w1.machine.pmp store 0x8000_0000
        ≡ boot_permits image.symbols (configs_of waiting 1) store 0x8000_0000)
unfolding umode_task new_task
user_permits-reached_example =
    user_permits-reached board image at_reset waiting waiting-IsBooted w1 1 (run_task echo_task)
      store 0x8000_0000 symbols-IsLinked world_1.1 (ap (λ s. s.current) world_1.2)
      (ap (λ s. slot_at s.tasks 1) world_1.2)

w1_mode : w1.mode ≡ 0
unfolding umode_task new_task
w1_mode =
    (user_permits-reached board image at_reset waiting waiting-IsBooted w1 1 (run_task echo_task)
      store 0x8000_0000 symbols-IsLinked world_1.1 (ap (λ s. s.current) world_1.2)
      (ap (λ s. slot_at s.tasks 1) world_1.2)).0

w1-OwnStack : {mcause : ℕ} → OwnStack w1.machine (event echo_frame 0x80 mcause)
unfolding umode_task new_task
w1-OwnStack =
    let (low, high) = on_top waiting-IsBooted.echo_bottom (stack_of (run_task echo_task)) (
      copied_at waiting-IsBooted.echo_regions 16 5 (omega arith)
      ∙ waiting-IsBooted.echo_laid.stack_eq) in
    in_user 1 (run_task echo_task) (λ e. absurd (omega arith)) (ap (λ s. s.current) world_1.2)
      (ap (λ s. slot_at s.tasks 1) world_1.2) low high tt

pub w1-IsFrom : (mcause : ℕ) → IsFrom w1 (event echo_frame 0x80 mcause)
w1-IsFrom mcause = record {
  mpp_eq = sym w1_mode;
  small = omega arith;
  fits = omega arith;
  own = w1-OwnStack;
}

-- A fault of the echo task.
user_fault-final_example :
    (w' : World) × Step board w1 w'
    × IsDead 1 w'.machine.scheduler
    × ((w'' : World) → Reaches board w' w'' → w''.machine.scheduler.current ≢ some 1)
user_fault-final_example =
    user_fault-final board image at_reset waiting waiting-IsBooted w1 (event echo_frame 0x80 7) 1
      world_1.1 (w1-IsFrom 7) (inr (inr refl)) w1_mode (ap (λ s. s.current) world_1.2)

echo_fault :
    (w' : World) × Step board w1 w'
    × IsDead 1 w'.machine.scheduler
    × ((w'' : World) → Reaches board w' w'' → w''.machine.scheduler.current ≢ some 1)
echo_fault =
    user_fault-final board image at_reset waiting waiting-IsBooted w1 (event echo_frame 0x80 7) 1
      world_1.1 (w1-IsFrom 7) (inr (inr refl)) w1_mode (ap (λ s. s.current) world_1.2)

faulted : World
faulted = echo_fault.0

dead-forever_example :
    IsDead 1 faulted.machine.scheduler × (faulted.machine.scheduler.current ≢ some 1)
unfolding faulted
dead-forever_example =
    dead-forever board image at_reset waiting waiting-IsBooted faulted faulted 1
      (then world_1.1 echo_fault.1) echo_fault.2 here

trap_handler-progress_example : (w' : World) × Step board w1 w' × Reaches board start w'
trap_handler-progress_example =
    trap_handler-progress board image at_reset waiting waiting-IsBooted w1 (event echo_frame 0x80 8)
      world_1.1 (w1-IsFrom 8) refl

-- The second tick dispatches the violation task.
abbrev pub stopped_echo : Task
stopped_echo = save_task echo_frame 0x8000_2010 0x80 (run_task echo_task)

abbrev pub state_2 : SchedulerState
state_2 = record {
  current = some 2;
  tasks = three (some idle_task) (some stopped_echo) (some (run_task violation_task));
}

pub pick_second :
    pick echo_frame 0x8000_2010 0x80 state_1 ≡ some (target_of 2 (some violation_task), state_2)
unfolding pick update_current dispatch update_slot is_ready select_next_ready save_task start_all
    umode_task mmode_task new_task
pick_second = refl

world_2 : (w : World) × Reached w × (w.machine.scheduler ≡ state_2)
world_2 =
    after_tick w1 echo_frame 0x80 _ state_2 world_1.1 (w1-IsFrom (2 ^ 63 + 7))
      (ap (pick echo_frame 0x8000_2010 0x80) world_1.2 ∙ pick_second)

w2 : World
w2 = world_2.0

user_violation_task_lem_example :
    (user_permits w2.machine.pmp load 0x8000_0000 ≡ false)
    × ((e : Event)
        → IsFrom w2 e
        → e.mcause ≡ 5
        → (w' : World) × Step board w2 w'
          × IsDead 2 w'.machine.scheduler
          × ((w'' : World) → Reaches board w' w'' → w''.machine.scheduler.current ≢ some 2))
unfolding w2
user_violation_task_lem_example =
    user_violation_task_lem board image at_reset waiting waiting-IsBooted w2
      (run_task violation_task) symbols-IsLinked (omega arith) (omega arith) world_2.1
      (ap (λ s. s.current) world_2.2) (ap (λ s. slot_at s.tasks 2) world_2.2)
