-- ===== src/Tests/Fair.antt =====
-- The first tick after boot, which passes the violation task over.
use cyptos.Prelude.{ℕ, ◌≤◌, ◌≡◌, ◌≢◌, refl, sym, ap, ◌∙◌, some_inj, arith}
use cyptos.Arch.Frame.{TrapFrame}
use cyptos.Machine.{Machine, done}
use cyptos.Sched.Table.{start_all, umode_task, mmode_task}
use cyptos.Sched.Table.Slots.{slot_at}
use cyptos.Sched.Task.{new_task}
use cyptos.Boot.First.{pick_first}
use cyptos.System.{in_kmain, IsFrom, here, enter, leave}
use cyptos.System.Fair
use cyptos.System.Fair.{Waits, Waits-le}
use cyptos.System.Nearer.{Waiting}
use cyptos.Trap.{trap_handler}
use cyptos.Tests.Board.{board}
use cyptos.Tests.Table.{frame_of}
use cyptos.Tests.Spawning.{image, at_reset, waiting, waiting-IsBooted}
use cyptos.Tests.System.{start, timer, tick, idle_task, echo_task, violation_task, state_1}

start-IsFrom : IsFrom start (timer (frame_of 7) 0x1880)
start-IsFrom = record {
  mpp_eq = refl;
  small = omega arith;
  fits = omega arith;
  own = in_kmain waiting-IsBooted.current_eq refl;
}

first_tick :
    (frame' : TrapFrame) × (n : Machine) × (trap_handler board
        (frame_of 7)
        (enter (timer (frame_of 7) 0x1880) start.machine)
      ≡ done frame' n)
    × (n.scheduler ≡ state_1)
unfolding start_all umode_task mmode_task new_task
first_tick = tick start (frame_of 7) 0x1880 _ state_1 here start-IsFrom (
    pick_first (frame_of 7) 0x8000_2010 0x1880 idle_task echo_task violation_task waiting.scheduler
      waiting-IsBooted.current_eq waiting-IsBooted.tasks_eq refl)

2≢1 : ◌≢◌ {A = ℕ} 1 2
2≢1 e = absurd (omega arith)

start-Waiting : Waiting 2 waiting.scheduler
unfolding start_all umode_task new_task
start-Waiting = (
  violation_task,
  ap (λ ts. slot_at ts 2) waiting-IsBooted.tasks_eq,
  refl,
  λ e. cc (waiting-IsBooted.current_eq, e),
)

passed_over : Waits board 2 start 1 (leave first_tick.1)
passed_over =
    Fair.tick (timer (frame_of 7) 0x1880) first_tick.0 first_tick.1 Fair.start start-IsFrom refl
      first_tick.2 (λ e. 2≢1 (some_inj (sym (ap (λ s. s.current) first_tick.3) ∙ e)))

Waits-le_example : (1 ≤ 3) × Waiting 2 first_tick.1.scheduler
Waits-le_example =
    Waits-le board image at_reset waiting waiting-IsBooted start (leave first_tick.1) 1 2 here
      (λ e. absurd (omega arith)) start-Waiting passed_over
