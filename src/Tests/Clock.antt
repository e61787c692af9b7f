-- ===== src/Tests/Clock.antt =====
-- A timer interrupt on the sample machine.
use cyptos.Prelude.{◌+◌, ◌*◌, ◌%◌, ◌^◌, ◌≤◌, ◌≡◌, refl, ◌∙◌, arith}
use cyptos.Arch.Frame.{TrapFrame}
use cyptos.Machine.{Machine, done}
use cyptos.Sched.Scheduler.Switch.{schedule-Switched}
use cyptos.System.{World, enter, leave}
use cyptos.System.Clock.{Ticks, start, Ticks-clock}
use cyptos.System.Clock
use cyptos.Trap.{trap_handler}
use cyptos.Trap.Handle.{ticked, trap_handler-tick}
use cyptos.Tests.Board.{board}
use cyptos.Tests.System.{timer}
use cyptos.Tests.Table.{frame_of, sample-IsValid, trapped}

abbrev before : World
before = record { machine = trapped 8; mode = 0 }

one_tick :
    (frame' : TrapFrame) × (n : Machine) × (trap_handler board
        (frame_of 7)
        (enter (timer (frame_of 7) 0x80) before.machine)
      ≡ done frame' n)
one_tick =
    let m = enter (timer (frame_of 7) 0x80) before.machine in
    let (k, ticks) = trap_handler-tick board (frame_of 7) m refl (omega arith) in
    let (frame', n, out, _, _) =
      schedule-Switched board (frame_of 7) (ticked board (frame_of 7) k m) (omega arith)
        sample-IsValid in
    (frame', n, ticks ∙ out)

ticking : Ticks board before 1 5_100_000 (leave one_tick.1)
ticking =
    Clock.tick (timer (frame_of 7) 0x80) one_tick.0 one_tick.1 start (omega arith) refl
      (omega arith) one_tick.2

Ticks-clock_example :
    (one_tick.1.tick_count ≡ (before.machine.tick_count + 1) % 2 ^ 64)
    × (one_tick.1.clint.mtimecmp ≡ 5_100_000)
    × (before.machine.clint.mtimecmp + 1 * 100_000 ≤ 5_100_000)
Ticks-clock_example = Ticks-clock board before (leave one_tick.1) 1 5_100_000 (omega arith) ticking
