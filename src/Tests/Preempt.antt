-- ===== src/Tests/Preempt.antt =====
-- The echo task's second turn: the tick that takes the hart from it, and the tick that gives it back.
use cyptos.Prelude.{ℕ, ◌+◌, ◌^◌, ◌≡◌, ◌≢◌, refl, ◌∙◌, sym, ap, some_inj, some, arith}
use cyptos.Arch.Frame.{TrapFrame}
use cyptos.Machine.{Machine, done}
use cyptos.Pmp.Access.{store}
use cyptos.Sched.Policy.{select_next_ready}
use cyptos.Sched.Task.{new_task}
use cyptos.Sched.Table.{
  SchedulerState, umode_task, mmode_task, start_all, pick, run_task, save_task, target_of, dispatch,
  update_current, update_slot, is_ready,
}
use cyptos.Sched.Table.Slots.{slot_at}
use cyptos.Boot.Stages.{three}
use cyptos.Sched.Table.Create.{copied_at}
use cyptos.System.{stack_of, OwnStack, in_user, IsFrom, then, trap, leave, enter, mpp_of}
use cyptos.System.Isolation.{user_permits-reached}
use cyptos.System.Preempt.{later, at_once, trap_handler-Back}
use cyptos.Trap.{trap_handler}
use cyptos.Tests.Board.{board}
use cyptos.Tests.Spawning.{image, at_reset, waiting, waiting-IsBooted, symbols-IsLinked}
use cyptos.Tests.System.{
  Reached, timer, tick, idle_task, violation_task, stopped_echo, state_2, pick_second, world_1, w1,
  w1-IsFrom, stack_frame, echo_frame, on_top,
}

-- The second tick once more, and the third, which dispatches the echo task again.
tick_2 :
    (frame' : TrapFrame) × (n : Machine) × (trap_handler board echo_frame
        (enter (timer echo_frame 0x80) w1.machine)
      ≡ done frame' n)
    × (n.scheduler ≡ state_2)
tick_2 =
    tick w1 echo_frame 0x80 _ state_2 world_1.1 (w1-IsFrom (2 ^ 63 + 7))
      (ap (pick echo_frame 0x8000_2010 0x80) world_1.2 ∙ pick_second)

abbrev violation_frame : TrapFrame
violation_frame = stack_frame waiting-IsBooted.violation_bottom

abbrev machine_2 : Machine
machine_2 = tick_2.1

machine_2-Reached : Reached (leave machine_2)
machine_2-Reached =
    then world_1.1
      (trap (timer echo_frame 0x80) tick_2.0 machine_2 (w1-IsFrom (2 ^ 63 + 7)) tick_2.2 refl)

runs_2 : mpp_of machine_2.csr.mstatus ≡ 0
unfolding umode_task new_task
runs_2 =
    (user_permits-reached board image at_reset waiting waiting-IsBooted (leave machine_2) 2
      (run_task violation_task) store 0x8000_0000 symbols-IsLinked machine_2-Reached
      (ap (λ s. s.current) tick_2.3) (ap (λ s. slot_at s.tasks 2) tick_2.3)).0

machine_2-OwnStack : OwnStack machine_2 (timer violation_frame 0x80)
unfolding umode_task new_task
machine_2-OwnStack =
    let (low, high) =
      on_top waiting-IsBooted.violation_bottom (stack_of (run_task violation_task)) (
        copied_at waiting-IsBooted.violation_regions 16 5 (omega arith)
        ∙ waiting-IsBooted.violation_laid.stack_eq) in
    in_user 2 (run_task violation_task) (λ e. absurd (omega arith)) (ap (λ s. s.current) tick_2.3)
      (ap (λ s. slot_at s.tasks 2) tick_2.3) low high tt

machine_2-IsFrom : IsFrom (leave machine_2) (timer violation_frame 0x80)
machine_2-IsFrom = record {
  mpp_eq = sym runs_2;
  small = omega arith;
  fits = omega arith;
  own = machine_2-OwnStack;
}

abbrev state_3 : SchedulerState
state_3 = record {
  current = some 1;
  tasks =
      three (some idle_task) (some (run_task stopped_echo))
        (some (save_task violation_frame 0x8000_2010 0x80 (run_task violation_task)));
}

pick_third :
    pick violation_frame 0x8000_2010 0x80 state_2 ≡ some (target_of 1 (some stopped_echo), state_3)
unfolding pick update_current dispatch update_slot is_ready select_next_ready save_task start_all
    umode_task mmode_task new_task
pick_third = refl

tick_3 :
    (frame' : TrapFrame) × (n : Machine) × (trap_handler board violation_frame
        (enter (timer violation_frame 0x80) machine_2)
      ≡ done frame' n)
    × (n.scheduler ≡ state_3)
tick_3 =
    tick (leave machine_2) violation_frame 0x80 _ state_3 machine_2-Reached machine_2-IsFrom
      (ap (pick violation_frame 0x8000_2010 0x80) tick_2.3 ∙ pick_third)

trap_handler-Back_example :
    (tick_3.0 ≡ echo_frame) × (tick_3.1.csr.mepc ≡ 0x8000_2010) × (tick_3.1.csr.mstatus ≡ 0x80)
trap_handler-Back_example =
    trap_handler-Back board image at_reset waiting waiting-IsBooted w1 (timer echo_frame 0x80) 1
      tick_2.0 tick_3.0 machine_2 tick_3.1 world_1.1 (w1-IsFrom (2 ^ 63 + 7)) refl
      (ap (λ s. s.current) world_1.2) tick_2.2
      (later (timer violation_frame 0x80) tick_3.0 tick_3.1
        (λ e. 2≢1 (some_inj (sym (ap {A = SchedulerState} (λ s. s.current) tick_2.3) ∙ e)))
        machine_2-IsFrom tick_3.2 (at_once (ap (λ s. s.current) tick_3.3)))
  where
    2≢1 : ◌≢◌ {A = ℕ} 2 1
    2≢1 e = absurd (omega arith)
