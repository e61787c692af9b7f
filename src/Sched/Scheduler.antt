-- ===== src/Sched/Scheduler.antt =====
-- crates/kernel/src/sched/scheduler.rs: the scheduler over the whole machine.
pub mod Switch
pub mod Kill
use cyptos.Prelude.{ℕ, List, Option, none, some, get_elem?, set}
use cyptos.Arch.Frame.{TrapFrame, copy_to_frame}
use cyptos.Pmp.Region.{PmpRegion}
use cyptos.Pmp.Hart.{PmpHart}
use cyptos.Pmp.{load_task_config}
use cyptos.Machine.{
  M, ◌>>=◌, ◌>>◌, pure, done, panicked, panic, modify, csr_of, say, dec, write_mepc, write_mstatus,
}
use cyptos.Sync.{with_lock}
use cyptos.Sched.Task.{Task, TaskId}
use cyptos.Sched.Table
use cyptos.Sched.Table.{
  SchedulerState, SwitchTarget, pick, kill_task, umode_task, mmode_task, create,
}

-- A closure over the scheduler's state; `none` is its panic.
abbrev pub on_scheduler : {A : Type 0} → (SchedulerState → Option (A × SchedulerState)) → M A
on_scheduler f m = elim (f m.scheduler) [
  | none ↦ panicked m
  | some (a, state) ↦ done a (record m { scheduler = state })
]

unfoldable pub init : M (Unit {0})
unfolding with_lock Table.init
init = with_lock (on_scheduler λ state. some (tt, Table.init state))

unfoldable pub create_task : ℕ → ℕ → List PmpRegion → M TaskId
unfolding with_lock create umode_task
create_task entry stack_top pmp_regions =
    with_lock (on_scheduler (create (umode_task entry stack_top pmp_regions)))

unfoldable pub create_task_mmode : ℕ → ℕ → M TaskId
unfolding with_lock create mmode_task
create_task_mmode entry stack_top = with_lock (on_scheduler (create (mmode_task entry stack_top)))

-- The locked region of `kill_current`: on the slot `current`, and on the whole.
abbrev pub kill_slot : ℕ → Option (Option Task) → M (Unit {0})
kill_slot current none = panic
kill_slot current (some none) = pure tt
kill_slot current (some (some task)) = do
  modify λ m. record m {
    scheduler = record (m.scheduler) {
      tasks = set m.scheduler.tasks current (some (kill_task task));
    };
  }
  say "[sched] task killed: "
  dec current
  say "\n"

abbrev pub kill_at : Option ℕ → M (Unit {0})
kill_at none m = done tt m
kill_at (some current) m = kill_slot current (get_elem? m.scheduler.tasks current) m

unfoldable pub kill_locked : M (Unit {0})
kill_locked m = kill_at m.scheduler.current m

module _ (hart : PmpHart) where
  -- Steps 4 to 6: the new task's PMP entries, registers and CSRs.
  unfoldable pub switch_to : SwitchTarget → TrapFrame → M TrapFrame
  unfolding copy_to_frame write_mepc write_mstatus
  switch_to target frame = do
    say "[sched] switching to task "
    dec target.next_idx
    say "\n"
    modify λ m. record m { pmp = load_task_config hart target.pmp_regions m.pmp }
    write_mepc target.context.mepc
    write_mstatus target.context.mstatus
    pure (copy_to_frame target.context frame)

  unfoldable pub resume : TrapFrame → Option SwitchTarget → M TrapFrame
  unfolding switch_to
  resume frame none = pure frame
  resume frame (some target) = switch_to target frame

  unfoldable pub schedule : TrapFrame → M TrapFrame
  unfolding with_lock resume
  schedule frame = do
    mepc ← csr_of (λ c. c.mepc)
    mstatus ← csr_of (λ c. c.mstatus)
    switch_target ← with_lock (on_scheduler (pick frame mepc mstatus))
    resume frame switch_target

  unfoldable pub kill_current : TrapFrame → M TrapFrame
  unfolding with_lock kill_locked schedule
  kill_current frame = do with_lock kill_locked; schedule frame
