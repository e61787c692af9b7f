-- ===== src/Sched/Table/Valid.antt =====
-- The invariant of the scheduler's state, and that every operation on the table keeps it.
use mathlib.Core.Path.{subst₂}
use cyptos.Prelude.{
  ℕ, ◌<◌, ◌≡◌, refl, ◌≢◌, inl, inr, ◌∙◌, ap, sym, List, Option, none, some, arith, set, length,
  length-set, Option-cases,
}
use cyptos.Config.{max_tasks}
use cyptos.Arch.Frame.{TrapFrame}
use cyptos.Pmp.Load.{IsTaskConfig}
use cyptos.Sched.Task.{Task, TaskState, created, ready, running, dead}
use cyptos.Sched.Table.{
  SchedulerState, SwitchTarget, target_of, update_current, preempted, run_task, save_task,
}
use cyptos.Sched.Table.Slots.{
  slot_at, slot_at_lt, slot_at-set, slot_at-set_cases, update_current-none, update_current-some,
  Dispatched, stays, switches,
}

-- What holds of the task in slot `i`.
pub record IsTask (i : ℕ) (t : Task) : Type 0 where
  pub id_eq : t.id ≡ i
  pub config : IsTaskConfig t.pmp_config.regions

pub record IsTable (tasks : List (Option Task)) : Type 0 where
  pub size : length tasks ≡ max_tasks
  pub each : (i : ℕ) (t : Task) → slot_at tasks i ≡ some t → IsTask i t

-- The current slot holds a task, and no other task is Running.
pub record IsValid (s : SchedulerState) : Type 0 where
  pub table : IsTable s.tasks
  pub current_in : (c : ℕ) → s.current ≡ some c → (t : Task) × (slot_at s.tasks c ≡ some t)
  pub running_current :
      (i : ℕ) (t : Task) → slot_at s.tasks i ≡ some t → t.state ≡ running → s.current ≡ some i

pub set-IsTable :
    (tasks : List (Option Task)) (i : ℕ) (t : Task)
    → IsTable tasks
    → i < length tasks
    → IsTask i t
    → IsTable (set tasks i (some t))
set-IsTable tasks i t v lt new = record {
  size = length-set tasks i (some t) ∙ v.size;
  each = λ j u e. elim (slot_at-set_cases tasks i j t u lt e) [
    | inl (here, same) ↦ subst₂ IsTask (sym here) same new
    | inr (_, old) ↦ v.each j u old
  ];
}

preempted-ne-running : (s : TaskState) → preempted s ≢ running
preempted-ne-running created = λ e. cc
preempted-ne-running ready = λ e. cc
preempted-ne-running running = λ e. cc
preempted-ne-running dead = λ e. cc

abbrev NoneRunning : SchedulerState → Type 0
NoneRunning s = (i : ℕ) (t : Task) → slot_at s.tasks i ≡ some t → t.state ≢ running

-- A valid state with no task marked Running, as step 1 of `schedule` leaves it.
pub record IsSaved (s : SchedulerState) : Type 0 where
  pub table : IsTable s.tasks
  pub current_in : (c : ℕ) → s.current ≡ some c → (t : Task) × (slot_at s.tasks c ≡ some t)
  pub none_running : NoneRunning s

pub IsSaved-IsValid : {s : SchedulerState} → IsSaved s → IsValid s
IsSaved-IsValid v = record {
  table = v.table;
  current_in = v.current_in;
  running_current = λ i t e r. absurd (v.none_running i t e r);
}

-- Rewriting the current slot.
pub current-IsSaved :
    (s : SchedulerState) (c : ℕ) (t u : Task)
    → IsValid s
    → s.current ≡ some c
    → slot_at s.tasks c ≡ some t
    → IsTask c u
    → u.state ≢ running
    → IsSaved (record s { tasks = set s.tasks c (some u) })
current-IsSaved s c t u v e here ok off =
    let lt = slot_at_lt s.tasks c t here in
    record {
      table = set-IsTable s.tasks c u v.table lt ok;
      current_in = λ d ed.
          let same : d ≡ c = ground arith in
          (u, ground (arith, slot_at-set s.tasks c d (some u) lt));
      none_running = λ i w ew r. elim (slot_at-set_cases s.tasks c i u w lt ew) [
        | inl (_, same) ↦ off (rw same r)
        | inr (ne, old) ↦ ne (ground (arith, v.running_current i w old r))
      ];
    }

pub save_task-IsTask :
    (frame : TrapFrame) (mepc mstatus i : ℕ) (t : Task)
    → IsTask i t
    → IsTask i (save_task frame mepc mstatus t)
unfolding save_task
save_task-IsTask frame mepc mstatus i t v = record { id_eq = v.id_eq; config = v.config }

pub save_task-ne-running :
    (frame : TrapFrame) (mepc mstatus : ℕ) (t : Task)
    → (save_task frame mepc mstatus t).state ≢ running
unfolding save_task
save_task-ne-running frame mepc mstatus t = preempted-ne-running t.state

-- The state after step 1 of `schedule`.
pub data Saved (f : Task → Task) (s : SchedulerState) (s' : SchedulerState) : Type 0 where
  bootstrap : s.current ≡ none → s' ≡ s → Saved f s s'
  current :
      (c : ℕ) (t : Task)
      → s.current ≡ some c
      → slot_at s.tasks c ≡ some t
      → s' ≡ record s { tasks = set s.tasks c (some (f t)) }
      → Saved f s s'

-- A change to the current task does not panic in a valid state.
pub update_current-Saved :
    (f : Task → Task) (s : SchedulerState)
    → IsValid s
    → (s' : SchedulerState) × (update_current f s ≡ some s') × Saved f s s'
update_current-Saved f s v = elim (Option-cases s.current) [
  | inl e ↦ (s, update_current-none f s e, bootstrap e refl)
  | inr (c, e) ↦
      let (t, here) = v.current_in c e in
      (_, update_current-some f s c t e here, current c t e here refl)
]

pub Saved-IsSaved :
    (f : Task → Task) (s s' : SchedulerState)
    → ((i : ℕ) (t : Task) → IsTask i t → IsTask i (f t))
    → ((t : Task) → (f t).state ≢ running)
    → IsValid s
    → Saved f s s'
    → IsSaved s'
Saved-IsSaved f s s' keep off v (bootstrap e same) = rw same (record {
  table = v.table;
  current_in = v.current_in;
  none_running = λ i t et r. absurd (ground (arith, v.running_current i t et r));
})
Saved-IsSaved f s s' keep off v (current c t e here same) =
    rw same (current-IsSaved s c t (f t) v e here (keep c t (v.table.each c t here)) (off t))

pub Dispatched-IsValid :
    (s : SchedulerState) (r : Option (Option SwitchTarget × SchedulerState))
    → IsSaved s
    → Dispatched s r
    → (target : Option SwitchTarget) × (s' : SchedulerState) × (r ≡ some (target, s')) × IsValid s'
Dispatched-IsValid s r v (stays e off) = (none, s, e, IsSaved-IsValid v)
Dispatched-IsValid s r v (switches i t _ here is e) =
    let lt = slot_at_lt s.tasks i t here in
    let was = v.table.each i t here in
    (
      target_of i (some t),
      record { current = some i; tasks = set s.tasks i (some (run_task t)) },
      e,
      record {
        table =
            set-IsTable s.tasks i (run_task t) v.table lt
              (record { id_eq = was.id_eq; config = was.config });
        current_in = λ d ed.
            let same : d ≡ i = ground arith in
            (run_task t, ground (arith, slot_at-set s.tasks i d (some (run_task t)) lt));
        running_current = λ j u eu r. elim (slot_at-set_cases s.tasks i j (run_task t) u lt eu) [
          | inl (at, _) ↦ ap some (sym at)
          | inr (_, old) ↦ absurd (v.none_running j u old r)
        ];
      },
    )
