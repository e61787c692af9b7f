-- ===== src/Sched/Table.antt =====
-- crates/kernel/src/sched/scheduler.rs: what its functions do to the task table, as they do it inside
-- the lock. `none` is a panic.
pub mod Slots
pub mod Valid
pub mod Steps
pub mod Life
pub mod Insert
pub mod Create
pub mod Start
use cyptos.Prelude.{
  ℕ, ◌+◌, Bool, true, false, List, [], ◌∷◌, Option, none, some, get_elem?, set, u8,
}
use cyptos.Config.{max_tasks}
use cyptos.Arch.Frame.{TrapFrame, TaskContext, copy_to_context, new_mmode}
use cyptos.Pmp.Region.{PmpRegion}
use cyptos.Sched.Policy.{select_next_ready}
use cyptos.Sched.Task.{Task, TaskId, TaskState, created, ready, running, dead, new_task}

pub record SchedulerState : Type 0 where
  pub current : Option ℕ
  pub tasks : List (Option Task)

-- The static `SCHEDULER`.
unfoldable pub initial : SchedulerState
initial = record { current = none; tasks = none ∷ none ∷ none ∷ none ∷ [] }

-- `init`: the body of its loop, on every slot.
abbrev pub start_state : TaskState → TaskState
start_state created = ready
start_state ready = ready
start_state running = running
start_state dead = dead

abbrev pub start_slot : Option Task → Option Task
start_slot none = none
start_slot (some task) = some (record task { state = start_state task.state })

unfoldable pub start_all : List (Option Task) → List (Option Task)
start_all [] = []
start_all (slot ∷ slots) = start_slot slot ∷ start_all slots

unfoldable pub init : SchedulerState → SchedulerState
unfolding start_all
init state = record state { tasks = start_all state.tasks }

-- Only Running becomes Ready.
abbrev pub preempted : TaskState → TaskState
preempted created = created
preempted ready = ready
preempted running = ready
preempted dead = dead

-- `schedule`, step 1, on the slot of the current task.
unfoldable pub save_task : TrapFrame → ℕ → ℕ → Task → Task
unfolding copy_to_context
save_task frame mepc mstatus task = record task {
  context = record (copy_to_context frame task.context) { mepc = mepc; mstatus = mstatus };
  state = preempted task.state;
}

-- A change to the task in slot `i`, if there is one; an index out of bounds panics.
unfoldable pub update_slot : (Task → Task) → ℕ → List (Option Task) → Option (List (Option Task))
update_slot f i tasks = elim (get_elem? tasks i) [
  | none ↦ none
  | some slot ↦ elim slot [ none ↦ some tasks | some task ↦ some (set tasks i (some (f task))) ]
]

-- The same at the current slot; nothing in the bootstrap context.
unfoldable pub update_current : (Task → Task) → SchedulerState → Option SchedulerState
unfolding update_slot
update_current f state = elim state.current [
  | none ↦ some state
  | some c ↦ elim (update_slot f c state.tasks) [
    | none ↦ none
    | some tasks ↦ some (record state { tasks = tasks })
  ]
]

-- The closure that `schedule` hands to the policy.
abbrev pub state_is_ready : TaskState → Bool
state_is_ready created = false
state_is_ready ready = true
state_is_ready running = false
state_is_ready dead = false

unfoldable pub is_ready : List (Option Task) → ℕ → Bool
is_ready tasks idx = elim (get_elem? tasks idx) [
  | none ↦ false
  | some slot ↦ elim slot [ none ↦ false | some task ↦ state_is_ready task.state ]
]

-- What the new task brings to the machine.
pub record SwitchTarget : Type 0 where
  pub next_idx : ℕ
  pub pmp_regions : List PmpRegion
  pub context : TaskContext

abbrev pub run_task : Task → Task
run_task task = record task { state = running }

abbrev pub target_of : ℕ → Option Task → Option SwitchTarget
target_of next_idx none = none
target_of next_idx (some task) =
    some (record {
      next_idx = next_idx;
      pmp_regions = task.pmp_config.regions;
      context = task.context;
    })

-- Steps 2 and 3: select, mark Running, and hand out the target.
unfoldable pub dispatch : SchedulerState → Option (Option SwitchTarget × SchedulerState)
unfolding update_slot is_ready
dispatch state = elim (select_next_ready max_tasks state.current (is_ready state.tasks)) [
  | none ↦ some (none, state)
  | some next_idx ↦ elim (update_slot run_task next_idx state.tasks) [
    | none ↦ none
    | some tasks ↦ elim (get_elem? tasks next_idx) [
      | none ↦ none
      | some slot ↦
          some (target_of next_idx slot, record { current = some next_idx; tasks = tasks })
    ]
  ]
]

-- The whole locked region of `schedule`.
unfoldable pub pick :
    TrapFrame → ℕ → ℕ → SchedulerState → Option (Option SwitchTarget × SchedulerState)
unfolding save_task update_current dispatch
pick frame mepc mstatus state = elim (update_current (save_task frame mepc mstatus) state) [
  | none ↦ none
  | some saved ↦ dispatch saved
]

-- The locked region of `kill_current`.
abbrev pub kill_task : Task → Task
kill_task task = record task { state = dead }

-- `for idx in 0..MAX_TASKS`: the first free slot takes the task made for it.
abbrev pub past_task : Task → Option (ℕ × List (Option Task)) → Option (ℕ × List (Option Task))
past_task task none = none
past_task task (some (id, rest)) = some (id, some task ∷ rest)

unfoldable pub insert_task : (ℕ → Task) → ℕ → List (Option Task) → Option (ℕ × List (Option Task))
insert_task make idx [] = none
insert_task make idx (none ∷ slots) = some (idx, some (make idx) ∷ slots)
insert_task make idx (some task ∷ slots) = past_task task (insert_task make (idx + 1) slots)

-- `pmp_config.regions[i] = *r` for the first sixteen.
unfoldable pub copy_regions : List PmpRegion → List PmpRegion → List PmpRegion
copy_regions [] ds = ds
copy_regions (r ∷ rs) [] = []
copy_regions (r ∷ rs) (d ∷ ds) = r ∷ copy_regions rs ds

unfoldable pub umode_task : ℕ → ℕ → List PmpRegion → ℕ → Task
unfolding new_task copy_regions
umode_task entry stack_top pmp_regions idx =
    let task = new_task (u8 idx) entry stack_top in
    record task {
      pmp_config = record { regions = copy_regions pmp_regions task.pmp_config.regions };
    }

unfoldable pub mmode_task : ℕ → ℕ → ℕ → Task
unfolding new_task new_mmode
mmode_task entry stack_top idx = record (new_task (u8 idx) entry stack_top) {
  context = new_mmode entry stack_top;
}

-- `create_task` and `create_task_mmode` on the table.
abbrev pub with_tasks :
    SchedulerState → Option (ℕ × List (Option Task)) → Option (TaskId × SchedulerState)
with_tasks state none = none
with_tasks state (some (idx, tasks)) = some (u8 idx, record state { tasks = tasks })

unfoldable pub create : (ℕ → Task) → SchedulerState → Option (TaskId × SchedulerState)
unfolding insert_task
create make state = with_tasks state (insert_task make 0 state.tasks)
