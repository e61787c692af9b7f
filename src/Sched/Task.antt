-- ===== src/Sched/Task.antt =====
-- crates/kernel/src/sched/task.rs: task metadata, and the builder of a task's PMP configuration. A
-- panic of the builder is `none`.
pub mod Builder
use cyptos.Prelude.{
  ℕ, ◌+◌, ◌-◌, ◌^◌, List, Option, none, some, not, ◌&&◌, bit_and, ltb, leb, ◌==◌, if◌then◌else◌,
  u64, is_power_of_two, replicate, set,
}
use cyptos.Config.{pmp_count, task_stack_size}
use cyptos.Arch.Frame.{TaskContext, new_umode}
use cyptos.Pmp.Region.{PmpRegion, new, flag_rx, flag_rw}

pub data TaskState : Type 0 where
  created ready running dead : TaskState

abbrev pub TaskId : Type 0
TaskId = ℕ

pub record PmpConfig : Type 0 where
  pub regions : List PmpRegion

unfoldable pub empty : PmpConfig
empty = record { regions = replicate pmp_count (new 0 0 0) }

pub record PmpConfigBuilder : Type 0 where
  pub regions : List PmpRegion
  pub next_idx : ℕ

unfoldable pub builder : PmpConfigBuilder
builder = record { regions = replicate pmp_count (new 0 0 0); next_idx = 4 }

unfoldable pub region : ℕ → ℕ → ℕ → PmpConfigBuilder → Option PmpConfigBuilder
region base size flags self =
    if not (ltb self.next_idx pmp_count)
    then none
    else if not (leb 8 size && is_power_of_two size)
    then none
    else if not (bit_and base (size - 1) == 0)
    then none
    else some (record {
      regions = set self.regions self.next_idx (new base size flags);
      next_idx = self.next_idx + 1;
    })

unfoldable pub code_region : ℕ → ℕ → PmpConfigBuilder → Option PmpConfigBuilder
unfolding region
code_region base size self = region base size flag_rx self

unfoldable pub stack_region : ℕ → ℕ → PmpConfigBuilder → Option PmpConfigBuilder
unfolding region
stack_region base size self = region base size flag_rw self

unfoldable pub mmio_region : ℕ → ℕ → PmpConfigBuilder → Option PmpConfigBuilder
unfolding region
mmio_region base size self = region base size flag_rw self

unfoldable pub build : PmpConfigBuilder → PmpConfig
build self = record { regions = self.regions }

pub record Task : Type 0 where
  pub id : TaskId
  pub state : TaskState
  pub context : TaskContext
  pub pmp_config : PmpConfig
  pub stack_bottom : ℕ
  pub stack_top : ℕ
  pub entry_point : ℕ

-- `Task::new`.
unfoldable pub new_task : TaskId → ℕ → ℕ → Task
unfolding new_umode empty
new_task id entry stack_top = record {
  id = id;
  state = created;
  context = new_umode entry stack_top;
  pmp_config = empty;
  stack_bottom = u64 (stack_top + 2 ^ 64 - task_stack_size);
  stack_top = stack_top;
  entry_point = entry;
}
