-- ===== src/Sched/Spec.antt =====
-- crates/kernel/src/sched/task/spec.rs: descriptions of tasks, and `spawn`, which allocates the stack, builds
-- the PMP configuration and registers the task.
pub mod Layout
pub mod Spawn
use cyptos.Prelude.{ℕ, ◌+◌, List, [], ◌∷◌, Option, none, some, u64}
use cyptos.Config.{task_stack_size, task_stack_align}
use cyptos.Allocator.{BumpAllocator, alloc}
use cyptos.Machine.{Machine, M, ◌>>=◌, ◌>>◌, pure, panic, done}
use cyptos.Sched.Task.{
  TaskId, PmpConfigBuilder, builder, code_region, stack_region, mmio_region, build,
}
use cyptos.Sched.Scheduler.{create_task, create_task_mmode}

pub data TaskMode : Type 0 where
  m_mode : TaskMode
  u_mode : (code_base code_size : ℕ) → List (ℕ × ℕ) → TaskMode

pub record TaskSpec : Type 0 where
  pub entry : ℕ
  pub task_mode : TaskMode

abbrev pub machine : ℕ → TaskSpec
machine entry = record { entry = entry; task_mode = m_mode }

abbrev pub user : ℕ → ℕ → ℕ → List (ℕ × ℕ) → TaskSpec
user entry code_base code_size mmio = record {
  entry = entry;
  task_mode = u_mode code_base code_size mmio;
}

-- `Option::expect` and the builder's assertions.
abbrev pub expect : {A : Type 0} → Option A → M A
expect none = panic
expect (some a) = pure a

-- `Global.allocate` on the one hart that boots: no other core changes `next`.
unfoldable pub allocate : ℕ → ℕ → M (Option ℕ)
unfolding alloc
allocate size align m =
    let (ptr, a) = alloc [] size align m.allocator in done ptr (record m { allocator = a })

unfoldable pub alloc_task_stack : M (ℕ × ℕ)
unfolding allocate
alloc_task_stack = do
  ptr ← allocate task_stack_size task_stack_align
  allocation ← expect ptr
  pure (allocation, u64 (allocation + task_stack_size))

-- `for &(base, size) in mmio`.
unfoldable pub mmio_regions : List (ℕ × ℕ) → PmpConfigBuilder → M PmpConfigBuilder
unfolding mmio_region
mmio_regions [] b = pure b
mmio_regions ((base, size) ∷ mmio) b = do
  b' ← expect (mmio_region base size b)
  mmio_regions mmio b'

unfoldable pub task_builder : ℕ → ℕ → List (ℕ × ℕ) → ℕ → M PmpConfigBuilder
unfolding builder code_region stack_region mmio_regions
task_builder code_base code_size mmio stack_bottom = do
  b1 ← expect (code_region code_base code_size builder)
  b2 ← expect (stack_region stack_bottom task_stack_size b1)
  mmio_regions mmio b2

unfoldable pub register : ℕ → TaskMode → ℕ → ℕ → M TaskId
unfolding task_builder build create_task create_task_mmode
register entry m_mode stack_bottom stack_top = create_task_mmode entry stack_top
register entry (u_mode code_base code_size mmio) stack_bottom stack_top = do
  b ← task_builder code_base code_size mmio stack_bottom
  create_task entry stack_top (build b).regions

unfoldable pub spawn : TaskSpec → M TaskId
unfolding alloc_task_stack register
spawn self = do
  (stack_bottom, stack_top) ← alloc_task_stack
  register self.entry self.task_mode stack_bottom stack_top
