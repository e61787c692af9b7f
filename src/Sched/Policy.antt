-- ===== src/Sched/Policy.antt =====
-- crates/kernel/src/sched/policy.rs: which task runs next. `usize` sums wrap at 2 ^ 64.
pub mod Select
pub mod Turns
pub mod UnitTests
use cyptos.Prelude.{
  ℕ, zero, suc, ◌+◌, ◌%◌, Bool, true, false, not, ◌&&◌, Option, none, some, ◌==◌, if◌then◌else◌,
  u64,
}

abbrev pub idle_task_index : ℕ
idle_task_index = 0

-- The loop over `offset`, with `left` rounds to go.
pub scan : (n start : ℕ) → (ℕ → Bool) → ℕ → ℕ → Option ℕ
scan n start is_ready zero offset = none
scan n start is_ready (suc left) offset =
    let idx = u64 (start + offset) % n in
    let rest = scan n start is_ready left (offset + 1) in
    if not (idx == idle_task_index) && is_ready idx then some idx else rest

-- `current.map_or((IDLE_TASK_INDEX + 1) % N, |current| (current + 1) % N)`.
pub start_of : ℕ → Option ℕ → ℕ
start_of n none = (idle_task_index + 1) % n
start_of n (some current) = u64 (current + 1) % n

pub or_idle : (ℕ → Bool) → Option ℕ → Option ℕ
or_idle is_ready (some idx) = some idx
or_idle is_ready none = if is_ready idle_task_index then some idle_task_index else none

unfoldable pub select_next_ready : ℕ → Option ℕ → (ℕ → Bool) → Option ℕ
unfolding scan start_of or_idle
select_next_ready n current is_ready =
    if n == 0 then none else or_idle is_ready (scan n (start_of n current) is_ready n 0)
