-- ===== src/Sched.antt =====
-- crates/kernel/src/sched: tasks, the selection policy, the task table and the scheduler.
pub mod Policy
pub mod Task
pub mod Table
pub mod Scheduler
pub mod Spec
