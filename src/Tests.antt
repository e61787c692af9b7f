-- ===== src/Tests.antt =====
-- Concrete inputs: a hart, a task table, and the theorems applied to them.
pub mod Board
pub mod Table
mod Boot
mod Tables
mod Machines
mod Assembly
mod Spawning
mod Host
mod Uart
pub mod System
mod Preempt
mod Entry
mod Saved
mod Cores
mod Fair
mod Clock
mod Breakpoint
mod Echo
