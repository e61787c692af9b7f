-- ===== src/Lib.antt =====
-- CyptOS: the kernel of crates/kernel, a preemptive kernel for RISC-V 64 that runs user tasks in U-mode
-- behind the physical memory protection (PMP).
--
-- A trap enters `trap_handler` with the registers of the interrupted context in a `TrapFrame`. A timer
-- interrupt counts a tick, arms the timer again and calls `schedule`; an environment call is served; an
-- access fault of a user task kills it. `schedule` saves the context of the current task, asks the policy
-- for the next one, programs its PMP entries and loads its context into the frame, mepc and mstatus.
--
-- Which file models which part:
-- - Prelude.antt and its children: the shared names, lists, bits and machine words.
-- - Config.antt: crates/kernel/src/config.rs.
-- - Arch/Frame.antt: `TrapFrame` of crates/kernel/src/trap.rs, `TaskContext` of
--   crates/kernel/src/sched/task.rs, and crates/kernel/src/arch/register.rs.
-- - Arch/Asm.antt: the instructions of the naked functions, on a hart with registers and memory.
-- - Arch/Csr.antt: crates/kernel/src/arch/csr.rs.
-- - Pmp.antt, Pmp/Region.antt: crates/kernel/src/pmp.rs. Pmp/Hart.antt is the interface to the hart: the
--   registers, and the laws of a CSR write, a parameter of all that writes them. Pmp/Access.antt states
--   the matching rules of the privileged specification. Pmp/Napot.antt, Pmp/Bytes.antt,
--   Pmp/Load.antt and Pmp/Isolation.antt hold the proofs on a task's entries, Pmp/Boot.antt,
--   Pmp/Init.antt, Pmp/Guarded.antt and Pmp/Boundary.antt those on `init`. Pmp/Save.antt models `save_current_config` and `dump_config`, Pmp/Restore.antt loads what was saved.
-- - Serial.antt: crates/kernel/src/serial/uart16550.rs; a `Console` is the bytes sent and those
--   waiting. Serial/Digits.antt holds the proof on numbers. Serial/Uart.antt: the same functions with their
--   polling loops, on a `Device` with registers; the laws of the 16550, `IsUart`, are a parameter.
--   Serial/Setup.antt: `init`, on the registers that configure it. Serial/Writer.antt:
--   crates/kernel/src/serial.rs, formatted output, with `fmt::write` as a parameter.
-- - Allocator.antt: crates/kernel/src/allocator.rs. Allocator/Blocks.antt and
--   Allocator/Room.antt hold the proofs. Allocator/Cores.antt: the same loop on any number of cores, as a
--   relation of their atomic steps; Allocator/Separate.antt holds the proof.
-- - Sched/Policy.antt: crates/kernel/src/sched/policy.rs. Sched/Policy/Select.antt and
--   Sched/Policy/Turns.antt hold the proofs, for one call and for many.
-- - Sched/Task.antt: crates/kernel/src/sched/task.rs. Sched/Task/Builder.antt holds the proof.
-- - Sched/Spec.antt: crates/kernel/src/sched/task/spec.rs. Its children hold the proofs: Layout (the
--   regions) and Spawn.
-- - Sched/Table.antt: the locked regions of crates/kernel/src/sched/scheduler.rs, on the task table. Its
--   children hold the proofs: Slots (the table as a map), Valid (the invariant), Steps (one tick), Life
--   (many ticks), Insert and Create (new tasks) and Start (`init`).
-- - Sched/Scheduler.antt: the functions of crates/kernel/src/sched/scheduler.rs, on the whole machine.
--   Switch and Kill hold the proofs.
-- - Machine.antt: the state that the kernel works on, and the outcome of kernel code, which returns or
--   panics.
-- - Sync.antt: crates/kernel/src/sync/irq_cell.rs and atomic_counter.rs. Sync/Lock.antt holds the proof.
-- - Timer.antt: crates/kernel/src/timer.rs. Timer/Deadline.antt holds the proof;
--   Timer/Steady.antt and Trap/Steady.antt are about code that leaves the timer alone.
-- - Trap.antt: crates/kernel/src/trap.rs. Trap/Handle.antt, Trap/Fault.antt and
--   Trap/Outcomes.antt hold the proofs, Trap/Causes.antt the enum of causes.
--   Trap/Vector.antt: its assembly, `trap_vector` and `context_switch`; its children hold the proofs.
-- - Boot.antt: crates/kernel/src/main.rs, the boot sequence of `kmain`. Boot/Entry.antt: `_start` and
--   `clear_bss`. The other children hold the proofs: Steps,
--   Spawns and Stages for its parts, Ready for the whole, First for the tick after it, and Panic for the panic
--   handler.
-- - Harness.antt: crates/cyptos-test/src/lib.rs, the runner of the tests. Harness/Runs.antt holds the proofs,
--   Harness/HostTests.antt the tests that run on the host. Sched/Policy/UnitTests.antt: those of the policy.
-- - System.antt: the kernel and what it runs under. A `World` is the machine between two traps and the mode
--   of the hart; a `Step` is a trap, which brings any registers, CSRs, time and received bytes (an `Event`),
--   and the kernel's answer. These stand for the hart's trap entry and the devices, not for code. Its
--   children hold the proofs: Table and Sound (the tables that occur), Safe and Dispatch (one `schedule`),
--   Scheduling (one trap), Kept and Reach (all that holds between traps), Isolation, Preempt and Fair, with
--   Nearer (what follows of it for the tasks), Clock (ticks and deadlines), and Vector
--   (the kernel's state in memory: the stores of a user task, `trap_vector` and the compiled `trap_handler`).
-- - UserTask.antt: crates/kernel/src/user_task.rs. UserTask/Echo.antt and UserTask/Violation.antt hold the
--   proofs.
-- - Tests.antt and its children: a concrete hart, a concrete machine, and the theorems applied to them.
--
-- Numbers are natural numbers with the wrap-around of the release build written out (`% 2 ^ 64`), and
-- `debug_assert!` is left out as there. The loops run on their trip count, the
-- polling loops on a number of reads, which the device's laws bound. Two bounds stand for a
-- buffer: `put_dec` has room for 20 digits and `put_hex` for 16, which is what a 64-bit number needs. A CSR
-- holds the value last written to it. The values that a compare-and-exchange finds are an argument of
-- `alloc`; the load of the next round finds the same value.
--
-- The linker's symbols and the addresses of functions are an `Image`, an argument of the boot code. The
-- assembly runs on 64-bit doublewords of memory, with the called handler as an argument; the boot code
-- allocates on the one hart that runs, so no other core moves `next` there.
--
-- A `Step` is one trap, with no second trap inside the kernel, which runs with interrupts masked. What it does
-- to the kernel's state is `trap_handler`; the stores of `trap_vector`, of the compiled handler's own stack and of
-- the tasks do not occur in it. So that they leave the kernel's state alone, a `Step` asks that the
-- interrupted code keeps to its own stack (`OwnStack` in System.antt): it has stored only there, and there is
-- room on it below sp. This is an assumption on the tasks, which the program does not enforce: the kernel's data is
-- open to U-mode, and the frame goes below whatever sp a task leaves. What `kmain` and the idle task, which only
-- wait, have below sp is taken to be free. System/Vector.antt is where those stores occur and the assumption is
-- used; where the compiler puts the kernel's state, and the compiled handler, are parameters there.
--
-- A test body that loops or traps is `stuck`, and the runner then does not stop the machine. `clear_bss` runs on
-- fuel, of which any number above the number of bytes is enough.
--
-- Not modelled: the idle task, which waits; the STM32 driver, which is a stub; the exits of the test
-- harness on the host; the test macros, which run at compile time. One hart runs the kernel; only
-- Allocator/Cores.antt has several.
pub mod Prelude
pub mod Sched
pub mod Config
pub mod Arch
pub mod Pmp
pub mod Serial
pub mod Allocator
pub mod Machine
pub mod Sync
pub mod Timer
pub mod Trap
pub mod Boot
pub mod Harness
pub mod UserTask
pub mod System
pub mod Tests
