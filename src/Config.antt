-- ===== src/Config.antt =====
-- crates/kernel/src/config.rs: the constants of the QEMU `virt` machine and of the kernel.
use cyptos.Prelude.{ℕ}

abbrev pub uart_base : ℕ
uart_base = 0x1000_0000

abbrev pub clint_base : ℕ
clint_base = 0x0200_0000

abbrev pub timer_freq_hz : ℕ
timer_freq_hz = 10_000_000

abbrev pub tick_interval_us : ℕ
tick_interval_us = 10_000

abbrev pub max_tasks : ℕ
max_tasks = 4

abbrev pub task_stack_size : ℕ
task_stack_size = 8192

abbrev pub task_stack_align : ℕ
task_stack_align = 8192

abbrev pub pmp_count : ℕ
pmp_count = 16

abbrev pub sys_getc : ℕ
sys_getc = 0

abbrev pub sys_putc : ℕ
sys_putc = 1

abbrev pub sys_legacy_poc : ℕ
sys_legacy_poc = 42
