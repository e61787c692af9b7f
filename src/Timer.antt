-- ===== src/Timer.antt =====
-- crates/kernel/src/timer.rs: the CLINT and the tick counter. `mtime` is what a read of the register
-- gives at that moment.
pub mod Deadline
pub mod Steady
use cyptos.Prelude.{ℕ, ◌+◌, ◌-◌, ◌*◌, ◌/◌, ◌^◌, u64}
use cyptos.Config.{timer_freq_hz, tick_interval_us}
use cyptos.Arch.Csr.{set_bits, clear_bits, enable_timer, disable_timer, mie_bit}
use cyptos.Machine.{Machine, M, ◌>>=◌, ◌>>◌, done, modify, set_csr, say, dec}
use cyptos.Sync.{increment, get}

unfoldable pub read_mtime : M ℕ
read_mtime m = done m.clint.mtime m

unfoldable pub write_mtimecmp : ℕ → M (Unit {0})
write_mtimecmp val = modify λ m. record m { clint = record (m.clint) { mtimecmp = val } }

unfoldable pub enable_timer_interrupt : M (Unit {0})
unfolding enable_timer
enable_timer_interrupt = set_csr enable_timer

unfoldable pub disable_timer_interrupt : M (Unit {0})
unfolding disable_timer
disable_timer_interrupt = set_csr disable_timer

unfoldable pub enable_interrupts : M (Unit {0})
unfolding set_bits
enable_interrupts = set_csr λ c. record c { mstatus = set_bits mie_bit c.mstatus }

unfoldable pub disable_interrupts : M (Unit {0})
unfolding clear_bits
disable_interrupts = set_csr λ c. record c { mstatus = clear_bits mie_bit c.mstatus }

unfoldable pub us_to_ticks : ℕ → ℕ
us_to_ticks us = u64 (us * timer_freq_hz) / 1_000_000

unfoldable pub set_timer_us : ℕ → M (Unit {0})
unfolding read_mtime write_mtimecmp us_to_ticks
set_timer_us delta_us = do
  current ← read_mtime
  write_mtimecmp (u64 (current + us_to_ticks delta_us))

unfoldable pub clear_timer : M (Unit {0})
unfolding write_mtimecmp
clear_timer = write_mtimecmp (2 ^ 64 - 1)

unfoldable pub schedule_next_tick : M (Unit {0})
unfolding set_timer_us
schedule_next_tick = set_timer_us tick_interval_us

unfoldable pub get_tick_count : M ℕ
unfolding get
get_tick_count m = done (get m.tick_count) m

unfoldable pub increment_tick : M (Unit {0})
unfolding increment
increment_tick = modify λ m. record m { tick_count = (increment m.tick_count).1 }

unfoldable pub init : M (Unit {0})
unfolding clear_timer enable_timer_interrupt set_timer_us
init = do
  clear_timer
  enable_timer_interrupt
  set_timer_us tick_interval_us
  say "[timer] CLINT initialized, tick="
  dec (tick_interval_us / 1000)
  say "ms\n"
