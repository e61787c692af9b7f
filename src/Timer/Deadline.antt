-- ===== src/Timer/Deadline.antt =====
-- Arming the timer: what the compare register holds afterwards.
use native.Mathlib.Nat.{mod-eq_of_lt}
use cyptos.Prelude.{ℕ, ◌+◌, ◌*◌, ◌%◌, ◌^◌, ◌<◌, ◌≡◌, ap, arith, ◌∙◌}
use cyptos.Machine.{Machine, done}
use cyptos.Timer.{set_timer_us, us_to_ticks, read_mtime, write_mtimecmp, schedule_next_tick}

-- `m` with the timer armed for `t`.
abbrev pub armed : ℕ → Machine → Machine
armed t m = record m { clint = record (m.clint) { mtimecmp = t } }

us_to_ticks_lem : (us : ℕ) → us * 10_000_000 < 2 ^ 64 → us_to_ticks us ≡ us * 10
unfolding us_to_ticks
us_to_ticks_lem us h = omega (arith, mod-eq_of_lt {n = us * 10_000_000} {m = 2 ^ 64} h)

-- A delay of `us` microseconds sets the compare register `10 * us` ticks of the 10 MHz clock ahead,
-- and changes nothing else, as long as neither the product nor the sum passes 2 ^ 64.
pub set_timer_us_lem :
    (us : ℕ) (m : Machine)
    → us * 10_000_000 < 2 ^ 64
    → m.clint.mtime + us * 10 < 2 ^ 64
    → set_timer_us us m ≡ done tt (armed (m.clint.mtime + us * 10) m)
unfolding set_timer_us read_mtime write_mtimecmp
set_timer_us_lem us m small fits =
    ap (λ t. done tt (armed t m))
      (ap (λ d. (m.clint.mtime + d) % 2 ^ 64) (us_to_ticks_lem us small)
        ∙ mod-eq_of_lt {n = m.clint.mtime + us * 10} {m = 2 ^ 64} fits)

pub schedule_next_tick_lem :
    (m : Machine)
    → m.clint.mtime + 100_000 < 2 ^ 64
    → schedule_next_tick m ≡ done tt (armed (m.clint.mtime + 100_000) m)
unfolding schedule_next_tick
schedule_next_tick_lem m fits = set_timer_us_lem 10_000 m (omega arith) fits
