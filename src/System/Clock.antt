-- ===== src/System/Clock.antt =====
-- The clock of the running system: the ticks counted and the deadlines set, over any traps.
use cyptos.Prelude.{ℕ, suc, ◌+◌, ◌*◌, ◌%◌, ◌^◌, ◌<◌, ◌≤◌, ◌≡◌, ◌≢◌, refl, ◌∙◌, sym, ap, arith}
use cyptos.Arch.Frame.{TrapFrame}
use cyptos.Machine.{Machine, done}
use cyptos.Pmp.Hart.{PmpHart}
use cyptos.Timer.Steady.{machine_of}
use cyptos.Trap.{trap_handler}
use cyptos.Trap.Steady.{trap_handler-Steady, trap_handler-counts}
use cyptos.System.{World, Event, enter, leave}

-- The run fits `w` through `n` timer interrupts, the last of which set the deadline `d`, and any other traps. The
-- CLINT raises its interrupt only once mtime has reached mtimecmp.
pub data Ticks (hart : PmpHart) (w : World) : ℕ → ℕ → World → Type 0 where
  start : Ticks hart w 0 w.machine.clint.mtimecmp w
  tick :
      {n d : ℕ} {v : World} (e : Event) (frame' : TrapFrame) (m' : Machine)
      → Ticks hart w n d v
      → e.mtime + 100_000 < 2 ^ 64
      → e.mcause ≡ 2 ^ 63 + 7
      → v.machine.clint.mtimecmp ≤ e.mtime
      → trap_handler hart e.frame (enter e v.machine) ≡ done frame' m'
      → Ticks hart w (suc n) (e.mtime + 100_000) (leave m')
  other :
      {n d : ℕ} {v : World} (e : Event) (frame' : TrapFrame) (m' : Machine)
      → Ticks hart w n d v
      → e.mtime + 100_000 < 2 ^ 64
      → e.mcause < 2 ^ 64
      → e.mcause ≢ 2 ^ 63 + 7
      → trap_handler hart e.frame (enter e v.machine) ≡ done frame' m'
      → Ticks hart w n d (leave m')

module _ (hart : PmpHart) where
  quiet :
      (e : Event) (frame' : TrapFrame) (m m' : Machine)
      → e.mcause < 2 ^ 64
      → e.mcause ≢ 2 ^ 63 + 7
      → trap_handler hart e.frame (enter e m) ≡ done frame' m'
      → (m'.tick_count ≡ m.tick_count) × (m'.clint.mtimecmp ≡ m.clint.mtimecmp)
  quiet e frame' m m' small ne out =
      let (count, clint) = trap_handler-Steady hart e.frame (enter e m) small ne in
      let same = ap machine_of (sym out) in
      (
        ap (λ x. x.tick_count) same ∙ count,
        ap (λ x. x.clint.mtimecmp) same ∙ ap (λ c. c.mtimecmp) clint,
      )

  -- Over any traps that the kernel returns from, with mtime more than 100000 below 2 ^ 64 at each: the tick counter
  -- has gone up by the number of timer interrupts, modulo 2 ^ 64, from a count below that; the timer is armed for
  -- 10 ms after the last timer interrupt; and each timer interrupt has moved the deadline on by 10 ms at least.
  pub Ticks-clock :
      (w u : World) (n d : ℕ)
      → w.machine.tick_count < 2 ^ 64
      → Ticks hart w n d u
      → (u.machine.tick_count ≡ (w.machine.tick_count + n) % 2 ^ 64)
        × (u.machine.clint.mtimecmp ≡ d)
        × (w.machine.clint.mtimecmp + n * 100_000 ≤ d)
  Ticks-clock w u n d small start = (omega arith, refl, omega arith)
  Ticks-clock w u n d small (tick {v = v} e f m' run fits is_tick due out) =
      let (count, armed, later) = Ticks-clock w _ _ _ small run in
      let (count', armed') =
        trap_handler-counts hart e.frame f (enter e v.machine) m' is_tick fits out in
      (omega (arith, count, count'), armed', omega (arith, armed, later, due))
  Ticks-clock w u n d small (other {v = v} e f m' run fits top ne out) =
      let (count, armed, later) = Ticks-clock w _ _ _ small run in
      let (count', armed') = quiet e f v.machine m' top ne out in
      (count' ∙ count, armed' ∙ armed, later)
