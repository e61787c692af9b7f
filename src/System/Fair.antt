-- ===== src/System/Fair.antt =====
-- A user task that is ready runs within a round of the timer, whatever traps come.
use cyptos.Prelude.{
  ℕ, suc, ◌+◌, ◌^◌, ◌<◌, ◌≤◌, ◌≡◌, ◌≢◌, refl, ◌∙◌, sym, ap, subst, List, some, arith,
}
use cyptos.Config.{max_tasks}
use cyptos.Arch.Frame.{TrapFrame}
use cyptos.Machine.{Machine, Outcome, done}
use cyptos.Pmp.{LinkerSymbols}
use cyptos.Pmp.Hart.{PmpHart}
use cyptos.Pmp.Region.{PmpRegion}
use cyptos.Sched.Policy.{start_of}
use cyptos.Sched.Policy.Select.{slot-ahead, start_lt}
use cyptos.Sched.Table.{SchedulerState}
use cyptos.Sched.Table.Slots.{slot_at_lt}
use cyptos.Sched.Scheduler.{schedule}
use cyptos.Trap.{trap_handler}
use cyptos.Trap.Handle.{ticked, trap_handler-tick}
use cyptos.Boot.{Image}
use cyptos.Boot.Ready.{IsBooted}
use cyptos.System.{World, Event, IsFrom, Step, trap, Reaches, here, then, enter, leave}
use cyptos.System.Nearer.{distance, Waiting, pick-nearer, others-Waiting}
use cyptos.System.Dispatch.{schedule-Dispatches}
use cyptos.System.Scheduling.{Answer, returns, schedules, quiet-KeepsOthers, trap_handler-Answer}
use cyptos.System.Kept.{Safe}
use cyptos.System.Reach.{Reaches-Kept, done_inj}
use cyptos.System.Sound.{IsSound}
use cyptos.System.Isolation.{configs_of, waiting_in, reached}

-- The run from `w` to a world through `n` timer interrupts and any other traps, with `c` not current after any.
pub data Waits (hart : PmpHart) (c : ℕ) (w : World) : ℕ → World → Type 0 where
  start : Waits hart c w 0 w
  tick :
      {n : ℕ} {v : World} (e : Event) (frame' : TrapFrame) (m' : Machine)
      → Waits hart c w n v
      → IsFrom v e
      → e.mcause ≡ 2 ^ 63 + 7
      → trap_handler hart e.frame (enter e v.machine) ≡ done frame' m'
      → m'.scheduler.current ≢ some c
      → Waits hart c w (suc n) (leave m')
  other :
      {n : ℕ} {v u : World}
      → Waits hart c w n v
      → Step hart v u
      → u.machine.scheduler.current ≢ some c
      → Waits hart c w n u

module _ (hart : PmpHart) (k : LinkerSymbols) (cfgs : ℕ → List PmpRegion) (c : ℕ) (ne : c ≢ 0) where
  abbrev Nearer : SchedulerState → SchedulerState → Type 0
  Nearer s s' = Waiting c s' × (distance c s' < distance c s)

  scheduled-Nearer :
      (frame frame' : TrapFrame) (n m' : Machine)
      → n.csr.mstatus < 2 ^ 64
      → IsSound cfgs n.scheduler
      → Waiting c n.scheduler
      → schedule hart frame n ≡ done frame' m'
      → m'.scheduler.current ≢ some c
      → Nearer n.scheduler m'.scheduler
  scheduled-Nearer frame frame' n m' small sound waiting out away =
      let (f, n', r, _, (target, picked)) = schedule-Dispatches hart cfgs frame n small sound in
      let same : n' ≡ m' = done_inj (sym r ∙ out) in
      subst (λ (x : Machine). x.scheduler.current ≢ some c → Nearer n.scheduler x.scheduler) same
        (pick-nearer frame n.csr.mepc n.csr.mstatus n.scheduler sound.valid c ne waiting target
          n'.scheduler picked)
        away

  -- Any trap comes no further from the task, and leaves it waiting unless it runs.
  Answer-Nearer :
      (frame frame' : TrapFrame) (m m' : Machine) (r : Outcome TrapFrame)
      → Answer hart cfgs frame m r
      → r ≡ done frame' m'
      → Waiting c m.scheduler
      → m'.scheduler.current ≢ some c
      → Waiting c m'.scheduler × (distance c m'.scheduler ≤ distance c m.scheduler)
  Answer-Nearer frame frame' m m' r (returns f n q e) out waiting away =
      let (waits, same) = others-Waiting c (quiet-KeepsOthers q) waiting in
      subst
        (λ (x : Machine). Waiting c x.scheduler × (distance c x.scheduler ≤ distance c m.scheduler))
        (done_inj (sym e ∙ out)) (waits, omega (arith, same))
  Answer-Nearer frame frame' m m' r (schedules n small sound others e) out waiting away =
      let (waits, same) = others-Waiting c others waiting in
      let (waits', less) =
        scheduled-Nearer frame frame' n m' small sound waits (sym e ∙ out) away in
      (waits', omega (arith, same, less))

  tick-Nearer :
      (w : World) (e : Event) (frame' : TrapFrame) (m' : Machine)
      → Safe k cfgs w
      → IsFrom w e
      → e.mcause ≡ 2 ^ 63 + 7
      → trap_handler hart e.frame (enter e w.machine) ≡ done frame' m'
      → Waiting c w.machine.scheduler
      → m'.scheduler.current ≢ some c
      → Nearer w.machine.scheduler m'.scheduler
  tick-Nearer w e frame' m' safe from is_tick out waiting away =
      let (k, ticks) = trap_handler-tick hart e.frame (enter e w.machine) is_tick from.fits in
      scheduled-Nearer e.frame frame' (ticked hart e.frame k (enter e w.machine)) m' from.small
        safe.sound waiting (sym ticks ∙ out) away

  Waits-Nearer :
      {w : World} {n : ℕ} {u : World}
      → Safe k cfgs w
      → Waiting c w.machine.scheduler
      → Waits hart c w n u
      → Safe k cfgs u
        × Waiting c u.machine.scheduler
        × (n + distance c u.machine.scheduler ≤ distance c w.machine.scheduler)
  Waits-Nearer safe waiting start = (safe, waiting, omega arith)
  Waits-Nearer safe waiting (tick e f m' run from is_tick out away) =
      let (mid, waits, n_le) = Waits-Nearer safe waiting run in
      let (waits', less) = tick-Nearer _ e f m' mid from is_tick out waits away in
      (
        (Reaches-Kept hart k cfgs mid (then here (trap e f m' from out refl))).0,
        waits',
        omega (arith, n_le, less),
      )
  Waits-Nearer {w} {n} safe waiting (other run (trap e f m' from out same) away) =
      let (mid, waits, n_le) = Waits-Nearer safe waiting run in
      let (waits', le) =
        Answer-Nearer e.frame f _ m' _ (trap_handler-Answer hart k cfgs _ e f m' mid from out) out
          waits (λ q. away (ap (λ (v : World). v.machine.scheduler.current) same ∙ q)) in
      subst
        (λ (v : World).
          Safe k cfgs v
          × Waiting c v.machine.scheduler
          × (n + distance c v.machine.scheduler ≤ distance c w.machine.scheduler))
        (sym same)
        (
          (Reaches-Kept hart k cfgs mid (then here (trap e f m' from out refl))).0,
          waits',
          omega (arith, n_le, le),
        )

module _ (hart : PmpHart) (image : Image) (m booted : Machine) (b : IsBooted image m booted) where
  -- As long as every trap finds that a user task has stored in its own stack only and has left room on it for
  -- the trap's frame and the handler, and that `kmain` and the idle task have stored nothing and idle has kept
  -- its sp (`OwnStack`), in every world that the system reaches from the one that `kmain` leaves: for as long
  -- as a task other than idle that is ready, and not current, is not current after any trap either, at most
  -- three timer interrupts have passed, whichever other traps come, and it is still ready.
  pub Waits-le :
      (w u : World) (n c : ℕ)
      → Reaches hart (waiting_in booted) w
      → c ≢ 0
      → Waiting c w.machine.scheduler
      → Waits hart c w n u
      → (n ≤ 3) × Waiting c u.machine.scheduler
  Waits-le w u n c r ne waiting run =
      let safe = reached hart image m booted b r in
      let (t, at, _, _) = waiting in
      let (_, waits, n_le) =
        Waits-Nearer hart image.symbols (configs_of booted) c ne safe waiting run in
      let near =
        slot-ahead max_tasks (start_of max_tasks w.machine.scheduler.current) c
          (start_lt max_tasks w.machine.scheduler.current (omega arith))
          (subst (λ n. c < n) safe.sound.valid.table.size
            (slot_at_lt w.machine.scheduler.tasks c t at)) in
      (omega (arith, n_le, near.0), waits)
