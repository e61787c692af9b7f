-- ===== src/System/Preempt.antt =====
-- A task does not notice that it is preempted, whatever happens before it runs again.
use cyptos.Prelude.{
  ℕ, ◌+◌, ◌^◌, ◌≡◌, ◌≢◌, refl, inl, inr, ◌∙◌, sym, ap, subst, List, Option, none, some,
}
use cyptos.Arch.Frame.{TrapFrame, TaskContext, copy_to_frame, copy_to_context}
use cyptos.Machine.{Machine, Outcome, done, Returns}
use cyptos.Pmp.{LinkerSymbols}
use cyptos.Pmp.Hart.{PmpHart}
use cyptos.Pmp.Region.{PmpRegion}
use cyptos.Sched.Table.Steps.{saved_context, context_after, context_after_self, context_after_other}
use cyptos.Trap.{trap_handler}
use cyptos.Trap.Handle.{ticked, trap_handler-tick}
use cyptos.Boot.{Image}
use cyptos.Boot.Ready.{IsBooted}
use cyptos.System.{World, Event, IsFrom, trap, Reaches, here, then, enter, leave}
use cyptos.System.Dispatch.{Parked, Settled, schedule-Settled}
use cyptos.System.Scheduling.{Answer, returns, schedules, trap_handler-Answer}
use cyptos.System.Kept.{Safe}
use cyptos.System.Reach.{Reaches-Kept}
use cyptos.System.Isolation.{configs_of, waiting_in, reached}

-- A parked task is not the one that a tick saves.
parked_context :
    (frame : TrapFrame) (mepc mstatus : ℕ) (current : Option ℕ) (c : ℕ) (ctx : TaskContext)
    → current ≢ some c
    → context_after frame mepc mstatus current c ctx ≡ ctx
parked_context frame mepc mstatus none c ctx away = refl
parked_context frame mepc mstatus (some d) c ctx away =
    sym (context_after_other frame mepc mstatus d c (some d) ctx refl (λ e. away (ap some (sym e))))

module _ (hart : PmpHart) (cfgs : ℕ → List PmpRegion) (frame : TrapFrame) (m : Machine) (c : ℕ)
    (ctx : TaskContext) (parked : Parked c ctx m.scheduler) where
  -- A trap of another task leaves it parked, or returns to it.
  Answer-Settled : (r : Outcome TrapFrame) → Answer hart cfgs frame m r → Returns r (Settled c ctx)
  Answer-Settled r (returns f n q e) =
      subst (λ r. Returns r (Settled c ctx)) (sym e)
        (inl (subst (Parked c ctx) (sym q.scheduler_eq) parked))
  Answer-Settled r (schedules n small' sound others e) =
      let (t, at, is, away) = parked in
      let at' = others.kept c t away at in
      let (f, n', r', settled) = schedule-Settled hart cfgs frame n c t small' sound at' in
      subst (λ r. Returns r (Settled c ctx)) (sym (e ∙ r'))
        (subst (λ x. Settled c x f n')
          (parked_context frame n.csr.mepc n.csr.mstatus n.scheduler.current c t.context
              (λ q. away (sym others.current_eq ∙ q))
            ∙ is)
          settled)

-- The kernel has returned with `frame` and `m`; its next return to the task of slot `c`, this one included, is
-- with `frame'` and `m'`.
pub data Back (hart : PmpHart) (c : ℕ) (frame' : TrapFrame) (m' : Machine)
    : TrapFrame → Machine → Type 0 where
  at_once : m'.scheduler.current ≡ some c → Back hart c frame' m' frame' m'
  later :
      {frame : TrapFrame} {m : Machine} (e : Event) (frame1 : TrapFrame) (m1 : Machine)
      → m.scheduler.current ≢ some c
      → IsFrom (leave m) e
      → trap_handler hart e.frame (enter e m) ≡ done frame1 m1
      → Back hart c frame' m' frame1 m1
      → Back hart c frame' m' frame m

-- The return is to the given registers, mepc and mstatus.
abbrev pub Resumed : TaskContext → TrapFrame → Machine → Type 0
Resumed ctx frame m =
    ((other : TrapFrame) → frame ≡ copy_to_frame ctx other)
    × (m.csr.mepc ≡ ctx.mepc)
    × (m.csr.mstatus ≡ ctx.mstatus)

module _ (hart : PmpHart) (k : LinkerSymbols) (cfgs : ℕ → List PmpRegion) (c : ℕ)
    (ctx : TaskContext) where
  trap-Settled :
      (w : World) (e : Event) (frame' : TrapFrame) (m' : Machine)
      → Safe k cfgs w
      → IsFrom w e
      → Parked c ctx w.machine.scheduler
      → trap_handler hart e.frame (enter e w.machine) ≡ done frame' m'
      → Settled c ctx frame' m'
  trap-Settled w e frame' m' safe from parked out =
      subst (λ r. Returns r (Settled c ctx)) out
        (Answer-Settled hart cfgs e.frame (enter e w.machine) c ctx parked _
          (trap_handler-Answer hart k cfgs w e frame' m' safe from out))

  Back-Resumed :
      {frame' : TrapFrame} {m' : Machine} (frame : TrapFrame) (m : Machine)
      → Safe k cfgs (leave m)
      → Settled c ctx frame m
      → Back hart c frame' m' frame m
      → Resumed ctx frame' m'
  Back-Resumed frame m safe (inl (_, _, _, away)) (at_once now) = absurd (away now)
  Back-Resumed frame m safe (inr (_, regs, pc, status)) (at_once now) = (regs, pc, status)
  Back-Resumed frame m safe (inl parked) (later e f n off from out rest) =
      Back-Resumed f n (Reaches-Kept hart k cfgs safe (then here (trap e f n from out refl))).0
        (trap-Settled (leave m) e f n safe from parked out) rest
  Back-Resumed frame m safe (inr (now, _, _, _)) (later e f n off from out rest) = absurd (off now)

module _ (hart : PmpHart) (image : Image) (m booted : Machine) (b : IsBooted image m booted) where
  -- As long as every trap finds that a user task has stored in its own stack only and has left room on it for
  -- the trap's frame and the handler, and that `kmain` and the idle task have stored nothing and idle has kept
  -- its sp (`OwnStack`), in every world that the system reaches from the one that `kmain` leaves, with mtime
  -- more than 100000 below 2 ^ 64 at every trap: a task that a timer interrupt takes the hart from gets it
  -- back, when the kernel next returns to it, at once or after any such ticks, calls and faults of other
  -- tasks, with exactly the registers, mepc and mstatus that it was interrupted with.
  pub trap_handler-Back :
      (w : World) (e : Event) (c : ℕ) (frame frame' : TrapFrame) (n m' : Machine)
      → Reaches hart (waiting_in booted) w
      → IsFrom w e
      → e.mcause ≡ 2 ^ 63 + 7
      → w.machine.scheduler.current ≡ some c
      → trap_handler hart e.frame (enter e w.machine) ≡ done frame n
      → Back hart c frame' m' frame n
      → (frame' ≡ e.frame) × (m'.csr.mepc ≡ e.mepc) × (m'.csr.mstatus ≡ e.mstatus)
  unfolding copy_to_frame copy_to_context
  trap_handler-Back w e c frame frame' n m' r from tick ec out back =
      let safe = reached hart image m booted b r in
      let (t, at) = safe.sound.valid.current_in c ec in
      let (k, ticks) = trap_handler-tick hart e.frame (enter e w.machine) tick from.fits in
      let m1 = ticked hart e.frame k (enter e w.machine) in
      let (f, n', r', settled) =
        schedule-Settled hart (configs_of booted) e.frame m1 c t from.small safe.sound at in
      let ctx = saved_context e.frame e.mepc e.mstatus t.context in
      let settled' : Settled c ctx f n' =
        subst (λ x. Settled c x f n')
          (sym (
            context_after_self e.frame e.mepc e.mstatus c w.machine.scheduler.current t.context ec))
          settled in
      let (regs, pc, status) =
        Back-Resumed hart image.symbols (configs_of booted) c ctx frame n
          (reached hart image m booted b (then r (trap e frame n from out refl)))
          (subst (λ r. Returns r (Settled c ctx)) (sym (ticks ∙ r') ∙ out) settled') back in
      (regs e.frame, pc, status)
