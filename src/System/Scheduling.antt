-- ===== src/System/Scheduling.antt =====
-- A trap of the running system either leaves the scheduler alone, or ends in one call of `schedule` on a sound
-- table.
use cyptos.Prelude.{ℕ, ◌^◌, ◌<◌, ◌≡◌, refl, ◌∙◌, sym, ap, subst, List, Bool}
use cyptos.Arch.Frame.{TrapFrame}
use cyptos.Machine.{Machine, Outcome, done}
use cyptos.Pmp.{LinkerSymbols}
use cyptos.Pmp.Hart.{PmpHart}
use cyptos.Pmp.Region.{PmpRegion}
use cyptos.Sched.Scheduler.{schedule}
use cyptos.Trap.{trap_handler}
use cyptos.Trap.Outcomes
use cyptos.Trap.Outcomes.{IsQuiet, Handled, trap_handler-Handled}
use cyptos.System.{World, Event, IsFrom, enter, mpp_of}
use cyptos.System.Dispatch.{KeepsOthers, kill_current-schedule}
use cyptos.System.Safe.{IsSafe}
use cyptos.System.Kept.{Safe, mpp_eq, quiet-Ready, user_slot}
use cyptos.System.Reach.{entered}
use cyptos.System.Sound.{IsSound}

-- What the answer `r` to a trap on `m` is, if it is not a panic.
pub data Answer (hart : PmpHart) (cfgs : ℕ → List PmpRegion) (frame : TrapFrame) (m : Machine)
    (r : Outcome TrapFrame) : Type 0 where
  returns :
      (frame' : TrapFrame) (n : Machine)
      → IsQuiet m n
      → r ≡ done frame' n
      → Answer hart cfgs frame m r
  schedules :
      (n : Machine)
      → n.csr.mstatus < 2 ^ 64
      → IsSound cfgs n.scheduler
      → KeepsOthers m.scheduler n.scheduler
      → r ≡ schedule hart frame n
      → Answer hart cfgs frame m r

pub quiet-KeepsOthers : {m n : Machine} → IsQuiet m n → KeepsOthers m.scheduler n.scheduler
quiet-KeepsOthers {m} q =
    subst (KeepsOthers m.scheduler) (sym q.scheduler_eq)
      (record { current_eq = refl; kept = λ c t away at. at })

module _ (hart : PmpHart) (k : LinkerSymbols) (cfgs : ℕ → List PmpRegion) where
  module _ (frame : TrapFrame) (m : Machine) (mode : ℕ) (safe : IsSafe k cfgs m mode)
      (from : mpp_of m.csr.mstatus ≡ mode) (small : m.csr.mstatus < 2 ^ 64) where
    Handled-Answer :
        (ok : Bool) (r : Outcome TrapFrame) (frame' : TrapFrame) (m' : Machine)
        → Handled hart frame m ok r
        → r ≡ done frame' m'
        → Answer hart cfgs frame m r
    Handled-Answer ok r frame' m' (Outcomes.returns f n h q e) out = returns f n q e
    Handled-Answer ok r frame' m' (Outcomes.schedules n h q e) out =
        let (sound, _, _, small', _, _) =
          quiet-Ready hart k cfgs frame m mode safe from small n q in
        schedules n small' sound (quiet-KeepsOthers q) e
    Handled-Answer ok r frame' m' (Outcomes.kills n h q user e) out =
        let (sound, _, _, small', now, _) =
          quiet-Ready hart k cfgs frame m mode safe from small n q in
        let mode_now = ap mpp_of q.mstatus_eq ∙ (sym (mpp_eq m.csr) ∙ user) in
        let (j, ec, ne, _) = user_slot n.scheduler.current (sym now ∙ mode_now) in
        let (n1, r1, status, sound1, others) =
          kill_current-schedule hart cfgs frame n j small' sound ec ne in
        schedules n1 (subst (λ v. v < 2 ^ 64) (sym status) small') sound1
          (subst (λ s. KeepsOthers s n1.scheduler) q.scheduler_eq others) (e ∙ r1)
    Handled-Answer ok r frame' m' (Outcomes.stops n h e) out = cc (e, out)

  pub trap_handler-Answer :
      (w : World) (e : Event) (frame' : TrapFrame) (m' : Machine)
      → Safe k cfgs w
      → IsFrom w e
      → trap_handler hart e.frame (enter e w.machine) ≡ done frame' m'
      → Answer hart cfgs e.frame (enter e w.machine) (trap_handler hart e.frame (enter e w.machine))
  trap_handler-Answer w e frame' m' safe from out =
      Handled-Answer e.frame (enter e w.machine) w.mode (entered hart k cfgs w e from safe)
        from.mpp_eq from.small _ _ frame' m'
        (trap_handler-Handled hart e.frame (enter e w.machine) from.fits) out
