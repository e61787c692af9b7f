-- ===== src/System/Reach.antt =====
-- Every trap keeps the running system safe.
use cyptos.Prelude.{ℕ, ◌^◌, ◌<◌, ◌≡◌, ◌≢◌, ◌∙◌, sym, ap, subst, List, Bool, true, false}
use cyptos.Arch.Frame.{TrapFrame}
use cyptos.Machine.{Machine, Outcome, done, panicked}
use cyptos.Pmp.{LinkerSymbols}
use cyptos.Pmp.Hart.{PmpHart}
use cyptos.Pmp.Region.{PmpRegion}
use cyptos.Trap.{trap_handler}
use cyptos.Trap.Handle.{with_console}
use cyptos.Trap.Outcomes.{Handled, returns, schedules, kills, stops, recovers, trap_handler-Handled}
use cyptos.System.{World, Event, enter, IsFrom, Step, trap, Reaches, here, then, mpp_of}
use cyptos.System.Kept.{Safe, Kept, mpp_eq, quiet-Kept, scheduled, killed}
use cyptos.System.Safe.{IsSafe, KeepsDead}

pub done_inj : {f g : TrapFrame} {m n : Machine} → done f m ≡ done g n → m ≡ n
done_inj e = cc

panicked≢done : {f : TrapFrame} {m n : Machine} → panicked m ≢ done f n
panicked≢done = λ e. cc

module _ (hart : PmpHart) (k : LinkerSymbols) (cfgs : ℕ → List PmpRegion) where
  -- The answer to a trap on `m`: a return to a safe machine exactly if the trap is one to be recovered from.
  data Answered (m : Machine) (ok : Bool) (r : Outcome TrapFrame) : Type 0 where
    resumed :
        (frame' : TrapFrame) (m' : Machine)
        → ok ≡ true
        → r ≡ done frame' m'
        → Kept k cfgs m m'
        → Answered m ok r
    panics : (m' : Machine) → ok ≡ false → r ≡ panicked m' → Answered m ok r

  module _ (frame : TrapFrame) (m : Machine) (mode : ℕ) (safe : IsSafe k cfgs m mode)
      (from : mpp_of m.csr.mstatus ≡ mode) (small : m.csr.mstatus < 2 ^ 64) where
    Handled-Answered :
        (ok : Bool) (r : Outcome TrapFrame) → Handled hart frame m ok r → Answered m ok r
    Handled-Answered ok r (returns frame' m' h q e) =
        resumed frame' m' h e (quiet-Kept hart k cfgs frame m mode safe from small m' q)
    Handled-Answered ok r (schedules m' h q e) =
        let (frame', m'', e', kept) = scheduled hart k cfgs frame m mode safe from small m' q in
        resumed frame' m'' h (e ∙ e') kept
    Handled-Answered ok r (kills m' h q user e) =
        let (frame', m'', e', kept, _) =
          killed hart k cfgs frame m mode safe from small m' q (sym (mpp_eq m.csr) ∙ user) in
        resumed frame' m'' h (e ∙ e') kept
    Handled-Answered ok r (stops console h e) = panics (with_console console m) h e

  module _ (w : World) (e : Event) (from : IsFrom w e) (safe : Safe k cfgs w) where
    -- The machine that the handler sees is as safe as the one before the trap.
    pub entered : IsSafe k cfgs (enter e w.machine) w.mode
    entered = record {
      sound = safe.sound;
      guarded = safe.guarded;
      is_open = safe.is_open;
      loaded = safe.loaded;
      runs = safe.runs;
      mode_eq = safe.mode_eq;
    }

    answer :
        Answered
          (enter e w.machine)
          (recovers e.mcause (mpp_of e.mstatus))
          (trap_handler hart e.frame (enter e w.machine))
    answer =
        Handled-Answered e.frame (enter e w.machine) w.mode entered from.mpp_eq from.small _ _ (
          subst
            (λ p.
              Handled hart e.frame (enter e w.machine) (recovers e.mcause p)
                (trap_handler hart e.frame (enter e w.machine)))
            (mpp_eq (enter e w.machine).csr)
            (trap_handler-Handled hart e.frame (enter e w.machine) from.fits))

    from_answer :
        (ok : Bool) (r : Outcome TrapFrame) (frame' : TrapFrame) (m' : Machine)
        → Answered (enter e w.machine) ok r
        → r ≡ done frame' m'
        → Kept k cfgs w.machine m'
    from_answer ok r frame' m' (resumed f n h q kept) out =
        subst (Kept k cfgs w.machine) (done_inj (sym q ∙ out)) kept
    from_answer ok r frame' m' (panics n h q) out = absurd (panicked≢done (sym q ∙ out))

  Step-Kept :
      {w w' : World}
      → Safe k cfgs w
      → Step hart w w'
      → Safe k cfgs w' × KeepsDead w.machine.scheduler w'.machine.scheduler
  Step-Kept {w} safe (trap e frame' m' from out same) =
      subst (λ v. Safe k cfgs v × KeepsDead w.machine.scheduler v.machine.scheduler) (sym same)
        (from_answer w e from safe _ _ frame' m' (answer w e from safe) out)

  -- Whatever traps come, and whatever the tasks and the devices do between them.
  pub Reaches-Kept :
      {w w' : World}
      → Safe k cfgs w
      → Reaches hart w w'
      → Safe k cfgs w' × KeepsDead w.machine.scheduler w'.machine.scheduler
  Reaches-Kept safe here = (safe, λ j is. is)
  Reaches-Kept safe (then r st) =
      let (mid, keeps) = Reaches-Kept safe r in
      let (end, keeps') = Step-Kept mid st in (end, λ j is. keeps' j (keeps j is))

  -- In a safe world an interrupt, a breakpoint, an environment call, and an access fault of U-mode are survived.
  pub trap_handler-returns :
      (w : World) (e : Event)
      → Safe k cfgs w
      → IsFrom w e
      → recovers e.mcause w.mode ≡ true
      → (frame' : TrapFrame) × (m' : Machine) × (trap_handler hart e.frame (enter e w.machine)
          ≡ done frame' m')
  trap_handler-returns w e safe from ok =
      by_answer _ _ (answer w e from safe) (ap (recovers e.mcause) from.mpp_eq ∙ ok)
    where
      by_answer :
          (b : Bool) (r : Outcome TrapFrame)
          → Answered (enter e w.machine) b r
          → b ≡ true
          → (frame' : TrapFrame) × (m' : Machine) × (r ≡ done frame' m')
      by_answer b r (resumed f n h q kept) yes_ok = (f, n, q)
      by_answer b r (panics n h q) yes_ok = cc
