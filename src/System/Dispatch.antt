-- ===== src/System/Dispatch.antt =====
-- What `schedule` and `kill_current` return with on a sound table: the context of the task that is now current,
-- and every other task with the context that it had, or that it was interrupted in.
use cyptos.Prelude.{
  ℕ, ◌^◌, ◌<◌, ◌≡◌, ◌≢◌, refl, ◌⊎◌, inl, inr, ◌∙◌, sym, ap, subst, List, Option, some, some_inj,
  ℕ_discrete, ==_ne,
}
use cyptos.Arch.Frame.{TrapFrame, TaskContext, copy_to_frame}
use cyptos.Machine.{Machine, done, bind_done}
use cyptos.Pmp.Hart.{PmpHart}
use cyptos.Pmp.Region.{PmpRegion}
use cyptos.Sync.{with_lock}
use cyptos.Sync.Lock.{masked, with_mstatus, with_lock_lem}
use cyptos.Sched.Task.{Task}
use cyptos.Sched.Table.{SchedulerState, SwitchTarget, pick, kill_task}
use cyptos.Sched.Table.Slots.{slot_at, slot_at_lt, slot_at-set}
use cyptos.Sched.Table.Steps.{context_after, pick-Evolves}
use cyptos.Sched.Table.Life.{pick-IsTarget}
use cyptos.Sched.Scheduler.{on_scheduler, resume, schedule, kill_current, kill_locked}
use cyptos.Sched.Scheduler.Switch.{picked_lem, resume-some}
use cyptos.Sched.Scheduler.Kill.{kill_locked-some}
use cyptos.System.Table.{pick-some}
use cyptos.System.Safe.{killed-IsSound}
use cyptos.System.Sound.{IsSound}

-- The return goes to the context of the current task.
pub record Dispatches (frame' : TrapFrame) (m' : Machine) : Type 0 where
  pub slot : ℕ
  pub task : Task
  pub current_eq : m'.scheduler.current ≡ some slot
  pub here : slot_at m'.scheduler.tasks slot ≡ some task
  pub frame_eq : (other : TrapFrame) → frame' ≡ copy_to_frame task.context other
  pub mepc_eq : m'.csr.mepc ≡ task.context.mepc
  pub mstatus_eq : m'.csr.mstatus ≡ task.context.mstatus

copied_anywhere : (ctx : TaskContext) (f g : TrapFrame) → copy_to_frame ctx f ≡ copy_to_frame ctx g
unfolding copy_to_frame
copied_anywhere ctx f g = refl

-- The task in slot `c` has the context `ctx` and is not current.
abbrev pub Parked : ℕ → TaskContext → SchedulerState → Type 0
Parked c ctx s =
    (t : Task) × (slot_at s.tasks c ≡ some t) × (t.context ≡ ctx) × (s.current ≢ some c)

-- It still is so, or it is current and the return goes to that context.
abbrev pub Settled : ℕ → TaskContext → TrapFrame → Machine → Type 0
Settled c ctx frame' m' =
    Parked c ctx m'.scheduler
    ⊎ ((m'.scheduler.current ≡ some c)
        × ((other : TrapFrame) → frame' ≡ copy_to_frame ctx other)
        × (m'.csr.mepc ≡ ctx.mepc)
        × (m'.csr.mstatus ≡ ctx.mstatus))

-- The current slot is the same, and so are the tasks that are not current.
pub record KeepsOthers (s s' : SchedulerState) : Type 0 where
  pub current_eq : s'.current ≡ s.current
  pub kept :
      (c : ℕ) (t : Task)
      → s.current ≢ some c
      → slot_at s.tasks c ≡ some t
      → slot_at s'.tasks c ≡ some t

module _ (hart : PmpHart) (cfgs : ℕ → List PmpRegion) (frame : TrapFrame) where
  pub schedule-Dispatches :
      (m : Machine)
      → m.csr.mstatus < 2 ^ 64
      → IsSound cfgs m.scheduler
      → (frame' : TrapFrame) × (m' : Machine) × (schedule hart frame m ≡ done frame' m')
        × Dispatches frame' m'
        × ((target : Option SwitchTarget) × (pick frame m.csr.mepc m.csr.mstatus m.scheduler
              ≡ some (target, m'.scheduler)))
  unfolding schedule
  schedule-Dispatches m small sound =
      let (g, s', picked) =
        pick-some frame m.csr.mepc m.csr.mstatus m.scheduler sound.valid sound.idle sound.idle_at
          sound.idle_alive in
      let body = on_scheduler (pick frame m.csr.mepc m.csr.mstatus) in
      let locked = picked_lem hart frame m.csr.mepc m.csr.mstatus (masked m) (some g) s' picked in
      let (_, unlocked) =
        with_lock_lem body m (record (masked m) { scheduler = s' }) (some g) small locked refl in
      let (m', r, sched, _, status, at) = resume-some hart frame g (record m { scheduler = s' }) in
      let tg = pick-IsTarget frame m.csr.mepc m.csr.mstatus m.scheduler g s' sound.valid picked in
      (
        copy_to_frame g.context frame,
        m',
        bind_done (with_lock body) (resume hart frame) m (record m { scheduler = s' }) (some g)
              unlocked
            ∙ r,
        record {
          slot = g.next_idx;
          task = tg.task;
          current_eq = ap {A = SchedulerState} (λ s. s.current) sched ∙ tg.current_eq;
          here = ap {A = SchedulerState} (λ s. slot_at s.tasks g.next_idx) sched ∙ tg.here;
          frame_eq = λ other.
              copied_anywhere g.context frame other ∙ ap (λ c. copy_to_frame c other) tg.context_eq;
          mepc_eq = at ∙ ap (λ c. c.mepc) tg.context_eq;
          mstatus_eq = status ∙ ap (λ c. c.mstatus) tg.context_eq;
        },
        (some g, picked ∙ ap (λ s. some (some g, s)) (sym sched)),
      )

  pub schedule-Settled :
      (m : Machine) (c : ℕ) (t : Task)
      → m.csr.mstatus < 2 ^ 64
      → IsSound cfgs m.scheduler
      → slot_at m.scheduler.tasks c ≡ some t
      → (frame' : TrapFrame) × (m' : Machine) × (schedule hart frame m ≡ done frame' m')
        × Settled c
            (context_after frame m.csr.mepc m.csr.mstatus m.scheduler.current c t.context)
            frame'
            m'
  schedule-Settled m c t small sound at =
      let (frame', m', r, d, (target, picked)) = schedule-Dispatches m small sound in
      let (u, at', ev) =
        pick-Evolves frame m.csr.mepc m.csr.mstatus m.scheduler target m'.scheduler c t sound.valid
          picked at in
      (
        frame',
        m',
        r,
        elim (ℕ_discrete d.slot c) [
          | yes same ↦
              let at_c : slot_at m'.scheduler.tasks c ≡ some d.task =
                subst (λ i. slot_at m'.scheduler.tasks i ≡ some d.task) same d.here in
              let is : d.task.context
                  ≡ context_after frame m.csr.mepc m.csr.mstatus m.scheduler.current c t.context =
                ap (λ t. t.context) (some_inj (sym at_c ∙ at')) ∙ ev.context_eq in
              inr (
                d.current_eq ∙ ap some same,
                λ other. d.frame_eq other ∙ ap (λ x. copy_to_frame x other) is,
                d.mepc_eq ∙ ap (λ x. x.mepc) is,
                d.mstatus_eq ∙ ap (λ x. x.mstatus) is,
              )
          | no other ↦ inl (u, at', ev.context_eq, λ e. other (some_inj (sym d.current_eq ∙ e)))
        ],
      )

  -- `kill_current` is `schedule` on a machine whose current task, not idle, is dead, and whose other tasks are
  -- as they were.
  pub kill_current-schedule :
      (m : Machine) (k : ℕ)
      → m.csr.mstatus < 2 ^ 64
      → IsSound cfgs m.scheduler
      → m.scheduler.current ≡ some k
      → k ≢ 0
      → (m1 : Machine) × (kill_current hart frame m ≡ schedule hart frame m1)
        × (m1.csr.mstatus ≡ m.csr.mstatus)
        × IsSound cfgs m1.scheduler
        × KeepsOthers m.scheduler m1.scheduler
  unfolding kill_current
  kill_current-schedule m k small sound e ne =
      let (u, at_k) = sound.valid.current_in k e in
      let (mid, r, csr, _, sched) = kill_locked-some (masked m) k u e at_k in
      let (_, unlocked) = with_lock_lem kill_locked m mid tt small r (ap (λ c. c.mstatus) csr) in
      (
        with_mstatus m.csr.mstatus mid,
        bind_done (with_lock kill_locked) (λ _. schedule hart frame) m
            (with_mstatus m.csr.mstatus mid) tt unlocked,
        refl,
        subst (IsSound cfgs) (sym sched) (killed-IsSound cfgs m.scheduler k u sound e ne at_k),
        record {
          current_eq = ap {A = SchedulerState} (λ s. s.current) sched;
          kept = λ c t away at.
              ap (λ (s : SchedulerState). slot_at s.tasks c) sched
              ∙ (slot_at-set m.scheduler.tasks k c (some (kill_task u))
                    (slot_at_lt m.scheduler.tasks k u at_k)
                  ∙ rw (==_ne c k (λ q. away (e ∙ ap some (sym q)))) at);
        },
      )
