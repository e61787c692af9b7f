-- ===== src/Sched/Scheduler/Switch.antt =====
-- `schedule` over the whole machine: from the lock to the frame that the trap returns with.
use cyptos.Prelude.{ℕ, ◌^◌, ◌<◌, ◌≡◌, refl, ◌∙◌, sym, ap, subst, Option, none, some}
use cyptos.Arch.Frame.{TrapFrame, copy_to_frame}
use cyptos.Pmp.Hart.{PmpHart}
use cyptos.Pmp.{load_task_config}
use cyptos.Pmp.Load.{IsOpen, IsTaskConfig, IsInstalled, load_task_config-IsInstalled}
use cyptos.Machine.{Machine, done, bind_done, say, dec, write_mepc, write_mstatus}
use cyptos.Sync.{with_lock}
use cyptos.Sync.Lock.{masked, with_lock_lem}
use cyptos.Sched.Task.{Task, running}
use cyptos.Sched.Table.{SchedulerState, SwitchTarget, pick}
use cyptos.Sched.Table.Slots.{slot_at}
use cyptos.Sched.Table.Valid.{IsValid}
use cyptos.Sched.Table.Steps.{pick-IsValid}
use cyptos.Sched.Table.Life.{IsTarget, pick-IsTarget}
use cyptos.Sched.Scheduler.{on_scheduler, resume, switch_to, schedule}

-- How `schedule` ends: with no target the interrupted context goes on, and with one the machine is set up for
-- its task.
pub data Switched (hart : PmpHart) (frame : TrapFrame) (m : Machine) (frame' : TrapFrame)
    (m' : Machine) : Option SwitchTarget → Type 0 where
  goes_on : frame' ≡ frame → m'.csr ≡ m.csr → m'.pmp ≡ m.pmp → Switched hart frame m frame' m' none
  switched :
      (g : SwitchTarget) (i : ℕ) (t : Task)
      → i ≡ g.next_idx
      → m'.scheduler.current ≡ some i
      → slot_at m'.scheduler.tasks i ≡ some t
      → t.state ≡ running
      → frame' ≡ copy_to_frame t.context frame
      → m'.csr.mepc ≡ t.context.mepc
      → m'.csr.mstatus ≡ t.context.mstatus
      → (IsOpen m.pmp → IsInstalled t.pmp_config.regions m.pmp m'.pmp)
      → Switched hart frame m frame' m' (some g)

abbrev pub with_scheduler : SchedulerState → Machine → Machine
with_scheduler s m = record m { scheduler = s }

module _ (hart : PmpHart) (frame : TrapFrame) where
  pub resume-some :
      (g : SwitchTarget) (m : Machine)
      → (m' : Machine) × (resume hart frame (some g) m ≡ done (copy_to_frame g.context frame) m')
        × (m'.scheduler ≡ m.scheduler)
        × (m'.pmp ≡ load_task_config hart g.pmp_regions m.pmp)
        × (m'.csr.mstatus ≡ g.context.mstatus)
        × (m'.csr.mepc ≡ g.context.mepc)
  unfolding resume switch_to say dec write_mepc write_mstatus
  resume-some g m = (_, refl, refl, refl, refl, refl)

  resume_lem :
      (target : Option SwitchTarget) (s' : SchedulerState) (m : Machine)
      → IsValid s'
      → ((g : SwitchTarget) → target ≡ some g → IsTarget g s')
      → (frame' : TrapFrame) × (m' : Machine) × (resume hart frame target (with_scheduler s' m)
          ≡ done frame' m')
        × (m'.scheduler ≡ s')
        × Switched hart frame m frame' m' target
  unfolding resume switch_to say dec write_mepc write_mstatus
  resume_lem none s' m v tg = (frame, with_scheduler s' m, refl, refl, goes_on refl refl refl)
  resume_lem (some g) s' m v tg =
      let t = tg g refl in
      (
        copy_to_frame g.context frame,
        _,
        refl,
        refl,
        switched g g.next_idx t.task refl t.current_eq t.here t.runs
            (ap (λ c. copy_to_frame c frame) t.context_eq) (ap (λ c. c.mepc) t.context_eq)
            (ap (λ c. c.mstatus) t.context_eq)
            (λ o.
              subst (λ r. IsInstalled r m.pmp (load_task_config hart g.pmp_regions m.pmp))
                t.regions_eq
                (load_task_config-IsInstalled hart m.pmp o g.pmp_regions (
                  subst IsTaskConfig (sym t.regions_eq)
                    (v.table.each g.next_idx t.task t.here).config))),
      )

  pub picked_lem :
      (mepc mstatus : ℕ) (m : Machine) (target : Option SwitchTarget) (s' : SchedulerState)
      → pick frame mepc mstatus m.scheduler ≡ some (target, s')
      → on_scheduler (pick frame mepc mstatus) m ≡ done target (with_scheduler s' m)
  picked_lem mepc mstatus m target s' e = rw (e, on_scheduler)

  -- With mstatus below 2 ^ 64 and on a valid table `schedule` does not panic, and leaves the table that `pick`
  -- gives, a valid one. If `pick` names no target, the interrupted context goes on with the CSRs and the PMP
  -- as they were; if it names one, the frame, mepc, mstatus and the PMP entries are set up for its task, which
  -- is now current and running, the PMP if the kernel's bytes were legal and the task entries not locked.
  pub schedule-Switched :
      (m : Machine)
      → m.csr.mstatus < 2 ^ 64
      → IsValid m.scheduler
      → (frame' : TrapFrame) × (m' : Machine) × (schedule hart frame m ≡ done frame' m')
        × ((target : Option SwitchTarget) × (pick frame m.csr.mepc m.csr.mstatus m.scheduler
              ≡ some (target, m'.scheduler))
            × Switched hart frame m frame' m' target)
        × IsValid m'.scheduler
  unfolding schedule
  schedule-Switched m small v =
      let (target, s', e, valid) = pick-IsValid frame m.csr.mepc m.csr.mstatus m.scheduler v in
      let body = on_scheduler (pick frame m.csr.mepc m.csr.mstatus) in
      let locked : body (masked m) ≡ done target (with_scheduler s' (masked m)) =
        picked_lem m.csr.mepc m.csr.mstatus (masked m) target s' e in
      let (_, unlocked) =
        with_lock_lem body m (with_scheduler s' (masked m)) target small locked refl in
      let (frame', m', r, same, sw) = resume_lem target s' m valid (λ g eg.
        pick-IsTarget frame m.csr.mepc m.csr.mstatus m.scheduler g s' v
          (e ∙ ap (λ x. some (x, s')) eg)) in
      (
        frame',
        m',
        bind_done (with_lock body) (resume hart frame) m (with_scheduler s' m) target unlocked ∙ r,
        (target, e ∙ ap (λ x. some (target, x)) (sym same), sw),
        subst IsValid (sym same) valid,
      )
