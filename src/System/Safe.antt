-- ===== src/System/Safe.antt =====
-- The invariant of the running system, and that `schedule` and `kill_current` establish it again.
use cyptos.Prelude.{
  ℕ, ◌^◌, ◌<◌, ◌≡◌, ◌≢◌, refl, inl, inr, ◌∙◌, sym, ap, subst, List, some, some_inj, ℕ_discrete,
  ==_ne,
}
use cyptos.Arch.Frame.{TrapFrame, copy_to_frame}
use cyptos.Machine.{Machine, done, bind_done}
use cyptos.Pmp.{LinkerSymbols, load_task_config}
use cyptos.Pmp.Guarded.{IsGuarded, IsLoaded, IsLoaded-IsOpen, load_task_config-IsLoaded}
use cyptos.Pmp.Hart.{PmpHart}
use cyptos.Pmp.Load.{IsOpen}
use cyptos.Pmp.Region.{PmpRegion}
use cyptos.Sync.{with_lock}
use cyptos.Sync.Lock.{masked, with_mstatus, with_lock_lem}
use cyptos.Sched.Task.{Task, running}
use cyptos.Sched.Table.{SchedulerState, pick, kill_task}
use cyptos.Sched.Table.Slots.{slot_at, slot_at_lt, slot_at-set_cases, slot_at-set}
use cyptos.Sched.Table.Life.{pick-IsTarget, dead-stays}
use cyptos.Sched.Scheduler.{on_scheduler, resume, schedule, kill_current, kill_locked}
use cyptos.Sched.Scheduler.Switch.{picked_lem, resume-some}
use cyptos.Sched.Scheduler.Kill.{IsDead, killed, killed-IsDead, killed-IsValid, kill_locked-some}
use cyptos.System.{mpp_of}
use cyptos.System.Table.{pick-some}
use cyptos.System.Sound.{IsSound, mode_at, mode_of, pick-IsSound}

-- The table is sound, the kernel's PMP entries are in place, the current task's regions are loaded, and the
-- hart runs in the current task's mode.
pub record IsSafe (k : LinkerSymbols) (cfgs : ℕ → List PmpRegion) (m : Machine) (mode : ℕ)
    : Type 0 where
  pub sound : IsSound cfgs m.scheduler
  pub guarded : IsGuarded k m.pmp
  pub is_open : IsOpen m.pmp
  pub loaded :
      (c : ℕ) (t : Task)
      → m.scheduler.current ≡ some c
      → slot_at m.scheduler.tasks c ≡ some t
      → IsLoaded t.pmp_config.regions m.pmp
  pub runs :
      (c : ℕ) (t : Task)
      → m.scheduler.current ≡ some c
      → slot_at m.scheduler.tasks c ≡ some t
      → t.state ≡ running
  pub mode_eq : mode ≡ mode_at m.scheduler.current

-- A dead task stays dead.
abbrev pub KeepsDead : SchedulerState → SchedulerState → Type 0
KeepsDead s s' = (j : ℕ) → IsDead j s → IsDead j s'

killed-KeepsDead :
    (s : SchedulerState) (c : ℕ) (t : Task)
    → slot_at s.tasks c ≡ some t
    → KeepsDead s (killed c t s)
killed-KeepsDead s c t at j (u, at', is) = elim (ℕ_discrete j c) [
  | yes same ↦ subst (λ x. IsDead x (killed c t s)) (sym same) (killed-IsDead s c t at)
  | no other ↦ (
    u,
    slot_at-set s.tasks c j (some (kill_task t)) (slot_at_lt s.tasks c t at)
        ∙ rw (==_ne j c other) at',
    is,
  )
]

-- A table without the faulting task, which is not idle, is sound.
pub killed-IsSound :
    (cfgs : ℕ → List PmpRegion) (s : SchedulerState) (c : ℕ) (t : Task)
    → IsSound cfgs s
    → s.current ≡ some c
    → c ≢ 0
    → slot_at s.tasks c ≡ some t
    → IsSound cfgs (killed c t s)
killed-IsSound cfgs s c t sound e ne at =
    let lt = slot_at_lt s.tasks c t at in
    record {
      valid = killed-IsValid s c t sound.valid e at;
      configs = λ i u at'. elim (slot_at-set_cases s.tasks c i (kill_task t) u lt at') [
        | inl (here, same) ↦
            ap (λ t. t.pmp_config.regions) (sym same) ∙ (sound.configs c t at ∙ ap cfgs (sym here))
        | inr (_, old) ↦ sound.configs i u old
      ];
      modes = λ i u at'. elim (slot_at-set_cases s.tasks c i (kill_task t) u lt at') [
        | inl (here, same) ↦
            ap (λ (t : Task). mpp_of t.context.mstatus) (sym same)
            ∙ (sound.modes c t at ∙ ap mode_of (sym here))
        | inr (_, old) ↦ sound.modes i u old
      ];
      idle = sound.idle;
      idle_at =
          slot_at-set s.tasks c 0 (some (kill_task t)) lt
          ∙ rw (==_ne 0 c (λ q. ne (sym q))) sound.idle_at;
      idle_alive = sound.idle_alive;
    }

module _ (hart : PmpHart) (k : LinkerSymbols) (cfgs : ℕ → List PmpRegion) (frame : TrapFrame) where
  -- The outcome is a return to a safe machine.
  abbrev pub Resumes : Machine → Type 0
  Resumes m' = IsSafe k cfgs m' (mpp_of m'.csr.mstatus)

  pub schedule-IsSafe :
      (m : Machine)
      → m.csr.mstatus < 2 ^ 64
      → IsSound cfgs m.scheduler
      → IsGuarded k m.pmp
      → IsOpen m.pmp
      → mpp_of m.csr.mstatus ≡ mode_at m.scheduler.current
      → (frame' : TrapFrame) × (m' : Machine) × (schedule hart frame m ≡ done frame' m')
        × Resumes m'
        × KeepsDead m.scheduler m'.scheduler
  unfolding schedule
  schedule-IsSafe m small sound guarded open_pmp now =
      let (g, s', picked) =
        pick-some frame m.csr.mepc m.csr.mstatus m.scheduler sound.valid sound.idle sound.idle_at
          sound.idle_alive in
      let body = on_scheduler (pick frame m.csr.mepc m.csr.mstatus) in
      let locked = picked_lem hart frame m.csr.mepc m.csr.mstatus (masked m) (some g) s' picked in
      let (_, unlocked) =
        with_lock_lem body m (record (masked m) { scheduler = s' }) (some g) small locked refl in
      let (m', r, sched, pmp, status, _) = resume-some hart frame g (record m { scheduler = s' }) in
      let tg = pick-IsTarget frame m.csr.mepc m.csr.mstatus m.scheduler g s' sound.valid picked in
      let sound' =
        pick-IsSound cfgs frame m.csr.mepc m.csr.mstatus m.scheduler (some g) s' sound picked now in
      let valid = (sound'.valid.table.each g.next_idx tg.task tg.here).config in
      let (guarded', loaded') =
        load_task_config-IsLoaded hart tg.task.pmp_config.regions m.pmp guarded open_pmp valid in
      let pmp' : m'.pmp ≡ load_task_config hart tg.task.pmp_config.regions m.pmp =
        pmp ∙ ap (λ r. load_task_config hart r m.pmp) tg.regions_eq in
      let now_current : m'.scheduler.current ≡ some g.next_idx =
        ap {A = SchedulerState} (λ s. s.current) sched ∙ tg.current_eq in
      let is_target =
        λ (c : ℕ) (t : Task) (ec : m'.scheduler.current ≡ some c)
            (at : slot_at m'.scheduler.tasks c ≡ some t).
          let at' : slot_at s'.tasks g.next_idx ≡ some t =
            subst (λ x. slot_at s'.tasks x ≡ some t) (some_inj (sym ec ∙ now_current))
              (ap (λ s. slot_at s.tasks c) (sym sched) ∙ at) in
          some_inj (sym tg.here ∙ at') in
      (
        copy_to_frame g.context frame,
        m',
        bind_done (with_lock body) (resume hart frame) m (record m { scheduler = s' }) (some g)
              unlocked
            ∙ r,
        record {
          sound = subst (IsSound cfgs) (sym sched) sound';
          guarded = subst (IsGuarded k) (sym pmp') guarded';
          is_open = subst IsOpen (sym pmp') (IsLoaded-IsOpen guarded' valid loaded');
          loaded = λ c t ec at.
              subst (λ t. IsLoaded t.pmp_config.regions m'.pmp) (is_target c t ec at)
                (subst (IsLoaded tg.task.pmp_config.regions) (sym pmp') loaded');
          runs = λ c t ec at. ap (λ t. t.state) (sym (is_target c t ec at)) ∙ tg.runs;
          mode_eq =
              ap mpp_of (status ∙ ap (λ c. c.mstatus) tg.context_eq)
              ∙ (sound'.modes g.next_idx tg.task tg.here ∙ sym (ap mode_at now_current));
        },
        λ j (t, at, is).
            let (still, _) =
              dead-stays frame m.csr.mepc m.csr.mstatus m.scheduler (some g) m'.scheduler j t
                sound.valid (picked ∙ ap (λ s. some (some g, s)) (sym sched)) at is in
            still,
      )

  -- A fault of the task that is current, which is not idle.
  pub kill_current-IsSafe :
      (m : Machine) (c : ℕ)
      → m.csr.mstatus < 2 ^ 64
      → IsSound cfgs m.scheduler
      → IsGuarded k m.pmp
      → IsOpen m.pmp
      → m.scheduler.current ≡ some c
      → c ≢ 0
      → mpp_of m.csr.mstatus ≡ mode_of c
      → (frame' : TrapFrame) × (m' : Machine) × (kill_current hart frame m ≡ done frame' m')
        × Resumes m'
        × IsDead c m'.scheduler
        × KeepsDead m.scheduler m'.scheduler
  unfolding kill_current
  kill_current-IsSafe m c small sound guarded open_pmp e ne now =
      let (t, at) = sound.valid.current_in c e in
      let (mid, r, csr, pmp, sched) = kill_locked-some (masked m) c t e at in
      let (_, unlocked) = with_lock_lem kill_locked m mid tt small r (ap (λ c. c.mstatus) csr) in
      let m1 = with_mstatus m.csr.mstatus mid in
      let sound' : IsSound cfgs mid.scheduler =
        subst (IsSound cfgs) (sym sched) (killed-IsSound cfgs m.scheduler c t sound e ne at) in
      let current' : mid.scheduler.current ≡ some c =
        ap {A = SchedulerState} (λ s. s.current) sched ∙ e in
      let (frame', m', q, resumes, keeps) =
        schedule-IsSafe m1 small sound' (subst (IsGuarded k) (sym pmp) guarded)
          (subst IsOpen (sym pmp) open_pmp) (now ∙ sym (ap mode_at current')) in
      (
        frame',
        m',
        bind_done (with_lock kill_locked) (λ _. schedule hart frame) m m1 tt unlocked ∙ q,
        resumes,
        keeps c (subst (IsDead c) (sym sched) (killed-IsDead m.scheduler c t at)),
        λ j is. keeps j (subst (IsDead j) (sym sched) (killed-KeepsDead m.scheduler c t at j is)),
      )
