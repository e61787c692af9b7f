-- ===== src/Sched/Scheduler/Kill.antt =====
-- `kill_current`: the current task is dead afterwards, and the kernel goes on.
use cyptos.Prelude.{
  ℕ, ◌^◌, ◌<◌, ◌≡◌, refl, inl, inr, ◌∙◌, sym, ap, subst, some, arith, get_elem?, set, Option-cases,
  some_inj, ==_refl,
}
use cyptos.Arch.Frame.{TrapFrame}
use cyptos.Pmp.Hart.{PmpHart}
use cyptos.Machine.{Machine, done, bind_done, say, dec}
use cyptos.Sync.{with_lock}
use cyptos.Sync.Lock.{masked, with_mstatus, with_lock_lem}
use cyptos.Sched.Task.{Task, dead}
use cyptos.Sched.Table.{SchedulerState, kill_task}
use cyptos.Sched.Table.Slots.{slot_at, slot_at_lt, slot_at-set}
use cyptos.Sched.Table.Valid.{IsValid, IsSaved-IsValid, current-IsSaved}
use cyptos.Sched.Table.Life.{dead-stays}
use cyptos.Sched.Scheduler.{kill_slot, kill_at, kill_locked, kill_current, schedule}
use cyptos.Sched.Scheduler.Switch.{schedule-Switched}

-- The task in slot `c` is dead.
abbrev pub IsDead : ℕ → SchedulerState → Type 0
IsDead c s = (u : Task) × (slot_at s.tasks c ≡ some u) × (u.state ≡ dead)

abbrev pub KillsCurrent : SchedulerState → SchedulerState → Type 0
KillsCurrent s s' = (c : ℕ) → s.current ≡ some c → IsDead c s'

slot_of :
    (s : SchedulerState) (c : ℕ) (t : Task)
    → slot_at s.tasks c ≡ some t
    → get_elem? s.tasks c ≡ some (some t)
slot_of s c t e = ground arith

abbrev pub killed : ℕ → Task → SchedulerState → SchedulerState
killed c t s = record s { tasks = set s.tasks c (some (kill_task t)) }

pub killed-IsDead :
    (s : SchedulerState) (c : ℕ) (t : Task) → slot_at s.tasks c ≡ some t → IsDead c (killed c t s)
killed-IsDead s c t here = (
  kill_task t,
  slot_at-set s.tasks c c (some (kill_task t)) (slot_at_lt s.tasks c t here) ∙ rw (==_refl c) refl,
  refl,
)

pub killed-IsValid :
    (s : SchedulerState) (c : ℕ) (t : Task)
    → IsValid s
    → s.current ≡ some c
    → slot_at s.tasks c ≡ some t
    → IsValid (killed c t s)
killed-IsValid s c t v e here =
    let was = v.table.each c t here in
    IsSaved-IsValid (
      current-IsSaved s c t (kill_task t) v e here
        (record { id_eq = was.id_eq; config = was.config }) (λ q. cc))

pub kill_locked-some :
    (m : Machine) (c : ℕ) (t : Task)
    → m.scheduler.current ≡ some c
    → slot_at m.scheduler.tasks c ≡ some t
    → (m' : Machine) × (kill_locked m ≡ done tt m')
      × (m'.csr ≡ m.csr)
      × (m'.pmp ≡ m.pmp)
      × (m'.scheduler ≡ killed c t m.scheduler)
unfolding kill_locked say dec
kill_locked-some m c t e here = (
  _,
  ap (λ o. kill_at o m) e ∙ ap (λ o. kill_slot c o m) (slot_of m.scheduler c t here),
  refl,
  refl,
  refl,
)

kill_locked_lem :
    (m : Machine)
    → IsValid m.scheduler
    → (m' : Machine) × (kill_locked m ≡ done tt m')
      × (m'.csr ≡ m.csr)
      × IsValid m'.scheduler
      × KillsCurrent m.scheduler m'.scheduler
unfolding kill_locked
kill_locked_lem m v = elim (Option-cases m.scheduler.current) [
  | inl e ↦ (m, ap (λ o. kill_at o m) e, refl, v, λ c q. ground arith)
  | inr (c, e) ↦
      let (t, here) = v.current_in c e in
      let (m', r, csr, _, sched) = kill_locked-some m c t e here in
      (
        m',
        r,
        csr,
        subst IsValid (sym sched) (killed-IsValid m.scheduler c t v e here),
        λ d q. subst (IsDead d) (sym sched) (
            subst (λ x. IsDead x (killed c t m.scheduler)) (some_inj (sym e ∙ q))
              (killed-IsDead m.scheduler c t here)),
      )
]

-- With mstatus below 2 ^ 64, a kill on a valid table does not panic: the task that was current is dead
-- afterwards, and the table is valid.
pub kill_current-IsDead :
    (hart : PmpHart) (frame : TrapFrame) (m : Machine)
    → m.csr.mstatus < 2 ^ 64
    → IsValid m.scheduler
    → (frame' : TrapFrame) × (m' : Machine) × (kill_current hart frame m ≡ done frame' m')
      × IsValid m'.scheduler
      × KillsCurrent m.scheduler m'.scheduler
unfolding kill_current
kill_current-IsDead hart frame m small v =
    let (mid, e, same_csr, valid, dies) = kill_locked_lem (masked m) v in
    let (_, unlocked) = with_lock_lem kill_locked m mid tt small e (ap (λ c. c.mstatus) same_csr) in
    let (frame', m', r, (target, picked, _), valid') =
      schedule-Switched hart frame (with_mstatus m.csr.mstatus mid) small valid in
    (
      frame',
      m',
      bind_done (with_lock kill_locked) (λ _. schedule hart frame) m
            (with_mstatus m.csr.mstatus mid) tt unlocked
          ∙ r,
      valid',
      λ c cur.
          let (t, here, is) = dies c cur in
          (dead-stays frame _ _ mid.scheduler target m'.scheduler c t valid picked here is).0,
    )
