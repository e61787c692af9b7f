-- ===== src/System/Kept.antt =====
-- The three ways in which a handler returns, and what each keeps.
use cyptos.Prelude.{
  ℕ, zero, suc, ◌/◌, ◌^◌, ◌<◌, ◌≡◌, ◌≢◌, refl, ◌∙◌, sym, ap, subst, List, Option, none, some,
  some_inj, bit_and_mask, arith,
}
use cyptos.Arch.Csr.{Csr, read_mpp}
use cyptos.Arch.Frame.{TrapFrame}
use cyptos.Machine.{Machine, done}
use cyptos.Pmp.{LinkerSymbols}
use cyptos.Pmp.Guarded.{IsGuarded, IsLoaded}
use cyptos.Pmp.Hart.{PmpHart}
use cyptos.Pmp.Load.{IsOpen}
use cyptos.Pmp.Region.{PmpRegion}
use cyptos.Sched.Table.{SchedulerState}
use cyptos.Sched.Table.Slots.{slot_at}
use cyptos.Sched.Scheduler.{schedule, kill_current}
use cyptos.Sched.Scheduler.Kill.{IsDead}
use cyptos.Trap.Outcomes.{IsQuiet}
use cyptos.System.{World, mpp_of}
use cyptos.System.Sound.{IsSound, mode_at, mode_of}
use cyptos.System.Safe.{IsSafe, KeepsDead, schedule-IsSafe, kill_current-IsSafe}

abbrev pub Safe : LinkerSymbols → (ℕ → List PmpRegion) → World → Type 0
Safe k cfgs w = IsSafe k cfgs w.machine w.mode

pub mpp_eq : (csr : Csr) → read_mpp csr ≡ mpp_of csr.mstatus
unfolding read_mpp
mpp_eq csr = bit_and_mask 2 (csr.mstatus / 2 ^ 11)

-- What a handler that returns from a trap on `m` leaves.
abbrev pub Kept : LinkerSymbols → (ℕ → List PmpRegion) → Machine → Machine → Type 0
Kept k cfgs m m' = IsSafe k cfgs m' (mpp_of m'.csr.mstatus) × KeepsDead m.scheduler m'.scheduler

-- U-mode code belongs to a task other than idle.
pub user_slot :
    (current : Option ℕ)
    → mode_at current ≡ 0
    → (c : ℕ) × (current ≡ some c) × (c ≢ 0) × (mode_of c ≡ 0)
user_slot none e = absurd (omega arith)
user_slot (some zero) e = absurd (omega arith)
user_slot (some (suc c)) e = (suc c, refl, (λ q. omega arith), refl)

module _ (hart : PmpHart) (k : LinkerSymbols) (cfgs : ℕ → List PmpRegion) where
  module _ (frame : TrapFrame) (m : Machine) (mode : ℕ) (safe : IsSafe k cfgs m mode)
      (from : mpp_of m.csr.mstatus ≡ mode) (small : m.csr.mstatus < 2 ^ 64) where
    pub quiet-Kept : (m' : Machine) → IsQuiet m m' → Kept k cfgs m m'
    quiet-Kept m' q = (
      record {
        sound = subst (IsSound cfgs) (sym q.scheduler_eq) safe.sound;
        guarded = subst (IsGuarded k) (sym q.pmp_eq) safe.guarded;
        is_open = subst IsOpen (sym q.pmp_eq) safe.is_open;
        loaded = λ c t ec at. subst (IsLoaded t.pmp_config.regions) (sym q.pmp_eq) (
            safe.loaded c t (ap {A = SchedulerState} (λ s. s.current) (sym q.scheduler_eq) ∙ ec)
              (ap {A = SchedulerState} (λ s. slot_at s.tasks c) (sym q.scheduler_eq) ∙ at));
        runs = λ c t ec at.
            safe.runs c t (ap {A = SchedulerState} (λ s. s.current) (sym q.scheduler_eq) ∙ ec)
              (ap {A = SchedulerState} (λ s. slot_at s.tasks c) (sym q.scheduler_eq) ∙ at);
        mode_eq =
            ap mpp_of q.mstatus_eq
            ∙ (from
                ∙ (safe.mode_eq
                    ∙ ap {A = SchedulerState} (λ s. mode_at s.current) (sym q.scheduler_eq)));
      },
      λ j is. subst (IsDead j) (sym q.scheduler_eq) is,
    )

    -- On a quiet machine the facts for the scheduler hold.
    abbrev pub Ready : Machine → Type 0
    Ready m' =
        IsSound cfgs m'.scheduler
        × IsGuarded k m'.pmp
        × IsOpen m'.pmp
        × (m'.csr.mstatus < 2 ^ 64)
        × (mpp_of m'.csr.mstatus ≡ mode_at m'.scheduler.current)
        × KeepsDead m.scheduler m'.scheduler

    pub quiet-Ready : (m' : Machine) → IsQuiet m m' → Ready m'
    quiet-Ready m' q =
        let (s, keeps) = quiet-Kept m' q in
        (
          s.sound,
          s.guarded,
          s.is_open,
          subst (λ v. v < 2 ^ 64) (sym q.mstatus_eq) small,
          s.mode_eq,
          keeps,
        )

    pub scheduled :
        (m' : Machine)
        → IsQuiet m m'
        → (frame' : TrapFrame) × (m'' : Machine) × (schedule hart frame m' ≡ done frame' m'')
          × Kept k cfgs m m''
    scheduled m' q =
        let (sound, guarded, open_pmp, small', now, keeps) = quiet-Ready m' q in
        let (frame', m'', r, safe', keeps') =
          schedule-IsSafe hart k cfgs frame m' small' sound guarded open_pmp now in
        (frame', m'', r, (safe', λ j is. keeps' j (keeps j is)))

    pub killed :
        (m' : Machine)
        → IsQuiet m m'
        → mpp_of m.csr.mstatus ≡ 0
        → (frame' : TrapFrame) × (m'' : Machine) × (kill_current hart frame m' ≡ done frame' m'')
          × Kept k cfgs m m''
          × ((c : ℕ) → m.scheduler.current ≡ some c → IsDead c m''.scheduler)
    killed m' q user =
        let (sound, guarded, open_pmp, small', now, keeps) = quiet-Ready m' q in
        let mode_now = ap mpp_of q.mstatus_eq ∙ user in
        let (c, ec, ne, cm) = user_slot m'.scheduler.current (sym now ∙ mode_now) in
        let (frame', m'', r, safe', dead_now, keeps') =
          kill_current-IsSafe hart k cfgs frame m' c small' sound guarded open_pmp ec ne
            (mode_now ∙ sym cm) in
        (
          frame',
          m'',
          r,
          (safe', λ j is. keeps' j (keeps j is)),
          λ d ed.
              subst (λ x. IsDead x m''.scheduler)
                (some_inj (sym ec ∙ (ap {A = SchedulerState} (λ s. s.current) q.scheduler_eq ∙ ed)))
                dead_now,
        )
