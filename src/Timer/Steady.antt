-- ===== src/Timer/Steady.antt =====
-- Code that touches neither the CLINT nor the tick counter, by the way it is put together.
use cyptos.Prelude.{
  ◌≡◌, refl, ◌∙◌, Bool, true, false, if◌then◌else◌, bit_and, ◌==◌, ◌<<<◌, Option, none, some,
}
use cyptos.Machine.{Machine, Outcome, done, panicked, M, and_then}
use cyptos.Sched.Table.{SchedulerState}
use cyptos.Sched.Scheduler.{on_scheduler}
use cyptos.Sync.{with_lock}

abbrev pub machine_of : {A : Type 0} → Outcome A → Machine
machine_of (done a m) = m
machine_of (panicked m) = m

-- The CLINT and the tick counter are as before, whether the code returns or panics.
abbrev pub SameTime : {A : Type 0} → Machine → Outcome A → Type 0
SameTime m r = ((machine_of r).tick_count ≡ m.tick_count) × ((machine_of r).clint ≡ m.clint)

abbrev pub Steady : {A : Type 0} → M A → Type 0
Steady f = (m : Machine) → SameTime m (f m)

-- A part of the code, and what follows it.
pub and_then-SameTime :
    {A B : Type 0} (m : Machine) (r : Outcome A) (g : A → M B)
    → SameTime m r
    → ((a : A) → Steady (g a))
    → SameTime m (and_then r g)
and_then-SameTime m (done a n) g (count, clint) h = ((h a n).0 ∙ count, (h a n).1 ∙ clint)
and_then-SameTime m (panicked n) g s h = s

pub if-Steady :
    {A : Type 0} (b : Bool) (f g : M A) → Steady f → Steady g → Steady (if b then f else g)
if-Steady true f g s t = s
if-Steady false f g s t = t

pub with_lock-Steady : {R : Type 0} (f : M R) → Steady f → Steady (with_lock f)
unfolding with_lock
with_lock-Steady f s m = and_then-SameTime m (f _) _ (s _) (λ result.
    if-Steady (bit_and m.csr.mstatus (1 <<< 3) == 0) _ _ (λ n. (refl, refl)) (λ n. (refl, refl)))

pub on_scheduler-Steady :
    {A : Type 0} (f : SchedulerState → Option (A × SchedulerState)) → Steady (on_scheduler f)
on_scheduler-Steady {A = A} f m = by_result (f m.scheduler)
  where
    by_result : (r : Option (A × SchedulerState)) → SameTime m (on_scheduler (λ s. r) m)
    by_result none = (refl, refl)
    by_result (some (a, s)) = (refl, refl)
