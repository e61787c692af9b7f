-- ===== src/Boot/Stages.antt =====
-- The boot between two spawns, and the start of the scheduler.
use cyptos.Prelude.{
  ℕ, zero, suc, ◌+◌, ◌^◌, ◌<◌, ◌≤◌, ◌≡◌, ◌≢◌, refl, ◌∙◌, sym, ap, subst, arith, List, [], ◌∷◌,
  Option, none, some, false, set,
}
use cyptos.Allocator.{BumpAllocator}
use cyptos.Allocator.Blocks.{IsAligned}
use cyptos.Arch.Csr.{Csr, enable_timer, set_bits}
use cyptos.Machine.{Machine, ◌>>◌, and_then, say, Returns}
use cyptos.Pmp
use cyptos.Pmp.Hart.{PmpHart, cfg, locked}
use cyptos.Pmp.Region.{new, flag_rx}
use cyptos.Pmp.Init.{IsLinked}
use cyptos.Pmp.Load.{IsGrant}
use cyptos.Sync.Lock.{masked, with_lock_lem}
use cyptos.Sched.Task.{Task}
use cyptos.Sched.Table
use cyptos.Sched.Table.{SchedulerState, umode_task, mmode_task, start_slot, start_all, initial}
use cyptos.Sched.Table.Slots.{slot_at}
use cyptos.Sched.Table.Valid.{IsValid}
use cyptos.Sched.Table.Insert.{occupied}
use cyptos.Sched.Scheduler.{on_scheduler}
use cyptos.Sched.Scheduler
use cyptos.Sched.Spec.Spawn.{HasRoom}
use cyptos.Timer.{enable_interrupts}
use cyptos.Boot.{Image, start_scheduler}
use cyptos.Boot.Steps.{heap_of, IsSetUp}
use cyptos.Boot.Spawns.{IsSpawned, CanSpawn}

empty_at : (i : ℕ) (t : Task) → slot_at (none ∷ none ∷ none ∷ none ∷ []) i ≢ some t
empty_at zero t = λ e. cc
empty_at (suc zero) t = λ e. cc
empty_at (suc (suc zero)) t = λ e. cc
empty_at (suc (suc (suc zero))) t = λ e. cc
empty_at (suc (suc (suc (suc i)))) t = λ e. cc

pub initial-IsValid : IsValid initial
unfolding initial
initial-IsValid = record {
  table = record { size = refl; each = λ i t e. absurd (empty_at i t e) };
  current_in = λ c e. cc;
  running_current = λ i t e r. absurd (empty_at i t e);
}

abbrev pub Started : Machine → Unit {0} → Machine → Type 0
Started m r m' =
    (m'.scheduler ≡ Table.init m.scheduler)
    × (m'.csr ≡ record (m.csr) { mstatus = set_bits 8 m.csr.mstatus })
    × (m'.pmp ≡ m.pmp)
    × (m'.clint ≡ m.clint)
    × (m'.allocator ≡ m.allocator)

pub init_tasks : (s : SchedulerState) → (Table.init s).tasks ≡ start_all s.tasks
unfolding Table.init
init_tasks s = refl

pub start_scheduler_lem :
    (m : Machine)
    → m.csr.mstatus < 2 ^ 64
    → IsValid m.scheduler
    → Returns (start_scheduler m) (Started m)
unfolding start_scheduler Scheduler.init enable_interrupts say
start_scheduler_lem m small v =
    let (_, e) =
      with_lock_lem (on_scheduler λ state. some (tt, Table.init state)) m
        (record (masked m) { scheduler = Table.init m.scheduler }) tt small refl refl in
    subst
      (λ r.
        Returns
          (and_then r (λ _.
            (enable_interrupts >> say "[kernel] Scheduler started — idle task handles wfi\n")))
          (Started m))
      (sym e) (refl, refl, refl, refl, refl)

abbrev one : Option Task → List (Option Task)
one a = a ∷ none ∷ none ∷ none ∷ []

abbrev two : Option Task → Option Task → List (Option Task)
two a b = a ∷ b ∷ none ∷ none ∷ []

abbrev pub three : Option Task → Option Task → Option Task → List (Option Task)
three a b c = a ∷ b ∷ c ∷ none ∷ []

pub full_1 : (a : Task) (j : ℕ) → j < 1 → slot_at (one (some a)) j ≢ none
full_1 a = occupied a (none ∷ none ∷ none ∷ []) 0 (λ j lt. absurd (omega arith))

pub full_2 : (a b : Task) (j : ℕ) → j < 2 → slot_at (two (some a) (some b)) j ≢ none
full_2 a b =
    occupied a (some b ∷ none ∷ none ∷ []) 1
      (occupied b (none ∷ none ∷ []) 0 (λ j lt. absurd (omega arith)))

-- What the boot needs of the image and of the machine at reset.
pub record IsReset (image : Image) (m : Machine) : Type 0 where
  pub linked : IsLinked image.symbols
  pub reset : (i : ℕ) → i < 16 → locked (cfg m.pmp i) ≡ false
  pub heap_room : image.sheap + 49155 ≤ image.symbols.eheap
  pub within : image.symbols.eheap < 2 ^ 55
  pub code : IsGrant (new image.user_text_start 0x1000 flag_rx)
  pub small : m.csr.mstatus < 2 ^ 64
  pub no_tasks : m.scheduler ≡ initial
  pub fits : m.clint.mtime + 100_000 < 2 ^ 64

-- The boot between two spawns: the tasks so far, and where the next stack is looked for.
pub record IsStage (hart : PmpHart) (image : Image) (m : Machine) (tasks : List (Option Task))
    (next : ℕ) (m' : Machine) : Type 0 where
  pub heap_eq : m'.allocator ≡ record (heap_of image) { next = next }
  pub current_eq : m'.scheduler.current ≡ none
  pub tasks_eq : m'.scheduler.tasks ≡ tasks
  pub valid : IsValid m'.scheduler
  pub csr_eq : m'.csr ≡ enable_timer (record (m.csr) { mtvec = image.vector })
  pub pmp_eq : m'.pmp ≡ Pmp.init hart image.symbols m.pmp
  pub timer_eq : m'.clint ≡ record (m.clint) { mtimecmp = m.clint.mtime + 100_000 }

module _ (hart : PmpHart) (image : Image) (m : Machine) (r : IsReset image m) where
  pub IsSetUp-IsStage :
      (m' : Machine)
      → IsSetUp hart image m m'
      → IsStage hart image m (none ∷ none ∷ none ∷ none ∷ []) (image.sheap + 3) m'
  unfolding initial
  IsSetUp-IsStage m' s =
      let sched : m'.scheduler ≡ initial = s.scheduler_eq ∙ r.no_tasks in
      record {
        heap_eq = s.heap_eq;
        current_eq = ap {A = SchedulerState} (λ s. s.current) sched;
        tasks_eq = ap {A = SchedulerState} (λ s. s.tasks) sched;
        valid = subst IsValid (sym sched) initial-IsValid;
        csr_eq = s.csr_eq;
        pmp_eq = s.pmp_eq;
        timer_eq = s.timer_eq;
      }

  pub IsStage-CanSpawn :
      {tasks : List (Option Task)} {next : ℕ} {m' : Machine} (d : ℕ)
      → IsStage hart image m tasks next m'
      → next + 16384 ≤ image.symbols.eheap
      → d < 4
      → slot_at tasks d ≡ none
      → ((j : ℕ) → j < d → slot_at tasks j ≢ none)
      → CanSpawn d m'
  unfolding enable_timer
  IsStage-CanSpawn d s room in_table free full = record {
    room = subst HasRoom (sym s.heap_eq) (record { before_end = room; within = r.within });
    small = subst (λ (c : Csr). c.mstatus < 2 ^ 64) (sym s.csr_eq) r.small;
    valid = s.valid;
    in_table = in_table;
    free = ap (λ ts. slot_at ts d) s.tasks_eq ∙ free;
    full = λ j lt e. full j lt (sym (ap (λ ts. slot_at ts j) s.tasks_eq) ∙ e);
  }

  pub IsSpawned-IsStage :
      {tasks : List (Option Task)} {next : ℕ} {m1 m2 : Machine} {make : ℕ → Task} {bottom d : ℕ}
      → IsStage hart image m tasks next m1
      → IsSpawned make bottom d m1 m2
      → IsStage hart image m (set tasks d (some (make d))) (bottom + 8192) m2
  IsSpawned-IsStage {make} {bottom} {d} s v = record {
    heap_eq = v.heap_eq ∙ ap {A = BumpAllocator} (λ a. record a { next = bottom + 8192 }) s.heap_eq;
    current_eq = v.current_eq ∙ s.current_eq;
    tasks_eq = v.tasks_eq ∙ ap (λ ts. set ts d (some (make d))) s.tasks_eq;
    valid = v.valid;
    csr_eq = v.csr_eq ∙ s.csr_eq;
    pmp_eq = v.pmp_eq ∙ s.pmp_eq;
    timer_eq = v.clint_eq ∙ s.timer_eq;
  }

  pub stack_from :
      {tasks : List (Option Task)} {next : ℕ} {m1 m2 : Machine} {make : ℕ → Task} {bottom d : ℕ}
      → IsStage hart image m tasks next m1
      → IsSpawned make bottom d m1 m2
      → IsAligned next 8192 bottom
  stack_from {bottom} s v =
      subst (λ (a : BumpAllocator). IsAligned a.next 8192 bottom) s.heap_eq v.stack
