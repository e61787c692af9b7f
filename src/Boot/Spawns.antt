-- ===== src/Boot/Spawns.antt =====
-- A task that `kmain` spawns: it goes to the first free slot, and what the boot code does with its number
-- follows.
use cyptos.Prelude.{
  ℕ, ◌+◌, ◌^◌, ◌<◌, ◌≤◌, ◌≡◌, ◌≢◌, refl, ◌∙◌, sym, ap, subst, arith, List, [], ◌∷◌, none, some, set,
  is_power_of_two, dec_lt, length,
}
use cyptos.Config.{uart_base}
use cyptos.Allocator.Blocks.{IsAligned}
use cyptos.Machine.{Machine, M, ◌>>=◌, and_then, say, dec, Returns}
use cyptos.Pmp.Region.{PmpRegion, new, flag_rx, flag_rw}
use cyptos.Pmp.Load.{IsGrant}
use cyptos.Sched.Task.{Task, TaskId}
use cyptos.Sched.Table.{SchedulerState, umode_task, mmode_task}
use cyptos.Sched.Table.Slots.{slot_at}
use cyptos.Sched.Table.Valid.{IsValid}
use cyptos.Sched.Table.Create.{Added}
use cyptos.Sched.Spec.{spawn, machine, user}
use cyptos.Sched.Spec.Layout.{IsLaid, AllGrants}
use cyptos.Sched.Spec.Spawn.{HasRoom, with_stack, spawn-user, spawn-machine}
use cyptos.Serial.{Console}
use cyptos.Trap.Handle.{with_console}
use cyptos.Boot.{Image, spawn_idle_task, spawn_echo_task, spawn_violation_task}

-- The first free slot is the one that is free with all before it taken.
first_free :
    (make : ℕ → Task) (s : SchedulerState) (id : TaskId) (s' : SchedulerState) (d : ℕ)
    → Added make s id s'
    → slot_at s.tasks d ≡ none
    → ((j : ℕ) → j < d → slot_at s.tasks j ≢ none)
    → s'.tasks ≡ set s.tasks d (some (make d))
first_free make s id s' d (i, lt, at, free, full, eq) free_d full_d =
    let same : i ≡ d = elim (dec_lt i d) [
      | yes below ↦ absurd (full_d i below free)
      | no not_below ↦ elim (dec_lt d i) [
        | yes above ↦ absurd (full d above free_d)
        | no not_above ↦ omega (arith, not_below, not_above)
      ]
    ] in
    ap (λ s. s.tasks) eq ∙ ap (λ i. set s.tasks i (some (make i))) same

-- The current slot and the registers stay.
pub record IsSpawned (make : ℕ → Task) (bottom d : ℕ) (m m' : Machine) : Type 0 where
  pub stack : IsAligned m.allocator.next 8192 bottom
  pub heap_eq : m'.allocator ≡ record (m.allocator) { next = bottom + 8192 }
  pub tasks_eq : m'.scheduler.tasks ≡ set m.scheduler.tasks d (some (make d))
  pub current_eq : m'.scheduler.current ≡ m.scheduler.current
  pub valid : IsValid m'.scheduler
  pub csr_eq : m'.csr ≡ m.csr
  pub pmp_eq : m'.pmp ≡ m.pmp
  pub clint_eq : m'.clint ≡ m.clint

-- The machine has room for a stack, and slot `d` is the first that is free.
pub record CanSpawn (d : ℕ) (m : Machine) : Type 0 where
  pub room : HasRoom m.allocator
  pub small : m.csr.mstatus < 2 ^ 64
  pub valid : IsValid m.scheduler
  pub in_table : d < 4
  pub free : slot_at m.scheduler.tasks d ≡ none
  pub full : (j : ℕ) → j < d → slot_at m.scheduler.tasks j ≢ none

spawned_machine :
    (entry d : ℕ) (m : Machine) (k : TaskId → M (Unit {0})) (Q : Unit {0} → Machine → Type 0)
    → CanSpawn d m
    → ((id : TaskId) (m' : Machine) (bottom : ℕ)
        → IsSpawned (mmode_task entry (bottom + 8192)) bottom d m m'
        → Returns (k id m') Q)
    → Returns ((spawn (machine entry) >>= k) m) Q
spawned_machine entry d m k Q c next =
    let (id, bottom, s', e, up, added, valid) =
      spawn-machine entry m d c.room c.small c.valid c.in_table c.free in
    let (_, _, _, _, _, eq) = added in
    subst (λ r. Returns (and_then r k) Q) (sym e)
      (next id (record (with_stack bottom m) { scheduler = s' }) bottom
        (record {
          stack = up;
          heap_eq = refl;
          tasks_eq =
              first_free (mmode_task entry (bottom + 8192)) m.scheduler id s' d added c.free c.full;
          current_eq = ap {A = SchedulerState} (λ s. s.current) eq;
          valid = valid;
          csr_eq = refl;
          pmp_eq = refl;
          clint_eq = refl;
        }))

spawned_user :
    (entry code_base code_size : ℕ) (mmio : List (ℕ × ℕ)) (d : ℕ) (m : Machine)
    (k : TaskId → M (Unit {0})) (Q : Unit {0} → Machine → Type 0)
    → IsGrant (new code_base code_size flag_rx)
    → AllGrants mmio
    → length mmio ≤ 10
    → CanSpawn d m
    → ((id : TaskId) (m' : Machine) (bottom : ℕ) (regions : List PmpRegion)
        → IsLaid code_base code_size mmio bottom regions
        → IsSpawned (umode_task entry (bottom + 8192) regions) bottom d m m'
        → Returns (k id m') Q)
    → Returns ((spawn (user entry code_base code_size mmio) >>= k) m) Q
spawned_user entry code_base code_size mmio d m k Q code gs few c next =
    let (id, bottom, regions, s', e, up, laid, added, valid) =
      spawn-user entry code_base code_size mmio m d code gs few c.room c.small c.valid c.in_table
        c.free in
    let (_, _, _, _, _, eq) = added in
    subst (λ r. Returns (and_then r k) Q) (sym e)
      (next id (record (with_stack bottom m) { scheduler = s' }) bottom regions laid
        (record {
          stack = up;
          heap_eq = refl;
          tasks_eq =
              first_free (umode_task entry (bottom + 8192) regions) m.scheduler id s' d added c.free
                c.full;
          current_eq = ap {A = SchedulerState} (λ s. s.current) eq;
          valid = valid;
          csr_eq = refl;
          pmp_eq = refl;
          clint_eq = refl;
        }))

-- Printing leaves all but the console.
pub print-IsSpawned :
    {make : ℕ → Task} {bottom d : ℕ} {m m' : Machine} (k : Console)
    → IsSpawned make bottom d m m'
    → IsSpawned make bottom d m (with_console k m')
print-IsSpawned k v = record {
  stack = v.stack;
  heap_eq = v.heap_eq;
  tasks_eq = v.tasks_eq;
  current_eq = v.current_eq;
  valid = v.valid;
  csr_eq = v.csr_eq;
  pmp_eq = v.pmp_eq;
  clint_eq = v.clint_eq;
}

pub spawn_idle_task_lem :
    (image : Image) (m : Machine) (d : ℕ)
    → CanSpawn d m
    → Returns (spawn_idle_task image m) (λ _ m'.
      (bottom : ℕ) × IsSpawned (mmode_task image.idle_task_entry (bottom + 8192)) bottom d m m')
unfolding spawn_idle_task say dec
spawn_idle_task_lem image m d c =
    spawned_machine image.idle_task_entry d m _ _ c λ id m' bottom v. (bottom, print-IsSpawned _ v)

-- The regions of a user task, and the machine after its spawn.
abbrev pub UserSpawned : ℕ → Image → List (ℕ × ℕ) → ℕ → Machine → Unit {0} → Machine → Type 0
UserSpawned entry image mmio d m r m' =
    (bottom : ℕ) × (regions : List PmpRegion) × IsLaid image.user_text_start 0x1000 mmio bottom
      regions
    × IsSpawned (umode_task entry (bottom + 8192) regions) bottom d m m'

uart-IsGrant : IsGrant (new uart_base 0x1000 flag_rw)
unfolding is_power_of_two
uart-IsGrant = record {
  small = omega arith;
  legal = λ e. absurd (omega arith);
  shape = record { power = refl; least = omega arith; aligned = refl; within = omega arith };
}

pub spawn_echo_task_lem :
    (image : Image) (m : Machine) (d : ℕ)
    → IsGrant (new image.user_text_start 0x1000 flag_rx)
    → CanSpawn d m
    → Returns
        (spawn_echo_task image m)
        (UserSpawned image.user_echo_task image ((uart_base, 0x1000) ∷ []) d m)
unfolding spawn_echo_task say dec
spawn_echo_task_lem image m d code c =
    spawned_user image.user_echo_task image.user_text_start 0x1000 ((uart_base, 0x1000) ∷ []) d m _
      _ code (uart-IsGrant, tt) (omega arith) c
      λ id m' bottom regions laid v. (bottom, regions, laid, print-IsSpawned _ v)

pub spawn_violation_task_lem :
    (image : Image) (m : Machine) (d : ℕ)
    → IsGrant (new image.user_text_start 0x1000 flag_rx)
    → CanSpawn d m
    → Returns (spawn_violation_task image m) (UserSpawned image.user_violation_task image [] d m)
unfolding spawn_violation_task say dec
spawn_violation_task_lem image m d code c =
    spawned_user image.user_violation_task image.user_text_start 0x1000 [] d m _ _ code tt
      (omega arith) c λ id m' bottom regions laid v. (bottom, regions, laid, print-IsSpawned _ v)
