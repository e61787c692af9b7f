-- ===== src/Sched/Spec/Spawn.antt =====
-- `spawn` of a user task: its stack, its PMP regions, its slot.
use cyptos.Prelude.{
  ℕ, ◌+◌, ◌^◌, ◌<◌, ◌≤◌, ◌≡◌, refl, ◌∙◌, ap, arith, List, none, some, length, u64, is_power_of_two,
}
use cyptos.Pmp.Region.{PmpRegion, new, flag_rx, flag_rw}
use cyptos.Pmp.Load.{IsGrant}
use cyptos.Allocator.{BumpAllocator}
use cyptos.Allocator.Blocks.{IsAligned}
use cyptos.Allocator.Room.{alloc-exact}
use cyptos.Machine.{Machine, done, and_then, bind_done, pure}
use cyptos.Sched.Task.{Task, TaskId, build}
use cyptos.Sync.Lock.{masked, with_lock_lem}
use cyptos.Sched.Table.{SchedulerState, create, umode_task, mmode_task}
use cyptos.Sched.Table.Slots.{slot_at}
use cyptos.Sched.Table.Valid.{IsValid}
use cyptos.Sched.Table.Create.{Added, create-umode_task, create-mmode_task}
use cyptos.Sched.Scheduler.{on_scheduler, create_task, create_task_mmode}
use cyptos.Sched.Spec.{
  u_mode, m_mode, machine, expect, task_builder, alloc_task_stack, register, spawn, user, allocate,
}
use cyptos.Sched.Spec.Layout.{AllGrants, IsLaid, task_builder-IsLaid}

-- Room on the heap for one more stack.
pub record HasRoom (a : BumpAllocator) : Type 0 where
  pub before_end : a.next + 16384 ≤ a.heap_end
  pub within : a.heap_end < 2 ^ 55

abbrev pub with_stack : ℕ → Machine → Machine
with_stack bottom m = record m { allocator = record (m.allocator) { next = bottom + 8192 } }

pub alloc_task_stack_lem :
    (m : Machine)
    → HasRoom m.allocator
    → (bottom : ℕ) × (alloc_task_stack m ≡ done (bottom, bottom + 8192) (with_stack bottom m))
      × IsAligned m.allocator.next 8192 bottom
unfolding alloc_task_stack allocate
alloc_task_stack_lem m h =
    let (p, up, got, _) =
      alloc-exact 8192 13 51 m.allocator refl (omega (arith, h.before_end))
        (omega (arith, h.within)) in
    let found = got (omega (arith, up.near, h.before_end)) in
    let sum : u64 (p + 8192) ≡ p + 8192 = omega (arith, up.near, h.before_end, h.within) in
    (
      p,
      ap (λ r. and_then (expect r.0 (record m { allocator = r.1 })) (λ q. pure (q, u64 (q + 8192))))
            found
          ∙ ap (λ top. done (p, top) (with_stack p m)) sum,
      up,
    )

stack-IsGrant :
    (m : Machine) (bottom : ℕ)
    → HasRoom m.allocator
    → IsAligned m.allocator.next 8192 bottom
    → IsGrant (new bottom 8192 flag_rw)
unfolding is_power_of_two
stack-IsGrant m bottom h up = record {
  small = omega arith;
  legal = λ e. absurd (omega arith);
  shape = record {
    power = refl;
    least = omega arith;
    aligned = up.multiple;
    within = omega (arith, up.near, h.before_end, h.within);
  };
}

created_lem :
    (make : ℕ → Task) (m : Machine) (id : TaskId) (s' : SchedulerState)
    → create make m.scheduler ≡ some (id, s')
    → on_scheduler (create make) m ≡ done id (record m { scheduler = s' })
created_lem make m id s' e = rw (e, on_scheduler)

-- With mstatus below 2 ^ 64, a valid table with a free slot and room on the heap: for code and MMIO ranges
-- that are grants, at most ten of the latter, `spawn` returns; the stack is the next free aligned 8192 bytes,
-- the regions are the code, the stack and the MMIO ranges in order, the task starts at `entry` with its sp
-- at the stack's top in the first free slot, the table is valid, and nothing else changes.
pub spawn-user :
    (entry code_base code_size : ℕ) (mmio : List (ℕ × ℕ)) (m : Machine) (d : ℕ)
    → IsGrant (new code_base code_size flag_rx)
    → AllGrants mmio
    → length mmio ≤ 10
    → HasRoom m.allocator
    → m.csr.mstatus < 2 ^ 64
    → IsValid m.scheduler
    → d < 4
    → slot_at m.scheduler.tasks d ≡ none
    → (id : TaskId) × (bottom : ℕ) × (regions : List PmpRegion) × (s' : SchedulerState) × (spawn
          (user entry code_base code_size mmio)
          m
        ≡ done id (record (with_stack bottom m) { scheduler = s' }))
      × IsAligned m.allocator.next 8192 bottom
      × IsLaid code_base code_size mmio bottom regions
      × Added (umode_task entry (bottom + 8192) regions) m.scheduler id s'
      × IsValid s'
unfolding spawn register create_task
spawn-user entry code_base code_size mmio m d code gs few room small v in_table free =
    let (bottom, stack, up) = alloc_task_stack_lem m room in
    let m1 = with_stack bottom m in
    let (b, built, laid) =
      task_builder-IsLaid code_base code_size mmio bottom m1 code gs few
        (stack-IsGrant m bottom room up) in
    let make = umode_task entry (bottom + 8192) (build b).regions in
    let (id, s', e, added, valid) =
      create-umode_task entry (bottom + 8192) (build b).regions m1.scheduler d laid.valid v in_table
        free in
    let (_, unlocked) =
      with_lock_lem (on_scheduler (create make)) m1 (record (masked m1) { scheduler = s' }) id small
        (created_lem make (masked m1) id s' e) refl in
    (
      id,
      bottom,
      (build b).regions,
      s',
      bind_done alloc_task_stack
            (λ (bottom, top). register entry (u_mode code_base code_size mmio) bottom top) m m1
            (bottom, bottom + 8192) stack
          ∙ (bind_done (task_builder code_base code_size mmio bottom)
                (λ b. create_task entry (bottom + 8192) (build b).regions) m1 m1 b built
              ∙ unlocked),
      up,
      laid,
      added,
      valid,
    )

-- The same for a machine-mode task, which has no regions.
pub spawn-machine :
    (entry : ℕ) (m : Machine) (d : ℕ)
    → HasRoom m.allocator
    → m.csr.mstatus < 2 ^ 64
    → IsValid m.scheduler
    → d < 4
    → slot_at m.scheduler.tasks d ≡ none
    → (id : TaskId) × (bottom : ℕ) × (s' : SchedulerState) × (spawn (machine entry) m
        ≡ done id (record (with_stack bottom m) { scheduler = s' }))
      × IsAligned m.allocator.next 8192 bottom
      × Added (mmode_task entry (bottom + 8192)) m.scheduler id s'
      × IsValid s'
unfolding spawn register create_task_mmode
spawn-machine entry m d room small v in_table free =
    let (bottom, stack, up) = alloc_task_stack_lem m room in
    let m1 = with_stack bottom m in
    let make = mmode_task entry (bottom + 8192) in
    let (id, s', e, added, valid) =
      create-mmode_task entry (bottom + 8192) m1.scheduler d v in_table free in
    let (_, unlocked) =
      with_lock_lem (on_scheduler (create make)) m1 (record (masked m1) { scheduler = s' }) id small
        (created_lem make (masked m1) id s' e) refl in
    (
      id,
      bottom,
      s',
      bind_done alloc_task_stack (λ (bottom, top). register entry m_mode bottom top) m m1
            (bottom, bottom + 8192) stack
          ∙ unlocked,
      up,
      added,
      valid,
    )
