-- ===== src/Tests/Machines.antt =====
-- The theorems about the scheduler, the trap handler, the PMP, the timer, the lock and the allocator,
-- applied to concrete inputs.
use cyptos.Prelude.{ℕ, ◌+◌, ◌/◌, ◌%◌, ◌≡◌, refl, [], ◌∷◌, Option, some, arith, ◌&&◌, ltb, leb}
use cyptos.Arch.Frame.{TrapFrame}
use cyptos.Pmp.{load_task_config}
use cyptos.Pmp.Region.{napot_addr}
use cyptos.Pmp.Access.{napot_matches, store, user_permits}
use cyptos.Pmp.Napot.{napot_matches-napot_addr}
use cyptos.Pmp.Isolation.{task_permits, user_permits-load_task_config}
use cyptos.Machine.{Machine, M, done}
use cyptos.Allocator.{BumpAllocator, alloc}
use cyptos.Allocator.Blocks.{IsBlock, alloc-IsBlock}
use cyptos.Sync.{with_lock}
use cyptos.Sync.Lock.{masked, with_mstatus, with_lock_lem}
use cyptos.Sched.Table.{SwitchTarget, pick}
use cyptos.Sched.Table.Valid.{IsValid}
use cyptos.Sched.Scheduler.{schedule}
use cyptos.Sched.Scheduler.Switch.{Switched, schedule-Switched}
use cyptos.Tests.Board.{board}
use cyptos.Tests.Table.{
  frame_of, code, code-IsNapot, sample_regions, sample-IsTaskConfig, reset_regs, reset-IsOpen,
  reset-matches, sample_state, sample-IsValid, trapped,
}

-- The whole scheduler and the trap handler, on a machine that runs task 1.
schedule-Switched_example :
    (frame' : TrapFrame) × (m' : Machine) × (schedule board (frame_of 100) (trapped 8)
      ≡ done frame' m')
    × ((target : Option SwitchTarget) × (pick (frame_of 100) 0x8000_2010 0x80 sample_state
          ≡ some (target, m'.scheduler))
        × Switched board (frame_of 100) (trapped 8) frame' m' target)
    × IsValid m'.scheduler
schedule-Switched_example =
    schedule-Switched board (frame_of 100) (trapped 8) (omega arith) sample-IsValid

-- The PMP.
napot_matches-napot_addr_example :
    napot_matches (napot_addr code) 0x8000_2ffc
    ≡ (leb 0x8000_2000 0x8000_2ffc && ltb 0x8000_2ffc (0x8000_2000 + 0x1000))
napot_matches-napot_addr_example = napot_matches-napot_addr code 0x8000_2ffc code-IsNapot

user_permits-load_task_config_example :
    user_permits (load_task_config board sample_regions reset_regs) store 0x8020_1000
    ≡ task_permits sample_regions store 0x8020_1000 12 4
user_permits-load_task_config_example =
    user_permits-load_task_config board reset_regs sample_regions store 0x8020_1000 reset-IsOpen
      sample-IsTaskConfig (λ i lt. reset-matches 0x8020_1000 i)

-- The timer and the lock.

abbrev counting : M ℕ
counting m = done m.tick_count (record m { tick_count = m.tick_count + 1 })

with_lock_lem_example :
    ((masked (trapped 8)).csr.mstatus / 8 % 2 ≡ 0)
    × (with_lock counting (trapped 8)
        ≡ done 41 (with_mstatus 0x80 (record (masked (trapped 8)) { tick_count = 42 })))
with_lock_lem_example =
    with_lock_lem counting (trapped 8) (record (masked (trapped 8)) { tick_count = 42 }) 41
      (omega arith) refl refl

-- The allocator: another core takes 16 bytes between the load and the exchange.
abbrev heap : ℕ → BumpAllocator
heap next = record { heap_start = 0x8030_0000; heap_end = 0x8040_0000; next = next }

alloc-IsBlock_example : IsBlock 0x8030_0004 24 8 0x8030_0018 (heap 0x8030_0004) (heap 0x8030_0030)
unfolding alloc
alloc-IsBlock_example =
    alloc-IsBlock 0x8030_0004 24 3 61 refl (0x8030_0014 ∷ []) (heap 0x8030_0004) (heap 0x8030_0030)
      0x8030_0018 (omega arith) (omega arith) (omega arith) (omega arith, omega arith, tt) refl
