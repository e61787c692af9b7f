-- ===== src/Tests/Tables.antt =====
-- The theorems about the policy and the task table, applied to concrete inputs.
use cyptos.Prelude.{
  ℕ, ◌<◌, ◌≡◌, refl, ◌≢◌, ◌↔◌, Bool, true, false, [], ◌∷◌, Option, none, some, arith, ◌==◌, ◌||◌,
}
use cyptos.Arch.Frame.{copy_to_frame}
use cyptos.Sched.Policy.{select_next_ready}
use cyptos.Sched.Policy.Turns.{select_next_ready_lem, turns, turns-serve, Chosen}
use cyptos.Sched.Task.{ready}
use cyptos.Sched.Table.{SchedulerState, SwitchTarget, pick}
use cyptos.Sched.Table.Life.{arrived, preempt-resume}
use cyptos.Tests.Table.{frame_of, task_in, sample_state, sample-IsValid}

-- The policy, on four slots of which 1 and 2 are ready.
abbrev two_ready : ℕ → Bool
two_ready i = i == 1 || i == 2

select_next_ready_lem_example :
    ((idx : ℕ)
      → select_next_ready 4 (some 1) two_ready ≡ some idx
      → (idx < 4) × (two_ready idx ≡ true))
    × ((select_next_ready 4 (some 1) two_ready ≡ none) ↔ ((i : ℕ) → i < 4 → two_ready i ≡ false))
    × ((select_next_ready 4 (some 1) two_ready ≡ some 0)
        ↔ ((two_ready 0 ≡ true) × ((i : ℕ) → i < 4 → i ≢ 0 → two_ready i ≡ false)))
select_next_ready_lem_example =
    select_next_ready_lem 4 (some 1) two_ready (omega arith) (omega arith)

turns-serve_example :
    Chosen 2 (turns 4 (some 2) (two_ready ∷ two_ready ∷ two_ready ∷ two_ready ∷ []))
turns-serve_example =
    turns-serve 4 (some 2) (two_ready ∷ two_ready ∷ two_ready ∷ two_ready ∷ []) 2 (omega arith)
      (omega arith) (λ e. absurd (omega arith)) (refl, (refl, (refl, (refl, tt)))) (omega arith)

-- The task table.
abbrev target_after : Option (Option SwitchTarget × SchedulerState) → Option SwitchTarget
target_after none = none
target_after (some (target, s)) = target

abbrev state_after : Option (Option SwitchTarget × SchedulerState) → SchedulerState
state_after none = sample_state
state_after (some (target, s)) = s

abbrev first_tick : Option (Option SwitchTarget × SchedulerState)
first_tick = pick (frame_of 100) 0x8000_2040 0x80 sample_state

-- Task 1 is preempted, task 2 runs, and the second tick returns to task 1.
abbrev second_tick : Option (Option SwitchTarget × SchedulerState)
second_tick = pick (frame_of 500) 0x8000_2080 0x80 (state_after first_tick)

abbrev resumed : Option SwitchTarget → SwitchTarget
resumed (some target) = target
resumed none = record { next_idx = 0; pmp_regions = []; context = (task_in 0 ready).context }

preempt-resume_example :
    (copy_to_frame (resumed (target_after second_tick)).context (frame_of 500) ≡ frame_of 100)
    × ((resumed (target_after second_tick)).context.mepc ≡ 0x8000_2040)
    × ((resumed (target_after second_tick)).context.mstatus ≡ 0x80)
unfolding pick select_next_ready
preempt-resume_example =
    preempt-resume (frame_of 100) 0x8000_2040 0x80 sample_state (state_after first_tick)
      (state_after first_tick) (state_after second_tick) 1 (target_after first_tick) (frame_of 500)
      0x8000_2080 0x80 (resumed (target_after second_tick)) (frame_of 500) sample-IsValid refl refl
      (λ e. cc) arrived (λ e. cc) refl refl
