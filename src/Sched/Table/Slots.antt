-- ===== src/Sched/Table/Slots.antt =====
-- The task table as a map from slots to tasks, and what each step of `schedule` does to that map.
use cyptos.Prelude.{
  ℕ, ◌<◌, ◌≡◌, ◌≢◌, ◌⊎◌, inl, inr, true, false, List, Option, none, some, arith, get_elem?, set,
  length, get_elem?-set_self, get_elem?-set_ne, lt_of_get_elem?, ◌==◌, if◌then◌else◌, ℕ_discrete,
  Option-cases,
}
use cyptos.Config.{max_tasks}
use cyptos.Sched.Policy.{select_next_ready}
use cyptos.Sched.Policy.Turns.{select-IsReady, select-none_iff}
use cyptos.Sched.Task.{Task, TaskState, ready}
use cyptos.Sched.Table.{
  SchedulerState, SwitchTarget, target_of, update_slot, update_current, is_ready, state_is_ready,
  run_task, dispatch,
}

-- The task in slot `i`, if any.
abbrev pub slot_at : List (Option Task) → ℕ → Option Task
slot_at tasks i = elim (get_elem? tasks i) [ none ↦ none | some slot ↦ slot ]

pub slot_at_lt :
    (tasks : List (Option Task)) (i : ℕ) (t : Task) → slot_at tasks i ≡ some t → i < length tasks
slot_at_lt tasks i t e = elim (Option-cases (get_elem? tasks i)) [
  | inl n ↦ absurd (ground arith)
  | inr (slot, s) ↦ lt_of_get_elem? tasks i slot s
]

pub slot_at-set :
    (tasks : List (Option Task)) (i j : ℕ) (v : Option Task)
    → i < length tasks
    → slot_at (set tasks i v) j ≡ (if j == i then v else slot_at tasks j)
slot_at-set tasks i j v lt = elim (ℕ_discrete j i) [
  | yes e ↦ ground (arith, get_elem?-set_self tasks i v lt)
  | no ne ↦ ground (arith, get_elem?-set_ne tasks i j v)
]

-- A change to a task that is there.
pub update_slot-some :
    (f : Task → Task) (i : ℕ) (tasks : List (Option Task)) (t : Task)
    → slot_at tasks i ≡ some t
    → update_slot f i tasks ≡ some (set tasks i (some (f t)))
unfolding update_slot
update_slot-some f i tasks t e = ground arith

pub is_ready_lem :
    (tasks : List (Option Task)) (i : ℕ) (t : Task)
    → slot_at tasks i ≡ some t
    → is_ready tasks i ≡ state_is_ready t.state
unfolding is_ready
is_ready_lem tasks i t e = ground arith

TaskState-ready : (s : TaskState) → state_is_ready s ≡ true → s ≡ ready
TaskState-ready s h = ground arith

pub is_ready-some :
    (tasks : List (Option Task)) (i : ℕ)
    → is_ready tasks i ≡ true
    → (t : Task) × (slot_at tasks i ≡ some t) × (t.state ≡ ready)
unfolding is_ready
is_ready-some tasks i h = elim (Option-cases (slot_at tasks i)) [
  | inl n ↦ absurd (ground arith)
  | inr (t, e) ↦ (t, e, ground (arith, is_ready_lem tasks i t e, TaskState-ready t.state))
]

-- What the policy is asked about, and its answer, as a change of the map.
pub data Dispatched (s : SchedulerState) (r : Option (Option SwitchTarget × SchedulerState))
    : Type 0 where
  stays :
      r ≡ some (none, s) → ((i : ℕ) → i < max_tasks → is_ready s.tasks i ≡ false) → Dispatched s r
  switches :
      (i : ℕ) (t : Task)
      → select_next_ready max_tasks s.current (is_ready s.tasks) ≡ some i
      → slot_at s.tasks i ≡ some t
      → t.state ≡ ready
      → r
        ≡ some (
          target_of i (some t),
          record { current = some i; tasks = set s.tasks i (some (run_task t)) },
        )
      → Dispatched s r

dispatch-some :
    (s : SchedulerState) (i : ℕ) (t : Task)
    → select_next_ready max_tasks s.current (is_ready s.tasks) ≡ some i
    → slot_at s.tasks i ≡ some t
    → dispatch s
      ≡ some (
        target_of i (some t),
        record { current = some i; tasks = set s.tasks i (some (run_task t)) },
      )
unfolding dispatch
dispatch-some s i t e here = ground (
  arith,
  update_slot-some run_task i s.tasks t,
  get_elem?-set_self s.tasks i (some (run_task t)),
  slot_at_lt s.tasks i t,
)

pub dispatch-Dispatched : (s : SchedulerState) → Dispatched s (dispatch s)
unfolding dispatch
dispatch-Dispatched s =
    elim (Option-cases (select_next_ready max_tasks s.current (is_ready s.tasks))) [
      | inl e ↦
          stays (rw (e, dispatch)) (
            (select-none_iff max_tasks s.current (is_ready s.tasks) (omega arith) (omega arith)).0
              e)
      | inr (i, e) ↦
          let (_, on) =
            select-IsReady max_tasks s.current (is_ready s.tasks) (omega arith) (omega arith) i e in
          let (t, here, is) = is_ready-some s.tasks i on in
          switches i t e here is (dispatch-some s i t e here)
    ]

-- The bootstrap context is saved nowhere.
pub update_current-none :
    (f : Task → Task) (s : SchedulerState) → s.current ≡ none → update_current f s ≡ some s
unfolding update_current
update_current-none f s e = ground arith

pub update_current-some :
    (f : Task → Task) (s : SchedulerState) (c : ℕ) (t : Task)
    → s.current ≡ some c
    → slot_at s.tasks c ≡ some t
    → update_current f s ≡ some (record s { tasks = set s.tasks c (some (f t)) })
unfolding update_current
update_current-some f s c t e here = ground (arith, update_slot-some f c s.tasks t)

-- A task found after a write is the one written, or was there before.
pub slot_at-set_cases :
    (tasks : List (Option Task)) (i j : ℕ) (t u : Task)
    → i < length tasks
    → slot_at (set tasks i (some t)) j ≡ some u
    → ((j ≡ i) × (t ≡ u)) ⊎ ((j ≢ i) × (slot_at tasks j ≡ some u))
slot_at-set_cases tasks i j t u lt e = elim (ℕ_discrete j i) [
  | yes here ↦ inl (here, ground (arith, slot_at-set tasks i j (some t) lt))
  | no ne ↦ inr (ne, ground (arith, slot_at-set tasks i j (some t) lt))
]
