-- ===== src/Sched/Table/Create.antt =====
-- Creating tasks: the first free slot, and the invariant.
use cyptos.Prelude.{
  ℕ, zero, suc, ◌<◌, ◌≡◌, ◌≢◌, refl, ◌⊎◌, inl, inr, ◌∙◌, sym, ap, subst, List, [], ◌∷◌, Option,
  none, some, arith, length, set, replicate, pair_inj, u8, ℕ_discrete, ==_refl, ==_ne,
}
use cyptos.Pmp.Region.{PmpRegion, new}
use cyptos.Pmp.Load.{region_at, IsGrant, IsTaskConfig}
use cyptos.Sched.Task.{Task, TaskId, running, new_task, empty}
use cyptos.Sched.Table.{
  SchedulerState, insert_task, with_tasks, create, copy_regions, umode_task, mmode_task,
}
use cyptos.Sched.Table.Slots.{slot_at, slot_at-set, slot_at-set_cases}
use cyptos.Sched.Table.Valid.{IsTask, IsValid, set-IsTable}
use cyptos.Sched.Table.Insert.{Inserted, insert_task-Inserted, insert_task-some}

-- A new task is added in the first free slot.
abbrev pub Added : (ℕ → Task) → SchedulerState → TaskId → SchedulerState → Type 0
Added make s id s' =
    (i : ℕ) × (i < 4)
    × (id ≡ i)
    × (slot_at s.tasks i ≡ none)
    × ((j : ℕ) → j < i → slot_at s.tasks j ≢ none)
    × (s' ≡ record s { tasks = set s.tasks i (some (make i)) })

added_lem :
    (make : ℕ → Task) (s : SchedulerState) (r : Option (ℕ × List (Option Task))) (id : TaskId)
    (s' : SchedulerState)
    → length s.tasks ≡ 4
    → ((i : ℕ) (ts : List (Option Task)) → r ≡ some (i, ts) → Inserted make 0 s.tasks i ts)
    → with_tasks s r ≡ some (id, s')
    → Added make s id s'
added_lem make s none id s' size ins e = cc
added_lem make s (some (i, ts)) id s' size ins e =
    let (d, at, lt, free, full, eq) = ins i ts refl in
    let (same, state) = pair_inj e in
    let is_d : i ≡ d = omega arith in
    (
      d,
      omega arith,
      sym same ∙ omega arith,
      free,
      full,
      sym state
          ∙ ap (λ x. record s { tasks = x }) (eq ∙ ap (λ x. set s.tasks d (some (make x))) is_d),
    )

added-IsValid :
    (make : ℕ → Task) (s : SchedulerState) (i : ℕ)
    → IsValid s
    → i < 4
    → slot_at s.tasks i ≡ none
    → IsTask i (make i)
    → (make i).state ≢ running
    → IsValid (record s { tasks = set s.tasks i (some (make i)) })
added-IsValid make s i v lt free ok off =
    let lt' : i < length s.tasks = rw (v.table.size) lt in
    record {
      table = set-IsTable s.tasks i (make i) v.table lt' ok;
      current_in = λ c ec.
          let (t, here) = v.current_in c ec in
          elim (ℕ_discrete c i) [
            | yes e ↦ (make i, slot_at-set s.tasks i c _ lt' ∙ rw (e, ==_refl i) refl)
            | no ne ↦ (t, slot_at-set s.tasks i c _ lt' ∙ rw (==_ne c i ne) here)
          ];
      running_current = λ j u eu r. elim (slot_at-set_cases s.tasks i j (make i) u lt' eu) [
        | inl (_, same) ↦ absurd (off (ap (λ x. x.state) same ∙ r))
        | inr (_, old) ↦ v.running_current j u old r
      ];
    }

pub copied_at :
    (rs : List PmpRegion) (n i : ℕ)
    → i < n
    → region_at (copy_regions rs (replicate n (new 0 0 0))) i ≡ region_at rs i
unfolding copy_regions
copied_at rs zero i lt = absurd (omega arith)
copied_at [] (suc n) zero lt = refl
copied_at (r ∷ rs) (suc n) zero lt = refl
copied_at [] (suc n) (suc i) lt = copied_at [] n i (omega arith)
copied_at (r ∷ rs) (suc n) (suc i) lt = copied_at rs n i (omega arith)

umode_task-IsTask :
    (entry stack_top : ℕ) (regions : List PmpRegion) (i : ℕ)
    → IsTaskConfig regions
    → i < 4
    → IsTask i (umode_task entry stack_top regions i)
unfolding umode_task new_task empty
umode_task-IsTask entry stack_top regions i valid lt = record {
  id_eq = omega arith;
  config = λ j lo hi.
      subst (λ r. (r.size ≡ 0) ⊎ IsGrant r) (sym (copied_at regions 16 j hi)) (valid j lo hi);
}

created_state :
    (entry stack_top : ℕ) (regions : List PmpRegion) (i : ℕ)
    → (umode_task entry stack_top regions i).state ≢ running
unfolding umode_task new_task
created_state entry stack_top regions i = λ e. cc

-- A table operation that makes well-formed tasks, on a valid table with a free slot.
pub create-IsValid :
    (make : ℕ → Task) (s : SchedulerState) (d : ℕ)
    → ((i : ℕ) → i < 4 → IsTask i (make i))
    → ((i : ℕ) → (make i).state ≢ running)
    → IsValid s
    → d < 4
    → slot_at s.tasks d ≡ none
    → (id : TaskId) × (s' : SchedulerState) × (create make s ≡ some (id, s'))
      × Added make s id s'
      × IsValid s'
unfolding create
create-IsValid make s d ok off v in_table free_d =
    let ((idx, ts), q) =
      insert_task-some make 0 s.tasks d (subst (λ n. d < n) (sym v.table.size) in_table) free_d in
    let made : create make s ≡ some (u8 idx, record s { tasks = ts }) = ap (with_tasks s) q in
    let (i, lt, same, free, full, eq) =
      added_lem make s (insert_task make 0 s.tasks) (u8 idx) (record s { tasks = ts }) v.table.size
        (insert_task-Inserted make 0 s.tasks) made in
    (
      u8 idx,
      record s { tasks = ts },
      made,
      (i, lt, same, free, full, eq),
      subst IsValid (sym eq) (added-IsValid make s i v lt free (ok i lt) (off i)),
    )

mmode_task-IsTask : (entry stack_top : ℕ) (i : ℕ) → i < 4 → IsTask i (mmode_task entry stack_top i)
unfolding mmode_task new_task empty copy_regions
mmode_task-IsTask entry stack_top i lt = record {
  id_eq = omega arith;
  config = λ j lo hi. inl (ap (λ r. r.size) (copied_at [] 16 j hi));
}

mmode_state : (entry stack_top i : ℕ) → (mmode_task entry stack_top i).state ≢ running
unfolding mmode_task new_task
mmode_state entry stack_top i = λ e. cc

-- For a task whose regions are off or NAPOT grants, on a valid table with a free slot: `create_task` does
-- not panic, puts the task in the first free slot, returns that slot's number, changes nothing else, and
-- leaves a valid table.
pub create-umode_task :
    (entry stack_top : ℕ) (regions : List PmpRegion) (s : SchedulerState) (d : ℕ)
    → IsTaskConfig regions
    → IsValid s
    → d < 4
    → slot_at s.tasks d ≡ none
    → (id : TaskId) × (s' : SchedulerState) × (create (umode_task entry stack_top regions) s
        ≡ some (id, s'))
      × Added (umode_task entry stack_top regions) s id s'
      × IsValid s'
create-umode_task entry stack_top regions s d valid v in_table free =
    create-IsValid (umode_task entry stack_top regions) s d
      (λ i. umode_task-IsTask entry stack_top regions i valid)
      (created_state entry stack_top regions) v in_table free

pub create-mmode_task :
    (entry stack_top : ℕ) (s : SchedulerState) (d : ℕ)
    → IsValid s
    → d < 4
    → slot_at s.tasks d ≡ none
    → (id : TaskId) × (s' : SchedulerState) × (create (mmode_task entry stack_top) s
        ≡ some (id, s'))
      × Added (mmode_task entry stack_top) s id s'
      × IsValid s'
create-mmode_task entry stack_top s d =
    create-IsValid (mmode_task entry stack_top) s d (mmode_task-IsTask entry stack_top)
      (mmode_state entry stack_top)
