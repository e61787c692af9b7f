-- ===== src/System/Table.antt =====
-- One tick, seen from the whole table: empty slots stay empty, and with idle alive there is always a task to
-- switch to.
use cyptos.Prelude.{
  ℕ, ◌≡◌, refl, ◌⊎◌, inl, inr, ◌∙◌, sym, ap, Option, none, some, pair_inj, arith, true, false,
  ==_ne, ◌==◌, if◌then◌else◌,
}
use cyptos.Arch.Frame.{TrapFrame}
use cyptos.Sched.Task.{Task, TaskState, created, ready, running, dead}
use cyptos.Sched.Table.{
  SchedulerState, SwitchTarget, preempted, save_task, pick, dispatch, is_ready, state_is_ready,
  run_task,
}
use cyptos.Sched.Table.Slots.{
  slot_at, slot_at_lt, slot_at-set, is_ready_lem, Dispatched, stays, switches, dispatch-Dispatched,
}
use cyptos.Sched.Table.Valid.{IsValid, Saved, bootstrap, current, update_current-Saved}
use cyptos.Sched.Table.Steps.{Saved-slot}

-- Writing a task over a task leaves an empty slot empty.
empty_after :
    (s : SchedulerState) (i j : ℕ) (t : Task) (v : Option Task)
    → slot_at s.tasks i ≡ some t
    → slot_at s.tasks j ≡ none
    → (if j == i then v else slot_at s.tasks j) ≡ none
empty_after s i j t v at free = rw (==_ne j i (λ e. cc (at, ap (slot_at s.tasks) e))) free

Saved-empty :
    (f : Task → Task) (s s' : SchedulerState) (j : ℕ)
    → Saved f s s'
    → slot_at s.tasks j ≡ none
    → slot_at s'.tasks j ≡ none
Saved-empty f s s' j (bootstrap e same) free = rw same free
Saved-empty f s s' j (current c t e at same) free = rw same (
    slot_at-set s.tasks c j (some (f t)) (slot_at_lt s.tasks c t at)
    ∙ empty_after s c j t (some (f t)) at free)

Dispatched-empty :
    (s : SchedulerState) (r : Option (Option SwitchTarget × SchedulerState))
    (target : Option SwitchTarget) (s' : SchedulerState) (j : ℕ)
    → Dispatched s r
    → r ≡ some (target, s')
    → slot_at s.tasks j ≡ none
    → slot_at s'.tasks j ≡ none
Dispatched-empty s r target s' j (stays e off) er free =
    ap (λ q. slot_at q.tasks j) (sym (pair_inj (sym e ∙ er)).1) ∙ free
Dispatched-empty s r target s' j (switches i w _ at is e) er free =
    ap (λ q. slot_at q.tasks j) (sym (pair_inj (sym e ∙ er)).1)
    ∙ (slot_at-set s.tasks i j (some (run_task w)) (slot_at_lt s.tasks i w at)
        ∙ empty_after s i j w (some (run_task w)) at free)

-- A task that is ready or running is ready once step 1 is done.
pub preempted-ready : (a : TaskState) → (a ≡ ready) ⊎ (a ≡ running) → preempted a ≡ ready
preempted-ready created h = absurd (cc_of h)
  where
    cc_of : (created ≡ ready) ⊎ (created ≡ running) → ⊥
    cc_of (inl e) = cc
    cc_of (inr e) = cc
preempted-ready ready h = refl
preempted-ready running h = refl
preempted-ready dead h = absurd (cc_of h)
  where
    cc_of : (dead ≡ ready) ⊎ (dead ≡ running) → ⊥
    cc_of (inl e) = cc
    cc_of (inr e) = cc

Dispatched-some :
    (s : SchedulerState) (r : Option (Option SwitchTarget × SchedulerState)) (t : Task)
    → Dispatched s r
    → slot_at s.tasks 0 ≡ some t
    → t.state ≡ ready
    → (g : SwitchTarget) × (s' : SchedulerState) × (r ≡ some (some g, s'))
Dispatched-some s r t (stays e off) at is =
    let on : is_ready s.tasks 0 ≡ true = is_ready_lem s.tasks 0 t at ∙ ap state_is_ready is in
    absurd (true≢false (sym on ∙ off 0 (omega arith)))
  where
    true≢false : true ≡ false → ⊥
    true≢false e = cc
Dispatched-some s r t (switches i w _ here is' e) at is = (_, _, e)

module _ (frame : TrapFrame) (mepc mstatus : ℕ) (s : SchedulerState) (v : IsValid s) where
  pub pick-empty :
      (target : Option SwitchTarget) (s' : SchedulerState) (j : ℕ)
      → pick frame mepc mstatus s ≡ some (target, s')
      → slot_at s.tasks j ≡ none
      → slot_at s'.tasks j ≡ none
  unfolding pick
  pick-empty target s' j picked free =
      let (mid, e, saved) = update_current-Saved (save_task frame mepc mstatus) s v in
      Dispatched-empty mid (dispatch mid) target s' j (dispatch-Dispatched mid)
        (rw (e, pick) at picked) (Saved-empty (save_task frame mepc mstatus) s mid j saved free)

  -- With the task of slot 0 ready or running, there is a task to switch to.
  pub pick-some :
      (idle : Task)
      → slot_at s.tasks 0 ≡ some idle
      → (idle.state ≡ ready) ⊎ (idle.state ≡ running)
      → (g : SwitchTarget) × (s' : SchedulerState) × (pick frame mepc mstatus s ≡ some (some g, s'))
  unfolding pick
  pick-some idle at alive =
      let (mid, e, saved) = update_current-Saved (save_task frame mepc mstatus) s v in
      let (w, at_mid, _, _, st) = Saved-slot frame mepc mstatus s mid 0 idle v saved at in
      let (g, s', d) =
        Dispatched-some mid (dispatch mid) w (dispatch-Dispatched mid) at_mid
          (st ∙ preempted-ready idle.state alive) in
      (g, s', rw (e, pick) d)
