-- ===== src/Sched/Table/Life.antt =====
-- A task over many ticks: what it finds when it runs again, and that a dead one does not.
use mathlib.Core.Path.{subst₂}
use cyptos.Prelude.{
  ℕ, ◌≡◌, refl, ◌≢◌, ◌⊎◌, inl, inr, ◌∙◌, ap, sym, subst, Option, none, some, some_inj, pair_inj,
  ==_refl, ==_ne,
}
use cyptos.Arch.Frame.{TrapFrame, TaskContext, copy_to_frame, copy_to_context}
use cyptos.Sched.Task.{Task, TaskState, ready, running, dead}
use cyptos.Sched.Table.{
  SchedulerState, SwitchTarget, run_task, dispatch, preempted, save_task, pick,
}
use cyptos.Sched.Table.Slots.{
  slot_at, slot_at_lt, slot_at-set, Dispatched, stays, switches, dispatch-Dispatched,
}
use cyptos.Sched.Table.Valid.{IsValid, update_current-Saved}
use cyptos.Sched.Table.Steps.{
  saved_context, context_after, pick-Evolves, pick-IsValid, context_after_self,
}

-- The target handed out is the task that is current and Running from now on.
pub record IsTarget (target : SwitchTarget) (s' : SchedulerState) : Type 0 where
  pub task : Task
  pub current_eq : s'.current ≡ some target.next_idx
  pub here : slot_at s'.tasks target.next_idx ≡ some task
  pub runs : task.state ≡ running
  pub context_eq : target.context ≡ task.context
  pub regions_eq : target.pmp_regions ≡ task.pmp_config.regions

Dispatched-IsTarget :
    (s : SchedulerState) (r : Option (Option SwitchTarget × SchedulerState)) (target : SwitchTarget)
    (s' : SchedulerState)
    → Dispatched s r
    → r ≡ some (some target, s')
    → IsTarget target s'
Dispatched-IsTarget s r target s' (stays e off) er = absurd (none≢some (pair_inj (sym e ∙ er)).0)
  where
    none≢some : none ≡ some target → ⊥
    none≢some q = cc
Dispatched-IsTarget s r target s' (switches i w _ here is e) er =
    let (qt, qs) = pair_inj (sym e ∙ er) in
    let lt = slot_at_lt s.tasks i w here in
    subst₂ IsTarget (some_inj qt) qs (record {
      task = run_task w;
      current_eq = refl;
      here = slot_at-set s.tasks i i (some (run_task w)) lt ∙ rw (==_refl i);
      runs = refl;
      context_eq = refl;
      regions_eq = refl;
    })

pub pick-IsTarget :
    (frame : TrapFrame) (mepc mstatus : ℕ) (s : SchedulerState) (target : SwitchTarget)
    (s' : SchedulerState)
    → IsValid s
    → pick frame mepc mstatus s ≡ some (some target, s')
    → IsTarget target s'
unfolding pick
pick-IsTarget frame mepc mstatus s target s' v picked =
    let (mid, e, saved) = update_current-Saved (save_task frame mepc mstatus) s v in
    Dispatched-IsTarget mid (dispatch mid) target s' (dispatch-Dispatched mid)
      (rw (e, pick) at picked)

-- The next state of the table is valid.
pub next-IsValid :
    (frame : TrapFrame) (mepc mstatus : ℕ) (s : SchedulerState) (target : Option SwitchTarget)
    (s' : SchedulerState)
    → IsValid s
    → pick frame mepc mstatus s ≡ some (target, s')
    → IsValid s'
next-IsValid frame mepc mstatus s target s' v e =
    let (_, _, q, valid) = pick-IsValid frame mepc mstatus s v in
    subst IsValid ((pair_inj (sym q ∙ e)).1) valid

-- In a valid table, a task that is dead is dead after a tick, and is not the one switched to.
pub dead-stays :
    (frame : TrapFrame) (mepc mstatus : ℕ) (s : SchedulerState) (target : Option SwitchTarget)
    (s' : SchedulerState) (j : ℕ) (t : Task)
    → IsValid s
    → pick frame mepc mstatus s ≡ some (target, s')
    → slot_at s.tasks j ≡ some t
    → t.state ≡ dead
    → ((u : Task) × (slot_at s'.tasks j ≡ some u) × (u.state ≡ dead))
      × ((g : SwitchTarget) → target ≡ some g → g.next_idx ≢ j)
dead-stays frame mepc mstatus s target s' j t v picked at is_dead =
    let (u, at', ev) = pick-Evolves frame mepc mstatus s target s' j t v picked at in
    let still : u.state ≡ dead = still_dead t.state u.state is_dead ev.state_eq in
    (
      (u, at', still),
      λ g eg is_j.
          let tg = pick-IsTarget frame mepc mstatus s g s' v (picked ∙ ap (λ x. some (x, s')) eg) in
          let same = some_inj (sym (ap (slot_at s'.tasks) is_j ∙ at') ∙ tg.here) in
          dead≢running (sym still ∙ (ap (λ x. x.state) same ∙ tg.runs)),
    )
  where
    dead≢running : dead ≡ running → ⊥
    dead≢running e = cc

    still_dead :
        {C : Type 0} (a b : TaskState)
        → a ≡ dead
        → (b ≡ preempted a) ⊎ ((preempted a ≡ ready) × (b ≡ running) × C)
        → b ≡ dead
    still_dead a b e (inl q) = q ∙ ap preempted e
    still_dead a b e (inr (q, _, _)) = let clash = sym q ∙ ap preempted e in cc

-- Any number of ticks while another task is the current one.
pub data Waits (j : ℕ) : SchedulerState → SchedulerState → Type 0 where
  arrived : {s : SchedulerState} → Waits j s s
  tick :
      {s s' s'' : SchedulerState} (frame : TrapFrame) (mepc mstatus : ℕ)
      (target : Option SwitchTarget)
      → s.current ≢ some j
      → pick frame mepc mstatus s ≡ some (target, s')
      → Waits j s' s''
      → Waits j s s''

-- Off the current slot a tick keeps the context.
context_after_off :
    (frame : TrapFrame) (mepc mstatus : ℕ) (before : Option ℕ) (j : ℕ) (ctx : TaskContext)
    → before ≢ some j
    → context_after frame mepc mstatus before j ctx ≡ ctx
context_after_off frame mepc mstatus none j ctx h = refl
context_after_off frame mepc mstatus (some c) j ctx h = rw (==_ne c j (λ e. h (ap some e)))

off-context :
    (frame : TrapFrame) (mepc mstatus : ℕ) (s : SchedulerState) (target : Option SwitchTarget)
    (s' : SchedulerState) (j : ℕ) (t : Task)
    → IsValid s
    → pick frame mepc mstatus s ≡ some (target, s')
    → slot_at s.tasks j ≡ some t
    → s.current ≢ some j
    → (u : Task) × (slot_at s'.tasks j ≡ some u) × (u.context ≡ t.context)
off-context frame mepc mstatus s target s' j t v e at off =
    let (u, at', ev) = pick-Evolves frame mepc mstatus s target s' j t v e at in
    (u, at', ev.context_eq ∙ context_after_off frame mepc mstatus s.current j t.context off)

Waits-IsValid : {j : ℕ} {s s' : SchedulerState} → Waits j s s' → IsValid s → IsValid s'
Waits-IsValid arrived v = v
Waits-IsValid (tick {s} {s'} frame mepc mstatus target off e rest) v =
    Waits-IsValid rest (next-IsValid frame mepc mstatus s target s' v e)

Waits-context :
    {j : ℕ} {s s' : SchedulerState} (t : Task)
    → Waits j s s'
    → IsValid s
    → slot_at s.tasks j ≡ some t
    → (u : Task) × (slot_at s'.tasks j ≡ some u) × (u.context ≡ t.context)
Waits-context t arrived v at = (t, at, refl)
Waits-context {j} t (tick {s} {s'} frame mepc mstatus target off e rest) v at =
    let (u, at', same) = off-context frame mepc mstatus s target s' j t v e at off in
    let (w, at'', same') =
      Waits-context u rest (next-IsValid frame mepc mstatus s target s' v e) at' in
    (w, at'', same' ∙ same)

-- The context that a switch to slot `j` loads is the one stored there, if `j` was not current.
off-target :
    (frame : TrapFrame) (mepc mstatus : ℕ) (s : SchedulerState) (target : SwitchTarget)
    (s' : SchedulerState) (j : ℕ) (t : Task)
    → IsValid s
    → pick frame mepc mstatus s ≡ some (some target, s')
    → slot_at s.tasks j ≡ some t
    → s.current ≢ some j
    → target.next_idx ≡ j
    → target.context ≡ t.context
off-target frame mepc mstatus s target s' j t v e at off is_j =
    let tg = pick-IsTarget frame mepc mstatus s target s' v e in
    let (u, at', same) = off-context frame mepc mstatus s (some target) s' j t v e at off in
    let same_task = some_inj (sym (ap (slot_at s'.tasks) is_j ∙ at') ∙ tg.here) in
    tg.context_eq ∙ (ap (λ x. x.context) (sym same_task) ∙ same)

back :
    (frame other : TrapFrame) (mepc mstatus : ℕ) (ctx : TaskContext)
    → copy_to_frame (saved_context frame mepc mstatus ctx) other ≡ frame
unfolding copy_to_frame copy_to_context
back frame other mepc mstatus ctx = refl

-- In a valid table, a task that is preempted and that another task replaces gets back, when it is next switched to
-- after any number of ticks, exactly the registers, mepc and mstatus that it was interrupted with.
pub preempt-resume :
    (frame : TrapFrame) (mepc mstatus : ℕ) (s s1 s2 s3 : SchedulerState) (j : ℕ)
    (x : Option SwitchTarget) (frame' : TrapFrame) (mepc' mstatus' : ℕ) (target : SwitchTarget)
    (other : TrapFrame)
    → IsValid s
    → s.current ≡ some j
    → pick frame mepc mstatus s ≡ some (x, s1)
    → s1.current ≢ some j
    → Waits j s1 s2
    → s2.current ≢ some j
    → pick frame' mepc' mstatus' s2 ≡ some (some target, s3)
    → target.next_idx ≡ j
    → (copy_to_frame target.context other ≡ frame)
      × (target.context.mepc ≡ mepc)
      × (target.context.mstatus ≡ mstatus)
preempt-resume frame mepc mstatus s s1 s2 s3 j x frame' mepc' mstatus' target other v cur e1 away w
      off e2 is_j =
    let (t, at) = v.current_in j cur in
    let (u, at1, ev) = pick-Evolves frame mepc mstatus s x s1 j t v e1 at in
    let v1 = next-IsValid frame mepc mstatus s x s1 v e1 in
    let (r, at2, same) = Waits-context u w v1 at1 in
    let got =
      off-target frame' mepc' mstatus' s2 target s3 j r (Waits-IsValid w v1) e2 at2 off is_j in
    let stored : target.context ≡ saved_context frame mepc mstatus t.context =
      got
      ∙ (same
          ∙ (ev.context_eq
              ∙ sym (context_after_self frame mepc mstatus j s.current t.context cur))) in
    (
      ap (λ c. copy_to_frame c other) stored ∙ back frame other mepc mstatus t.context,
      ap (λ c. c.mepc) stored,
      ap (λ c. c.mstatus) stored,
    )
