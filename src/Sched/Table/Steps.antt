-- ===== src/Sched/Table/Steps.antt =====
-- What the operations on the table do to the invariant, and to each task.
use cyptos.Prelude.{
  ==_refl, ==_ne, some_inj, pair_inj, ℕ, ◌<◌, ◌≡◌, refl, ◌≢◌, ◌⊎◌, inl, inr, ◌∙◌, ap, sym, subst,
  Option, none, some, arith, length, ◌==◌, if◌then◌else◌, ℕ_discrete,
}
use cyptos.Arch.Frame.{TrapFrame, TaskContext, copy_to_context}
use cyptos.Sched.Task.{Task, TaskState, created, ready, running, dead}
use cyptos.Sched.Table.{
  SchedulerState, SwitchTarget, preempted, run_task, dispatch, save_task, pick,
}
use cyptos.Sched.Table.Slots.{
  slot_at, slot_at_lt, slot_at-set, Dispatched, stays, switches, dispatch-Dispatched,
}
use cyptos.Sched.Table.Valid.{
  IsValid, Saved, bootstrap, current, update_current-Saved, Saved-IsSaved, Dispatched-IsValid,
  save_task-IsTask, save_task-ne-running,
}

-- On a valid table the locked region of `schedule` does not panic, and leaves a valid table.
pub pick-IsValid :
    (frame : TrapFrame) (mepc mstatus : ℕ) (s : SchedulerState)
    → IsValid s
    → (target : Option SwitchTarget) × (s' : SchedulerState) × (pick frame mepc mstatus s
        ≡ some (target, s'))
      × IsValid s'
unfolding pick
pick-IsValid frame mepc mstatus s v =
    let (s', e, saved) = update_current-Saved (save_task frame mepc mstatus) s v in
    let is_saved =
      Saved-IsSaved (save_task frame mepc mstatus) s s' (save_task-IsTask frame mepc mstatus)
        (save_task-ne-running frame mepc mstatus) v saved in
    let (target, s'', d, valid) =
      Dispatched-IsValid s' (dispatch s') is_saved (dispatch-Dispatched s') in
    (target, s'', rw (e, pick) d, valid)

-- What the tick `frame, mepc, mstatus` makes of the context in slot `j`: the interrupted task's is
-- the machine state that it was interrupted in.
abbrev pub saved_context : TrapFrame → ℕ → ℕ → TaskContext → TaskContext
saved_context frame mepc mstatus ctx = record (copy_to_context frame ctx) {
  mepc = mepc;
  mstatus = mstatus;
}

abbrev pub context_after : TrapFrame → ℕ → ℕ → Option ℕ → ℕ → TaskContext → TaskContext
context_after frame mepc mstatus none j ctx = ctx
context_after frame mepc mstatus (some c) j ctx =
    if c == j then saved_context frame mepc mstatus ctx else ctx

-- The task in slot `j` before and after a tick that ends with `now` as the current slot: a Running task
-- becomes Ready, and the one selected, which was Ready by then, becomes Running.
pub record Evolves (frame : TrapFrame) (mepc mstatus : ℕ) (before now : Option ℕ) (j : ℕ)
    (t u : Task) : Type 0 where
  pub context_eq : u.context ≡ context_after frame mepc mstatus before j t.context
  pub config_eq : u.pmp_config ≡ t.pmp_config
  pub state_eq :
      (u.state ≡ preempted t.state)
      ⊎ ((preempted t.state ≡ ready) × (u.state ≡ running) × (now ≡ some j))

preempted_of_ne : (a : TaskState) → a ≢ running → a ≡ preempted a
preempted_of_ne created h = refl
preempted_of_ne ready h = refl
preempted_of_ne running h = absurd (h refl)
preempted_of_ne dead h = refl

module _ (frame : TrapFrame) (mepc mstatus : ℕ) where
  -- Step 1, seen from slot `j`.
  abbrev pub SavedSlot : SchedulerState → SchedulerState → ℕ → Task → Type 0
  SavedSlot s s' j t =
      (u : Task) × (slot_at s'.tasks j ≡ some u)
      × (u.context ≡ context_after frame mepc mstatus s.current j t.context)
      × (u.pmp_config ≡ t.pmp_config)
      × (u.state ≡ preempted t.state)

  pub context_after_self :
      (c : ℕ) (before : Option ℕ) (ctx : TaskContext)
      → before ≡ some c
      → saved_context frame mepc mstatus ctx ≡ context_after frame mepc mstatus before c ctx
  context_after_self c before ctx e = rw (e, ==_refl c)

  pub context_after_other :
      (c j : ℕ) (before : Option ℕ) (ctx : TaskContext)
      → before ≡ some c
      → j ≢ c
      → ctx ≡ context_after frame mepc mstatus before j ctx
  context_after_other c j before ctx e ne = rw (e, ==_ne c j (λ q. ne (sym q)))

  pub Saved-slot :
      (s s' : SchedulerState) (j : ℕ) (t : Task)
      → IsValid s
      → Saved (save_task frame mepc mstatus) s s'
      → slot_at s.tasks j ≡ some t
      → SavedSlot s s' j t
  unfolding save_task
  Saved-slot s s' j t v (bootstrap e same) at = (
    t,
    rw same at,
    rw e refl,
    refl,
    preempted_of_ne t.state (λ r. absurd (ground (arith, v.running_current j t at r))),
  )
  Saved-slot s s' j t v (current c w e here same) at = elim (ℕ_discrete j c) [
    | yes is ↦
        let w_is_t : some w ≡ some t = sym here ∙ (ap (slot_at s.tasks) (sym is) ∙ at) in
        subst (SavedSlot s s' j) (some_inj w_is_t) (
          subst (λ k. SavedSlot s s' k w) (sym is)
            (
              save_task frame mepc mstatus w,
              rw same (slot_at-set s.tasks c c _ lt ∙ rw (==_refl c)),
              context_after_self c s.current w.context e,
              refl,
              refl,
            ))
    | no ne ↦ (
      t,
      rw same (slot_at-set s.tasks c j _ lt ∙ rw (==_ne j c ne) at),
      context_after_other c j s.current t.context e ne,
      refl,
      preempted_of_ne t.state (λ r. ne (some_inj (sym (v.running_current j t at r) ∙ e))),
    )
  ]
    where
      lt : c < length s.tasks
      lt = slot_at_lt s.tasks c w here

  Dispatched-slot :
      (s : SchedulerState) (r : Option (Option SwitchTarget × SchedulerState))
      (target : Option SwitchTarget) (s' : SchedulerState) (j : ℕ) (t : Task)
      → Dispatched s r
      → r ≡ some (target, s')
      → slot_at s.tasks j ≡ some t
      → (u : Task) × (slot_at s'.tasks j ≡ some u)
        × (u.context ≡ t.context)
        × (u.pmp_config ≡ t.pmp_config)
        × ((u.state ≡ t.state) ⊎ ((t.state ≡ ready) × (u.state ≡ running) × (s'.current ≡ some j)))
  Dispatched-slot s r target s' j t (stays e off) er at =
      let same = (pair_inj (sym e ∙ er)).1 in
      (t, ap (λ q. slot_at q.tasks j) (sym same) ∙ at, refl, refl, inl refl)
  Dispatched-slot s r target s' j t (switches i w _ here is e) er at =
      let same = (pair_inj (sym e ∙ er)).1 in
      let lt = slot_at_lt s.tasks i w here in
      let moved : slot_at s'.tasks j ≡ (if j == i then some (run_task w) else slot_at s.tasks j) =
        ap (λ q. slot_at q.tasks j) (sym same) ∙ slot_at-set s.tasks i j (some (run_task w)) lt in
      elim (ℕ_discrete j i) [
        | yes eq ↦
            let w_is_t = some_inj (sym here ∙ (ap (slot_at s.tasks) (sym eq) ∙ at)) in
            (
              run_task w,
              moved ∙ rw (eq, ==_refl i),
              ap (λ x. x.context) w_is_t,
              ap (λ x. x.pmp_config) w_is_t,
              inr (
                ap (λ x. x.state) (sym w_is_t) ∙ is,
                refl,
                ap (λ q. q.current) (sym same) ∙ ap some (sym eq),
              ),
            )
        | no ne ↦ (t, moved ∙ rw (==_ne j i ne) at, refl, refl, inl refl)
      ]

  -- One tick on a valid table, for the task in any slot: its context is kept, or replaced by the interrupted machine
  -- state if it was the current one; its PMP configuration is kept; and its state moves as `Evolves`
  -- says.
  pub pick-Evolves :
      (s : SchedulerState) (target : Option SwitchTarget) (s' : SchedulerState) (j : ℕ) (t : Task)
      → IsValid s
      → pick frame mepc mstatus s ≡ some (target, s')
      → slot_at s.tasks j ≡ some t
      → (u : Task) × (slot_at s'.tasks j ≡ some u)
        × Evolves frame mepc mstatus s.current s'.current j t u
  unfolding pick
  pick-Evolves s target s' j t v picked at =
      let (mid, e, saved) = update_current-Saved (save_task frame mepc mstatus) s v in
      let (w, at_mid, ctx, conf, st) = Saved-slot s mid j t v saved at in
      let d : dispatch mid ≡ some (target, s') = rw (e, pick) at picked in
      let (u, at_end, ctx', conf', st') =
        Dispatched-slot mid (dispatch mid) target s' j w (dispatch-Dispatched mid) d at_mid in
      (
        u,
        at_end,
        record {
          context_eq = ctx' ∙ ctx;
          config_eq = conf' ∙ conf;
          state_eq = elim st' [
            | inl q ↦ inl (q ∙ st)
            | inr (was, now, cur) ↦ inr (sym st ∙ was, now, cur)
          ];
        },
      )
