-- ===== src/System/Nearer.antt =====
-- One tick on a table in which a task waits for its turn.
use cyptos.Prelude.{
  ℕ, ◌<◌, ◌≡◌, ◌≢◌, inl, inr, ◌∙◌, sym, ap, subst, Option, some, pair_inj, arith, true,
}
use cyptos.Config.{max_tasks}
use cyptos.Arch.Frame.{TrapFrame}
use cyptos.Sched.Policy.{start_of}
use cyptos.Sched.Policy.Select.{ahead}
use cyptos.Sched.Policy.Turns.{select_progress}
use cyptos.Sched.Task.{Task, ready}
use cyptos.Sched.Table.{
  SchedulerState, SwitchTarget, pick, save_task, dispatch, is_ready, state_is_ready, preempted,
}
use cyptos.Sched.Table.Slots.{
  slot_at, slot_at_lt, is_ready_lem, Dispatched, stays, switches, dispatch-Dispatched,
}
use cyptos.Sched.Table.Valid.{IsValid, Saved, bootstrap, current, update_current-Saved}
use cyptos.Sched.Table.Steps.{Saved-slot, pick-Evolves}
use cyptos.System.Dispatch.{KeepsOthers}

-- How many slots the policy asks before `c`.
abbrev pub distance : ℕ → SchedulerState → ℕ
distance c s = ahead max_tasks (start_of max_tasks s.current) c

-- The task of slot `c` is ready, and not current.
abbrev pub Waiting : ℕ → SchedulerState → Type 0
Waiting c s = (t : Task) × (slot_at s.tasks c ≡ some t) × (t.state ≡ ready) × (s.current ≢ some c)

Saved-current : (f : Task → Task) (s s' : SchedulerState) → Saved f s s' → s'.current ≡ s.current
Saved-current f s s' (bootstrap e same) = ap {A = SchedulerState} (λ s. s.current) same
Saved-current f s s' (current c t e at same) = ap {A = SchedulerState} (λ s. s.current) same

-- A dispatch that passes over a ready task comes nearer to it.
dispatch-nearer :
    (s : SchedulerState) (r : Option (Option SwitchTarget × SchedulerState))
    (target : Option SwitchTarget) (s' : SchedulerState) (c : ℕ)
    → Dispatched s r
    → r ≡ some (target, s')
    → c ≢ 0
    → c < max_tasks
    → is_ready s.tasks c ≡ true
    → s'.current ≢ some c
    → distance c s' < distance c s
dispatch-nearer s r target s' c (stays e off) er ne lt on away = cc (off c lt, on)
dispatch-nearer s r target s' c (switches i w chosen _ _ e) er ne lt on away =
    let now : s'.current ≡ some i =
      ap {A = SchedulerState} (λ s. s.current) (pair_inj (sym er ∙ e)).1 in
    subst (λ o. ahead max_tasks (start_of max_tasks o) c < distance c s) (sym now)
      (select_progress max_tasks s.current (is_ready s.tasks) i c (omega arith) chosen lt ne on
        (λ q. away (now ∙ ap some q)))

module _ (frame : TrapFrame) (mepc mstatus : ℕ) (s : SchedulerState) (v : IsValid s) (c : ℕ)
    (ne : c ≢ 0) (waiting : Waiting c s) where
  -- So does a tick, and it leaves the task waiting.
  pub pick-nearer :
      (target : Option SwitchTarget) (s' : SchedulerState)
      → pick frame mepc mstatus s ≡ some (target, s')
      → s'.current ≢ some c
      → Waiting c s' × (distance c s' < distance c s)
  unfolding pick
  pick-nearer target s' picked away =
      let (t, at, is, _) = waiting in
      let (mid, e, saved) = update_current-Saved (save_task frame mepc mstatus) s v in
      let (w, at_mid, _, _, st) = Saved-slot frame mepc mstatus s mid c t v saved at in
      let on : is_ready mid.tasks c ≡ true =
        is_ready_lem mid.tasks c w at_mid ∙ ap state_is_ready (st ∙ ap preempted is) in
      let lt : c < max_tasks = subst (λ n. c < n) v.table.size (slot_at_lt s.tasks c t at) in
      let (u, at', ev) = pick-Evolves frame mepc mstatus s target s' c t v picked at in
      (
        (
          u,
          at',
          elim ev.state_eq [
            | inl same ↦ same ∙ ap preempted is
            | inr (_, _, now) ↦ absurd (away now)
          ],
          away,
        ),
        subst (λ o. distance c s' < ahead max_tasks (start_of max_tasks o) c)
            (Saved-current (save_task frame mepc mstatus) s mid saved)
            (dispatch-nearer mid (dispatch mid) target s' c (dispatch-Dispatched mid)
              (rw (e, pick) at picked) ne lt on away),
      )

pub others-Waiting :
    {s s' : SchedulerState} (c : ℕ)
    → KeepsOthers s s'
    → Waiting c s
    → Waiting c s' × (distance c s' ≡ distance c s)
others-Waiting c others (t, at, is, away) = (
  (t, others.kept c t away at, is, λ q. away (sym others.current_eq ∙ q)),
  ap (λ o. ahead max_tasks (start_of max_tasks o) c) others.current_eq,
)
