-- ===== src/Sched/Table/Start.antt =====
-- `init` of the scheduler: the Created tasks become Ready.
use cyptos.Prelude.{
  ℕ, zero, suc, ◌≡◌, refl, ◌∙◌, sym, ap, subst, List, [], ◌∷◌, Option, none, some, length, some_inj,
}
use cyptos.Sched.Task.{Task, TaskState, created, ready, running, dead}
use cyptos.Sched.Table.{SchedulerState, start_state, start_slot, start_all, init}
use cyptos.Sched.Table.Slots.{slot_at}
use cyptos.Sched.Table.Valid.{IsTask, IsValid}

start_all_at :
    (tasks : List (Option Task)) (i : ℕ)
    → slot_at (start_all tasks) i ≡ start_slot (slot_at tasks i)
unfolding start_all
start_all_at [] i = refl
start_all_at (slot ∷ slots) zero = refl
start_all_at (slot ∷ slots) (suc i) = start_all_at slots i

length-start_all : (tasks : List (Option Task)) → length (start_all tasks) ≡ length tasks
unfolding start_all
length-start_all [] = refl
length-start_all (slot ∷ slots) = ap suc (length-start_all slots)

started :
    (slot : Option Task) (t : Task)
    → start_slot slot ≡ some t
    → (u : Task) × (slot ≡ some u) × (record u { state = start_state u.state } ≡ t)
started none t e = cc
started (some u) t e = (u, refl, some_inj e)

start_state-running : (a : TaskState) → start_state a ≡ running → a ≡ running
start_state-running created e = cc
start_state-running ready e = e
start_state-running running e = e
start_state-running dead e = e

-- The scheduler's `init` on a valid table: every slot keeps its task, with Created turned into Ready and
-- nothing else changed, the current slot stays, and the table is valid.
pub init-IsValid :
    (s : SchedulerState)
    → IsValid s
    → ((i : ℕ) → slot_at (init s).tasks i ≡ start_slot (slot_at s.tasks i))
      × ((init s).current ≡ s.current)
      × IsValid (init s)
unfolding init
init-IsValid s v = (
  start_all_at s.tasks,
  refl,
  record {
    table = record {
      size = length-start_all s.tasks ∙ v.table.size;
      each = λ i t e.
          let (u, here, same) = started (slot_at s.tasks i) t (sym (start_all_at s.tasks i) ∙ e) in
          let was = v.table.each i u here in
          subst (IsTask i) same (record { id_eq = was.id_eq; config = was.config });
    };
    current_in = λ c e.
        let (t, here) = v.current_in c e in
        (record t { state = start_state t.state }, start_all_at s.tasks c ∙ ap start_slot here);
    running_current = λ i t e r.
        let (u, here, same) = started (slot_at s.tasks i) t (sym (start_all_at s.tasks i) ∙ e) in
        v.running_current i u here (start_state-running u.state (ap (λ x. x.state) same ∙ r));
  },
)
