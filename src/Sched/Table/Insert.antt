-- ===== src/Sched/Table/Insert.antt =====
-- `insert_task`: the first free slot.
use cyptos.Prelude.{
  ℕ, zero, suc, ◌+◌, ◌<◌, ◌≡◌, ◌≢◌, refl, ◌∙◌, sym, ap, List, [], ◌∷◌, Option, none, some, arith,
  length, set, pair_inj,
}
use cyptos.Sched.Task.{Task}
use cyptos.Sched.Table.{insert_task, past_task}
use cyptos.Sched.Table.Slots.{slot_at}

-- Where `insert_task` puts the task.
abbrev pub Inserted : (ℕ → Task) → ℕ → List (Option Task) → ℕ → List (Option Task) → Type 0
Inserted make k slots idx slots' =
    (d : ℕ) × (idx ≡ k + d)
    × (d < length slots)
    × (slot_at slots d ≡ none)
    × ((j : ℕ) → j < d → slot_at slots j ≢ none)
    × (slots' ≡ set slots d (some (make idx)))

pub occupied :
    (t : Task) (slots : List (Option Task)) (d : ℕ)
    → ((j : ℕ) → j < d → slot_at slots j ≢ none)
    → (j : ℕ) → j < suc d
    → slot_at (some t ∷ slots) j ≢ none
occupied t slots d full zero lt = λ q. cc
occupied t slots d full (suc j) lt = full j (omega arith)

past_task-Inserted :
    (make : ℕ → Task) (k : ℕ) (t : Task) (slots : List (Option Task))
    (r : Option (ℕ × List (Option Task))) (idx : ℕ) (slots' : List (Option Task))
    → ((id : ℕ) (rest : List (Option Task))
        → r ≡ some (id, rest)
        → Inserted make (k + 1) slots id rest)
    → past_task t r ≡ some (idx, slots')
    → Inserted make k (some t ∷ slots) idx slots'
past_task-Inserted make k t slots none idx slots' ih e = cc
past_task-Inserted make k t slots (some (id, rest)) idx slots' ih e =
    let (same, whole) = pair_inj e in
    let (d, at, lt, free, full, eq) = ih id rest refl in
    (
      suc d,
      sym same ∙ (at ∙ omega arith),
      omega arith,
      free,
      occupied t slots d full,
      sym whole ∙ ap (λ x. some t ∷ x) (eq ∙ ap (λ i. set slots d (some (make i))) same),
    )

pub insert_task-Inserted :
    (make : ℕ → Task) (k : ℕ) (slots : List (Option Task)) (idx : ℕ) (slots' : List (Option Task))
    → insert_task make k slots ≡ some (idx, slots')
    → Inserted make k slots idx slots'
unfolding insert_task
insert_task-Inserted make k [] idx slots' e = cc
insert_task-Inserted make k (none ∷ slots) idx slots' e =
    let (same, rest) = pair_inj e in
    (
      0,
      sym same ∙ omega arith,
      omega arith,
      refl,
      λ j lt. absurd (omega arith),
      sym rest ∙ ap (λ i. some (make i) ∷ slots) same,
    )
insert_task-Inserted make k (some t ∷ slots) idx slots' e =
    past_task-Inserted make k t slots (insert_task make (k + 1) slots) idx slots'
      (insert_task-Inserted make (k + 1) slots) e

-- A free slot is enough.
pub insert_task-some :
    (make : ℕ → Task) (k : ℕ) (slots : List (Option Task)) (d : ℕ)
    → d < length slots
    → slot_at slots d ≡ none
    → (r : ℕ × List (Option Task)) × (insert_task make k slots ≡ some r)
unfolding insert_task
insert_task-some make k [] d lt e = absurd (omega arith)
insert_task-some make k (none ∷ slots) d lt e = (_, refl)
insert_task-some make k (some t ∷ slots) zero lt e = cc
insert_task-some make k (some t ∷ slots) (suc d) lt e =
    let ((id, rest), q) = insert_task-some make (k + 1) slots d (omega arith) e in
    (_, ap (past_task t) q)
