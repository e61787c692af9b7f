-- ===== src/Sched/Policy/Turns.antt =====
-- The order in which `select_next_ready` serves the ready tasks, over one call and over many.
use native.Mathlib.Nat.{mod-eq_of_lt, mod_self}
use cyptos.Prelude.{
  ℕ, ◌+◌, ◌%◌, ◌^◌, ◌≤◌, ◌<◌, ◌≡◌, ◌≢◌, ◌⊎◌, inl, inr, ◌↔◌, Bool, true, false, Option, none, some,
  List, [], ◌∷◌, arith, length, ap, ◌∙◌, Option-cases, ℕ_discrete,
}
use cyptos.Sched.Policy.{start_of, select_next_ready}
use cyptos.Sched.Policy.Select.{slot-ahead, ahead, task, idle, nothing, select_cases, start_lt}

module _ (n : ℕ) (current : Option ℕ) (is_ready : ℕ → Bool) (pos : 0 < n) (fits : n ≤ 2 ^ 63) where
  -- The task that is selected is a slot of the table, and ready.
  pub select-IsReady :
      (idx : ℕ)
      → select_next_ready n current is_ready ≡ some idx
      → (idx < n) × (is_ready idx ≡ true)
  select-IsReady idx e = elim (select_cases n current is_ready pos fits) [
    | task i r lt nz on near ↦ ground arith
    | idle r on others ↦ ground arith
    | nothing r all ↦ ground arith
  ]

  -- No task is selected exactly when no slot is ready.
  pub select-none_iff :
      (select_next_ready n current is_ready ≡ none) ↔ ((i : ℕ) → i < n → is_ready i ≡ false)
  select-none_iff = elim (select_cases n current is_ready pos fits) [
    | task i r lt nz on near ↦ (λ e. cc, λ all. absurd (ground (arith, all i)))
    | idle r on others ↦ (λ e. cc, λ all. absurd (ground (arith, all 0)))
    | nothing r all ↦ (λ _. all, λ _. r)
  ]

  -- Idle is selected exactly when it is ready and no other slot is.
  select-idle_iff :
      (select_next_ready n current is_ready ≡ some 0)
      ↔ ((is_ready 0 ≡ true) × ((i : ℕ) → i < n → i ≢ 0 → is_ready i ≡ false))
  select-idle_iff = elim (select_cases n current is_ready pos fits) [
    | task i r lt nz on near ↦ (λ e. absurd (ground arith), λ h. absurd (ground (arith, h.1 i)))
    | idle r on others ↦ (λ _. (on, others), λ _. r)
    | nothing r all ↦ (λ e. absurd (ground arith), λ h. absurd (ground (arith, h.0, all 0)))
  ]

  -- In a table of 1 to 2 ^ 63 slots: the task that is selected is a slot of the table, and ready; no task is
  -- selected exactly when no slot is ready, and idle exactly when it is ready and no other slot is.
  pub select_next_ready_lem :
      ((idx : ℕ)
        → select_next_ready n current is_ready ≡ some idx
        → (idx < n) × (is_ready idx ≡ true))
      × ((select_next_ready n current is_ready ≡ none) ↔ ((i : ℕ) → i < n → is_ready i ≡ false))
      × ((select_next_ready n current is_ready ≡ some 0)
          ↔ ((is_ready 0 ≡ true) × ((i : ℕ) → i < n → i ≢ 0 → is_ready i ≡ false)))
  select_next_ready_lem = (select-IsReady, select-none_iff, select-idle_iff)

  -- In a table of 1 to 2 ^ 63 slots of which one that is not idle is ready, the one selected is not idle,
  -- and it is the first ready one after `current` on the ring.
  pub select-nearest :
      (idx i : ℕ)
      → select_next_ready n current is_ready ≡ some idx
      → i < n
      → i ≢ 0
      → is_ready i ≡ true
      → (idx ≢ 0) × (ahead n (start_of n current) idx ≤ ahead n (start_of n current) i)
  select-nearest idx i e lt nz on = elim (select_cases n current is_ready pos fits) [
    | task k r kl kz kon near ↦ ground (arith, near i)
    | idle r kon others ↦ absurd (ground (arith, others i))
    | nothing r all ↦ absurd (ground (arith, all i))
  ]

next_start : (n i : ℕ) → i < n → n ≤ 2 ^ 63 → start_of n (some i) ≡ (i + 1) % n
unfolding start_of
next_start n i h fits = ground (arith, mod-eq_of_lt {n = i + 1} {m = 2 ^ 64} (omega arith))

-- After a turn of `i`, a task further on has come nearer.
ahead_next :
    (n start i j : ℕ)
    → start < n
    → i < n
    → j < n
    → ahead n start i < ahead n start j
    → ahead n ((i + 1) % n) j < ahead n start j
ahead_next n start i j hs hi hj h = elim (ℕ_discrete (i + 1) n) [
  | yes e ↦ rw (e, mod_self n) (ground arith)
  | no ne ↦ ground (arith, mod-eq_of_lt {n = i + 1} {m = n} (omega arith))
]

ahead_inj :
    (n start i j : ℕ) → start < n → i < n → j < n → ahead n start i ≡ ahead n start j → i ≡ j
ahead_inj n start i j hs hi hj h = ground arith

-- One call of the policy: a task that is passed over comes nearer.
pub select_progress :
    (n : ℕ) (current : Option ℕ) (is_ready : ℕ → Bool) (i j : ℕ)
    → n ≤ 2 ^ 63
    → select_next_ready n current is_ready ≡ some i
    → j < n
    → j ≢ 0
    → is_ready j ≡ true
    → i ≢ j
    → ahead n (start_of n (some i)) j < ahead n (start_of n current) j
select_progress n current is_ready i j fits e lt nz on ne =
    let pos : 0 < n = omega arith in
    let (_, le) = select-nearest n current is_ready pos fits i j e lt nz on in
    let (il, _) = select-IsReady n current is_ready pos fits i e in
    let hs = start_lt n current pos in
    ground (
      arith,
      next_start n i,
      ahead_next n (start_of n current) i j hs il lt,
      ahead_inj n (start_of n current) i j hs il lt,
    )

-- The selections of successive ticks, each with what is ready at that tick.
pub turns : ℕ → Option ℕ → List (ℕ → Bool) → List (Option ℕ)
turns n current [] = []
turns n current (is_ready ∷ later) =
    let chosen = select_next_ready n current is_ready in chosen ∷ turns n chosen later

abbrev pub AlwaysReady : ℕ → List (ℕ → Bool) → Type 0
AlwaysReady j [] = Unit
AlwaysReady j (is_ready ∷ later) = (is_ready j ≡ true) × AlwaysReady j later

abbrev pub Chosen : ℕ → List (Option ℕ) → Type 0
Chosen j [] = ⊥
Chosen j (c ∷ cs) = (c ≡ some j) ⊎ Chosen j cs

served_within :
    (n : ℕ) (current : Option ℕ) (rs : List (ℕ → Bool)) (j : ℕ)
    → n ≤ 2 ^ 63
    → j < n
    → j ≢ 0
    → AlwaysReady j rs
    → ahead n (start_of n current) j < length rs
    → Chosen j (turns n current rs)
unfolding turns
served_within n current [] j fits lt nz on far = absurd (omega arith)
served_within n current (r ∷ rs) j fits lt nz on far =
    elim (Option-cases (select_next_ready n current r)) [
      | inl e ↦ absurd (ground (arith, (select-none_iff n current r (omega arith) fits).0 e j lt))
      | inr (i, e) ↦ elim (ℕ_discrete i j) [
        | yes same ↦ inl (e ∙ ap some same)
        | no ne ↦ inr (
            rw e (
              served_within n (some i) rs j fits lt nz on.1
                (omega (arith, select_progress n current r i j fits e lt nz on.0 ne))))
      ]
    ]

-- No starvation, in a table of at most 2 ^ 63 slots: a task other than idle that stays ready is selected
-- within as many ticks as the table has slots, whatever the other tasks do.
pub turns-serve :
    (n : ℕ) (current : Option ℕ) (rs : List (ℕ → Bool)) (j : ℕ)
    → n ≤ 2 ^ 63
    → j < n
    → j ≢ 0
    → AlwaysReady j rs
    → n ≤ length rs
    → Chosen j (turns n current rs)
turns-serve n current rs j fits lt nz on enough =
    let start_in = start_lt n current (omega arith) in
    let (near, _) = slot-ahead n (start_of n current) j start_in lt in
    served_within n current rs j fits lt nz on (omega arith)
