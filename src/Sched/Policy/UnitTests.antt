-- ===== src/Sched/Policy/UnitTests.antt =====
-- The unit tests of crates/kernel/src/sched/policy.rs. A test is true if it passes.
use cyptos.Prelude.{
  ℕ, ◌≡◌, refl, Bool, true, false, ◌&&◌, ◌==◌, List, [], ◌∷◌, Option, none, some, get_or,
}
use cyptos.Sched.Policy.{idle_task_index, select_next_ready}

abbrev assert_eq : Option ℕ → Option ℕ → Bool
assert_eq none none = true
assert_eq (some a) (some b) = a == b
assert_eq none (some b) = false
assert_eq (some a) none = false

-- `|idx| ready[idx]`, within the array.
abbrev of_array : List Bool → ℕ → Bool
of_array ready idx = get_or ready idx false

abbrev bootstrap_dispatches_first_normal_task : Bool
bootstrap_dispatches_first_normal_task =
    let current = none in
    let ready = true ∷ true ∷ false ∷ false ∷ [] in
    assert_eq current none && assert_eq (select_next_ready 4 current (of_array ready)) (some 1)

abbrev bootstrap_uses_idle_only_as_fallback : Bool
bootstrap_uses_idle_only_as_fallback =
    let ready = true ∷ false ∷ false ∷ false ∷ [] in
    assert_eq (select_next_ready 4 none (of_array ready)) (some idle_task_index)

abbrev idle_is_skipped_during_normal_round_robin : Bool
idle_is_skipped_during_normal_round_robin =
    let ready = true ∷ true ∷ false ∷ true ∷ [] in
    assert_eq (select_next_ready 4 (some 3) (of_array ready)) (some 1)

abbrev idle_is_selected_only_as_fallback : Bool
idle_is_selected_only_as_fallback =
    let ready = true ∷ false ∷ false ∷ false ∷ [] in
    assert_eq (select_next_ready 4 (some 2) (of_array ready)) (some idle_task_index)

abbrev no_ready_task_returns_none : Bool
no_ready_task_returns_none = assert_eq (select_next_ready 4 (some 1) (λ _. false)) none

policy_tests-pass :
    (bootstrap_dispatches_first_normal_task && bootstrap_uses_idle_only_as_fallback
      && idle_is_skipped_during_normal_round_robin && idle_is_selected_only_as_fallback
      && no_ready_task_returns_none)
    ≡ true
unfolding select_next_ready
policy_tests-pass = refl
