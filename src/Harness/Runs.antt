-- ===== src/Harness/Runs.antt =====
-- What the runner's exit says of the tests, and that the host's tests check the kernel's encoding.
use cyptos.Prelude.{
  ℕ, ◌+◌, ◌-◌, ◌/◌, ◌^◌, ◌≤◌, ◌≡◌, refl, ap, ◌⊎◌, inl, inr, arith, List, [], ◌∷◌, String, Option,
  none, some, true, is_power_of_two, u64,
}
use cyptos.Pmp.Region.{new}
use cyptos.Pmp.Region
use cyptos.Harness.{
  Ran, returned, panicked, stuck, SomePanics, SomeSticks, Testable, announce, print_str, and_ok,
  next_test, run, run_all, runner, heading, conclude, test_panic_handler, napot_addr, AllReturn,
}

-- How a run goes.
data Checked (tests : List Testable) (out : List ℕ) (r : Ran) : Type 0 where
  passed : AllReturn tests out → (o : List ℕ) → r ≡ returned o → Checked tests out r
  failed :
      SomePanics tests out
      → (l : Option (String × ℕ)) (o : List ℕ) → r ≡ panicked l o
      → Checked tests out r
  hangs : SomeSticks tests out → r ≡ stuck → Checked tests out r

-- After one body, by how it ended.
after_body :
    (t : Testable) (tests : List Testable) (out : List ℕ) (r : Ran)
    → t.body (announce t out) ≡ r
    → ((o : List ℕ) → Checked tests o (run_all tests o))
    → Checked (t ∷ tests) out (next_test (run_all tests) (and_ok r))
after_body t tests out (returned o) e rest = elim (rest (print_str "[ok]\n" o)) [
  | passed all o' q ↦ passed (o, e, all) o' q
  | failed one l o' q ↦ failed (inr (o, e, one)) l o' q
  | hangs one q ↦ hangs (inr (o, e, one)) q
]
after_body t tests out (panicked l o) e rest = failed (inl (l, o, e)) l o refl
after_body t tests out stuck e rest = hangs (inl e) refl

run_all-Checked : (tests : List Testable) (out : List ℕ) → Checked tests out (run_all tests out)
unfolding run_all run
run_all-Checked [] out = passed tt out refl
run_all-Checked (t ∷ tests) out =
    after_body t tests out (t.body (announce t out)) refl (run_all-Checked tests)

-- The machine is stopped with 0x5555 if every test body returns, each run on the output of those before it;
-- with 0x13333, the code of a failure, if the first that does not return panics; and not at all if it never
-- comes back. One of the three is the case.
pub runner_lem :
    (tests : List Testable) (out : List ℕ)
    → (AllReturn tests (heading tests out)
        × (o : List ℕ) × (runner tests out ≡ some (record { finisher = 0x5555; out = o })))
      ⊎ ((SomePanics tests (heading tests out)
            × (o : List ℕ) × (runner tests out ≡ some (record { finisher = 0x1_3333; out = o })))
          ⊎ (SomeSticks tests (heading tests out) × (runner tests out ≡ none)))
unfolding runner test_panic_handler
runner_lem tests out = elim (run_all-Checked tests (heading tests out)) [
  | passed all o e ↦ inl (all, _, ap (conclude tests) e)
  | failed one l o e ↦ inr (inl (one, _, ap (conclude tests) e))
  | hangs one e ↦ inr (inr (one, ap (conclude tests) e))
]

-- For a size that is a power of two from 8 on and a range that ends by 2 ^ 64, the function that the host's
-- tests check does not panic and gives the kernel's encoding, whatever the region's flags.
pub napot_addr_lem :
    (base size flags : ℕ)
    → is_power_of_two size ≡ true
    → 8 ≤ size
    → base + size ≤ 2 ^ 64
    → napot_addr base size ≡ some (Region.napot_addr (new base size flags))
unfolding napot_addr Region.napot_addr
napot_addr_lem base size flags power least within =
    let half : u64 (size / 2 + 2 ^ 64 - 1) ≡ size / 2 - 1 = omega arith in
    let sum : u64 (base + (size / 2 - 1)) ≡ base + (size / 2 - 1) = omega arith in
    rw (half, sum) (ground (arith, power))
