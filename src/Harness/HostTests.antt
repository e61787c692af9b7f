-- ===== src/Harness/HostTests.antt =====
-- The tests of crates/cyptos-test/src/lib.rs that run on the host: `pmp_tests`, on the copy of the NAPOT encoding, and
-- `task_tests`, on a copy of the task context and of the task state. A test is true if it passes.
use Prim.Native.String
use Prim.Native.Nat.{Ordering}
use cyptos.Prelude.{
  ℕ, ◌+◌, ◌-◌, ◌*◌, ◌/◌, ◌≡◌, refl, Bool, true, false, ◌&&◌, ◌==◌, String, List, [], ◌∷◌, Option,
  none, some, length, ◌>>>◌, is_power_of_two,
}
use cyptos.Harness.{napot_addr}

-- `assert_eq!` on a value that may have panicked, and `#[should_panic]`.
abbrev assert_eq : Option ℕ → ℕ → Bool
assert_eq none expected = false
assert_eq (some value) expected = value == expected

abbrev should_panic : Option ℕ → Bool
should_panic none = true
should_panic (some value) = false

abbrev test_napot_addr_basic : Bool
test_napot_addr_basic =
    let expected = (0x8020_0000 + (0x1_0000 / 2 - 1)) >>> 2 in
    assert_eq (napot_addr 0x8020_0000 0x1_0000) expected

abbrev test_napot_addr_8byte : Bool
test_napot_addr_8byte =
    let expected = (0x1000 + 3) >>> 2 in assert_eq (napot_addr 0x1000 8) expected

abbrev test_napot_addr_aligned : Bool
test_napot_addr_aligned =
    let base : ℕ = 0x1000 in
    let size : ℕ = 0x1000 in
    let expected = (base + (size / 2 - 1)) >>> 2 in assert_eq (napot_addr base size) expected

abbrev test_napot_addr_large_region : Bool
test_napot_addr_large_region =
    let base : ℕ = 0x8000_0000 in
    let size : ℕ = 0x0100_0000 in
    let expected = (base + (size / 2 - 1)) >>> 2 in assert_eq (napot_addr base size) expected

abbrev test_napot_addr_non_power_of_two_panics : Bool
test_napot_addr_non_power_of_two_panics = should_panic (napot_addr 0x1000 12)

abbrev test_napot_addr_too_small_panics : Bool
test_napot_addr_too_small_panics = should_panic (napot_addr 0x1000 4)

abbrev test_napot_addr_one_megabyte : Bool
test_napot_addr_one_megabyte =
    let base : ℕ = 0x4000_0000 in
    let size : ℕ = 0x10_0000 in
    let expected = (base + (size / 2 - 1)) >>> 2 in assert_eq (napot_addr base size) expected

-- The fields of the copied `TaskContext`, each of 8 bytes and in this order, as `repr(C)` lays them out.
abbrev pub task_context : List String
task_context =
    "ra" ∷ "t0" ∷ "t1" ∷ "t2" ∷ "t3" ∷ "t4" ∷ "t5" ∷ "t6" ∷ "a0" ∷ "a1" ∷ "a2" ∷ "a3" ∷ "a4" ∷ "a5"
    ∷ "a6" ∷ "a7" ∷ "s0" ∷ "s1" ∷ "s2" ∷ "s3" ∷ "s4" ∷ "s5" ∷ "s6" ∷ "s7" ∷ "s8" ∷ "s9" ∷ "s10"
    ∷ "s11" ∷ "gp" ∷ "tp" ∷ "sp" ∷ "mepc" ∷ "mstatus" ∷ []

abbrev size_of : List String → ℕ
size_of fields = 8 * length fields

abbrev offset_of : List String → String → ℕ
offset_of [] field = 0
offset_of (f ∷ fields) field = elim (String.compare f field) [
  | Ordering.eq ↦ 0
  | _ ↦ 8 + offset_of fields field
]

abbrev test_task_context_size : Bool
test_task_context_size = size_of task_context == 264

abbrev test_task_context_mepc_offset : Bool
test_task_context_mepc_offset = offset_of task_context "mepc" == 248

abbrev test_task_context_mstatus_offset : Bool
test_task_context_mstatus_offset = offset_of task_context "mstatus" == 256

abbrev test_task_context_sp_offset : Bool
test_task_context_sp_offset = offset_of task_context "sp" == 240

abbrev test_task_context_ra_offset : Bool
test_task_context_ra_offset = offset_of task_context "ra" == 0

-- The copied `TaskState`, with its derived equality.
data TaskState : Type 0 where
  created ready running dead : TaskState

abbrev task_state_eq : TaskState → TaskState → Bool
task_state_eq created created = true
task_state_eq ready ready = true
task_state_eq running running = true
task_state_eq dead dead = true
task_state_eq _ _ = false

-- A test that sets the state twice and looks at it each time.
abbrev test_task_state_created_to_ready : Bool
test_task_state_created_to_ready =
    let state = created in
    task_state_eq state created && (let state = ready in task_state_eq state ready)

abbrev test_task_state_ready_to_running : Bool
test_task_state_ready_to_running =
    let state = ready in
    task_state_eq state ready && (let state = running in task_state_eq state running)

abbrev test_task_state_running_to_dead : Bool
test_task_state_running_to_dead =
    let state = running in
    task_state_eq state running && (let state = dead in task_state_eq state dead)

abbrev test_task_state_running_to_ready : Bool
test_task_state_running_to_ready =
    let state = running in
    task_state_eq state running && (let state = ready in task_state_eq state ready)

pmp_tests-pass :
    (test_napot_addr_basic && test_napot_addr_8byte && test_napot_addr_aligned
      && test_napot_addr_large_region && test_napot_addr_non_power_of_two_panics
      && test_napot_addr_too_small_panics && test_napot_addr_one_megabyte)
    ≡ true
unfolding napot_addr is_power_of_two
pmp_tests-pass = refl

task_tests-pass :
    (test_task_context_size && test_task_context_mepc_offset && test_task_context_mstatus_offset
      && test_task_context_sp_offset && test_task_context_ra_offset
      && test_task_state_created_to_ready && test_task_state_ready_to_running
      && test_task_state_running_to_dead && test_task_state_running_to_ready)
    ≡ true
task_tests-pass = refl
