-- ===== src/Harness.antt =====
-- crates/cyptos-test/src/lib.rs: the runner of the tests on RISC-V, whose output goes to the UART byte by
-- byte, and the copy of the NAPOT encoding that the host's tests check.
pub mod Runs
pub mod HostTests
use cyptos.Prelude.{
  ℕ, zero, suc, ◌+◌, ◌-◌, ◌/◌, ◌%◌, ◌^◌, ◌<◌, ◌≤◌, ◌≡◌, ◌≢◌, refl, ◌∙◌, ◌⊎◌, inl, inr, arith,
  String, List, [], ◌∷◌, ◌++◌, Option, none, some, length, Bool, true, false, not, ◌&&◌, ltb,
  lt→ltb, ◌==◌, if◌then◌else◌, is_power_of_two, ◌>>>◌, u64,
}
use cyptos.Pmp.Region.{PmpRegion, new}
use cyptos.Pmp.Region
use cyptos.Serial.{bytes}

unfoldable pub print_str : String → List ℕ → List ℕ
unfolding bytes
print_str s out = out ++ bytes s

-- The first loop of `print_dec`, on a buffer of `fuel` bytes, and the second.
unfoldable pub print_digits : ℕ → ℕ → List ℕ
print_digits zero n = []
print_digits (suc fuel) n =
    let rest = print_digits fuel (n / 10) in if ltb 0 n then (b'0' + n % 10) ∷ rest else []

unfoldable pub print_back : List ℕ → List ℕ → List ℕ
print_back [] out = out
print_back (d ∷ buf) out = print_back buf out ++ d ∷ []

unfoldable pub print_dec : ℕ → List ℕ → List ℕ
unfolding print_str print_digits print_back
print_dec n out = if n == 0 then print_str "0" out else print_back (print_digits 20 n) out

-- A test body returns, panics with the location that the panic handler is told, or does neither: it loops, or
-- traps, and never comes back.
pub data Ran : Type 0 where
  returned : List ℕ → Ran
  panicked : Option (String × ℕ) → List ℕ → Ran
  stuck : Ran

pub record Testable : Type 0 where
  pub type_name : String
  pub body : List ℕ → Ran

-- The machine stops with the value that is written to the finisher.
pub record Exited : Type 0 where
  pub finisher : ℕ
  pub out : List ℕ

abbrev pub exit_success : List ℕ → Exited
exit_success out = record { finisher = 0x5555; out = out }

abbrev pub exit_failure : List ℕ → Exited
exit_failure out = record { finisher = 0x1_3333; out = out }

abbrev pub print_location : Option (String × ℕ) → List ℕ → List ℕ
print_location none out = out
print_location (some (file, line)) out =
    print_str "\n"
      (print_dec line (print_str ":" (print_str file (print_str "  panicked at " out))))

unfoldable pub test_panic_handler : Option (String × ℕ) → List ℕ → Exited
unfolding print_str print_dec
test_panic_handler location out =
    exit_failure (print_location location (print_str "[FAILED]\n\n" out))

-- `Testable::run` up to the call of the body, and after it.
abbrev pub announce : Testable → List ℕ → List ℕ
announce t out = print_str " ... " (print_str t.type_name (print_str "test " out))

abbrev pub and_ok : Ran → Ran
and_ok (returned out) = returned (print_str "[ok]\n" out)
and_ok (panicked location out) = panicked location out
and_ok stuck = stuck

unfoldable pub run : Testable → List ℕ → Ran
unfolding print_str
run t out = and_ok (t.body (announce t out))

abbrev pub next_test : (List ℕ → Ran) → Ran → Ran
next_test f (returned out) = f out
next_test f (panicked location out) = panicked location out
next_test f stuck = stuck

unfoldable pub run_all : List Testable → List ℕ → Ran
unfolding run
run_all [] out = returned out
run_all (t ∷ tests) out = next_test (run_all tests) (run t out)

abbrev pub heading : List Testable → List ℕ → List ℕ
heading tests out =
    let counted = print_dec (length tests) (print_str "\nrunning " out) in
    if length tests == 1 then print_str " test\n" counted else print_str " tests\n" counted

-- `none` if a test body never comes back, so that the machine does not stop.
abbrev pub conclude : List Testable → Ran → Option Exited
conclude tests (returned out) = some (
    exit_success (
      print_str " passed; 0 failed\n\n"
        (print_dec (length tests) (print_str "\ntest result: ok. " out))))
conclude tests (panicked location out) = some (test_panic_handler location out)
conclude tests stuck = none

unfoldable pub runner : List Testable → List ℕ → Option Exited
unfolding print_str print_dec run_all test_panic_handler
runner tests out = conclude tests (run_all tests (heading tests out))

-- The copy of the encoding: a failed assertion and, in a test build, an overflow panic.
unfoldable pub napot_addr : ℕ → ℕ → Option ℕ
napot_addr base size =
    if is_power_of_two size && not (ltb size 8)
    then (if ltb (base + (size / 2 - 1)) (2 ^ 64)
        then some ((base + (size / 2 - 1)) >>> 2)
        else none)
    else none

-- The first body that does not return panics, or never comes back.
abbrev pub SomePanics : List Testable → List ℕ → Type 0
SomePanics [] out = ⊥
SomePanics (t ∷ tests) out =
    ((l : Option (String × ℕ)) × (o : List ℕ) × (t.body (announce t out) ≡ panicked l o))
    ⊎ ((o : List ℕ) × (t.body (announce t out) ≡ returned o)
        × SomePanics tests (print_str "[ok]\n" o))

abbrev pub SomeSticks : List Testable → List ℕ → Type 0
SomeSticks [] out = ⊥
SomeSticks (t ∷ tests) out =
    (t.body (announce t out) ≡ stuck)
    ⊎ ((o : List ℕ) × (t.body (announce t out) ≡ returned o)
        × SomeSticks tests (print_str "[ok]\n" o))

-- Every body returns, each run on the output of those before it.
abbrev pub AllReturn : List Testable → List ℕ → Type 0
AllReturn [] out = Unit
AllReturn (t ∷ tests) out =
    (o : List ℕ) × (t.body (announce t out) ≡ returned o) × AllReturn tests (print_str "[ok]\n" o)
