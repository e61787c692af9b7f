-- ===== src/Tests/Host.antt =====
-- The number output and the test runner, on concrete inputs.
use cyptos.Prelude.{String, ℕ, ◌≡◌, refl, ◌⊎◌, arith, List, [], ◌∷◌, none, some, is_power_of_two}
use cyptos.Serial.{Console, put_dec, puts}
use cyptos.Serial.Writer.{write_all, write_fmt, write_fmt_lem}
use cyptos.Serial.Digits.{read_dec, AreDigits, put_dec_lem}
use cyptos.Pmp.Region.{new}
use cyptos.Pmp.Region
use cyptos.Harness.{
  Testable, returned, panicked, print_str, runner, heading, AllReturn, SomePanics, SomeSticks,
  napot_addr,
}
use cyptos.Harness.Runs.{runner_lem, napot_addr_lem}

abbrev quiet : Console
quiet = record { sent = []; rx = [] }

put_dec_lem_example :
    (ds : List ℕ) × (put_dec 40_961 quiet ≡ record quiet { sent = ds })
    × AreDigits ds
    × (read_dec 0 ds ≡ 40_961)
put_dec_lem_example = put_dec_lem 40_961 quiet (omega arith)

-- One test that prints a line, and one whose assertion fails.
abbrev two_tests : List Testable
two_tests =
    record { type_name = "kernel::prints"; body = λ out. returned (print_str "x\n" out) }
    ∷ record { type_name = "kernel::fails"; body = λ out. panicked (some ("pmp.rs", 45)) out }
    ∷ []

runner_lem_example :
    (AllReturn two_tests (heading two_tests [])
      × (o : List ℕ) × (runner two_tests [] ≡ some (record { finisher = 0x5555; out = o })))
    ⊎ ((SomePanics two_tests (heading two_tests [])
          × (o : List ℕ) × (runner two_tests [] ≡ some (record { finisher = 0x1_3333; out = o })))
        ⊎ (SomeSticks two_tests (heading two_tests []) × (runner two_tests [] ≡ none)))
runner_lem_example = runner_lem two_tests []

napot_addr_lem_example :
    napot_addr 0x8020_0000 0x1_0000 ≡ some (Region.napot_addr (new 0x8020_0000 0x1_0000 3))
unfolding is_power_of_two
napot_addr_lem_example = napot_addr_lem 0x8020_0000 0x1_0000 3 refl (omega arith) (omega arith)

-- `println!("at {}:{}", "main.rs", 42)`, in the pieces that it is cut into.
abbrev at_main : List String
at_main = "at " ∷ "main.rs" ∷ ":" ∷ "42" ∷ "\n" ∷ []

write_fmt_lem_example :
    write_fmt (List String) write_all at_main quiet ≡ some (puts "at main.rs:42\n" quiet)
write_fmt_lem_example =
    write_fmt_lem (List String) write_all (λ pieces. pieces) (λ w args k. refl) at_main quiet
