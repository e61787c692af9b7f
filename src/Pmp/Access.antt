-- ===== src/Pmp/Access.antt =====
-- Which accesses of U-mode the PMP registers permit: the matching rules of the RISC-V privileged
-- specification (section 3.7.1), one byte at a time, with the 4-byte grain. An independent
-- description, against which crates/kernel/src/pmp.rs is proved.
use cyptos.Prelude.{
  ℕ, zero, suc, ◌+◌, ◌*◌, ◌/◌, ◌%◌, ◌^◌, Bool, false, ◌&&◌, ltb, leb, ◌==◌, if◌then◌else◌,
}
use cyptos.Pmp.Hart.{PmpRegs, cfg, mode}

pub data Access : Type 0 where
  load store fetch : Access

-- How many ones the number ends in, up to a bound.
unfoldable pub trailing_ones : ℕ → ℕ → ℕ
trailing_ones zero n = 0
trailing_ones (suc fuel) n =
    let more = trailing_ones fuel (n / 2) in if n % 2 == 1 then suc more else 0

-- A NAPOT address that ends in `k` ones stands for an aligned range of 2 ^ (k + 3) bytes.
unfoldable pub napot_matches : ℕ → ℕ → Bool
unfolding trailing_ones
napot_matches pmpaddr a =
    let k = trailing_ones 54 pmpaddr in a / 2 ^ (k + 3) == pmpaddr / 2 ^ (k + 1)

abbrev pub tor_bottom : PmpRegs → ℕ → ℕ
tor_bottom regs zero = 0
tor_bottom regs (suc i) = regs.addr i * 4

unfoldable pub matches : PmpRegs → ℕ → ℕ → Bool
matches regs i a =
    let m = mode (cfg regs i) in
    if m == 0
    then false
    else if m == 1
    then leb (tor_bottom regs i) a && ltb a (regs.addr i * 4)
    else if m == 2
    then a / 4 == regs.addr i
    else napot_matches (regs.addr i) a

-- Bits R, W and X of a configuration byte.
abbrev pub grants : Access → ℕ → Bool
grants load c = c % 2 == 1
grants store c = c / 2 % 2 == 1
grants fetch c = c / 4 % 2 == 1

-- The entry of the lowest number that matches decides; U-mode has nothing by default.
unfoldable pub permits_from : PmpRegs → Access → ℕ → ℕ → ℕ → Bool
permits_from regs access a zero i = false
permits_from regs access a (suc left) i =
    let rest = permits_from regs access a left (i + 1) in
    if matches regs i a then grants access (cfg regs i) else rest

unfoldable pub user_permits : PmpRegs → Access → ℕ → Bool
unfolding permits_from
user_permits regs access a = permits_from regs access a 16 0
