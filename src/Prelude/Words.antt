-- ===== src/Prelude/Words.antt =====
-- Machine words: the wrap-around of u8 and of the 64-bit words, their shifts, and powers of two.
use Prim.Native.Nat.{ℕ, zero, suc, ◌-◌, ◌*◌, ◌/◌, ◌%◌, ◌^◌, ◌≤◌, ◌+◌}
use mathlib.Core.Path.{◌≡◌, ap, ◌∙◌}
use mathlib.Core.Logic.{◌⊎◌, inl, inr}
use mathlib.Core.Bool.{Bool, true, false, ◌&&◌, ◌||◌}
use native.Mathlib.Nat.{pow-suc}
use native.Mathlib.Omega.{arith}
use cyptos.Prelude.Tests.{◌==◌}

abbrev pub u8 : ℕ → ℕ
u8 n = n % 2 ^ 8

abbrev pub u64 : ℕ → ℕ
u64 n = n % 2 ^ 64

-- `!x` of a u64.
abbrev pub not64 : ℕ → ℕ
not64 x = 2 ^ 64 - 1 - x

-- `x <<< k` and `x >>> k` of a u64.
infixl 75 ◌<<<◌ ◌>>>◌
abbrev pub ◌<<<◌ : ℕ → ℕ → ℕ
x <<< k = x * 2 ^ k % 2 ^ 64

abbrev pub ◌>>>◌ : ℕ → ℕ → ℕ
x >>> k = x / 2 ^ k

-- One bit, set among the lowest `k`.
one_bit : ℕ → ℕ → Bool
one_bit zero n = false
one_bit (suc k) n = n == 1 || n % 2 == 0 && one_bit k (n / 2)

-- `u64::is_power_of_two`.
unfoldable pub is_power_of_two : ℕ → Bool
unfolding one_bit
is_power_of_two n = one_bit 64 n

one_bit-pow : (k n : ℕ) → one_bit k n ≡ true → (e : ℕ) × (n ≡ 2 ^ e)
unfolding one_bit
one_bit-pow zero n h = cc
one_bit-pow (suc k) n h = elim (split n k h) [
  | inl e ↦ (0, e)
  | inr (even, rest) ↦
      let (e, p) = one_bit-pow k (n / 2) rest in (suc e, omega (arith, pow-suc 2 e))
]
  where
    split :
        (n k : ℕ)
        → (n == 1 || n % 2 == 0 && one_bit k (n / 2)) ≡ true
        → (n ≡ 1) ⊎ ((n % 2 ≡ 0) × (one_bit k (n / 2) ≡ true))
    split n k h = ground arith

pub is_power_of_two-pow : (n : ℕ) → is_power_of_two n ≡ true → (e : ℕ) × (n ≡ 2 ^ e)
unfolding is_power_of_two
is_power_of_two-pow n = one_bit-pow 64 n

three_of_eight_le : (e : ℕ) → 8 ≤ 2 ^ e → (d : ℕ) × (e ≡ d + 3)
three_of_eight_le zero h = absurd (omega arith)
three_of_eight_le (suc zero) h = absurd (omega arith)
three_of_eight_le (suc (suc zero)) h = absurd (omega arith)
three_of_eight_le (suc (suc (suc d))) h = (d, omega arith)

-- A power of two from eight on, by its exponent.
pub pow_of_eight_le : (n : ℕ) → is_power_of_two n ≡ true → 8 ≤ n → (e : ℕ) × (n ≡ 2 ^ (e + 3))
pow_of_eight_le n h le =
    let (e, p) = is_power_of_two-pow n h in
    let (d, q) = three_of_eight_le e (rw p at le) in (d, p ∙ ap (λ (t : ℕ). 2 ^ t) q)
