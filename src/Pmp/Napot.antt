-- ===== src/Pmp/Napot.antt =====
-- The NAPOT encoding: what `napot_addr` writes is decoded, by the rules of the hardware, to the region.
use native.Mathlib.Nat.{
  div-eq_of_lt-le, div-mul-le_self, lt-div-mul-add, div-add-mod', pow-le-pow_right,
}
use native.Mathlib.Numerals.{add-one, towards_suc}
use cyptos.Prelude.{
  ap, ap₂, sym, ◌∙◌, inl, inr, dec_lt, ℕ_discrete, Bool-cases, ℕ, zero, suc, ◌+◌, ◌-◌, ◌*◌, ◌/◌,
  ◌%◌, ◌^◌, ◌<◌, ◌≤◌, ◌≡◌, true, ◌&&◌, ltb, leb, ◌==◌, arith, is_power_of_two, pow_of_eight_le,
  pow-suc, one-le-pow,
}
use cyptos.Pmp.Region.{PmpRegion, napot_addr}
use cyptos.Pmp.Access.{trailing_ones, napot_matches}

-- A power of two from eight on, and a base that is a multiple of it, within 56 bits of address.
pub record IsNapot (region : PmpRegion) : Type 0 where
  pub power : is_power_of_two region.size ≡ true
  pub least : 8 ≤ region.size
  pub aligned : region.base % region.size ≡ 0
  pub within : region.base + region.size ≤ 2 ^ 56

pub pow_three : (e : ℕ) → 2 ^ (e + 3) ≡ 8 * 2 ^ e
pow_three e =
    simp towards_suc (omega (arith, pow-suc 2 (suc (suc e)), pow-suc 2 (suc e), pow-suc 2 e))

scaled : (q e : ℕ) → q * 2 ^ (e + 3) ≡ 8 * (q * 2 ^ e)
scaled q e = omega (arith, ap (λ (t : ℕ). q * t) (pow_three e))

scaled_suc : (q e : ℕ) → q * 2 ^ suc e ≡ 2 * (q * 2 ^ e)
scaled_suc q e = omega (arith, ap (λ (t : ℕ). q * t) (pow-suc 2 e))

abbrev encoded : ℕ → ℕ → ℕ
encoded e q = q * 2 ^ suc e + (2 ^ e - 1)

napot_addr-encoded :
    (region : PmpRegion) (e q : ℕ)
    → region.size ≡ 2 ^ (e + 3)
    → region.base ≡ q * 2 ^ (e + 3)
    → region.base + region.size ≤ 2 ^ 56
    → napot_addr region ≡ encoded e q
unfolding napot_addr
napot_addr-encoded region e q hs hb fits =
    omega (arith, pow_three e, scaled q e, scaled_suc q e, one-le-pow e 2)

trailing_ones-encoded : (fuel e q : ℕ) → e < fuel → trailing_ones fuel (encoded e q) ≡ e
unfolding trailing_ones
trailing_ones-encoded zero e q h = absurd (omega arith)
trailing_ones-encoded (suc fuel) zero q h = ground arith
trailing_ones-encoded (suc fuel) (suc e) q h = ground (
  arith,
  scaled_suc q (suc e),
  scaled_suc q e,
  pow-suc 2 e,
  one-le-pow e 2,
  trailing_ones-encoded fuel e q,
)

encoded_high : (e q : ℕ) → encoded e q / 2 ^ suc e ≡ q
encoded_high e q = div-eq_of_lt-le (2 ^ suc e) (omega arith) (
    omega (
      arith,
      pow-suc 2 e,
      one-le-pow e 2,
      scaled_suc q e,
      ap (λ (t : ℕ). (q + 1) * t) (pow-suc 2 e),
    ))

exponent_lt : (e : ℕ) → 2 ^ (e + 3) ≤ 2 ^ 56 → e < 54
exponent_lt e h = elim (dec_lt e 54) [
  | yes lt ↦ lt
  | no ge ↦
      absurd
        (omega (arith, pow-le-pow_right {n = 2} (omega arith) {i = 57} {j = e + 3} (omega arith)))
]

in_block : (a q s : ℕ) → 0 < s → (a / s == q) ≡ (leb (q * s) a && ltb a (q * s + s))
in_block a q s pos = elim (ℕ_discrete (a / s) q) [
  | yes e ↦
      ground
        (arith, div-mul-le_self a s, lt-div-mul-add {a = a} {b = s} pos, ap (λ (t : ℕ). t * s) e)
  | no ne ↦ elim (Bool-cases (leb (q * s) a && ltb a (q * s + s))) [
    | inl inside ↦ absurd (ne (div-eq_of_lt-le s (ground arith) (ground arith)))
    | inr outside ↦ ground arith
  ]
]

napot_matches-encoded :
    (e q a : ℕ)
    → e < 54
    → napot_matches (encoded e q) a
      ≡ (leb (q * 2 ^ (e + 3)) a && ltb a (q * 2 ^ (e + 3) + 2 ^ (e + 3)))
unfolding napot_matches
napot_matches-encoded e q a h =
    rw (trailing_ones-encoded 54 e q h, add-one e, encoded_high e q)
      (in_block a q (2 ^ (e + 3)) (one-le-pow (e + 3) 2 (omega arith)))

matches_shape :
    (region : PmpRegion) (e q a : ℕ)
    → region.size ≡ 2 ^ (e + 3)
    → region.base ≡ q * 2 ^ (e + 3)
    → region.base + region.size ≤ 2 ^ 56
    → napot_matches (napot_addr region) a ≡ (leb region.base a && ltb a (region.base + region.size))
matches_shape region e q a hs hb fits = rw (napot_addr-encoded region e q hs hb fits) (
    napot_matches-encoded e q a (exponent_lt e (omega arith))
    ∙ ap₂ (λ b s. leb b a && ltb a (b + s)) (sym hb) (sym hs))

-- For a region of a power of two of bytes from 8 on, aligned to its size and below 2 ^ 56, the address
-- that `napot_addr` computes makes the hardware match exactly the bytes of the region.
pub napot_matches-napot_addr :
    (region : PmpRegion) (a : ℕ)
    → IsNapot region
    → napot_matches (napot_addr region) a ≡ (leb region.base a && ltb a (region.base + region.size))
napot_matches-napot_addr region a v =
    let (e, hs) = pow_of_eight_le region.size v.power v.least in
    matches_shape region e (region.base / region.size) a hs
      (omega (
        arith,
        v.aligned,
        div-add-mod' region.base region.size,
        ap (λ (t : ℕ). region.base / region.size * t) hs,
      ))
      v.within

-- It fits the 54 bits of the register.
pub napot_addr_lt : (region : PmpRegion) → IsNapot region → napot_addr region < 2 ^ 54
unfolding napot_addr
napot_addr_lt region v = omega arith
