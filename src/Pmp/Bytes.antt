-- ===== src/Pmp/Bytes.antt =====
-- A configuration register as eight bytes: building it byte by byte with `|` and `<<`, replacing one
-- byte through a mask, and reading a byte back.
use native.Mathlib.Nat.{add_comm, div-add-mod', mod-lt, mod-mod_of_dvd, dvd-mul_right}
use cyptos.Prelude.{
  ℕ, zero, suc, ◌+◌, ◌-◌, ◌*◌, ◌/◌, ◌%◌, ◌^◌, ◌<◌, ◌≤◌, ◌≡◌, ◌∙◌, arith, bit_and, bit_or, not64,
  ◌<<<◌, bit_and_mask, bit_and_fields, bit_or_high, bit_or_fields, bit_or-zero, one-le-pow, pow_add,
  ltb, if◌then◌else◌, ◌==◌,
}
use cyptos.Pmp.Hart.{byte}

-- The bytes `bs 0` to `bs (n - 1)`, the first one lowest.
abbrev pub pack : (ℕ → ℕ) → ℕ → ℕ
pack bs zero = 0
pack bs (suc n) = pack bs n + bs n * 2 ^ (8 * n)

pow_eight : (n : ℕ) → 2 ^ (8 * suc n) ≡ 256 * 2 ^ (8 * n)
pow_eight n = let e : 8 * suc n ≡ 8 * n + 8 = omega arith in rw e (omega (arith, pow_add (8 * n) 8))

abbrev pub AreBytes : (ℕ → ℕ) → Type 0
AreBytes bs = (i : ℕ) → i < 8 → bs i < 256

pub pack_lt : (bs : ℕ → ℕ) (n : ℕ) → AreBytes bs → n ≤ 8 → pack bs n < 2 ^ (8 * n)
pack_lt bs zero h le = omega arith
pack_lt bs (suc n) h le =
    let below = pack_lt bs n h (omega arith) in
    let small = h n (omega arith) in rw (pow_eight n) (grind arith)

eight {ℓ} : (P : ℕ → Type ℓ) → P 0 → P 1 → P 2 → P 3 → P 4 → P 5 → P 6 → P 7 → (j : ℕ) → j < 8 → P j
eight P a b c d e f g h zero lt = a
eight P a b c d e f g h (suc zero) lt = b
eight P a b c d e f g h (suc (suc zero)) lt = c
eight P a b c d e f g h (suc (suc (suc zero))) lt = d
eight P a b c d e f g h (suc (suc (suc (suc zero)))) lt = e
eight P a b c d e f g h (suc (suc (suc (suc (suc zero))))) lt = f
eight P a b c d e f g h (suc (suc (suc (suc (suc (suc zero)))))) lt = g
eight P a b c d e f g h (suc (suc (suc (suc (suc (suc (suc zero))))))) lt = h
eight P a b c d e f g h (suc (suc (suc (suc (suc (suc (suc (suc j)))))))) lt = absurd (omega arith)

module _ (bs : ℕ → ℕ) (h : AreBytes bs) where
  pub byte-pack : (j : ℕ) → j < 8 → byte (pack bs 8) j ≡ bs j
  byte-pack = eight (λ j. byte (pack bs 8) j ≡ bs j) a0 a1 a2 a3 a4 a5 a6 a7
    where
      a0 : byte (pack bs 8) 0 ≡ bs 0
      a0 = omega (arith, h 0)

      a1 : byte (pack bs 8) 1 ≡ bs 1
      a1 = omega (arith, h 0, h 1)

      a2 : byte (pack bs 8) 2 ≡ bs 2
      a2 = omega (arith, h 0, h 1, h 2)

      a3 : byte (pack bs 8) 3 ≡ bs 3
      a3 = omega (arith, h 0, h 1, h 2, h 3)

      a4 : byte (pack bs 8) 4 ≡ bs 4
      a4 = omega (arith, h 0, h 1, h 2, h 3, h 4)

      a5 : byte (pack bs 8) 5 ≡ bs 5
      a5 = omega (arith, h 0, h 1, h 2, h 3, h 4, h 5)

      a6 : byte (pack bs 8) 6 ≡ bs 6
      a6 = omega (arith, h 0, h 1, h 2, h 3, h 4, h 5, h 6)

      a7 : byte (pack bs 8) 7 ≡ bs 7
      a7 = omega (arith, h 0, h 1, h 2, h 3, h 4, h 5, h 6, h 7)

  shifted : (i : ℕ) → i < 8 → bs i <<< (i * 8) ≡ bs i * 2 ^ (8 * i)
  shifted =
      eight (λ i. bs i <<< (i * 8) ≡ bs i * 2 ^ (8 * i)) (omega (arith, h 0)) (omega (arith, h 1))
        (omega (arith, h 2)) (omega (arith, h 3)) (omega (arith, h 4)) (omega (arith, h 5))
        (omega (arith, h 6)) (omega (arith, h 7))

  -- `acc |= byte <<< shift` adds one byte above those that are there.
  pub or_byte : (i : ℕ) → i < 8 → bit_or (pack bs i) (bs i <<< (i * 8)) ≡ pack bs (suc i)
  or_byte i lt =
      rw (shifted i lt)
        (bit_or_high (8 * i) (bs i) (pack bs i) (pack_lt bs i h (omega arith)) ∙ add_comm _ _)

-- A 64-bit word is the pack of its bytes.
pub pack-byte : (v : ℕ) → pack (byte v) 8 ≡ v % 2 ^ 64
pack-byte v = omega arith

-- The ones above and below a byte at bit `k`, with `m` of them above.
masked :
    (k m v : ℕ)
    → bit_and v ((2 ^ m - 1) * 2 ^ (k + 8) + (2 ^ k - 1))
      ≡ v / 2 ^ (k + 8) % 2 ^ m * 2 ^ (k + 8) + v % 2 ^ k
masked k m v = ground (
  arith,
  pow_add k 8,
  one-le-pow k 2,
  div-add-mod' v (2 ^ (k + 8)),
  bit_and_fields (k + 8) (v / 2 ^ (k + 8)) (2 ^ m - 1) (v % 2 ^ (k + 8)) (2 ^ k - 1),
  bit_and_mask m (v / 2 ^ (k + 8)),
  bit_and_mask k (v % 2 ^ (k + 8)),
  mod-mod_of_dvd (2 ^ k) {b = 2 ^ (k + 8)} v (rw (pow_add k 8) (dvd-mul_right (2 ^ k) (2 ^ 8))),
)

field_lt : (k c : ℕ) → c < 256 → c * 2 ^ k < 2 ^ (k + 8)
field_lt k c lt = rw (pow_add k 8) (let pos = one-le-pow k 2 (omega arith) in grind arith)

low_lt : (k v : ℕ) → v % 2 ^ k < 2 ^ k
low_lt k v = mod-lt v (one-le-pow k 2 (omega arith))

-- `(v & mask) | (c <<< k)`, by fields.
replaced :
    (k m v c : ℕ)
    → c < 256
    → bit_or (bit_and v ((2 ^ m - 1) * 2 ^ (k + 8) + (2 ^ k - 1))) (c * 2 ^ k)
      ≡ v / 2 ^ (k + 8) % 2 ^ m * 2 ^ (k + 8) + (c * 2 ^ k + v % 2 ^ k)
replaced k m v c lt =
    let low = low_lt k v in
    let field = field_lt k c lt in
    let below : v % 2 ^ k < 2 ^ (k + 8) = omega (arith, pow_add k 8) in
    rw (masked k m v) (
      ground (
        arith,
        bit_or_fields (k + 8) (v / 2 ^ (k + 8) % 2 ^ m) 0 (v % 2 ^ k) (c * 2 ^ k) below field,
        bit_or-zero (v / 2 ^ (k + 8) % 2 ^ m),
        bit_or_high k c (v % 2 ^ k) low,
      ))

-- The bytes of `v` with `c` at `i`.
abbrev pub put : ℕ → ℕ → ℕ → ℕ → ℕ
put i c v j = if j == i then c else byte v j

-- What `set_pmpcfg` writes: byte `i` replaced, the other seven kept.
pub set_byte :
    (v c i : ℕ)
    → c < 256
    → i < 8
    → bit_or (bit_and v (not64 (0xff <<< (i * 8)))) (c <<< (i * 8)) ≡ pack (put i c v) 8
set_byte v c i lt lt' =
    eight (λ i. bit_or (bit_and v (not64 (0xff <<< (i * 8)))) (c <<< (i * 8)) ≡ pack (put i c v) 8)
      (at 0 56 (omega arith) (omega arith)) (at 8 48 (omega arith) (omega arith))
      (at 16 40 (omega arith) (omega arith)) (at 24 32 (omega arith) (omega arith))
      (at 32 24 (omega arith) (omega arith)) (at 40 16 (omega arith) (omega arith))
      (at 48 8 (omega arith) (omega arith)) (at 56 0 (omega arith) (omega arith)) i lt'
  where
    at :
        (k m : ℕ) {r : ℕ}
        → c * 2 ^ k % 2 ^ 64 ≡ c * 2 ^ k
        → v / 2 ^ (k + 8) % 2 ^ m * 2 ^ (k + 8) + (c * 2 ^ k + v % 2 ^ k) ≡ r
        → bit_or (bit_and v ((2 ^ m - 1) * 2 ^ (k + 8) + (2 ^ k - 1))) (c * 2 ^ k % 2 ^ 64) ≡ r
    at k m e q = rw e (replaced k m v c lt ∙ q)

-- The mask of the lower four bytes.
pub low_word :
    (v i : ℕ) → i < 8 → byte (bit_and v 0xffff_ffff) i ≡ (if ltb i 4 then byte v i else 0)
low_word v =
    eight (λ i. byte (bit_and v 0xffff_ffff) i ≡ (if ltb i 4 then byte v i else 0))
      (omega (arith, bit_and_mask 32 v)) (omega (arith, bit_and_mask 32 v))
      (omega (arith, bit_and_mask 32 v)) (omega (arith, bit_and_mask 32 v))
      (omega (arith, bit_and_mask 32 v)) (omega (arith, bit_and_mask 32 v))
      (omega (arith, bit_and_mask 32 v)) (omega (arith, bit_and_mask 32 v))

-- `kernel_cfg0_bits | task_cfg0_high`.
pub join_words :
    (v h i : ℕ)
    → h % 2 ^ 32 ≡ 0
    → i < 8
    → byte (bit_or (bit_and v 0xffff_ffff) h) i ≡ (if ltb i 4 then byte v i else byte h i)
join_words v h i e lt = rw joined (halves i lt)
  where
    joined : bit_or (bit_and v 0xffff_ffff) h ≡ h + v % 2 ^ 32
    joined =
        let q : h ≡ h / 2 ^ 32 * 2 ^ 32 = omega arith in
        let low : v % 2 ^ 32 < 2 ^ 32 = omega arith in
        ground (arith, bit_and_mask 32 v, bit_or_high 32 (h / 2 ^ 32) (v % 2 ^ 32) low)

    halves : (i : ℕ) → i < 8 → byte (h + v % 2 ^ 32) i ≡ (if ltb i 4 then byte v i else byte h i)
    halves =
        eight (λ i. byte (h + v % 2 ^ 32) i ≡ (if ltb i 4 then byte v i else byte h i))
          (omega arith) (omega arith) (omega arith) (omega arith) (omega arith) (omega arith)
          (omega arith) (omega arith)
