-- ===== src/Pmp/Save.antt =====
-- The functions of crates/kernel/src/pmp.rs that only read the registers: `save_current_config` and `dump_config`.
use native.Mathlib.Nat.{mod-eq_of_lt, div-add-mod'}
use cyptos.Prelude.{
  ℕ, zero, suc, ◌+◌, ◌-◌, ◌*◌, ◌/◌, ◌%◌, ◌^◌, ◌<◌, ◌≤◌, ◌≡◌, ◌∙◌, ap, arith, List, [], ◌∷◌, ltb,
  if◌then◌else◌, Bool-cases, inl, inr, false, bit_and, bit_and_mask, ◌<<<◌, ◌>>>◌, ap₂,
  pow_of_eight_le, ◌==◌, ==_ne,
}
use cyptos.Config.{pmp_count}
use cyptos.Pmp.Hart.{PmpRegs, byte, cfg}
use cyptos.Pmp.Napot.{IsNapot, pow_three}
use cyptos.Pmp.Load.{IsInstalled, IsGrant, region_at}
use cyptos.Pmp.Region.{PmpRegion, new, napot_addr}
use cyptos.Serial.{Console, puts, put_hex}

-- The value of one entry of `out`.
unfoldable pub save_entry : PmpRegs → ℕ → PmpRegion
save_entry regs idx =
    let cfg_val =
      if ltb idx 8
      then bit_and (regs.cfg0 >>> (idx % 8 * 8)) 0xff
      else bit_and (regs.cfg2 >>> (idx % 8 * 8)) 0xff in
    let addr = regs.addr idx in new (addr <<< 2) 8 cfg_val

-- The loop, with `left` entries to go.
save_entries : PmpRegs → ℕ → ℕ → List PmpRegion
save_entries regs zero idx = []
save_entries regs (suc left) idx = save_entry regs idx ∷ save_entries regs left (idx + 1)

unfoldable pub save_current_config : PmpRegs → List PmpRegion
unfolding save_entries save_entry
save_current_config regs = save_entries regs pmp_count 0

unfoldable pub dump_config : PmpRegs → Console → Console
unfolding puts put_hex
dump_config regs k =
    let k1 = puts "[pmp] Configuration:\n" k in
    let k2 = put_hex regs.cfg0 (puts "  pmpcfg0: " k1) in
    let k3 = put_hex regs.cfg2 (puts "\n  pmpcfg2: " k2) in puts "\n" k3

region_at-save_entries :
    (regs : PmpRegs) (left idx i : ℕ)
    → i < left
    → region_at (save_entries regs left idx) i ≡ save_entry regs (idx + i)
unfolding save_entries
region_at-save_entries regs zero idx i lt = absurd (omega arith)
region_at-save_entries regs (suc left) idx zero lt = ap (save_entry regs) (omega arith)
region_at-save_entries regs (suc left) idx (suc i) lt =
    region_at-save_entries regs left (idx + 1) i (omega arith) ∙ ap (save_entry regs) (omega arith)

shifted_byte : (v k : ℕ) → bit_and (v >>> (k * 8)) 0xff ≡ byte v k
shifted_byte v k =
    bit_and_mask 8 (v >>> (k * 8))
    ∙ (let e : k * 8 ≡ 8 * k = omega arith in ap (λ (x : ℕ). v / 2 ^ x % 256) e)

save_entry_lem :
    (regs : PmpRegs) (i : ℕ)
    → i < 16
    → save_entry regs i ≡ new (regs.addr i * 4 % 2 ^ 64) 8 (cfg regs i)
unfolding save_entry
save_entry_lem regs i lt = elim (Bool-cases (ltb i 8)) [
  | inl low ↦ rw low (
      ap (new (regs.addr i * 4 % 2 ^ 64) 8) (
        shifted_byte regs.cfg0 (i % 8)
        ∙ ap (byte regs.cfg0) (mod-eq_of_lt {n = i} {m = 8} (ground arith))))
  | inr high ↦ rw high (ap (new (regs.addr i * 4 % 2 ^ 64) 8) (shifted_byte regs.cfg2 (i % 8)))
]

pub region_at-save_current_config :
    (regs : PmpRegs) (i : ℕ)
    → i < 16
    → region_at (save_current_config regs) i ≡ new (regs.addr i * 4 % 2 ^ 64) 8 (cfg regs i)
unfolding save_current_config
region_at-save_current_config regs i lt =
    region_at-save_entries regs 16 0 i lt
    ∙ (ap (save_entry regs) (omega arith) ∙ save_entry_lem regs i lt)

regroup : (k t : ℕ) → k * (8 * t) ≡ 8 * (k * t)
regroup k t = grind arith

-- The address of a region, as bytes.
napot_addr-bytes :
    (region : PmpRegion)
    → IsNapot region
    → napot_addr region * 4 ≡ region.base + (region.size / 2 - 4)
unfolding napot_addr
napot_addr-bytes region v =
    let (e, hs) = pow_of_eight_le region.size v.power v.least in
    let q = region.base / region.size in
    let scaled : region.base ≡ 8 * (q * 2 ^ e) = omega (
      arith,
      v.aligned,
      div-add-mod' region.base region.size,
      ap (λ (t : ℕ). q * t) (hs ∙ pow_three e),
      regroup q (2 ^ e),
    ) in
    omega (arith, v.within, v.least, hs, pow_three e)

-- What `save_current_config` stores for entry `i` of an installed task, a NAPOT grant: 8 bytes, in the middle of
-- the region and not at its base, with the entry's whole configuration byte.
pub save_current_config-IsInstalled :
    (regions : List PmpRegion) (before after : PmpRegs) (i : ℕ)
    → IsInstalled regions before after
    → 4 ≤ i
    → i < 16
    → IsGrant (region_at regions i)
    → region_at (save_current_config after) i
      ≡ new
          ((region_at regions i).base + ((region_at regions i).size / 2 - 4))
          8
          ((region_at regions i).flags + 24)
save_current_config-IsInstalled regions before after i h lo hi g =
    let region = region_at regions i in
    let shape = g.shape in
    let on : (region.size == 0) ≡ false =
      ==_ne region.size 0 (λ e. absurd (omega (arith, shape.least))) in
    let bytes = napot_addr-bytes region shape in
    region_at-save_current_config after i hi
    ∙ ap₂ (λ (a : ℕ) c. new (a * 4 % 2 ^ 64) 8 c) (h.task_addr i lo hi) (h.task_cfg i lo hi)
    ∙ rw (on, bytes)
        (ap (λ a. new a 8 (region.flags + 24))
          (mod-eq_of_lt {n = region.base + (region.size / 2 - 4)} {m = 2 ^ 64}
            (omega (arith, shape.within))))
