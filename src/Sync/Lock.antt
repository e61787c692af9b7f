-- ===== src/Sync/Lock.antt =====
-- `with_lock`: the body runs with MIE clear, and mstatus is given back.
use cyptos.Prelude.{
  ℕ, ◌+◌, ◌-◌, ◌*◌, ◌/◌, ◌%◌, ◌^◌, ◌<◌, ◌≡◌, ◌∙◌, arith, bit_and, bit_and_fields, bit_or_fields,
  bit_and_mask, bit_and-zero, bit_or-zero, bit_or_high, ◌==◌, Bool, true, false, if◌then◌else◌, ap,
}
use cyptos.Arch.Csr.{set_bits, clear_bits}
use cyptos.Machine.{Machine, M, done, ◌>>◌, pure, set_csr, bind_done}
use cyptos.Sync.{with_lock}

-- Bit 3 of a 64-bit value, cleared.
clear_mie : (v : ℕ) → v < 2 ^ 64 → clear_bits 8 v ≡ v / 16 * 16 + v % 8
unfolding clear_bits
clear_mie v lt = ground (
  arith,
  bit_and_fields 4 (v / 16) (2 ^ 60 - 1) (v % 16) 7,
  bit_and_mask 60 (v / 16),
  bit_and_mask 3 (v % 16),
)

set_mie : (v : ℕ) → set_bits 8 (v / 16 * 16 + v % 8) ≡ v / 16 * 16 + 8 + v % 8
unfolding set_bits
set_mie v =
    ground
      (arith, bit_or_fields 4 (v / 16) 0 (v % 8) 8, bit_or-zero (v / 16), bit_or_high 3 1 (v % 8))

test_mie : (v : ℕ) → bit_and v 8 ≡ v / 8 % 2 * 8
test_mie v = ground (
  arith,
  bit_and_fields 4 (v / 16) 0 (v % 16) 8,
  bit_and-zero (v / 16),
  bit_and_fields 3 (v % 16 / 8) 1 (v % 8) 0,
  bit_and-zero (v % 8),
  bit_and_mask 1 (v % 16 / 8),
)

-- The machine that the body sees.
abbrev pub masked : Machine → Machine
masked m = record m { csr = record (m.csr) { mstatus = clear_bits 8 m.csr.mstatus } }

-- The restored value, by whether MIE was set.
restored :
    (v : ℕ)
    → v < 2 ^ 64
    → (if bit_and v 8 == 0 then clear_bits 8 v else set_bits 8 (clear_bits 8 v)) ≡ v
restored v lt = rw (clear_mie v lt, test_mie v, set_mie v) (ground arith)

-- `m` with mstatus as given.
abbrev pub with_mstatus : ℕ → Machine → Machine
with_mstatus v m = record m { csr = record (m.csr) { mstatus = v } }

leave : {R : Type 0} → Bool → R → M R
leave b r =
    if b then pure r else (do set_csr (λ c. record c { mstatus = set_bits 8 c.mstatus }); pure r)

leave_lem :
    {R : Type 0} (b : Bool) (r : R) (m : Machine) (v w : ℕ)
    → m.csr.mstatus ≡ w
    → (if b then w else set_bits 8 w) ≡ v
    → leave b r m ≡ done r (with_mstatus v m)
unfolding leave
leave_lem true r m v w e h = ap (λ x. done r (with_mstatus x m)) (e ∙ h)
leave_lem false r m v w e h = ap (λ x. done r (with_mstatus x m)) (ap (set_bits 8) e ∙ h)

-- With mstatus below 2 ^ 64, a body that returns and leaves mstatus alone has run with MIE (bit 3) clear, and after the lock
-- mstatus is what it was.
pub with_lock_lem :
    {R : Type 0} (f : M R) (m m' : Machine) (r : R)
    → m.csr.mstatus < 2 ^ 64
    → f (masked m) ≡ done r m'
    → m'.csr.mstatus ≡ (masked m).csr.mstatus
    → ((masked m).csr.mstatus / 8 % 2 ≡ 0)
      × (with_lock f m ≡ done r (with_mstatus m.csr.mstatus m'))
unfolding with_lock leave
with_lock_lem f m m' r lt e kept = (
  rw (clear_mie m.csr.mstatus lt) (omega arith),
  bind_done f (leave (bit_and m.csr.mstatus 8 == 0)) (masked m) m' r e
      ∙ leave_lem (bit_and m.csr.mstatus 8 == 0) r m' m.csr.mstatus (clear_bits 8 m.csr.mstatus)
          kept (restored m.csr.mstatus lt),
)
