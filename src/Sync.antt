-- ===== src/Sync.antt =====
-- crates/kernel/src/sync: `IrqCell::with_lock` over the machine, and `AtomicCounter`.
pub mod Lock
use cyptos.Prelude.{ℕ, ◌+◌, ◌≡◌, ◌==◌, bit_and, if◌then◌else◌, u64, ◌<<<◌}
use cyptos.Arch.Csr.{set_bits, clear_bits}
use cyptos.Machine.{Machine, M, ◌>>=◌, ◌>>◌, pure, set_csr, csr_of}

-- `f` runs with MIE cleared; MIE is set again only if it was set before.
unfoldable pub with_lock : {R : Type 0} → M R → M R
unfolding set_bits clear_bits
with_lock f = do
  mstatus ← csr_of (λ c. c.mstatus)
  set_csr (λ c. record c { mstatus = clear_bits (1 <<< 3) c.mstatus })
  result ← f
  if bit_and mstatus (1 <<< 3) == 0
      then pure result
      else (do set_csr (λ c. record c { mstatus = set_bits (1 <<< 3) c.mstatus }); pure result)

-- `AtomicCounter`: the old value, and the wrapped sum.
unfoldable pub increment : ℕ → ℕ × ℕ
increment inner = (inner, u64 (inner + 1))

unfoldable pub get : ℕ → ℕ
get inner = inner
