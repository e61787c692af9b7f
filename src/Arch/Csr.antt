-- ===== src/Arch/Csr.antt =====
-- crates/kernel/src/arch/csr.rs: the control and status registers. A register holds the 64-bit value
-- last written to it; `csrs` and `csrc` set and clear the bits of a mask.
use cyptos.Prelude.{ℕ, bit_and, bit_or, not64, ◌<<<◌, ◌>>>◌}

pub record Csr : Type 0 where
  pub mstatus : ℕ
  pub mcause : ℕ
  pub mepc : ℕ
  pub mtval : ℕ
  pub mtvec : ℕ
  pub mie : ℕ

-- `csr_set_bits!` and `csr_clear_bits!`, on the value of the register.
unfoldable pub set_bits : ℕ → ℕ → ℕ
set_bits bits val = bit_or val bits

unfoldable pub clear_bits : ℕ → ℕ → ℕ
clear_bits bits val = bit_and val (not64 bits)

abbrev pub mie_bit : ℕ
mie_bit = 1 <<< 3

abbrev pub mtie_bit : ℕ
mtie_bit = 1 <<< 7

-- `mstatus::read_mpp`.
unfoldable pub read_mpp : Csr → ℕ
read_mpp csr = bit_and (csr.mstatus >>> 11) 0b11

-- `mie::enable_timer` and `mie::disable_timer`.
unfoldable pub enable_timer : Csr → Csr
unfolding set_bits
enable_timer csr = record csr { mie = set_bits mtie_bit csr.mie }

unfoldable pub disable_timer : Csr → Csr
unfolding clear_bits
disable_timer csr = record csr { mie = clear_bits mtie_bit csr.mie }
