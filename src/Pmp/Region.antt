-- ===== src/Pmp/Region.antt =====
-- crates/kernel/src/pmp.rs: flags and region descriptors. The arithmetic wraps at 2 ^ 64, as in the
-- release build, which also leaves `debug_assert!` out.
use cyptos.Prelude.{ℕ, ◌+◌, ◌-◌, ◌/◌, ◌^◌, bit_or, u64, ◌<<<◌, ◌>>>◌}

abbrev pub flag_r : ℕ
flag_r = 0b0000_0001 <<< 0

abbrev pub flag_w : ℕ
flag_w = 0b0000_0001 <<< 1

abbrev pub flag_x : ℕ
flag_x = 0b0000_0001 <<< 2

abbrev pub a_off : ℕ
a_off = 0b0000_0000 <<< 3

abbrev pub a_tor : ℕ
a_tor = 0b0000_0001 <<< 3

abbrev pub a_na4 : ℕ
a_na4 = 0b0000_0010 <<< 3

abbrev pub a_napot : ℕ
a_napot = 0b0000_0011 <<< 3

abbrev pub flag_l : ℕ
flag_l = 0b0000_0001 <<< 7

abbrev pub flag_rw : ℕ
flag_rw = bit_or flag_r flag_w

abbrev pub flag_rx : ℕ
flag_rx = bit_or flag_r flag_x

pub record PmpRegion : Type 0 where
  pub base : ℕ
  pub size : ℕ
  pub flags : ℕ

abbrev pub new : ℕ → ℕ → ℕ → PmpRegion
new base size flags = record { base = base; size = size; flags = flags }

unfoldable pub napot_addr : PmpRegion → ℕ
napot_addr region = u64 (region.base + u64 (region.size / 2 + 2 ^ 64 - 1)) >>> 2
