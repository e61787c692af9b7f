-- ===== src/Tests/Board.antt =====
-- A hart that keeps the laws of `PmpHart`: unlocked bytes and registers take what is written.
use cyptos.Prelude.{
  ℕ, ◌%◌, ◌^◌, ◌<◌, ◌≤◌, ◌≡◌, refl, ◌∙◌, true, false, not, ◌&&◌, arith, ◌==◌, ==_refl, ==_ne,
  if◌then◌else◌,
}
use cyptos.Pmp.Hart.{PmpRegs, PmpHart, byte, cfg, locked, addr_locked}
use cyptos.Pmp.Bytes.{pack, AreBytes, byte-pack}

abbrev pub new_bytes : ℕ → ℕ → ℕ → ℕ
new_bytes old v i = if locked (byte old i) then byte old i else byte v i

new_bytes-AreBytes : (old v : ℕ) → AreBytes (new_bytes old v)
new_bytes-AreBytes old v i lt = ground arith

abbrev pub write_cfg : ℕ → ℕ → ℕ
write_cfg old v = pack (new_bytes old v) 8

write_cfg-byte : (old v i : ℕ) → i < 8 → byte (write_cfg old v) i ≡ new_bytes old v i
write_cfg-byte old v = byte-pack (new_bytes old v) (new_bytes-AreBytes old v)

abbrev pub write_addr : ℕ → ℕ → PmpRegs → PmpRegs
write_addr i val regs = record regs {
  addr = λ j. if j == i && not (addr_locked regs i) then val % 2 ^ 54 else regs.addr j;
}

abbrev write_cfg0 : ℕ → PmpRegs → PmpRegs
write_cfg0 val regs = record regs { cfg0 = write_cfg regs.cfg0 val }

abbrev write_cfg2 : ℕ → PmpRegs → PmpRegs
write_cfg2 val regs = record regs { cfg2 = write_cfg regs.cfg2 val }

module _ (val : ℕ) (regs : PmpRegs) (i : ℕ) where
  low_cfg : i < 8 → cfg (write_cfg0 val regs) i ≡ new_bytes regs.cfg0 val i
  low_cfg lt = ground (arith, write_cfg-byte regs.cfg0 val i lt)

  high_cfg : 8 ≤ i → i < 16 → cfg (write_cfg2 val regs) i ≡ new_bytes regs.cfg2 val (i % 8)
  high_cfg lo hi = ground (arith, write_cfg-byte regs.cfg2 val (i % 8))

  pub low_locked : i < 8 → locked (cfg regs i) ≡ true → cfg (write_cfg0 val regs) i ≡ cfg regs i
  low_locked lt h = low_cfg lt ∙ ground arith

  pub low_open : i < 8 → locked (cfg regs i) ≡ false → cfg (write_cfg0 val regs) i ≡ byte val i
  low_open lt h = low_cfg lt ∙ ground arith

  pub high_locked :
      8 ≤ i → i < 16 → locked (cfg regs i) ≡ true → cfg (write_cfg2 val regs) i ≡ cfg regs i
  high_locked lo hi h = high_cfg lo hi ∙ ground arith

  pub high_open :
      8 ≤ i → i < 16 → locked (cfg regs i) ≡ false → cfg (write_cfg2 val regs) i ≡ byte val (i % 8)
  high_open lo hi h = high_cfg lo hi ∙ ground arith

abbrev pub board : PmpHart
board = record {
  csrw_cfg0 = write_cfg0;
  csrw_cfg2 = write_cfg2;
  csrw_addr = write_addr;
  cfg0_locked = low_locked;
  cfg0_open = λ val regs i lt h _. low_open val regs i lt h;
  cfg0_other = λ val regs i lo hi. ground arith;
  cfg0_addr = λ val regs i. refl;
  cfg2_locked = high_locked;
  cfg2_open = λ val regs i lo hi h _. high_open val regs i lo hi h;
  cfg2_other = λ val regs i lt. ground arith;
  cfg2_addr = λ val regs i. refl;
  addr_self = λ i val regs lt small h. ground (arith, ==_refl i);
  addr_sealed = λ i val regs lt h. ground (arith, ==_refl i);
  addr_other = λ i val regs j ne. ground (arith, ==_ne j i);
  addr_cfg0 = λ i val regs. refl;
  addr_cfg2 = λ i val regs. refl;
}
