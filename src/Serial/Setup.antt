-- ===== src/Serial/Setup.antt =====
-- `init` of crates/kernel/src/serial/uart16550.rs on a UART with registers.
use cyptos.Prelude.{ℕ, ◌/◌, ◌%◌, ◌==◌, ◌≡◌, refl, ◌∙◌, ap, Bool, false, if◌then◌else◌}
use cyptos.Serial.Uart.{Device}

-- The registers of a 16550 that configure it. While bit 7 (DLAB) of the line control is set, offsets 0 and 1
-- are the divisor; else they are the data register and the interrupt enables.
pub record Registers : Type 0 where
  pub ier : ℕ
  pub fcr : ℕ
  pub lcr : ℕ
  pub dll : ℕ
  pub dlm : ℕ

abbrev pub dlab : Registers → Bool
dlab r = r.lcr / 128 % 2 == 1

abbrev pub written : ℕ → ℕ → Registers → Registers
written off v r =
    if off == 0
    then (if dlab r then record r { dll = v } else r)
    else if off == 1
    then (if dlab r then record r { dlm = v } else record r { ier = v })
    else if off == 2
    then record r { fcr = v }
    else if off == 3
    then record r { lcr = v }
    else r

module _ (dev : Device) where
  open dev use {State, write}

  unfoldable pub init : State → State
  init s =
      let s1 = write 1 0x00 s in
      let s2 = write 3 0x80 s1 in
      let s3 = write 0 0x01 s2 in
      let s4 = write 1 0x00 s3 in let s5 = write 3 0b0000_0011 s4 in write 2 0x07 s5

  -- On a 16550 whose DLAB is clear, `init` leaves interrupts off, the divisor 1, eight data bits without parity
  -- and with one stop bit, DLAB clear, and the FIFOs enabled.
  pub init_lem :
      (view : State → Registers)
      → ((off v : ℕ) (s : State) → view (write off v s) ≡ written off v (view s))
      → (s : State) → dlab (view s) ≡ false
      → view (init s) ≡ record { ier = 0; fcr = 7; lcr = 3; dll = 1; dlm = 0 }
  unfolding init
  init_lem view law s clear =
      law 2 7 _
      ∙ ap (written 2 7) (
          law 3 3 _
          ∙ ap (written 3 3) (
              law 1 0 _
              ∙ ap (written 1 0)
                  (law 0 1 _ ∙ ap (written 0 1) (law 3 0x80 _ ∙ ap (written 3 0x80) (law 1 0 s)))))
      ∙ rw clear refl
