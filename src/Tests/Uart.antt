-- ===== src/Tests/Uart.antt =====
-- A UART that needs one read of its line status after each byte, and the polling functions on it.
use cyptos.Prelude.{
  ℕ, ◌+◌, ◌-◌, ◌≤◌, ◌≡◌, refl, ap, arith, List, [], ◌∷◌, some, Bool, true, false, not, bit_and,
  ◌==◌, if◌then◌else◌,
}
use cyptos.Serial
use cyptos.Serial.{Console, put_bytes}
use cyptos.Serial.Uart.{Device, IsUart, is_empty, puts, try_getc, puts_lem, try_getc_lem}

record Wire : Type 0 where
  console : Console
  filling : Bool

abbrev status : Bool → List ℕ → ℕ
status filling rx = (if filling then 0 else 32) + (if is_empty rx then 0 else 1)

abbrev received_byte : List ℕ → ℕ
received_byte [] = 0
received_byte (c ∷ cs) = c

abbrev rest : List ℕ → List ℕ
rest [] = []
rest (c ∷ cs) = cs

abbrev wire : Device
wire = record {
  State = Wire;
  read = λ off s.
      if off == 5 then (status s.filling s.console.rx, record s { filling = false }) else (
        received_byte s.console.rx,
        record s { console = record (s.console) { rx = rest s.console.rx } },
      );
  write = λ off c s. record { console = Serial.putc c s.console; filling = true };
}

abbrev level : Bool → ℕ
level filling = if filling then 1 else 0

level_le : (b : Bool) → level b ≤ 1
level_le true = omega arith
level_le false = omega arith

level_read : (b : Bool) → 0 ≡ level b - 1
level_read true = refl
level_read false = refl

status_tx : (b : Bool) (rx : List ℕ) → (bit_and (status b rx) 32 == 0) ≡ not (level b == 0)
status_tx true [] = refl
status_tx true (c ∷ cs) = refl
status_tx false [] = refl
status_tx false (c ∷ cs) = refl

status_rx : (b : Bool) (rx : List ℕ) → (bit_and (status b rx) 1 == 0) ≡ is_empty rx
status_rx true [] = refl
status_rx true (c ∷ cs) = refl
status_rx false [] = refl
status_rx false (c ∷ cs) = refl

abbrev wire_uart : IsUart wire 1
wire_uart = record {
  view = λ s. s.console;
  busy = λ s. level s.filling;
  drains = λ s. level_le s.filling;
  status_view = λ s. refl;
  status_busy = λ s. level_read s.filling;
  tx_empty = λ s. status_tx s.filling s.console.rx;
  rx_ready = λ s. status_rx s.filling s.console.rx;
  rbr = λ s c cs e.
      (ap received_byte e, ap {A = List ℕ} (λ rx. record (s.console) { rx = rest rx }) e);
  thr = λ c s e. refl;
}

abbrev idle : Wire
idle = record { console = record { sent = []; rx = 65 ∷ 66 ∷ [] }; filling = true }

puts_lem_example :
    (s' : Wire) × (puts wire 2 (72 ∷ 10 ∷ []) idle ≡ some s')
    × (s'.console ≡ put_bytes (72 ∷ 10 ∷ []) idle.console)
puts_lem_example = puts_lem wire 1 wire_uart (72 ∷ 10 ∷ []) idle

try_getc_lem_example :
    ((try_getc wire idle).0 ≡ (Serial.try_getc idle.console).0)
    × ((try_getc wire idle).1.console ≡ (Serial.try_getc idle.console).1)
try_getc_lem_example = try_getc_lem wire 1 wire_uart idle
