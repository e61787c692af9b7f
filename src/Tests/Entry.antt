-- ===== src/Tests/Entry.antt =====
-- A small image and a bare register file, and the theorems on what runs before the scheduler applied to them.
use cyptos.Prelude.{ℕ, ◌≡◌, ◌≢◌, refl, ◌⊎◌, arith}
use cyptos.Boot.Entry.{EntrySymbols, in_kmain, parked, start, Cleared, start_lem}
use cyptos.Serial.Setup
use cyptos.Serial.Setup.{Registers, written, init_lem}
use cyptos.Serial.Uart.{Device}

abbrev symbols : EntrySymbols
symbols = record { stack_top = 0x8010_0000; sbss = 0x8000_8003; ebss = 0x8000_8006 }

start_lem_example :
    ((◌≡◌ {A = ℕ} 0 0)
      × (mem' : ℕ → ℕ) × (start 4 symbols 0 (λ a. a) ≡ in_kmain 0x8010_0000 mem')
      × Cleared 0x8000_8003 0x8000_8006 (λ a. a) mem')
    ⊎ ((◌≢◌ {A = ℕ} 0 0) × (start 4 symbols 0 (λ a. a) ≡ parked))
start_lem_example = start_lem 4 symbols 0 (λ a. a) (omega arith)

abbrev port : Device
port = record { State = Registers; read = λ off r. (0, r); write = written }

abbrev at_reset : Registers
at_reset = record { ier = 0; fcr = 0; lcr = 0; dll = 0; dlm = 0 }

init_lem_example :
    ◌≡◌ {A = Registers}
      (Setup.init port at_reset)
      (record { ier = 0; fcr = 7; lcr = 3; dll = 1; dlm = 0 })
init_lem_example = init_lem port (λ r. r) (λ off v s. refl) at_reset refl
