-- ===== src/Boot/Panic.antt =====
-- What follows a trap that the kernel does not recover from: the panic handler of crates/kernel/src/main.rs.
use cyptos.Prelude.{
  ℕ, ◌+◌, ◌^◌, ◌<◌, ◌≡◌, ◌≢◌, refl, ◌∙◌, sym, Bool, true, false, String, Option, none, some,
}
use cyptos.Arch.Csr.{read_mpp}
use cyptos.Arch.Frame.{TrapFrame}
use cyptos.Boot.{panic}
use cyptos.Machine.{Machine, Outcome, done, panicked, say, dec}
use cyptos.Pmp.Hart.{PmpHart}
use cyptos.Serial.{Console}
use cyptos.Trap.{trap_handler}
use cyptos.Trap.Handle.{with_console}
use cyptos.Trap.Outcomes.{Handled, returns, schedules, kills, stops, recovers, trap_handler-Handled}

true≢false : true ≢ false
true≢false = λ e. cc

panic_lem :
    (location : Option (String × ℕ)) (m : Machine)
    → (k : Console) × (panic location m ≡ done tt (with_console k m))
unfolding panic say dec
panic_lem none m = (_, refl)
panic_lem (some (file, line)) m = (_, refl)

fatal :
    (hart : PmpHart) (frame : TrapFrame) (m : Machine) (ok : Bool) (r : Outcome TrapFrame)
    → Handled hart frame m ok r
    → ok ≡ false
    → (k : Console) × (r ≡ panicked (with_console k m))
fatal hart frame m ok r (returns f n h q e) is_false = absurd (true≢false (sym h ∙ is_false))
fatal hart frame m ok r (schedules n h q e) is_false = absurd (true≢false (sym h ∙ is_false))
fatal hart frame m ok r (kills n h q user e) is_false = absurd (true≢false (sym h ∙ is_false))
fatal hart frame m ok r (stops k h e) is_false = (k, e)

-- A trap that the kernel does not recover from, with mtime more than 100000 below 2 ^ 64: the kernel panics, and once
-- the panic handler has printed and waits, nothing but the console is other than when the trap was taken.
pub trap_handler-fatal :
    (hart : PmpHart) (frame : TrapFrame) (m : Machine) (location : Option (String × ℕ))
    → m.clint.mtime + 100_000 < 2 ^ 64
    → recovers m.csr.mcause (read_mpp m.csr) ≡ false
    → (m' : Machine) × (trap_handler hart frame m ≡ panicked m')
      × ((k : Console) × (panic location m' ≡ done tt (with_console k m)))
trap_handler-fatal hart frame m location fits dies =
    let (k, e) = fatal hart frame m _ _ (trap_handler-Handled hart frame m fits) dies in
    let (k', p) = panic_lem location (with_console k m) in (with_console k m, e, (k', p))
