-- ===== src/Trap/Handle.antt =====
-- `trap_handler` by cause: a tick, an environment call, a fault of a task and a fault of the kernel.
use cyptos.Prelude.{
  ℕ, ◌+◌, ◌%◌, ◌^◌, ◌<◌, ◌≡◌, refl, ◌⊎◌, inl, inr, ◌∙◌, ap, Bool, true, false, bit_and, ◌==◌,
  if◌then◌else◌, u8, u64, ◌>>>◌, ==_iff,
}
use cyptos.Config.{sys_getc}
use cyptos.Arch.Frame.{TrapFrame}
use cyptos.Pmp.Hart.{PmpHart}
use cyptos.Serial.{Console, putc, try_getc}
use cyptos.Machine.{Machine, Outcome, done, M, ◌>>◌, bind_done, modify, pure, say, dec, write_mepc}
use cyptos.Sched.Scheduler.{schedule}
use cyptos.Timer.{increment_tick, get_tick_count, schedule_next_tick}
use cyptos.Timer.Deadline.{armed, schedule_next_tick_lem}
use cyptos.Trap.{
  handle_syscall, handle_interrupt, skip_instruction, handle_exception, trap_handler, unwrap_or,
}

abbrev pub with_console : Console → Machine → Machine
with_console k m = record m { console = k }

abbrev pub with_mepc : ℕ → Machine → Machine
with_mepc v m = record m { csr = record (m.csr) { mepc = v } }

-- The frame that a system call gives back: all registers kept, but a0 for SYS_GETC.
abbrev pub Replied : TrapFrame → TrapFrame → Type 0
Replied frame frame' =
    (frame' ≡ frame) ⊎ ((frame.a7 ≡ sys_getc) × (c : ℕ) × (frame' ≡ record frame { a0 = c }))

-- `handle_syscall` by the outcomes of its three tests.
abbrev reply : TrapFrame → Bool → Bool → Bool → M TrapFrame
reply frame getc put poc =
    if getc
    then (λ m.
        let (received, console) = try_getc m.console in
        done (record frame { a0 = unwrap_or received 0xff }) (with_console console m))
    else if put
    then (do modify λ m. with_console (putc (u8 frame.a0) m.console) m; pure frame)
    else if poc
    then (do say "[trap] U-mode POC ecall (legacy)\n"; pure frame)
    else (do say "[syscall] unknown: "; dec frame.a7; say "\n"; pure frame)

abbrev pub Replies : TrapFrame → Outcome TrapFrame → Machine → Type 0
Replies frame r m =
    (frame' : TrapFrame) × (k : Console) × (r ≡ done frame' (with_console k m))
    × Replied frame frame'

reply-Replies :
    (frame : TrapFrame) (m : Machine) (getc put poc : Bool)
    → (getc ≡ true → frame.a7 ≡ sys_getc)
    → Replies frame (reply frame getc put poc m) m
unfolding say dec
reply-Replies frame m true put poc h = (_, _, refl, inr (h refl, _, refl))
reply-Replies frame m false true poc h = (frame, _, refl, inl refl)
reply-Replies frame m false false true h = (frame, _, refl, inl refl)
reply-Replies frame m false false false h = (frame, _, refl, inl refl)

pub handle_syscall-Replies :
    (frame : TrapFrame) (m : Machine) → Replies frame (handle_syscall frame m) m
unfolding handle_syscall
handle_syscall-Replies frame m =
    reply-Replies frame m (frame.a7 == 0) (frame.a7 == 1) (frame.a7 == 42) (==_iff frame.a7 0).0

module _ (hart : PmpHart) (frame : TrapFrame) where
  -- The body of `trap_handler` as a function of mcause.
  abbrev pub on_cause : ℕ → M TrapFrame
  on_cause mcause m =
      (if bit_and (mcause >>> 63) 1 == 1
          then handle_interrupt hart (bit_and mcause 0x7fff_ffff_ffff_ffff) frame
          else handle_exception hart (bit_and mcause 0x7fff_ffff_ffff_ffff) m.csr.mepc m.csr.mtval
              frame)
        m

  pub trap_handler_lem :
      (m : Machine) (c : ℕ) → m.csr.mcause ≡ c → trap_handler hart frame m ≡ on_cause c m
  unfolding trap_handler
  trap_handler_lem m c e = ap (λ x. on_cause x m) e

  -- An environment call from U-mode (cause 8) returns, resumes after the 4-byte instruction, and changes
  -- neither another CSR nor the PMP nor the scheduler's state; of the frame it changes at most a0, and that
  -- for SYS_GETC only.
  pub trap_handler-ecall :
      (m : Machine)
      → m.csr.mcause ≡ 8
      → (frame' : TrapFrame) × (k : Console) × (trap_handler hart frame m
          ≡ done frame' (with_console k (with_mepc (u64 (m.csr.mepc + 4)) m)))
        × Replied frame frame'
  unfolding handle_exception skip_instruction write_mepc
  trap_handler-ecall m e =
      let (frame', k, r, replied) = handle_syscall-Replies frame m in
      (
        frame',
        k,
        trap_handler_lem m 8 e
            ∙ bind_done (handle_syscall frame) (skip_instruction hart m.csr.mepc) m
                (with_console k m) frame' r,
        replied,
      )

  -- `m` after the counting and rearming of a timer tick, with the console at `k`.
  abbrev pub ticked : Console → Machine → Machine
  ticked k m =
      armed (m.clint.mtime + 100_000)
        (record m { tick_count = u64 (m.tick_count + 1); console = k })

  report : Bool → ℕ → M (Unit {0})
  report every ticks = if every then (do say "[timer] tick "; dec ticks; say "\n") else pure tt

  report_lem :
      (every : Bool) (ticks : ℕ) (m : Machine)
      → (k : Console) × (report every ticks m ≡ done tt (with_console k m))
  unfolding report say dec
  report_lem true ticks m = (_, refl)
  report_lem false ticks m = (m.console, refl)

  pub handle_interrupt-tick :
      (m : Machine)
      → m.clint.mtime + 100_000 < 2 ^ 64
      → (k : Console) × (handle_interrupt hart 7 frame m ≡ schedule hart frame (ticked k m))
  unfolding handle_interrupt increment_tick get_tick_count report
  handle_interrupt-tick m fits =
      let n = u64 (m.tick_count + 1) in
      let m1 = record m { tick_count = n } in
      let (k, r) = report_lem (n % 100 == 0) n m1 in
      let m2 = with_console k m1 in
      (
        k,
        bind_done (report (n % 100 == 0) n) (λ _. schedule_next_tick >> schedule hart frame) m1 m2
              tt r
            ∙ bind_done schedule_next_tick (λ _. schedule hart frame) m2 _ tt
                (schedule_next_tick_lem m2 fits),
      )

  -- A machine timer interrupt (mcause 2 ^ 63 + 7), with mtime more than 100000 below 2 ^ 64, counts the tick,
  -- arms the timer 100000 ticks (10 ms) ahead, writes at most to the console, and hands over to `schedule`.
  pub trap_handler-tick :
      (m : Machine)
      → m.csr.mcause ≡ 2 ^ 63 + 7
      → m.clint.mtime + 100_000 < 2 ^ 64
      → (k : Console) × (trap_handler hart frame m ≡ schedule hart frame (ticked k m))
  trap_handler-tick m e fits =
      let (k, r) = handle_interrupt-tick m fits in (k, trap_handler_lem m (2 ^ 63 + 7) e ∙ r)
