-- ===== src/Trap.antt =====
-- crates/kernel/src/trap.rs: the trap handler, from the cause to the effect on the machine and on the
-- frame. A code path that panics in the source ends in `panicked`.
pub mod Handle
pub mod Fault
pub mod Outcomes
pub mod Causes
pub mod Steady
pub mod Vector
use cyptos.Prelude.{
  ℕ, ◌+◌, ◌%◌, String, Option, none, some, bit_and, ◌==◌, if◌then◌else◌, u8, u64, ◌>>>◌,
}
use cyptos.Config.{sys_getc, sys_putc, sys_legacy_poc}
use cyptos.Arch.Csr.{read_mpp}
use cyptos.Arch.Frame.{TrapFrame}
use cyptos.Pmp.Hart.{PmpHart}
use cyptos.Serial.{putc, put_hex, try_getc}
use cyptos.Machine.{
  M, ◌>>=◌, ◌>>◌, pure, panic, done, modify, csr_of, set_csr, say, dec, write_mepc,
}
use cyptos.Sched.Scheduler.{schedule, kill_current}
use cyptos.Timer.{increment_tick, get_tick_count, schedule_next_tick}

-- `{:#x}` of `println!`.
unfoldable pub hex : ℕ → M (Unit {0})
hex n = modify λ m. record m { console = put_hex n m.console }

unfoldable pub init : ℕ → M (Unit {0})
init trap_vector = do
  set_csr λ c. record c { mtvec = trap_vector }
  say "[trap] mtvec initialized\n"

unfoldable pub panic_exception : {A : Type 0} → String → ℕ → ℕ → M A
unfolding hex
panic_exception name mepc mtval = do
  say "[trap] FATAL: "
  say name
  say "\n  mepc:  "
  hex mepc
  say "\n  mtval: "
  hex mtval
  say "\n"
  panic

-- `Option::unwrap_or`.
abbrev pub unwrap_or : Option ℕ → ℕ → ℕ
unwrap_or none d = d
unwrap_or (some c) d = c

unfoldable pub handle_syscall : TrapFrame → M TrapFrame
handle_syscall frame =
    if frame.a7 == sys_getc
    then (λ m.
        let (received, console) = try_getc m.console in
        done (record frame { a0 = unwrap_or received 0xff }) (record m { console = console }))
    else if frame.a7 == sys_putc
    then (do modify λ m. record m { console = putc (u8 frame.a0) m.console }; pure frame)
    else if frame.a7 == sys_legacy_poc
    then (do say "[trap] U-mode POC ecall (legacy)\n"; pure frame)
    else (do say "[syscall] unknown: "; dec frame.a7; say "\n"; pure frame)

module _ (hart : PmpHart) where
  unfoldable pub handle_interrupt : ℕ → TrapFrame → M TrapFrame
  unfolding increment_tick get_tick_count schedule_next_tick
  handle_interrupt cause frame =
      if cause == 7
      then (do
        increment_tick
        ticks ← get_tick_count
        if ticks % 100 == 0 then (do say "[timer] tick "; dec ticks; say "\n") else pure tt
        schedule_next_tick
        schedule hart frame)
      else if cause == 11
      then (do say "[trap] External interrupt\n"; pure frame)
      else if cause == 3
      then (do say "[trap] Software interrupt\n"; pure frame)
      else (do say "[trap] Unknown interrupt: "; dec cause; say "\n"; pure frame)

  unfoldable pub handle_access_fault : String → ℕ → ℕ → TrapFrame → M TrapFrame
  unfolding panic_exception read_mpp
  handle_access_fault name mepc mtval frame = do
    mpp ← csr_of read_mpp
    if mpp == 0b00
        then (do
          say "[trap] U-mode access fault: "
          say name
          say " at mepc="
          hex mepc
          say " addr="
          hex mtval
          say "\n"
          kill_current hart frame)
        else panic_exception name mepc mtval

  -- `write_mepc(mepc + 4)` after the message of an environment call or a breakpoint.
  unfoldable pub skip_instruction : ℕ → TrapFrame → M TrapFrame
  unfolding write_mepc
  skip_instruction mepc frame = do write_mepc (u64 (mepc + 4)); pure frame

  unfoldable pub handle_exception : ℕ → ℕ → ℕ → TrapFrame → M TrapFrame
  unfolding handle_access_fault panic_exception handle_syscall skip_instruction
  handle_exception cause mepc mtval frame =
      if cause == 0
      then panic_exception "Instruction address misaligned" mepc mtval
      else if cause == 1
      then handle_access_fault "Instruction access fault" mepc mtval frame
      else if cause == 2
      then panic_exception "Illegal instruction" mepc mtval
      else if cause == 3
      then (do say "[trap] Breakpoint at "; hex mepc; say "\n"; skip_instruction mepc frame)
      else if cause == 4
      then panic_exception "Load address misaligned" mepc mtval
      else if cause == 5
      then handle_access_fault "Load access fault" mepc mtval frame
      else if cause == 6
      then panic_exception "Store address misaligned" mepc mtval
      else if cause == 7
      then handle_access_fault "Store access fault" mepc mtval frame
      else if cause == 8
      then (do frame' ← handle_syscall frame; skip_instruction mepc frame')
      else if cause == 9
      then (do say "[trap] Ecall from S-mode\n"; skip_instruction mepc frame)
      else if cause == 11
      then (do say "[trap] Ecall from M-mode\n"; skip_instruction mepc frame)
      else if cause == 12
      then panic_exception "Instruction page fault" mepc mtval
      else if cause == 13
      then panic_exception "Load page fault" mepc mtval
      else if cause == 15
      then panic_exception "Store page fault" mepc mtval
      else (do say "[trap] Unknown exception: "; dec cause; say " at "; hex mepc; say "\n"; panic)

  unfoldable pub trap_handler : TrapFrame → M TrapFrame
  unfolding handle_interrupt handle_exception
  trap_handler frame = do
    mcause ← csr_of (λ c. c.mcause)
    mepc ← csr_of (λ c. c.mepc)
    mtval ← csr_of (λ c. c.mtval)
    let is_interrupt = bit_and (mcause >>> 63) 1 == 1
    let cause_code = bit_and mcause 0x7fff_ffff_ffff_ffff
    if is_interrupt
        then handle_interrupt cause_code frame
        else handle_exception cause_code mepc mtval frame
