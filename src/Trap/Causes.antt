-- ===== src/Trap/Causes.antt =====
-- The causes that crates/kernel/src/trap.rs names, and the handler by these names.
use cyptos.Prelude.{ℕ, ◌≡◌, ◌≢◌, refl, sym, false, ◌==◌, ==_ne}
use cyptos.Arch.Frame.{TrapFrame}
use cyptos.Machine.{M, ◌>>=◌, ◌>>◌, panic, say, dec}
use cyptos.Pmp.Hart.{PmpHart}
use cyptos.Trap.{
  hex, panic_exception, handle_syscall, handle_access_fault, skip_instruction, handle_exception,
}

pub data Exception : Type 0 where
  instruction_misaligned instruction_access_fault illegal_instruction breakpoint load_misaligned :
      Exception
  load_access_fault store_misaligned store_access_fault ecall_from_u ecall_from_s ecall_from_m :
      Exception
  instruction_page_fault load_page_fault store_page_fault : Exception

-- The discriminant.
abbrev pub exception_code : Exception → ℕ
exception_code instruction_misaligned = 0
exception_code instruction_access_fault = 1
exception_code illegal_instruction = 2
exception_code breakpoint = 3
exception_code load_misaligned = 4
exception_code load_access_fault = 5
exception_code store_misaligned = 6
exception_code store_access_fault = 7
exception_code ecall_from_u = 8
exception_code ecall_from_s = 9
exception_code ecall_from_m = 11
exception_code instruction_page_fault = 12
exception_code load_page_fault = 13
exception_code store_page_fault = 15

module _ (hart : PmpHart) (mepc mtval : ℕ) (frame : TrapFrame) where
  -- What each exception is to lead to.
  abbrev answer : Exception → M TrapFrame
  answer instruction_misaligned = panic_exception "Instruction address misaligned" mepc mtval
  answer instruction_access_fault =
      handle_access_fault hart "Instruction access fault" mepc mtval frame
  answer illegal_instruction = panic_exception "Illegal instruction" mepc mtval
  answer breakpoint = do
    say "[trap] Breakpoint at "
    hex mepc
    say "\n"
    skip_instruction hart mepc frame
  answer load_misaligned = panic_exception "Load address misaligned" mepc mtval
  answer load_access_fault = handle_access_fault hart "Load access fault" mepc mtval frame
  answer store_misaligned = panic_exception "Store address misaligned" mepc mtval
  answer store_access_fault = handle_access_fault hart "Store access fault" mepc mtval frame
  answer ecall_from_u = do frame' ← handle_syscall frame; skip_instruction hart mepc frame'
  answer ecall_from_s = do say "[trap] Ecall from S-mode\n"; skip_instruction hart mepc frame
  answer ecall_from_m = do say "[trap] Ecall from M-mode\n"; skip_instruction hart mepc frame
  answer instruction_page_fault = panic_exception "Instruction page fault" mepc mtval
  answer load_page_fault = panic_exception "Load page fault" mepc mtval
  answer store_page_fault = panic_exception "Store page fault" mepc mtval

  abbrev unknown : ℕ → M TrapFrame
  unknown cause = do
    say "[trap] Unknown exception: "
    dec cause
    say " at "
    hex mepc
    say "\n"
    panic

  -- Every exception of the enum gets the answer of its own name.
  pub handle_exception-code :
      (e : Exception) → handle_exception hart (exception_code e) mepc mtval frame ≡ answer e
  unfolding handle_exception
  handle_exception-code instruction_misaligned = refl
  handle_exception-code instruction_access_fault = refl
  handle_exception-code illegal_instruction = refl
  handle_exception-code breakpoint = refl
  handle_exception-code load_misaligned = refl
  handle_exception-code load_access_fault = refl
  handle_exception-code store_misaligned = refl
  handle_exception-code store_access_fault = refl
  handle_exception-code ecall_from_u = refl
  handle_exception-code ecall_from_s = refl
  handle_exception-code ecall_from_m = refl
  handle_exception-code instruction_page_fault = refl
  handle_exception-code load_page_fault = refl
  handle_exception-code store_page_fault = refl

  -- A cause that the enum does not name is reported as unknown, and the kernel panics.
  pub handle_exception-unknown :
      (cause : ℕ)
      → ((e : Exception) → exception_code e ≢ cause)
      → handle_exception hart cause mepc mtval frame ≡ unknown cause
  unfolding handle_exception
  handle_exception-unknown cause other =
      rw
        (
          no instruction_misaligned,
          no instruction_access_fault,
          no illegal_instruction,
          no breakpoint,
          no load_misaligned,
          no load_access_fault,
          no store_misaligned,
          no store_access_fault,
          no ecall_from_u,
          no ecall_from_s,
          no ecall_from_m,
          no instruction_page_fault,
          no load_page_fault,
          no store_page_fault,
        )
        refl
    where
      no : (e : Exception) → (cause == exception_code e) ≡ false
      no e = ==_ne cause (exception_code e) (λ q. other e (sym q))
