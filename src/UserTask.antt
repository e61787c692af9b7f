-- ===== src/UserTask.antt =====
-- crates/kernel/src/user_task.rs: the two user tasks, which run in U-mode and call the kernel by `ecall`.
pub mod Echo
pub mod Violation
use cyptos.Prelude.{ℕ, zero, suc, ◌==◌, if◌then◌else◌}
use cyptos.Config.{sys_getc, sys_putc}
use cyptos.Arch.Frame.{TrapFrame}
use cyptos.Machine.{Machine, M, ◌>>=◌, pure}
use cyptos.Pmp.Access.{Access, load}
use cyptos.Pmp.Hart.{PmpHart}
use cyptos.Trap.{trap_handler}

-- What the violation task asks of the hart: the doubleword at 0x8000_0000.
abbrev pub user_violation_task : Access × ℕ
user_violation_task = (load, 0x8000_0000)

-- `pc` is the address of the call: the hart puts it into mepc, with the cause of an environment call from
-- U-mode, and enters the kernel with the task's registers.
module _ (hart : PmpHart) (pc : ℕ) where
  unfoldable pub ecall : TrapFrame → M TrapFrame
  unfolding trap_handler
  ecall regs m =
      trap_handler hart regs (record m { csr = record (m.csr) { mcause = 8; mepc = pc } })

  -- The body of the loop of `user_echo_task`.
  unfoldable pub echo_round : TrapFrame → M TrapFrame
  unfolding ecall
  echo_round regs = do
    regs1 ← ecall (record regs { a7 = sys_getc })
    let byte = regs1.a0
    if byte == 0xff then pure regs1 else (do
      regs2 ← ecall (record regs1 { a7 = sys_putc; a0 = byte })
      if byte == b'\r' then ecall (record regs2 { a7 = sys_putc; a0 = 10 }) else pure regs2)

  -- The first `rounds` rounds of the loop.
  unfoldable pub user_echo_task : ℕ → TrapFrame → M TrapFrame
  unfolding echo_round
  user_echo_task zero regs = pure regs
  user_echo_task (suc rounds) regs = do regs' ← echo_round regs; user_echo_task rounds regs'
