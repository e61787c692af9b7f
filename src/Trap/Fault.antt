-- ===== src/Trap/Fault.antt =====
-- Access faults, and which exceptions stop the kernel.
use cyptos.Prelude.{
  ℕ, ◌^◌, ◌<◌, ◌≡◌, ◌⊎◌, inl, inr, ◌∙◌, ap, Bool, true, String, ◌==◌, if◌then◌else◌,
}
use cyptos.Arch.Csr.{read_mpp}
use cyptos.Arch.Frame.{TrapFrame}
use cyptos.Pmp.Hart.{PmpHart}
use cyptos.Machine.{Machine, Outcome, done, M, ◌>>◌, say}
use cyptos.Sched.Table.Valid.{IsValid}
use cyptos.Sched.Scheduler.{kill_current}
use cyptos.Sched.Scheduler.Kill.{KillsCurrent, kill_current-IsDead}
use cyptos.Trap.{hex, panic_exception, handle_access_fault, handle_exception, trap_handler}
use cyptos.Trap.Handle.{trap_handler_lem}

-- The causes of the three access faults.
abbrev pub IsAccessFault : ℕ → Type 0
IsAccessFault c = (c ≡ 1) ⊎ ((c ≡ 5) ⊎ (c ≡ 7))

module _ (hart : PmpHart) (frame : TrapFrame) where
  -- The task is killed and the kernel goes on.
  abbrev pub Contains : Outcome TrapFrame → Machine → Type 0
  Contains r m =
      (frame' : TrapFrame) × (m' : Machine) × (r ≡ done frame' m')
      × IsValid m'.scheduler
      × KillsCurrent m.scheduler m'.scheduler

  abbrev pub by_privilege : String → ℕ → ℕ → Bool → M TrapFrame
  by_privilege name mepc mtval user =
      if user
      then (do
        say "[trap] U-mode access fault: "
        say name
        say " at mepc="
        hex mepc
        say " addr="
        hex mtval
        say "\n"
        kill_current hart frame)
      else panic_exception name mepc mtval

  user_fault :
      (name : String) (mepc mtval : ℕ) (m : Machine)
      → m.csr.mstatus < 2 ^ 64
      → IsValid m.scheduler
      → Contains (by_privilege name mepc mtval true m) m
  unfolding say hex
  user_fault name mepc mtval m small v = kill_current-IsDead hart frame _ small v

  pub fault_lem :
      (name : String) (mepc mtval : ℕ) (m : Machine) (user : Bool)
      → (read_mpp m.csr == 0) ≡ user
      → handle_access_fault hart name mepc mtval frame m ≡ by_privilege name mepc mtval user m
  unfolding handle_access_fault
  fault_lem name mepc mtval m user e = ap (λ b. by_privilege name mepc mtval b m) e

  fault_name : (c : ℕ) → String
  fault_name c =
      if c == 1
      then "Instruction access fault"
      else if c == 5
      then "Load access fault"
      else "Store access fault"

  trap_handler-fault_lem :
      (m : Machine) (c : ℕ)
      → IsAccessFault c
      → m.csr.mcause ≡ c
      → trap_handler hart frame m
        ≡ handle_access_fault hart (fault_name c) m.csr.mepc m.csr.mtval frame m
  unfolding handle_exception fault_name
  trap_handler-fault_lem m c (inl e) q = rw e (trap_handler_lem hart frame m 1 (q ∙ e))
  trap_handler-fault_lem m c (inr (inl e)) q = rw e (trap_handler_lem hart frame m 5 (q ∙ e))
  trap_handler-fault_lem m c (inr (inr e)) q = rw e (trap_handler_lem hart frame m 7 (q ∙ e))

  -- An access fault (cause 1, 5 or 7) taken from U-mode, with mstatus below 2 ^ 64 and on a valid
  -- table, does not panic the kernel: the current task is dead afterwards and the table is valid.
  pub trap_handler-user_fault :
      (m : Machine) (c : ℕ)
      → IsAccessFault c
      → m.csr.mcause ≡ c
      → read_mpp m.csr ≡ 0
      → m.csr.mstatus < 2 ^ 64
      → IsValid m.scheduler
      → Contains (trap_handler hart frame m) m
  trap_handler-user_fault m c is e user small v =
      let name = fault_name c in
      let (frame', m', r, valid, kills) = user_fault name m.csr.mepc m.csr.mtval m small v in
      let step =
        trap_handler-fault_lem m c is e
        ∙ fault_lem name m.csr.mepc m.csr.mtval m true (ap (λ p. p == 0) user) in
      (frame', m', step ∙ r, valid, kills)
