-- ===== src/Trap/Outcomes.antt =====
-- The four ways in which `trap_handler` answers a trap.
use cyptos.Prelude.{
  ℕ, ◌+◌, ◌^◌, ◌<◌, ◌≡◌, refl, ◌∙◌, inl, inr, ap, Bool, true, false, Bool-cases, String, ◌==◌,
  ==_iff, bit_and, ◌>>>◌, ◌&&◌, ◌||◌, if◌then◌else◌,
}
use cyptos.Arch.Csr.{read_mpp}
use cyptos.Arch.Frame.{TrapFrame}
use cyptos.Pmp.Hart.{PmpHart}
use cyptos.Serial.{Console}
use cyptos.Machine.{Machine, Outcome, done, panicked, M, ◌>>=◌, say, dec, write_mepc, bind_done}
use cyptos.Sched.Scheduler.{schedule, kill_current}
use cyptos.Trap.{
  hex, panic_exception, handle_access_fault, handle_interrupt, handle_exception, handle_syscall,
  skip_instruction, trap_handler,
}
use cyptos.Trap.Handle.{with_console, with_mepc, handle_syscall-Replies, handle_interrupt-tick}
use cyptos.Trap.Fault.{fault_lem}

-- The scheduler, the PMP and mstatus are untouched.
pub record IsQuiet (m m' : Machine) : Type 0 where
  pub scheduler_eq : m'.scheduler ≡ m.scheduler
  pub pmp_eq : m'.pmp ≡ m.pmp
  pub mstatus_eq : m'.csr.mstatus ≡ m.csr.mstatus

-- The exceptions that the kernel answers without a panic, by cause and the mode that they come from: a
-- breakpoint, an environment call, and an access fault of U-mode.
abbrev pub exception_recovers : ℕ → ℕ → Bool
exception_recovers cause mpp =
    cause == 3
    || (cause == 8
        || (cause == 9
            || (cause == 11 || ((cause == 1 || (cause == 5 || cause == 7)) && mpp == 0))))

-- An interrupt, or such an exception.
abbrev pub recovers : ℕ → ℕ → Bool
recovers mcause mpp =
    if bit_and (mcause >>> 63) 1 == 1
    then true
    else exception_recovers (bit_and mcause 0x7fff_ffff_ffff_ffff) mpp

-- What `r` is, for a trap that is to be recovered from if `ok`.
pub data Handled (hart : PmpHart) (frame : TrapFrame) (m : Machine) (ok : Bool)
    (r : Outcome TrapFrame) : Type 0 where
  returns :
      (frame' : TrapFrame) (m' : Machine)
      → ok ≡ true
      → IsQuiet m m'
      → r ≡ done frame' m'
      → Handled hart frame m ok r
  schedules :
      (m' : Machine)
      → ok ≡ true
      → IsQuiet m m'
      → r ≡ schedule hart frame m'
      → Handled hart frame m ok r
  kills :
      (m' : Machine)
      → ok ≡ true
      → IsQuiet m m'
      → read_mpp m.csr ≡ 0
      → r ≡ kill_current hart frame m'
      → Handled hart frame m ok r
  stops : (k : Console) → ok ≡ false → r ≡ panicked (with_console k m) → Handled hart frame m ok r

module _ (hart : PmpHart) (frame : TrapFrame) (m : Machine) where
  printed : (k : Console) → IsQuiet m (with_console k m)
  printed k = record { scheduler_eq = refl; pmp_eq = refl; mstatus_eq = refl }

  skipped : (k : Console) (pc : ℕ) → IsQuiet m (with_mepc pc (with_console k m))
  skipped k pc = record { scheduler_eq = refl; pmp_eq = refl; mstatus_eq = refl }

  branch :
      (ok b : Bool) (x y : M TrapFrame)
      → (b ≡ true → Handled hart frame m ok (x m))
      → (b ≡ false → Handled hart frame m ok (y m))
      → Handled hart frame m ok ((if b then x else y) m)
  branch ok true x y h k = h refl
  branch ok false x y h k = k refl

  handle_interrupt-Handled :
      (cause : ℕ)
      → m.clint.mtime + 100_000 < 2 ^ 64
      → Handled hart frame m true (handle_interrupt hart cause frame m)
  unfolding handle_interrupt say dec
  handle_interrupt-Handled cause fits =
      let (k, r) = handle_interrupt-tick hart frame m fits in
      branch true (cause == 7) _ _
        (λ _. schedules _ refl (record { scheduler_eq = refl; pmp_eq = refl; mstatus_eq = refl }) r)
        λ _.
          branch true (cause == 11) _ _ (λ _. returns frame _ refl (printed _) refl)
            λ _.
              branch true (cause == 3) _ _ (λ _. returns frame _ refl (printed _) refl)
                λ _. returns frame _ refl (printed _) refl

  panics :
      (ok : Bool) (name : String) (mepc mtval : ℕ)
      → ok ≡ false
      → Handled hart frame m ok (panic_exception name mepc mtval m)
  unfolding panic_exception say hex
  panics ok name mepc mtval e = stops _ e refl

  fault-Handled :
      (ok : Bool) (name : String) (mepc mtval : ℕ)
      → ok ≡ (read_mpp m.csr == 0)
      → Handled hart frame m ok (handle_access_fault hart name mepc mtval frame m)
  unfolding handle_access_fault say hex
  fault-Handled ok name mepc mtval e = elim (Bool-cases (read_mpp m.csr == 0)) [
    | inl user ↦
        kills _ (e ∙ user) (printed _) ((==_iff (read_mpp m.csr) 0).0 user)
          (fault_lem hart frame name mepc mtval m true user)
    | inr kernel ↦ stops _ (e ∙ kernel) (fault_lem hart frame name mepc mtval m false kernel ∙ refl)
  ]

  ecall-Handled :
      (ok : Bool)
      → ok ≡ true
      → Handled hart frame m ok ((handle_syscall frame >>= skip_instruction hart m.csr.mepc) m)
  unfolding skip_instruction write_mepc
  ecall-Handled ok e =
      let (frame', k, r, _) = handle_syscall-Replies frame m in
      returns frame' _ e (skipped k _) (
        bind_done (handle_syscall frame) (skip_instruction hart m.csr.mepc) m (with_console k m)
          frame' r)

  module _ (cause : ℕ) where
    abbrev ok_here : Bool
    ok_here = exception_recovers cause (read_mpp m.csr)

    -- The value at a known cause.
    known : (n : ℕ) → (cause == n) ≡ true → ok_here ≡ exception_recovers n (read_mpp m.csr)
    known n e = ap (λ c. exception_recovers c (read_mpp m.csr)) ((==_iff cause n).0 e)

    handle_exception-Handled :
        Handled hart frame m ok_here (handle_exception hart cause m.csr.mepc m.csr.mtval frame m)
    unfolding handle_exception skip_instruction write_mepc say hex dec
    handle_exception-Handled =
        let pc = m.csr.mepc in
        let v = m.csr.mtval in
        branch ok_here (cause == 0) _ _ (λ e. panics _ _ pc v (known 0 e))
          λ _.
            branch ok_here (cause == 1) _ _ (λ e. fault-Handled _ _ pc v (known 1 e))
              λ n1.
                branch ok_here (cause == 2) _ _ (λ e. panics _ _ pc v (known 2 e))
                  λ _.
                    branch ok_here (cause == 3) _ _
                      (λ e. returns frame _ (known 3 e) (skipped _ _) refl)
                      λ n3.
                        branch ok_here (cause == 4) _ _ (λ e. panics _ _ pc v (known 4 e))
                          λ _.
                            branch ok_here (cause == 5) _ _
                              (λ e. fault-Handled _ _ pc v (known 5 e))
                              λ n5.
                                branch ok_here (cause == 6) _ _ (λ e. panics _ _ pc v (known 6 e))
                                  λ _.
                                    branch ok_here (cause == 7) _ _
                                      (λ e. fault-Handled _ _ pc v (known 7 e))
                                      λ n7.
                                        branch ok_here (cause == 8) _ _
                                          (λ e. ecall-Handled _ (known 8 e))
                                          λ n8.
                                            branch ok_here (cause == 9) _ _
                                              (λ e. returns frame _ (known 9 e) (skipped _ _) refl)
                                              λ n9.
                                                branch ok_here (cause == 11) _ _
                                                  (λ e.
                                                    returns frame _ (known 11 e) (skipped _ _) refl)
                                                  λ n11.
                                                    branch ok_here (cause == 12) _ _
                                                      (λ e. panics _ _ pc v (known 12 e))
                                                      λ _.
                                                        branch ok_here (cause == 13) _ _
                                                          (λ e. panics _ _ pc v (known 13 e))
                                                          λ _.
                                                            branch ok_here (cause == 15) _ _
                                                            (λ e. panics _ _ pc v (known 15 e))
                                                            λ _.
                                                            stops _
                                                            (rw (n3, n8, n9, n11, n1, n5, n7) refl)
                                                            refl

  -- Every trap, with mtime more than 100000 below 2 ^ 64. An interrupt, a breakpoint, an environment call and an
  -- access fault of U-mode are recovered from: the handler returns with the scheduler, the PMP and mstatus
  -- untouched, or hands over to `schedule`, or, from U-mode only, to `kill_current`, on a machine with these three
  -- untouched. Any other trap panics, and nothing but the console has changed.
  pub trap_handler-Handled :
      m.clint.mtime + 100_000 < 2 ^ 64
      → Handled hart frame m (recovers m.csr.mcause (read_mpp m.csr)) (trap_handler hart frame m)
  unfolding trap_handler
  trap_handler-Handled fits = elim (Bool-cases (bit_and (m.csr.mcause >>> 63) 1 == 1)) [
    | inl interrupt ↦
        rw interrupt (handle_interrupt-Handled (bit_and m.csr.mcause 0x7fff_ffff_ffff_ffff) fits)
    | inr exception ↦
        rw exception (handle_exception-Handled (bit_and m.csr.mcause 0x7fff_ffff_ffff_ffff))
  ]
