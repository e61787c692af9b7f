-- ===== src/Trap/Steady.antt =====
-- The time that the kernel keeps: only a timer interrupt counts a tick and arms the timer.
use cyptos.Prelude.{
  ℕ, ◌+◌, ◌^◌, ◌≡◌, ◌≢◌, ◌<◌, refl, ◌∙◌, ap, sym, inl, inr, Bool-cases, ==_iff, ==_ne, bit_and_mask,
  ◌>>>◌, u64, true, false, bit_and, ◌==◌, Option, none, some, String, arith, get_elem?,
}
use cyptos.Arch.Csr.{read_mpp}
use cyptos.Arch.Frame.{TrapFrame}
use cyptos.Machine.{Machine, done, say, dec, write_mepc, write_mstatus}
use cyptos.Pmp.Hart.{PmpHart}
use cyptos.Sched.Task.{Task}
use cyptos.Sched.Table.{pick}
use cyptos.Sched.Scheduler.{
  on_scheduler, schedule, resume, switch_to, kill_slot, kill_at, kill_locked, kill_current,
}
use cyptos.Sync.{with_lock}
use cyptos.Timer.Steady.{
  SameTime, Steady, machine_of, and_then-SameTime, if-Steady, with_lock-Steady, on_scheduler-Steady,
}
use cyptos.Trap.Handle.{ticked, trap_handler-tick}
use cyptos.Trap.{
  hex, panic_exception, handle_syscall, handle_interrupt, handle_access_fault, skip_instruction,
  handle_exception, trap_handler,
}

panic_exception-Steady :
    (A : Type 0) (name : String) (mepc mtval : ℕ) → Steady (panic_exception {A = A} name mepc mtval)
unfolding panic_exception hex say
panic_exception-Steady A name mepc mtval m = (refl, refl)

handle_syscall-Steady : (frame : TrapFrame) → Steady (handle_syscall frame)
unfolding handle_syscall say dec
handle_syscall-Steady frame =
    if-Steady (frame.a7 == 0) _ _ (λ m. (refl, refl))
      (if-Steady (frame.a7 == 1) _ _ (λ m. (refl, refl))
        (if-Steady (frame.a7 == 42) _ _ (λ m. (refl, refl)) (λ m. (refl, refl))))

skip_instruction-Steady :
    (mepc : ℕ) (frame : TrapFrame) (hart : PmpHart) → Steady (skip_instruction hart mepc frame)
unfolding skip_instruction write_mepc
skip_instruction-Steady mepc frame hart m = (refl, refl)

-- An interrupt whose code is not that of the timer.
other_cause :
    (c : ℕ)
    → c < 2 ^ 64
    → c ≢ 2 ^ 63 + 7
    → (bit_and (c >>> 63) 1 == 1) ≡ true
    → (bit_and c 0x7fff_ffff_ffff_ffff == 7) ≡ false
other_cause c small ne on =
    let top = (==_iff (bit_and (c >>> 63) 1) 1).0 on in
    ==_ne (bit_and c 0x7fff_ffff_ffff_ffff) 7
      λ code. ne (omega (arith, top, code, bit_and_mask 63 c, bit_and_mask 1 (c >>> 63)))

module _ (hart : PmpHart) where
  resume-Steady : (frame : TrapFrame) (target : Option _) → Steady (resume hart frame target)
  unfolding resume switch_to say dec write_mepc write_mstatus
  resume-Steady frame none m = (refl, refl)
  resume-Steady frame (some target) m = (refl, refl)

  schedule-Steady : (frame : TrapFrame) → Steady (schedule hart frame)
  unfolding schedule
  schedule-Steady frame m =
      and_then-SameTime m (with_lock (on_scheduler (pick frame m.csr.mepc m.csr.mstatus)) m) _
        (with_lock-Steady (on_scheduler (pick frame m.csr.mepc m.csr.mstatus))
          (on_scheduler-Steady _) m)
        (resume-Steady frame)

  kill_slot-Steady : (c : ℕ) (slot : Option (Option Task)) → Steady (kill_slot c slot)
  unfolding say dec
  kill_slot-Steady c none m = (refl, refl)
  kill_slot-Steady c (some none) m = (refl, refl)
  kill_slot-Steady c (some (some task)) m = (refl, refl)

  kill_at-Steady : (current : Option ℕ) → Steady (kill_at current)
  kill_at-Steady none m = (refl, refl)
  kill_at-Steady (some c) m = kill_slot-Steady c (get_elem? m.scheduler.tasks c) m

  kill_locked-Steady : Steady kill_locked
  unfolding kill_locked
  kill_locked-Steady m = kill_at-Steady m.scheduler.current m

  kill_current-Steady : (frame : TrapFrame) → Steady (kill_current hart frame)
  unfolding kill_current
  kill_current-Steady frame m =
      and_then-SameTime m (with_lock kill_locked m) _
        (with_lock-Steady kill_locked kill_locked-Steady m) (λ _. schedule-Steady frame)

  handle_access_fault-Steady :
      (name : String) (mepc mtval : ℕ) (frame : TrapFrame)
      → Steady (handle_access_fault hart name mepc mtval frame)
  unfolding handle_access_fault say hex
  handle_access_fault-Steady name mepc mtval frame m =
      if-Steady (read_mpp m.csr == 0) _ _ (λ n. kill_current-Steady frame _)
        (panic_exception-Steady TrapFrame name mepc mtval) m

  handle_exception-Steady :
      (cause mepc mtval : ℕ) (frame : TrapFrame)
      → Steady (handle_exception hart cause mepc mtval frame)
  unfolding handle_exception panic_exception say hex dec skip_instruction write_mepc
  handle_exception-Steady cause mepc mtval frame =
      if-Steady (cause == 0) _ _ (λ m. (refl, refl))
        (if-Steady (cause == 1) _ _ (handle_access_fault-Steady _ mepc mtval frame) (
          if-Steady (cause == 2) _ _ (λ m. (refl, refl))
            (if-Steady (cause == 3) _ _ (λ m. (refl, refl))
              (if-Steady (cause == 4) _ _ (λ m. (refl, refl))
                (if-Steady (cause == 5) _ _ (handle_access_fault-Steady _ mepc mtval frame) (
                  if-Steady (cause == 6) _ _ (λ m. (refl, refl))
                    (if-Steady (cause == 7) _ _ (handle_access_fault-Steady _ mepc mtval frame) (
                      if-Steady (cause == 8) _ _
                        (λ m.
                          and_then-SameTime m (handle_syscall frame m) _
                            (handle_syscall-Steady frame m) (λ f n. (refl, refl)))
                        (if-Steady (cause == 9) _ _ (λ m. (refl, refl))
                          (if-Steady (cause == 11) _ _ (λ m. (refl, refl))
                            (if-Steady (cause == 12) _ _ (λ m. (refl, refl))
                              (if-Steady (cause == 13) _ _ (λ m. (refl, refl))
                                (if-Steady (cause == 15) _ _ (λ m. (refl, refl))
                                  (λ m. (refl, refl)))))))))))))))

  handle_interrupt-Steady :
      (cause : ℕ) (frame : TrapFrame)
      → (cause == 7) ≡ false
      → Steady (handle_interrupt hart cause frame)
  unfolding handle_interrupt say dec
  handle_interrupt-Steady cause frame other m = rw other (
      if-Steady (cause == 11) _ _ (λ n. (refl, refl))
        (if-Steady (cause == 3) _ _ (λ n. (refl, refl)) (λ n. (refl, refl))) m)

  -- Any trap but the machine timer interrupt (mcause 2 ^ 63 + 7) leaves the tick counter and the CLINT alone, whether
  -- the kernel returns or panics.
  pub trap_handler-Steady :
      (frame : TrapFrame) (m : Machine)
      → m.csr.mcause < 2 ^ 64
      → m.csr.mcause ≢ 2 ^ 63 + 7
      → SameTime m (trap_handler hart frame m)
  unfolding trap_handler
  trap_handler-Steady frame m small ne =
      let cause = m.csr.mcause in
      elim (Bool-cases (bit_and (cause >>> 63) 1 == 1)) [
        | inl on ↦ rw on (
            handle_interrupt-Steady (bit_and cause 0x7fff_ffff_ffff_ffff) frame
              (other_cause cause small ne on) m)
        | inr off ↦ rw off (
            handle_exception-Steady (bit_and cause 0x7fff_ffff_ffff_ffff) m.csr.mepc m.csr.mtval
              frame m)
      ]

  -- A machine timer interrupt that returns has counted one tick, and armed the timer 10 ms ahead.
  pub trap_handler-counts :
      (frame frame' : TrapFrame) (m m' : Machine)
      → m.csr.mcause ≡ 2 ^ 63 + 7
      → m.clint.mtime + 100_000 < 2 ^ 64
      → trap_handler hart frame m ≡ done frame' m'
      → (m'.tick_count ≡ u64 (m.tick_count + 1)) × (m'.clint.mtimecmp ≡ m.clint.mtime + 100_000)
  trap_handler-counts frame frame' m m' is_tick fits out =
      let (k, ticks) = trap_handler-tick hart frame m is_tick fits in
      let (count, clint) = schedule-Steady frame (ticked hart frame k m) in
      let same : machine_of (schedule hart frame (ticked hart frame k m)) ≡ m' =
        ap machine_of (sym ticks ∙ out) in
      (
        ap (λ x. x.tick_count) (sym same) ∙ count,
        ap (λ x. x.clint.mtimecmp) (sym same) ∙ ap (λ c. c.mtimecmp) clint,
      )
