-- ===== src/UserTask/Echo.antt =====
-- The echo task on a console: what it sends for what has been received.
use cyptos.Prelude.{
  ℕ, zero, suc, ◌+◌, ◌<◌, ◌≤◌, ◌≡◌, refl, ◌∙◌, sym, ap, arith, List, [], ◌∷◌, ◌++◌, Bool-cases, inl,
  inr, ◌==◌, if◌then◌else◌, length, u64,
}
use mathlib.Core.List.{append_assoc, append-nil}
use native.Mathlib.Nat.{mod-eq_of_lt}
use cyptos.Arch.Csr.{Csr}
use cyptos.Arch.Frame.{TrapFrame}
use cyptos.Machine.{Machine, M, Outcome, and_then, pure, ◌>>=◌, done, write_mepc}
use cyptos.Pmp.Hart.{PmpHart}
use cyptos.Serial.{putc, try_getc}
use cyptos.Trap.{handle_syscall, handle_exception, skip_instruction}
use cyptos.UserTask.{ecall, echo_round, user_echo_task}

-- Each byte but 0xff, and a line feed after a carriage return.
abbrev pub echo_of : ℕ → List ℕ
echo_of c = if c == 0xff then [] else if c == b'\r' then c ∷ 10 ∷ [] else c ∷ []

abbrev pub echoed : List ℕ → List ℕ
echoed [] = []
echoed (c ∷ cs) = echo_of c ++ echoed cs

abbrev pub AreBytes : List ℕ → Type 0
AreBytes [] = Unit
AreBytes (c ∷ cs) = (c < 256) × AreBytes cs

abbrev pub with_lines : List ℕ → List ℕ → Machine → Machine
with_lines sent rx m = record m { console = record { sent = sent; rx = rx } }

-- What a round leaves: the console as given, and else only CSRs written.
abbrev pub Leaves : Outcome TrapFrame → List ℕ → List ℕ → Machine → Type 0
Leaves out sent rx m =
    (regs : TrapFrame) × (csr : Csr) × (out
      ≡ done regs (record (with_lines sent rx m) { csr = csr }))

module _ (hart : PmpHart) (pc : ℕ) where
  -- `m` after a call, with the console as given.
  abbrev pub called : List ℕ → List ℕ → Machine → Machine
  called sent rx m = record m {
    csr = record (m.csr) { mcause = 8; mepc = u64 (pc + 4) };
    console = record { sent = sent; rx = rx };
  }

  ecall-getc :
      (regs : TrapFrame) (m : Machine) (sent : List ℕ) (c : ℕ) (cs : List ℕ)
      → ecall hart pc (record regs { a7 = 0 }) (with_lines sent (c ∷ cs) m)
        ≡ done (record regs { a7 = 0; a0 = c }) (called sent cs m)
  unfolding ecall handle_exception handle_syscall skip_instruction write_mepc try_getc
  ecall-getc regs m sent c cs = refl

  ecall-putc :
      (regs : TrapFrame) (m : Machine) (sent rx : List ℕ) (c : ℕ)
      → c < 256
      → ecall hart pc (record regs { a7 = 1; a0 = c }) (with_lines sent rx m)
        ≡ done (record regs { a7 = 1; a0 = c }) (called (sent ++ c ∷ []) rx m)
  unfolding ecall handle_exception handle_syscall skip_instruction write_mepc putc
  ecall-putc regs m sent rx c byte =
      ap (λ (b : ℕ). done (record regs { a7 = 1; a0 = c }) (called (sent ++ b ∷ []) rx m))
        (mod-eq_of_lt {n = c} {m = 256} byte)

  echo_byte : (c : ℕ) → TrapFrame → M TrapFrame
  unfolding ecall
  echo_byte c regs1 = if c == 0xff then pure regs1 else (do
    regs2 ← ecall hart pc (record regs1 { a7 = 1; a0 = c })
    if c == b'\r' then ecall hart pc (record regs2 { a7 = 1; a0 = 10 }) else pure regs2)

  echo_byte-Leaves :
      (regs : TrapFrame) (m : Machine) (sent : List ℕ) (c : ℕ) (cs : List ℕ)
      → c < 256
      → Leaves (echo_byte c regs (called sent cs m)) (sent ++ echo_of c) cs m
  unfolding echo_byte
  echo_byte-Leaves regs m sent c cs byte = elim (Bool-cases (c == 0xff)) [
    | inl e ↦ (regs, (called sent cs m).csr, rw (e, append-nil sent) refl)
    | inr e ↦ elim (Bool-cases (c == b'\r')) [
      | inl cr ↦ (
        record regs { a7 = 1; a0 = 10 },
        (called sent cs m).csr,
        rw (e, cr)
            (ap
                (λ r.
                  and_then r
                    (λ (regs2 : TrapFrame). ecall hart pc (record regs2 { a7 = 1; a0 = 10 })))
                (ecall-putc regs (called sent cs m) sent cs c byte)
              ∙ ecall-putc (record regs { a7 = 1; a0 = c }) (called sent cs m) (sent ++ c ∷ []) cs
                  10 (omega arith)
              ∙ ap (λ ls. done (record regs { a7 = 1; a0 = 10 }) (called ls cs m))
                  (append_assoc sent (c ∷ []) (10 ∷ []))),
      )
      | inr other ↦ (
        record regs { a7 = 1; a0 = c },
        (called sent cs m).csr,
        rw (e, other)
            (ap (λ r. and_then r pure) (ecall-putc regs (called sent cs m) sent cs c byte)),
      )
    ]
  ]

  echo_round-Leaves :
      (regs : TrapFrame) (m : Machine) (sent : List ℕ) (c : ℕ) (cs : List ℕ)
      → c < 256
      → Leaves (echo_round hart pc regs (with_lines sent (c ∷ cs) m)) (sent ++ echo_of c) cs m
  unfolding echo_round echo_byte
  echo_round-Leaves regs m sent c cs byte =
      let (regs', csr, e) = echo_byte-Leaves (record regs { a7 = 0; a0 = c }) m sent c cs byte in
      (
        regs',
        csr,
        ap (λ r. and_then r (λ regs1. echo_byte (regs1.a0) regs1)) (ecall-getc regs m sent c cs)
            ∙ e,
      )

  -- A round with nothing to read.
  idle-Leaves :
      (extra : ℕ) (regs : TrapFrame) (m : Machine) (sent : List ℕ)
      → Leaves (user_echo_task hart pc extra regs (with_lines sent [] m)) sent [] m
  unfolding user_echo_task echo_round ecall handle_exception handle_syscall skip_instruction
      write_mepc try_getc
  idle-Leaves zero regs m sent = (regs, m.csr, refl)
  idle-Leaves (suc extra) regs m sent =
      idle-Leaves extra (record regs { a7 = 0; a0 = 0xff }) (called sent [] m) sent

  -- As many rounds as there are lines take all of them.
  rounds-Leaves :
      (rx : List ℕ) (rounds : ℕ) (regs : TrapFrame) (m : Machine) (sent : List ℕ)
      → AreBytes rx
      → length rx ≤ rounds
      → Leaves (user_echo_task hart pc rounds regs (with_lines sent rx m)) (sent ++ echoed rx) [] m
  unfolding user_echo_task
  rounds-Leaves [] rounds regs m sent bytes enough =
      let (regs', csr', e) = idle-Leaves rounds regs m sent in
      (
        regs',
        csr',
        e
            ∙ ap (λ ls. done regs' (record (with_lines ls [] m) { csr = csr' }))
                (sym (append-nil sent)),
      )
  rounds-Leaves (c ∷ cs) zero regs m sent bytes enough = absurd (omega arith)
  rounds-Leaves (c ∷ cs) (suc rounds) regs m sent bytes enough =
      let (regs1, csr1, one) = echo_round-Leaves regs m sent c cs (bytes.0) in
      let (regs2, csr2, rest) =
        rounds-Leaves cs rounds regs1 (record m { csr = csr1 }) (sent ++ echo_of c) (bytes.1)
          (omega arith) in
      (
        regs2,
        csr2,
        ap (λ r. and_then r (user_echo_task hart pc rounds)) one
            ∙ rest
            ∙ ap (λ ls. done regs2 (record (with_lines ls [] m) { csr = csr2 }))
                (append_assoc sent (echo_of c) (echoed cs)),
      )

  -- When the bytes that the UART has received are below 256: at least as many rounds of the echo task as there
  -- are bytes, with no trap but its own calls, return, have read all of them and sent, behind what was sent
  -- before, each of them but 0xff in their order, with a line feed after each carriage return; nothing else of
  -- the machine but CSRs has changed.
  pub user_echo_task_lem :
      (regs : TrapFrame) (m : Machine) (rounds : ℕ)
      → AreBytes m.console.rx
      → length m.console.rx ≤ rounds
      → Leaves (user_echo_task hart pc rounds regs m) (m.console.sent ++ echoed m.console.rx) [] m
  user_echo_task_lem regs m rounds bytes enough =
      rounds-Leaves m.console.rx rounds regs m m.console.sent bytes enough
