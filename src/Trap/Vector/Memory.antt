-- ===== src/Trap/Vector/Memory.antt =====
-- `trap_vector` and memory: what the handler is called on, and what it leaves behind.
use cyptos.Prelude.{
  ℕ, ◌+◌, ◌-◌, ◌/◌, ◌%◌, ◌^◌, ◌≤◌, ◌<◌, ◌≡◌, refl, ◌⊎◌, ◌∙◌, ap, sym, arith, [], ◌∷◌,
}
use cyptos.Arch.Asm.{sp, a0, Cpu, call, run, mret_mstatus, frame_of_regs, frame_at}
use cyptos.Arch.Frame.{TrapFrame}
use cyptos.Trap.Vector.{trap_exit, trap_vector}
use cyptos.Trap.Vector.Frames.{
  Handles, entered, run-trap_entry, entered-frame, exit-frame, exit-state, trap_entry-frame,
}

-- The hart `d` at the call, for the interrupted `c`: only the 256 bytes below sp differ.
pub record IsEntered (c d : Cpu) : Type 0 where
  pub frame_eq : frame_at d.mem (d.regs a0) ≡ frame_of_regs c.regs
  pub a0_eq : d.regs a0 ≡ c.regs sp - 256
  pub sp_eq : d.regs sp ≡ c.regs sp - 256
  pub mepc_eq : d.mepc ≡ c.mepc
  pub mstatus_eq : d.mstatus ≡ c.mstatus
  pub outside : (a : ℕ) → (a < c.regs sp - 256) ⊎ (c.regs sp ≤ a) → d.mem a ≡ c.mem a

module _ (handler : Cpu → Cpu) (c : Cpu) (room : 256 ≤ c.regs sp) (word : c.regs sp < 2 ^ 64) where
  entered-IsEntered : IsEntered c (entered c room word)
  unfolding run
  entered-IsEntered =
      let e = run-trap_entry c room word (λ d. d) [] in
      let (_, _, outside) = trap_entry-frame (λ d. d) c room word in
      record {
        frame_eq = entered-frame c room word;
        a0_eq = refl;
        sp_eq = refl;
        mepc_eq = refl;
        mstatus_eq = refl;
        outside = λ a out. ap (λ d. d.mem a) (sym e) ∙ outside a out;
      }

  -- The whole, for a handler that is known where it is called; behind it nothing is stored.
  pub trap_vector-IsEntered :
      (frame : TrapFrame) (mepc mstatus : ℕ)
      → ((d : Cpu) → IsEntered c d → Handles handler d frame mepc mstatus)
      → (d : Cpu) × IsEntered c d
        × (frame_of_regs (trap_vector handler c).regs ≡ frame)
        × ((trap_vector handler c).pc ≡ mepc)
        × ((trap_vector handler c).mode ≡ mstatus / 2 ^ 11 % 4)
        × ((trap_vector handler c).mstatus ≡ mret_mstatus mstatus)
        × ((trap_vector handler c).mem ≡ (handler d).mem)
  unfolding trap_vector run
  trap_vector-IsEntered frame mepc mstatus handles =
      let d = handler (entered c room word) in
      let h = handles (entered c room word) entered-IsEntered in
      let whole : trap_vector handler c ≡ run handler trap_exit d =
        run-trap_entry c room word handler (call ∷ trap_exit) in
      let fits : d.regs sp + 256 ≤ 2 ^ 64 = omega (arith, h.sp_kept) in
      let (pc, mode, st) = exit-state handler d fits in
      (
        entered c room word,
        entered-IsEntered,
        ap (λ x. frame_of_regs x.regs) whole
            ∙ (exit-frame handler d fits ∙ (ap (frame_at d.mem) h.sp_kept ∙ h.frame_eq)),
        ap (λ x. x.pc) whole ∙ (pc ∙ h.mepc_eq),
        ap (λ x. x.mode) whole ∙ (mode ∙ ap (λ v. v / 2 ^ 11 % 4) h.mstatus_eq),
        ap (λ x. x.mstatus) whole ∙ (st ∙ ap mret_mstatus h.mstatus_eq),
        ap (λ x. x.mem) whole,
      )
