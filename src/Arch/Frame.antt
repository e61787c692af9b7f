-- ===== src/Arch/Frame.antt =====
-- The saved registers: `TrapFrame` of crates/kernel/src/trap.rs, `TaskContext` of
-- crates/kernel/src/sched/task.rs, and the two directions of `copy_gpr_fields!` of
-- crates/kernel/src/arch/register.rs. A register is its 64-bit value.
use cyptos.Prelude.{ℕ, ◌≡◌, refl, bit_or, ◌<<<◌}

-- What `trap_vector` stores on the kernel stack.
pub record TrapFrame : Type 0 where
  pub ra : ℕ
  pub t0 : ℕ
  pub t1 : ℕ
  pub t2 : ℕ
  pub t3 : ℕ
  pub t4 : ℕ
  pub t5 : ℕ
  pub t6 : ℕ
  pub a0 : ℕ
  pub a1 : ℕ
  pub a2 : ℕ
  pub a3 : ℕ
  pub a4 : ℕ
  pub a5 : ℕ
  pub a6 : ℕ
  pub a7 : ℕ
  pub s0 : ℕ
  pub s1 : ℕ
  pub s2 : ℕ
  pub s3 : ℕ
  pub s4 : ℕ
  pub s5 : ℕ
  pub s6 : ℕ
  pub s7 : ℕ
  pub s8 : ℕ
  pub s9 : ℕ
  pub s10 : ℕ
  pub s11 : ℕ
  pub gp : ℕ
  pub tp : ℕ
  pub sp : ℕ

-- A task's saved state: the registers of the frame, and two CSRs.
pub record TaskContext : Type 0 where
  pub ra : ℕ
  pub t0 : ℕ
  pub t1 : ℕ
  pub t2 : ℕ
  pub t3 : ℕ
  pub t4 : ℕ
  pub t5 : ℕ
  pub t6 : ℕ
  pub a0 : ℕ
  pub a1 : ℕ
  pub a2 : ℕ
  pub a3 : ℕ
  pub a4 : ℕ
  pub a5 : ℕ
  pub a6 : ℕ
  pub a7 : ℕ
  pub s0 : ℕ
  pub s1 : ℕ
  pub s2 : ℕ
  pub s3 : ℕ
  pub s4 : ℕ
  pub s5 : ℕ
  pub s6 : ℕ
  pub s7 : ℕ
  pub s8 : ℕ
  pub s9 : ℕ
  pub s10 : ℕ
  pub s11 : ℕ
  pub gp : ℕ
  pub tp : ℕ
  pub sp : ℕ
  pub mepc : ℕ
  pub mstatus : ℕ

-- `copy_gpr_fields!(frame, ctx)`: the two CSRs of the context stay.
unfoldable pub copy_to_context : TrapFrame → TaskContext → TaskContext
copy_to_context frame ctx = record {
  ra = frame.ra;
  t0 = frame.t0;
  t1 = frame.t1;
  t2 = frame.t2;
  t3 = frame.t3;
  t4 = frame.t4;
  t5 = frame.t5;
  t6 = frame.t6;
  a0 = frame.a0;
  a1 = frame.a1;
  a2 = frame.a2;
  a3 = frame.a3;
  a4 = frame.a4;
  a5 = frame.a5;
  a6 = frame.a6;
  a7 = frame.a7;
  s0 = frame.s0;
  s1 = frame.s1;
  s2 = frame.s2;
  s3 = frame.s3;
  s4 = frame.s4;
  s5 = frame.s5;
  s6 = frame.s6;
  s7 = frame.s7;
  s8 = frame.s8;
  s9 = frame.s9;
  s10 = frame.s10;
  s11 = frame.s11;
  gp = frame.gp;
  tp = frame.tp;
  sp = frame.sp;
  mepc = ctx.mepc;
  mstatus = ctx.mstatus;
}

-- `copy_gpr_fields!(ctx, frame)`: the macro assigns every field of the frame.
unfoldable pub copy_to_frame : TaskContext → TrapFrame → TrapFrame
copy_to_frame ctx frame = record {
  ra = ctx.ra;
  t0 = ctx.t0;
  t1 = ctx.t1;
  t2 = ctx.t2;
  t3 = ctx.t3;
  t4 = ctx.t4;
  t5 = ctx.t5;
  t6 = ctx.t6;
  a0 = ctx.a0;
  a1 = ctx.a1;
  a2 = ctx.a2;
  a3 = ctx.a3;
  a4 = ctx.a4;
  a5 = ctx.a5;
  a6 = ctx.a6;
  a7 = ctx.a7;
  s0 = ctx.s0;
  s1 = ctx.s1;
  s2 = ctx.s2;
  s3 = ctx.s3;
  s4 = ctx.s4;
  s5 = ctx.s5;
  s6 = ctx.s6;
  s7 = ctx.s7;
  s8 = ctx.s8;
  s9 = ctx.s9;
  s10 = ctx.s10;
  s11 = ctx.s11;
  gp = ctx.gp;
  tp = ctx.tp;
  sp = ctx.sp;
}

-- MPP = 11 and MPIE = 1.
abbrev pub mstatus_mmode : ℕ
mstatus_mmode = bit_or (0b11 <<< 11) (1 <<< 7)

-- MPP = 00 and MPIE = 1.
abbrev pub mstatus_umode : ℕ
mstatus_umode = 1 <<< 7

unfoldable pub new_mmode : ℕ → ℕ → TaskContext
new_mmode entry_point stack_top = record {
  ra = 0;
  t0 = 0;
  t1 = 0;
  t2 = 0;
  t3 = 0;
  t4 = 0;
  t5 = 0;
  t6 = 0;
  a0 = 0;
  a1 = 0;
  a2 = 0;
  a3 = 0;
  a4 = 0;
  a5 = 0;
  a6 = 0;
  a7 = 0;
  s0 = 0;
  s1 = 0;
  s2 = 0;
  s3 = 0;
  s4 = 0;
  s5 = 0;
  s6 = 0;
  s7 = 0;
  s8 = 0;
  s9 = 0;
  s10 = 0;
  s11 = 0;
  gp = 0;
  tp = 0;
  sp = stack_top;
  mepc = entry_point;
  mstatus = mstatus_mmode;
}

unfoldable pub new_umode : ℕ → ℕ → TaskContext
new_umode entry_point stack_top = record {
  ra = 0;
  t0 = 0;
  t1 = 0;
  t2 = 0;
  t3 = 0;
  t4 = 0;
  t5 = 0;
  t6 = 0;
  a0 = 0;
  a1 = 0;
  a2 = 0;
  a3 = 0;
  a4 = 0;
  a5 = 0;
  a6 = 0;
  a7 = 0;
  s0 = 0;
  s1 = 0;
  s2 = 0;
  s3 = 0;
  s4 = 0;
  s5 = 0;
  s6 = 0;
  s7 = 0;
  s8 = 0;
  s9 = 0;
  s10 = 0;
  s11 = 0;
  gp = 0;
  tp = 0;
  sp = stack_top;
  mepc = entry_point;
  mstatus = mstatus_umode;
}

-- Saving a frame and restoring it gives every register back, whatever stood there before.
pub copy_to_frame-copy_to_context :
    (frame other : TrapFrame) (ctx : TaskContext)
    → copy_to_frame (copy_to_context frame ctx) other ≡ frame
unfolding copy_to_context copy_to_frame
copy_to_frame-copy_to_context frame other ctx = refl
