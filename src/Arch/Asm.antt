-- ===== src/Arch/Asm.antt =====
-- The instructions that the kernel's naked functions are written in, on a hart: the general registers,
-- memory by 64-bit doublewords, and the CSRs that the code touches.
use cyptos.Prelude.{
  ℕ, ◌+◌, ◌*◌, ◌/◌, ◌%◌, ◌^◌, List, [], ◌∷◌, bit_and, bit_or, not64, u64, ◌==◌, if◌then◌else◌,
}
use cyptos.Arch.Frame.{TrapFrame}

pub data Reg : Type 0 where
  ra sp gp tp t0 t1 t2 s0 s1 a0 a1 a2 a3 a4 a5 a6 a7 s2 s3 s4 s5 s6 s7 s8 s9 s10 s11 t3 t4 t5 t6 :
      Reg

-- The number of the register in an instruction.
abbrev pub number : Reg → ℕ
number ra = 1
number sp = 2
number gp = 3
number tp = 4
number t0 = 5
number t1 = 6
number t2 = 7
number s0 = 8
number s1 = 9
number a0 = 10
number a1 = 11
number a2 = 12
number a3 = 13
number a4 = 14
number a5 = 15
number a6 = 16
number a7 = 17
number s2 = 18
number s3 = 19
number s4 = 20
number s5 = 21
number s6 = 22
number s7 = 23
number s8 = 24
number s9 = 25
number s10 = 26
number s11 = 27
number t3 = 28
number t4 = 29
number t5 = 30
number t6 = 31

pub record Cpu : Type 0 where
  pub regs : Reg → ℕ
  pub mem : ℕ → ℕ
  pub mscratch : ℕ
  pub mepc : ℕ
  pub mstatus : ℕ
  pub pc : ℕ
  pub mode : ℕ

abbrev pub set_reg : Reg → ℕ → (Reg → ℕ) → Reg → ℕ
set_reg r v regs q = if number q == number r then v else regs q

abbrev pub set_mem : ℕ → ℕ → (ℕ → ℕ) → ℕ → ℕ
set_mem a v mem b = if b == a then v else mem b

-- `sd r, off(base)` and `ld r, off(base)`; `addi` with the immediate as a 64-bit number.
pub data Instr : Type 0 where
  sd ld : Reg → ℕ → Reg → Instr
  addi : Reg → Reg → ℕ → Instr
  mv : Reg → Reg → Instr
  csrw_mscratch csrr_mscratch csrw_mepc csrw_mstatus : Reg → Instr
  call mret : Instr

-- What `mret` makes of mstatus: MIE from MPIE, MPIE set, MPP at U-mode, and MPRV clear unless it goes to M-mode.
abbrev pub mret_mstatus : ℕ → ℕ
mret_mstatus v =
    let cleared = if v / 2 ^ 11 % 4 == 3 then 0x1888 else 0x2_1888 in
    bit_or (bit_and v (not64 cleared)) (0x80 + v / 128 % 2 * 8)

-- `callee` is the function that `call` names.
abbrev pub execute : (Cpu → Cpu) → Instr → Cpu → Cpu
execute callee (sd r off base) c = record c {
  mem = set_mem (u64 (c.regs base + off)) (c.regs r) c.mem;
}
execute callee (ld r off base) c = record c {
  regs = set_reg r (c.mem (u64 (c.regs base + off))) c.regs;
}
execute callee (addi r q imm) c = record c { regs = set_reg r (u64 (c.regs q + imm)) c.regs }
execute callee (mv r q) c = record c { regs = set_reg r (c.regs q) c.regs }
execute callee (csrw_mscratch r) c = record c { mscratch = c.regs r }
execute callee (csrr_mscratch r) c = record c { regs = set_reg r c.mscratch c.regs }
execute callee (csrw_mepc r) c = record c { mepc = c.regs r }
execute callee (csrw_mstatus r) c = record c { mstatus = c.regs r }
execute callee call c = callee c
execute callee mret c = record c {
  pc = c.mepc;
  mode = c.mstatus / 2 ^ 11 % 4;
  mstatus = mret_mstatus c.mstatus;
}

unfoldable pub run : (Cpu → Cpu) → List Instr → Cpu → Cpu
run callee [] c = c
run callee (i ∷ code) c = run callee code (execute callee i c)

-- The registers as a frame, and the frame that lies at an address.
abbrev pub frame_of_regs : (Reg → ℕ) → TrapFrame
frame_of_regs regs = record {
  ra = regs ra;
  t0 = regs t0;
  t1 = regs t1;
  t2 = regs t2;
  t3 = regs t3;
  t4 = regs t4;
  t5 = regs t5;
  t6 = regs t6;
  a0 = regs a0;
  a1 = regs a1;
  a2 = regs a2;
  a3 = regs a3;
  a4 = regs a4;
  a5 = regs a5;
  a6 = regs a6;
  a7 = regs a7;
  s0 = regs s0;
  s1 = regs s1;
  s2 = regs s2;
  s3 = regs s3;
  s4 = regs s4;
  s5 = regs s5;
  s6 = regs s6;
  s7 = regs s7;
  s8 = regs s8;
  s9 = regs s9;
  s10 = regs s10;
  s11 = regs s11;
  gp = regs gp;
  tp = regs tp;
  sp = regs sp;
}

abbrev pub frame_at : (ℕ → ℕ) → ℕ → TrapFrame
frame_at mem base = record {
  ra = mem (base + 0);
  t0 = mem (base + 8);
  t1 = mem (base + 16);
  t2 = mem (base + 24);
  t3 = mem (base + 32);
  t4 = mem (base + 40);
  t5 = mem (base + 48);
  t6 = mem (base + 56);
  a0 = mem (base + 64);
  a1 = mem (base + 72);
  a2 = mem (base + 80);
  a3 = mem (base + 88);
  a4 = mem (base + 96);
  a5 = mem (base + 104);
  a6 = mem (base + 112);
  a7 = mem (base + 120);
  s0 = mem (base + 128);
  s1 = mem (base + 136);
  s2 = mem (base + 144);
  s3 = mem (base + 152);
  s4 = mem (base + 160);
  s5 = mem (base + 168);
  s6 = mem (base + 176);
  s7 = mem (base + 184);
  s8 = mem (base + 192);
  s9 = mem (base + 200);
  s10 = mem (base + 208);
  s11 = mem (base + 216);
  gp = mem (base + 224);
  tp = mem (base + 232);
  sp = mem (base + 240);
}
