-- ===== src/Tests/Table.antt =====
-- A task table with two user tasks, a machine that runs the first of them, and the proofs that both are
-- well formed.
use cyptos.Prelude.{
  false, ℕ, zero, suc, ◌+◌, ◌*◌, ◌%◌, ◌<◌, ◌≡◌, ◌≢◌, refl, ◌∙◌, inl, inr, ap, subst, arith, List,
  [], ◌∷◌, none, some, some_inj, is_power_of_two,
}
use cyptos.Arch.Frame.{TrapFrame, new_umode}
use cyptos.Pmp.Region.{PmpRegion, new, flag_rx, flag_rw}
use cyptos.Pmp.Hart.{PmpRegs, cfg, locked}
use cyptos.Pmp.Access.{matches}
use cyptos.Pmp.Napot.{IsNapot}
use cyptos.Pmp.Load.{IsTaskConfig, IsOpen, div_zero}
use cyptos.Sched.Task.{Task, TaskState, ready, running}
use cyptos.Sched.Table.{SchedulerState}
use cyptos.Sched.Table.Slots.{slot_at}
use cyptos.Sched.Table.Valid.{IsTask, IsValid}
use cyptos.Machine.{Machine}

abbrev pub frame_of : ℕ → TrapFrame
frame_of n = record {
  ra = n + 0;
  t0 = n + 1;
  t1 = n + 2;
  t2 = n + 3;
  t3 = n + 4;
  t4 = n + 5;
  t5 = n + 6;
  t6 = n + 7;
  a0 = n + 8;
  a1 = n + 9;
  a2 = n + 10;
  a3 = n + 11;
  a4 = n + 12;
  a5 = n + 13;
  a6 = n + 14;
  a7 = n + 15;
  s0 = n + 16;
  s1 = n + 17;
  s2 = n + 18;
  s3 = n + 19;
  s4 = n + 20;
  s5 = n + 21;
  s6 = n + 22;
  s7 = n + 23;
  s8 = n + 24;
  s9 = n + 25;
  s10 = n + 26;
  s11 = n + 27;
  gp = n + 28;
  tp = n + 29;
  sp = n + 30;
}

abbrev pub code : PmpRegion
code = new 0x8000_2000 0x1000 flag_rx

abbrev pub stack : PmpRegion
stack = new 0x8020_0000 0x2000 flag_rw

abbrev pub sample_regions : List PmpRegion
sample_regions = new 0 0 0 ∷ new 0 0 0 ∷ new 0 0 0 ∷ new 0 0 0 ∷ code ∷ stack ∷ []

pub code-IsNapot : IsNapot code
unfolding is_power_of_two
code-IsNapot = record { power = refl; least = omega arith; aligned = refl; within = omega arith }

stack-IsNapot : IsNapot stack
unfolding is_power_of_two
stack-IsNapot = record { power = refl; least = omega arith; aligned = refl; within = omega arith }

pub sample-IsTaskConfig : IsTaskConfig sample_regions
sample-IsTaskConfig zero lo hi = absurd (omega arith)
sample-IsTaskConfig (suc zero) lo hi = absurd (omega arith)
sample-IsTaskConfig (suc (suc zero)) lo hi = absurd (omega arith)
sample-IsTaskConfig (suc (suc (suc zero))) lo hi = absurd (omega arith)
sample-IsTaskConfig (suc (suc (suc (suc zero)))) lo hi =
    inr (record { small = omega arith; legal = λ e. absurd (omega arith); shape = code-IsNapot })
sample-IsTaskConfig (suc (suc (suc (suc (suc zero))))) lo hi =
    inr (record { small = omega arith; legal = λ e. absurd (omega arith); shape = stack-IsNapot })
sample-IsTaskConfig (suc (suc (suc (suc (suc (suc i)))))) lo hi = inl refl

abbrev pub reset_regs : PmpRegs
reset_regs = record { cfg0 = 0; cfg2 = 0; addr = λ i. 0 }

reset_cfg : (i : ℕ) → cfg reset_regs i ≡ 0
reset_cfg i = ground (arith, div_zero (8 * i), div_zero (8 * (i % 8)))

pub reset_open : (i : ℕ) → i < 16 → locked (cfg reset_regs i) ≡ false
reset_open i lt = ground (arith, reset_cfg i)

pub reset-matches : (a i : ℕ) → matches reset_regs i a ≡ false
unfolding matches
reset-matches a i = rw (reset_cfg i) refl

pub reset-IsOpen : IsOpen reset_regs
reset-IsOpen = record {
  kernel_legal = λ i lt. ground (arith, reset_cfg i);
  task_open = λ i lo hi. ground (arith, reset_cfg i);
}

abbrev pub task_in : ℕ → TaskState → Task
task_in i state = record {
  id = i;
  state = state;
  context = new_umode 0x8000_2000 0x8020_2000;
  pmp_config = record { regions = sample_regions };
  stack_bottom = 0x8020_0000;
  stack_top = 0x8020_2000;
  entry_point = 0x8000_2000;
}

-- Task 1 runs; task 2 is in the given state.
abbrev pub state_with : TaskState → SchedulerState
state_with state = record {
  current = some 1;
  tasks = none ∷ some (task_in 1 running) ∷ some (task_in 2 state) ∷ none ∷ [];
}

abbrev pub sample_state : SchedulerState
sample_state = state_with ready

task_in-IsTask : (i : ℕ) (s : TaskState) → IsTask i (task_in i s)
task_in-IsTask i s = record { id_eq = refl; config = sample-IsTaskConfig }

module _ (state : TaskState) (off : state ≢ running) where
  each : (i : ℕ) (t : Task) → slot_at (state_with state).tasks i ≡ some t → IsTask i t
  each zero t e = cc
  each (suc zero) t e = subst (IsTask 1) (some_inj e) (task_in-IsTask 1 running)
  each (suc (suc zero)) t e = subst (IsTask 2) (some_inj e) (task_in-IsTask 2 state)
  each (suc (suc (suc zero))) t e = cc
  each (suc (suc (suc (suc i)))) t e = cc

  only :
      (i : ℕ) (t : Task)
      → slot_at (state_with state).tasks i ≡ some t
      → t.state ≡ running
      → some 1 ≡ some i
  only zero t e r = cc
  only (suc zero) t e r = refl
  only (suc (suc zero)) t e r = absurd (off (ap (λ x. x.state) (some_inj e) ∙ r))
  only (suc (suc (suc zero))) t e r = cc
  only (suc (suc (suc (suc i)))) t e r = cc

  pub state_with-IsValid : IsValid (state_with state)
  state_with-IsValid = record {
    table = record { size = refl; each = each };
    current_in = λ c e.
        subst (λ k. (t : Task) × (slot_at (state_with state).tasks k ≡ some t)) (some_inj e)
          (task_in 1 running, refl);
    running_current = only;
  }

pub sample-IsValid : IsValid sample_state
sample-IsValid = state_with-IsValid ready (λ e. cc)

-- A machine that has trapped with the given cause out of U-mode, MPIE set.
abbrev pub trapped : ℕ → Machine
trapped mcause = record {
  csr = record {
    mstatus = 0x80;
    mcause = mcause;
    mepc = 0x8000_2010;
    mtval = 0x1000_0000;
    mtvec = 0x8000_0100;
    mie = 0x80;
  };
  pmp = reset_regs;
  clint = record { mtime = 5_000_000; mtimecmp = 5_000_000 };
  console = record { sent = []; rx = [] };
  allocator = record { heap_start = 0x8030_0000; heap_end = 0x8040_0000; next = 0x8030_0000 };
  tick_count = 41;
  scheduler = sample_state;
}
