-- ===== src/System/Sound.antt =====
-- The task table of a running system, and that a tick keeps it so: slot 0 holds the idle task, which runs in
-- M-mode and never dies; all others run in U-mode; and every task keeps the regions it was created with.
use cyptos.Prelude.{
  ℕ, zero, suc, ◌≡◌, ◌⊎◌, inl, inr, ◌∙◌, sym, ap, subst, List, Option, none, some, some_inj,
  Option-cases, Bool-cases, ◌==◌, ==_iff,
}
use cyptos.Arch.Frame.{TrapFrame, TaskContext}
use cyptos.Pmp.Region.{PmpRegion}
use cyptos.Sched.Task.{Task, ready, running}
use cyptos.Sched.Table.{SchedulerState, SwitchTarget, pick}
use cyptos.Sched.Table.Slots.{slot_at}
use cyptos.Sched.Table.Valid.{IsValid}
use cyptos.Sched.Table.Steps.{context_after, Evolves, pick-Evolves}
use cyptos.Sched.Table.Life.{next-IsValid}
use cyptos.System.{mpp_of}
use cyptos.System.Table.{preempted-ready, pick-empty}

-- The mode of the task in a slot, and of the code that runs when `current` is the current slot.
abbrev pub mode_of : ℕ → ℕ
mode_of zero = 3
mode_of (suc i) = 0

abbrev pub mode_at : Option ℕ → ℕ
mode_at none = 3
mode_at (some c) = mode_of c

pub record IsSound (cfgs : ℕ → List PmpRegion) (s : SchedulerState) : Type 0 where
  pub valid : IsValid s
  pub configs : (i : ℕ) (t : Task) → slot_at s.tasks i ≡ some t → t.pmp_config.regions ≡ cfgs i
  pub modes : (i : ℕ) (t : Task) → slot_at s.tasks i ≡ some t → mpp_of t.context.mstatus ≡ mode_of i
  pub idle : Task
  pub idle_at : slot_at s.tasks 0 ≡ some idle
  pub idle_alive : (idle.state ≡ ready) ⊎ (idle.state ≡ running)

module _ (cfgs : ℕ → List PmpRegion) (frame : TrapFrame) (mepc mstatus : ℕ) where
  context_mode :
      (before : Option ℕ) (i : ℕ) (ctx : TaskContext)
      → mpp_of mstatus ≡ mode_at before
      → mpp_of ctx.mstatus ≡ mode_of i
      → mpp_of (context_after frame mepc mstatus before i ctx).mstatus ≡ mode_of i
  context_mode none i ctx now was = was
  context_mode (some c) i ctx now was = elim (Bool-cases (c == i)) [
    | inl same ↦ rw same (now ∙ ap mode_of ((==_iff c i).0 same))
    | inr other ↦ rw other was
  ]

  module _ (s : SchedulerState) (target : Option SwitchTarget) (s' : SchedulerState)
      (sound : IsSound cfgs s) (picked : pick frame mepc mstatus s ≡ some (target, s')) where
    -- Where a task of the next table comes from.
    comes_from :
        (i : ℕ) (u : Task)
        → slot_at s'.tasks i ≡ some u
        → (t : Task) × (slot_at s.tasks i ≡ some t)
          × Evolves frame mepc mstatus s.current s'.current i t u
    comes_from i u at = elim (Option-cases (slot_at s.tasks i)) [
      | inl free ↦
          absurd (cc (pick-empty frame mepc mstatus s sound.valid target s' i picked free, at))
      | inr (t, was) ↦
          let (u', at', ev) =
            pick-Evolves frame mepc mstatus s target s' i t sound.valid picked was in
          (
            t,
            was,
            subst (Evolves frame mepc mstatus s.current s'.current i t) (some_inj (sym at' ∙ at))
                ev,
          )
    ]

    pub pick-IsSound : mpp_of mstatus ≡ mode_at s.current → IsSound cfgs s'
    pick-IsSound now =
        let (idle', at', ev) =
          pick-Evolves frame mepc mstatus s target s' 0 sound.idle sound.valid picked
            sound.idle_at in
        record {
          valid = next-IsValid frame mepc mstatus s target s' sound.valid picked;
          configs = λ i u at.
              let (t, was, ev) = comes_from i u at in
              ap (λ c. c.regions) ev.config_eq ∙ sound.configs i t was;
          modes = λ i u at.
              let (t, was, ev) = comes_from i u at in
              ap (λ (c : TaskContext). mpp_of c.mstatus) ev.context_eq
              ∙ context_mode s.current i t.context now (sound.modes i t was);
          idle = idle';
          idle_at = at';
          idle_alive = elim ev.state_eq [
            | inl e ↦ inl (e ∙ preempted-ready sound.idle.state sound.idle_alive)
            | inr (_, runs, _) ↦ inr runs
          ];
        }
