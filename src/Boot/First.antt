-- ===== src/Boot/First.antt =====
-- The first timer tick after `kmain`.
use cyptos.Prelude.{ℕ, ◌+◌, ◌^◌, ◌<◌, ◌≡◌, refl, ◌∙◌, sym, ap, subst, none, some, pair_inj}
use cyptos.Arch.Frame.{TrapFrame, copy_to_frame, new_umode}
use cyptos.Machine.{Machine, done, bind_done, write_mepc, write_mstatus, say, dec}
use cyptos.Pmp.Guarded.{booted-IsOpen}
use cyptos.Pmp.Hart.{PmpHart}
use cyptos.Pmp.Init.{kernel_cfg, kernel_addr}
use cyptos.Pmp.Boot.{Holds}
use cyptos.Sched.Table.Valid.{IsValid}
use cyptos.Sched.Table.Steps.{pick-IsValid}
use cyptos.Pmp.Load.{IsInstalled, load_task_config-IsInstalled}
use cyptos.Sync.Lock.{masked, with_lock_lem}
use cyptos.Sync.{with_lock}
use cyptos.Sched.Policy.{select_next_ready}
use cyptos.Sched.Task.{Task, new_task, ready}
use cyptos.Sched.Table.{
  SchedulerState, umode_task, mmode_task, start_all, start_state, target_of, pick, run_task,
  dispatch, update_current, update_slot, is_ready,
}
use cyptos.Sched.Table.Slots.{slot_at}
use cyptos.Sched.Scheduler.{on_scheduler, resume, switch_to, schedule}
use cyptos.Boot.{Image}
use cyptos.Boot.Stages.{three}
use cyptos.Boot.Ready.{IsBooted}

-- With idle and a user task of slot 1 ready and no task current, the user task is picked.
pub pick_first :
    (frame : TrapFrame) (mepc mstatus : ℕ) (idle first other : Task) (s : SchedulerState)
    → s.current ≡ none
    → s.tasks ≡ three (some idle) (some first) (some other)
    → first.state ≡ ready
    → pick frame mepc mstatus s
      ≡ some (
        target_of 1 (some first),
        record { current = some 1; tasks = three (some idle) (some (run_task first)) (some other) },
      )
unfolding pick update_current dispatch update_slot is_ready select_next_ready
pick_first frame mepc mstatus idle first other s none_yet tasks is =
    ap (λ s. pick frame mepc mstatus s) (λ k. record { current = none_yet k; tasks = tasks k })
    ∙ rw is refl

-- A task after `init` of the scheduler.
abbrev pub begun : Task → Task
begun task = record task { state = start_state task.state }

abbrev pub echo_task : {image : Image} {m m' : Machine} → IsBooted image m m' → Task
echo_task {image} b =
    begun (umode_task image.user_echo_task (b.echo_bottom + 8192) b.echo_regions 1)

pub picked_lem :
    {image : Image} {m m' : Machine} (b : IsBooted image m m') (frame : TrapFrame)
    (mepc mstatus : ℕ)
    → (s' : SchedulerState) × (pick frame mepc mstatus m'.scheduler
        ≡ some (target_of 1 (some (echo_task b)), s'))
      × (s'.current ≡ some 1)
      × (slot_at s'.tasks 1 ≡ some (run_task (echo_task b)))
unfolding start_all umode_task new_task
picked_lem {image} {m'} b frame mepc mstatus = (
  _,
  pick_first frame mepc mstatus (begun (mmode_task image.idle_task_entry (b.idle_bottom + 8192) 0))
      (echo_task b)
      (begun
        (umode_task image.user_violation_task (b.violation_bottom + 8192) b.violation_regions 2))
      m'.scheduler b.current_eq b.tasks_eq refl,
  refl,
  refl,
)

-- The first timer tick, on a machine that `kmain` has booted and whose CSRs the trap has changed, with
-- mstatus below 2 ^ 64: `schedule` dispatches the echo task of slot 1 and not the idle task. It gives it zeroed
-- registers and the top of its own stack as sp, resumes at its entry in U-mode with interrupts enabled by
-- `mret`, and installs its PMP regions; the table is valid.
pub schedule-first :
    (hart : PmpHart) (image : Image) (m m' n : Machine) (frame : TrapFrame)
    → (b : IsBooted image m m') → n.scheduler ≡ m'.scheduler
    → n.pmp ≡ m'.pmp
    → n.csr.mstatus < 2 ^ 64
    → (frame' : TrapFrame) × (n' : Machine) × (schedule hart frame n ≡ done frame' n')
      × (n'.scheduler.current ≡ some 1)
      × (frame' ≡ copy_to_frame (new_umode image.user_echo_task (b.echo_bottom + 8192)) frame)
      × (n'.csr.mepc ≡ image.user_echo_task)
      × (n'.csr.mstatus ≡ 0x80)
      × IsInstalled (echo_task b).pmp_config.regions n.pmp n'.pmp
      × IsValid n'.scheduler
unfolding schedule resume switch_to say dec write_mepc write_mstatus umode_task new_task new_umode
schedule-first hart image m m' n frame b sched pmp small =
    let (s', picked, current, here) = picked_lem b frame n.csr.mepc n.csr.mstatus in
    let g = target_of 1 (some (echo_task b)) in
    let picked' : pick frame n.csr.mepc n.csr.mstatus n.scheduler ≡ some (g, s') =
      ap (pick frame n.csr.mepc n.csr.mstatus) sched ∙ picked in
    let body = on_scheduler (pick frame n.csr.mepc n.csr.mstatus) in
    let locked : body (masked n) ≡ done g (record (masked n) { scheduler = s' }) =
      rw (picked', on_scheduler) in
    let (_, unlocked) =
      with_lock_lem body n (record (masked n) { scheduler = s' }) g small locked refl in
    let (_, s'', e, valid'') =
      pick-IsValid frame n.csr.mepc n.csr.mstatus n.scheduler (subst IsValid (sym sched) b.valid) in
    let (_, same) = pair_inj (sym e ∙ picked') in
    let valid : IsValid s' = subst IsValid same valid'' in
    let open_pmp =
      booted-IsOpen image.symbols
        (subst (Holds kernel_cfg (kernel_addr image.symbols)) (sym pmp) b.pmp_holds) in
    (
      copy_to_frame (echo_task b).context frame,
      _,
      bind_done (with_lock body) (resume hart frame) n (record n { scheduler = s' }) g unlocked
          ∙ refl,
      current,
      refl,
      refl,
      refl,
      load_task_config-IsInstalled hart n.pmp open_pmp (echo_task b).pmp_config.regions
          (valid.table.each 1 _ here).config,
      valid,
    )
