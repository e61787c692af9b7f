-- ===== src/System/Isolation.antt =====
-- From `kmain` on: what a user task may access, which traps the kernel survives, and what becomes of a task
-- that faults.
use cyptos.Prelude.{
  ℕ, zero, suc, ◌+◌, ◌≡◌, ◌≢◌, refl, inl, ◌∙◌, sym, ap, List, [], ◌∷◌, Option, none, some, some_inj,
  true,
}
use cyptos.Arch.Frame.{new_umode, new_mmode}
use cyptos.Machine.{Machine}
use cyptos.Pmp.Access.{Access, user_permits}
use cyptos.Pmp.Boundary.{boot_permits, permitted}
use cyptos.Pmp.Guarded.{Holds-IsGuarded, booted-IsOpen}
use cyptos.Pmp.Hart.{PmpHart}
use cyptos.Pmp.Init.{IsLinked}
use cyptos.Pmp.Region.{PmpRegion}
use cyptos.Sched.Task.{Task, new_task, ready, running, dead}
use cyptos.Sched.Table.{umode_task, mmode_task, start_all}
use cyptos.Sched.Table.Slots.{slot_at}
use cyptos.Sched.Scheduler.Kill.{IsDead}
use cyptos.Trap.Outcomes.{recovers}
use cyptos.Trap.Fault.{IsAccessFault, trap_handler-user_fault}
use cyptos.Boot.{Image}
use cyptos.Boot.Stages.{three}
use cyptos.Boot.Ready.{IsBooted}
use cyptos.System.{World, Event, IsFrom, Step, Reaches, then, trap, enter, leave, mpp_of}
use cyptos.System.Sound.{mode_at, mode_of}
use cyptos.System.Kept.{Safe, mpp_eq}
use cyptos.System.Reach.{Reaches-Kept, trap_handler-returns}

-- The regions of the tasks in a machine's table.
abbrev regions_of : Option Task → List PmpRegion
regions_of none = []
regions_of (some t) = t.pmp_config.regions

abbrev pub configs_of : Machine → ℕ → List PmpRegion
configs_of m i = regions_of (slot_at m.scheduler.tasks i)

-- `kmain` waits in M-mode.
abbrev pub waiting_in : Machine → World
waiting_in m = record { machine = m; mode = 3 }

-- The modes of the tasks that the boot creates.
started_modes :
    (idle_entry idle_top e1 t1 e2 t2 : ℕ) (r1 r2 : List PmpRegion) (i : ℕ) (t : Task)
    → slot_at
        (start_all (
          three
            (some (mmode_task idle_entry idle_top 0))
            (some (umode_task e1 t1 r1 1))
            (some (umode_task e2 t2 r2 2))))
        i
      ≡ some t
    → mpp_of t.context.mstatus ≡ mode_of i
unfolding start_all mmode_task umode_task new_task new_umode new_mmode
started_modes idle_entry idle_top e1 t1 e2 t2 r1 r2 zero t e =
    ap (λ (t : Task). mpp_of t.context.mstatus) (some_inj (sym e))
started_modes idle_entry idle_top e1 t1 e2 t2 r1 r2 (suc zero) t e =
    ap (λ (t : Task). mpp_of t.context.mstatus) (some_inj (sym e))
started_modes idle_entry idle_top e1 t1 e2 t2 r1 r2 (suc (suc zero)) t e =
    ap (λ (t : Task). mpp_of t.context.mstatus) (some_inj (sym e))
started_modes idle_entry idle_top e1 t1 e2 t2 r1 r2 (suc (suc (suc zero))) t e = cc
started_modes idle_entry idle_top e1 t1 e2 t2 r1 r2 (suc (suc (suc (suc i)))) t e = cc

idle_started :
    (entry top : ℕ) (rest : List (Option Task))
    → (t : Task) × (slot_at (start_all (some (mmode_task entry top 0) ∷ rest)) 0 ≡ some t)
      × (t.state ≡ ready)
unfolding start_all mmode_task new_task
idle_started entry top rest = (_, refl, refl)

booted-Safe :
    {image : Image} {m m' : Machine}
    → IsBooted image m m'
    → Safe image.symbols (configs_of m') (waiting_in m')
booted-Safe {image} {m'} b =
    let (idle, at, is) = idle_started image.idle_task_entry (b.idle_bottom + 8192) _ in
    record {
      sound = record {
        valid = b.valid;
        configs = λ i t at. ap regions_of (sym at);
        modes = λ i t at.
            started_modes _ _ _ _ _ _ _ _ i t (ap (λ ts. slot_at ts i) (sym b.tasks_eq) ∙ at);
        idle = idle;
        idle_at = ap (λ ts. slot_at ts 0) b.tasks_eq ∙ at;
        idle_alive = inl is;
      };
      guarded = Holds-IsGuarded b.pmp_holds;
      is_open = booted-IsOpen image.symbols b.pmp_holds;
      loaded = λ c t ec at. cc (ec, b.current_eq);
      runs = λ c t ec at. cc (ec, b.current_eq);
      mode_eq = ap mode_at (sym b.current_eq);
    }

module _ (hart : PmpHart) (image : Image) (m booted : Machine) (b : IsBooted image m booted) where
  -- What holds in every world that the system reaches.
  pub reached :
      {w : World} → Reaches hart (waiting_in booted) w → Safe image.symbols (configs_of booted) w
  reached r = (Reaches-Kept hart image.symbols (configs_of booted) (booted-Safe b) r).0

  -- As long as every trap finds that a user task has stored in its own stack only and has left room on it for
  -- the trap's frame and the handler, and that `kmain` and the idle task have stored nothing and idle has kept
  -- its sp (`OwnStack`), for an image whose boundaries are in order and aligned, in every world that the
  -- system reaches from the one that `kmain` leaves, by any such traps and whatever the devices do between
  -- them: while task c is current, the hart runs in its mode, its regions are those that it was created with,
  -- and U-mode may do at any address exactly what `boot_permits` says for these.
  pub user_permits-reached :
      (w : World) (c : ℕ) (t : Task) (access : Access) (a : ℕ)
      → IsLinked image.symbols
      → Reaches hart (waiting_in booted) w
      → w.machine.scheduler.current ≡ some c
      → slot_at w.machine.scheduler.tasks c ≡ some t
      → (w.mode ≡ mode_of c)
        × (t.state ≡ running)
        × (t.pmp_config.regions ≡ configs_of booted c)
        × (user_permits w.machine.pmp access a
            ≡ boot_permits image.symbols (configs_of booted c) access a)
  user_permits-reached w c t access a linked r ec at =
      let s = reached r in
      let same = s.sound.configs c t at in
      (
        s.mode_eq ∙ ap mode_at ec,
        s.runs c t ec at,
        same,
        permitted image.symbols t.pmp_config.regions w.machine.pmp access a linked s.guarded
              ((s.sound.valid.table.each c t at).config) (s.loaded c t ec at)
            ∙ ap (λ rs. boot_permits image.symbols rs access a) same,
      )

  -- As long as every trap finds that a user task has stored in its own stack only and has left room on it for
  -- the trap's frame and the handler, and that `kmain` and the idle task have stored nothing and idle has kept
  -- its sp (`OwnStack`), in every world that the system reaches from the one that `kmain` leaves, with mtime
  -- more than 100000 below 2 ^ 64: on an interrupt, a breakpoint, an environment call, and an access fault of
  -- U-mode `trap_handler` does not panic; it returns to a world that the system reaches.
  pub trap_handler-progress :
      (w : World) (e : Event)
      → Reaches hart (waiting_in booted) w
      → IsFrom w e
      → recovers e.mcause w.mode ≡ true
      → (w' : World) × Step hart w w' × Reaches hart (waiting_in booted) w'
  trap_handler-progress w e r from ok =
      let (frame', m', out) =
        trap_handler-returns hart image.symbols (configs_of booted) w e (reached r) from ok in
      let st = trap e frame' m' from out refl in (leave m', st, then r st)

  -- As long as every trap finds that a user task has stored in its own stack only and has left room on it for
  -- the trap's frame and the handler, and that `kmain` and the idle task have stored nothing and idle has kept
  -- its sp (`OwnStack`), in every world that the system reaches from the one that `kmain` leaves, a task that
  -- is dead is dead in all worlds that follow, and never current again.
  pub dead-forever :
      (w w' : World) (c : ℕ)
      → Reaches hart (waiting_in booted) w
      → IsDead c w.machine.scheduler
      → Reaches hart w w'
      → IsDead c w'.machine.scheduler × (w'.machine.scheduler.current ≢ some c)
  dead-forever w w' c r is r' =
      let (s', keeps) = Reaches-Kept hart image.symbols (configs_of booted) (reached r) r' in
      let (u, at, gone) = keeps c is in
      ((u, at, gone), λ ec. dead≢running (sym gone ∙ s'.runs c u ec at))
    where
      dead≢running : dead ≡ running → ⊥
      dead≢running e = cc

  -- As long as every trap finds that a user task has stored in its own stack only and has left room on it for
  -- the trap's frame and the handler, and that `kmain` and the idle task have stored nothing and idle has kept
  -- its sp (`OwnStack`), in every world that the system reaches from the one that `kmain` leaves, with mtime
  -- more than 100000 below 2 ^ 64: an access fault of the task that runs in U-mode is the end of that task and
  -- not of the kernel: `trap_handler` returns, the task is dead, and it is not current in any world that
  -- follows.
  pub user_fault-final :
      (w : World) (e : Event) (c : ℕ)
      → Reaches hart (waiting_in booted) w
      → IsFrom w e
      → IsAccessFault e.mcause
      → w.mode ≡ 0
      → w.machine.scheduler.current ≡ some c
      → (w' : World) × Step hart w w'
        × IsDead c w'.machine.scheduler
        × ((w'' : World) → Reaches hart w' w'' → w''.machine.scheduler.current ≢ some c)
  user_fault-final w e c r from fault user ec =
      let (frame', m', out, _, kills) =
        trap_handler-user_fault hart e.frame (enter e w.machine) e.mcause fault refl
          (mpp_eq (enter e w.machine).csr ∙ (from.mpp_eq ∙ user)) from.small
          (reached r).sound.valid in
      let st = trap e frame' m' from out refl in
      (
        leave m',
        st,
        kills c ec,
        λ w'' r'. (dead-forever (leave m') w'' c (then r st) (kills c ec) r').1,
      )
