-- ===== src/UserTask/Violation.antt =====
-- The violation task on the booted system: its load is denied, and the trap of it is its end.
use cyptos.Prelude.{ℕ, ◌<◌, ◌≤◌, ◌≡◌, ◌≢◌, refl, ◌∙◌, inl, inr, true, false, some, arith, List}
use cyptos.Machine.{Machine}
use cyptos.Pmp.{LinkerSymbols}
use cyptos.Pmp.Access.{load, user_permits}
use cyptos.Pmp.Boundary.{boot_permits, between}
use cyptos.Pmp.Hart.{PmpHart}
use cyptos.Pmp.Init.{IsLinked}
use cyptos.Pmp.Region.{PmpRegion}
use cyptos.Sched.Table.Slots.{slot_at}
use cyptos.Sched.Task.{Task}
use cyptos.Sched.Scheduler.Kill.{IsDead}
use cyptos.Boot.{Image}
use cyptos.Boot.Ready.{IsBooted}
use cyptos.System.{World, Event, IsFrom, Step, Reaches}
use cyptos.System.Isolation.{configs_of, waiting_in, user_permits-reached, user_fault-final}
use cyptos.UserTask.{user_violation_task}

-- Kernel code may not be read.
text-denied :
    (k : LinkerSymbols) (rs : List PmpRegion) (a : ℕ)
    → k.stext ≤ a
    → a < k.user_text_end
    → boot_permits k rs load a ≡ false
text-denied k rs a low high =
    let inside : between k.stext k.user_text_end a ≡ true = ground arith in rw inside refl

module _ (hart : PmpHart) (image : Image) (m booted : Machine) (b : IsBooted image m booted) where
  -- As long as every trap finds that a user task has stored in its own stack only and has left room on it for
  -- the trap's frame and the handler, and that `kmain` and the idle task have stored nothing and idle has kept
  -- its sp (`OwnStack`), for an image whose boundaries are in order and aligned, whose code begins at or below
  -- 0x8000_0000 and whose user code reaches beyond it, in every world that the system reaches from the one
  -- that `kmain` leaves and in which the violation task of slot 2 is current: U-mode may not do the load of
  -- `user_violation_task`; and from a load access fault there, with mtime more than 100000 below 2 ^ 64,
  -- `trap_handler` returns, the task is dead and is current in no world that follows.
  pub user_violation_task_lem :
      (w : World) (t : Task)
      → IsLinked image.symbols
      → image.symbols.stext ≤ user_violation_task.1
      → user_violation_task.1 < image.symbols.user_text_end
      → Reaches hart (waiting_in booted) w
      → w.machine.scheduler.current ≡ some 2
      → slot_at w.machine.scheduler.tasks 2 ≡ some t
      → (user_permits w.machine.pmp (user_violation_task.0) (user_violation_task.1) ≡ false)
        × ((e : Event)
            → IsFrom w e
            → e.mcause ≡ 5
            → (w' : World) × Step hart w w'
              × IsDead 2 w'.machine.scheduler
              × ((w'' : World) → Reaches hart w' w'' → w''.machine.scheduler.current ≢ some 2))
  user_violation_task_lem w t linked low high r ec at =
      let (user, _, _, allowed) =
        user_permits-reached hart image m booted b w 2 t load 0x8000_0000 linked r ec at in
      (
        allowed ∙ text-denied image.symbols (configs_of booted 2) 0x8000_0000 low high,
        λ e from fault.
            user_fault-final hart image m booted b w e 2 r from (inr (inl fault)) user ec,
      )
