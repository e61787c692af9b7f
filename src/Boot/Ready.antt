-- ===== src/Boot/Ready.antt =====
-- `kmain` as a whole: from reset to the machine that waits for its first timer interrupt.
use cyptos.Prelude.{
  ℕ, ◌+◌, ◌^◌, ◌<◌, ◌≡◌, refl, ◌∙◌, sym, ap, subst, arith, List, [], ◌∷◌, none, some,
}
use cyptos.Config.{uart_base}
use cyptos.Allocator.Blocks.{IsAligned}
use cyptos.Arch.Csr.{Csr, enable_timer, set_bits}
use cyptos.Machine.{Machine, Returns, Returns-weaken, bind-Returns}
use cyptos.Pmp.Hart.{PmpHart}
use cyptos.Pmp.Region.{PmpRegion}
use cyptos.Pmp.Boot.{Holds}
use cyptos.Pmp.Init.{kernel_cfg, kernel_addr, init-Holds}
use cyptos.Sched.Table.{SchedulerState, umode_task, mmode_task, start_all}
use cyptos.Sched.Table.Valid.{IsValid}
use cyptos.Sched.Table.Start.{init-IsValid}
use cyptos.Sched.Spec.Layout.{IsLaid}
use cyptos.Boot.{
  Image, kmain, spawn_idle_task, spawn_echo_task, spawn_violation_task, start_scheduler,
}
use cyptos.Boot.Steps.{heap_of, set_up-Returns}
use cyptos.Boot.Spawns.{spawn_idle_task_lem, spawn_echo_task_lem, spawn_violation_task_lem}
use cyptos.Boot.Stages.{
  Started, start_scheduler_lem, init_tasks, full_1, full_2, three, IsReset, IsStage,
  IsSetUp-IsStage, IsStage-CanSpawn, IsSpawned-IsStage, stack_from,
}

-- The machine that waits for its first interrupt.
pub record IsBooted (image : Image) (m m' : Machine) : Type 0 where
  pub idle_bottom : ℕ
  pub echo_bottom : ℕ
  pub violation_bottom : ℕ
  pub echo_regions : List PmpRegion
  pub violation_regions : List PmpRegion
  pub idle_stack : IsAligned (image.sheap + 3) 8192 idle_bottom
  pub echo_stack : IsAligned (idle_bottom + 8192) 8192 echo_bottom
  pub violation_stack : IsAligned (echo_bottom + 8192) 8192 violation_bottom
  pub heap_eq : m'.allocator ≡ record (heap_of image) { next = violation_bottom + 8192 }
  pub echo_laid :
      IsLaid image.user_text_start 0x1000 ((uart_base, 0x1000) ∷ []) echo_bottom echo_regions
  pub violation_laid : IsLaid image.user_text_start 0x1000 [] violation_bottom violation_regions
  pub current_eq : m'.scheduler.current ≡ none
  pub tasks_eq :
      m'.scheduler.tasks
      ≡ start_all (
          three
            (some (mmode_task image.idle_task_entry (idle_bottom + 8192) 0))
            (some (umode_task image.user_echo_task (echo_bottom + 8192) echo_regions 1))
            (some
              (umode_task image.user_violation_task (violation_bottom + 8192) violation_regions 2)))
  pub valid : IsValid m'.scheduler
  pub csr_eq :
      m'.csr
      ≡ enable_timer (record (m.csr) { mtvec = image.vector; mstatus = set_bits 8 m.csr.mstatus })
  pub pmp_holds : Holds kernel_cfg (kernel_addr image.symbols) m'.pmp
  pub timer_eq : m'.clint ≡ record (m.clint) { mtimecmp = m.clint.mtime + 100_000 }

module _ (hart : PmpHart) (image : Image) (m : Machine) (r : IsReset image m) where
  abbrev Q : Unit {0} → Machine → Type 0
  Q _ m' = IsBooted image m m'

  booted :
      (b0 b1 b2 : ℕ) (r1 r2 : List PmpRegion) (m4 : Machine)
      → IsAligned (image.sheap + 3) 8192 b0
      → IsAligned (b0 + 8192) 8192 b1
      → IsAligned (b1 + 8192) 8192 b2
      → IsLaid image.user_text_start 0x1000 ((uart_base, 0x1000) ∷ []) b1 r1
      → IsLaid image.user_text_start 0x1000 [] b2 r2
      → IsStage hart image m
          (three
            (some (mmode_task image.idle_task_entry (b0 + 8192) 0))
            (some (umode_task image.user_echo_task (b1 + 8192) r1 1))
            (some (umode_task image.user_violation_task (b2 + 8192) r2 2)))
          (b2 + 8192)
          m4
      → Returns (start_scheduler m4) Q
  unfolding enable_timer
  booted b0 b1 b2 r1 r2 m4 a0 a1 a2 laid1 laid2 s =
      let small : m4.csr.mstatus < 2 ^ 64 =
        subst (λ (c : Csr). c.mstatus < 2 ^ 64) (sym s.csr_eq) r.small in
      Returns-weaken (start_scheduler m4) (Started m4) Q (start_scheduler_lem m4 small s.valid)
        λ _ m5 (sched, csr, pmp, clint, heap).
          let (_, current, valid) = init-IsValid m4.scheduler s.valid in
          record {
            idle_bottom = b0;
            echo_bottom = b1;
            violation_bottom = b2;
            echo_regions = r1;
            violation_regions = r2;
            idle_stack = a0;
            echo_stack = a1;
            violation_stack = a2;
            heap_eq = heap ∙ s.heap_eq;
            echo_laid = laid1;
            violation_laid = laid2;
            current_eq = ap {A = SchedulerState} (λ s. s.current) sched ∙ (current ∙ s.current_eq);
            tasks_eq =
                ap {A = SchedulerState} (λ s. s.tasks) sched
                ∙ (init_tasks m4.scheduler ∙ ap start_all s.tasks_eq);
            valid = subst IsValid (sym sched) valid;
            csr_eq = csr ∙ ap {A = Csr} (λ c. record c { mstatus = set_bits 8 c.mstatus }) s.csr_eq;
            pmp_holds =
                subst (Holds kernel_cfg (kernel_addr image.symbols)) (sym (pmp ∙ s.pmp_eq))
                  (init-Holds hart image.symbols r.linked m.pmp r.reset);
            timer_eq = clint ∙ s.timer_eq;
          }

  -- From a machine of which no PMP entry is locked and whose task table is empty, with mstatus below 2 ^ 64
  -- and mtime more than 100000 below 2 ^ 64, for an image whose boundaries are in order and aligned, whose
  -- heap holds 49155 bytes and ends below 2 ^ 55, and whose user code starts at a multiple of 0x1000:
  -- `kmain` does not panic and comes to its waiting loop. Then the idle, echo and violation tasks stand in
  -- slots 0, 1 and 2, ready, each on its own 8192 bytes of the heap and the two user tasks with their
  -- regions; the table is valid and no task is current; the kernel's PMP entries are in place; the trap
  -- vector is set, interrupts are enabled, and the timer is armed 100000 ticks ahead.
  pub kmain_lem : Returns (kmain hart image m) Q
  unfolding kmain enable_timer
  kmain_lem =
      set_up-Returns hart image m _ Q (omega (arith, r.heap_room)) r.within r.fits λ m1 set_up.
        let s1 = IsSetUp-IsStage hart image m r m1 set_up in
        bind-Returns (spawn_idle_task image) _ _ Q m1
          (spawn_idle_task_lem image m1 0 (
            IsStage-CanSpawn hart image m r 0 s1 (omega (arith, r.heap_room)) (omega arith) refl
              (λ j lt. absurd (omega arith))))
          λ _ m2 (b0, v0).
            let s2 = IsSpawned-IsStage hart image m r s1 v0 in
            let a0 = stack_from hart image m r s1 v0 in
            bind-Returns (spawn_echo_task image) _ _ Q m2
              (spawn_echo_task_lem image m2 1 r.code (
                IsStage-CanSpawn hart image m r 1 s2 (omega (arith, r.heap_room, a0.near))
                  (omega arith) refl (full_1 _)))
              λ _ m3 (b1, r1, laid1, v1).
                let s3 = IsSpawned-IsStage hart image m r s2 v1 in
                let a1 = stack_from hart image m r s2 v1 in
                bind-Returns (spawn_violation_task image) _ _ Q m3
                  (spawn_violation_task_lem image m3 2 r.code (
                    IsStage-CanSpawn hart image m r 2 s3
                      (omega (arith, r.heap_room, a0.near, a1.near)) (omega arith) refl
                      (full_2 _ _)))
                  λ _ m4 (b2, r2, laid2, v2).
                    booted b0 b1 b2 r1 r2 m4 a0 a1 (stack_from hart image m r s3 v2) laid1 laid2
                      (IsSpawned-IsStage hart image m r s3 v2)
