-- ===== src/Boot/Steps.antt =====
-- The steps of `kmain` up to the timer: what each leaves of the machine.
use native.Mathlib.Nat.{mod-eq_of_lt}
use cyptos.Prelude.{◌+◌, ◌^◌, ◌<◌, ◌≤◌, ◌≡◌, refl, ◌∙◌, sym, ap, subst, arith, some, []}
use cyptos.Allocator.{BumpAllocator, alloc, dealloc}
use cyptos.Allocator
use cyptos.Allocator.Room.{alloc-exact}
use cyptos.Arch.Csr.{Csr, enable_timer}
use cyptos.Machine.{Machine, Clint, M, ◌>>=◌, ◌>>◌, say, dec, modify, Returns, bind-Returns}
use cyptos.Pmp
use cyptos.Pmp.Hart.{PmpHart}
use cyptos.Serial.{puts}
use cyptos.Sched.Spec.{expect, allocate}
use cyptos.Timer
use cyptos.Timer.{set_timer_us, clear_timer, write_mtimecmp, enable_timer_interrupt}
use cyptos.Trap
use cyptos.Boot.{Image, print_banner, init_heap, pmp_init}

-- The heap after the test allocation of three bytes.
abbrev pub heap_of : Image → BumpAllocator
heap_of image = record {
  heap_start = image.sheap;
  heap_end = image.symbols.eheap;
  next = image.sheap + 3;
}

abbrev with_heap : Machine → Machine
with_heap m = record m { console = puts "[alloc] Heap initialized\n" m.console }

abbrev HeapReady : Image → Machine → Unit {0} → Machine → Type 0
HeapReady image m r m' =
    (m'.allocator ≡ heap_of image)
    × (m'.csr ≡ m.csr)
    × (m'.pmp ≡ m.pmp)
    × (m'.clint ≡ m.clint)
    × (m'.scheduler ≡ m.scheduler)

init_heap_lem :
    (image : Image) (m : Machine)
    → image.sheap + 3 ≤ image.symbols.eheap
    → image.symbols.eheap < 2 ^ 55
    → Returns (init_heap image m) (HeapReady image m)
unfolding init_heap allocate Allocator.init dealloc say dec
init_heap_lem image m room within =
    let (p, up, got, _) =
      alloc-exact 3 0 64 (Allocator.init image.sheap image.symbols.eheap m.allocator) refl
        (omega arith) (omega arith) in
    let e : p ≡ image.sheap = omega (arith, up.above, up.near) in
    let heap = Allocator.init image.sheap image.symbols.eheap m.allocator in
    let found : alloc [] 3 1 heap ≡ (some image.sheap, heap_of image) =
      got (omega arith) ∙ ap (λ q. (some q, record heap { next = q + 3 })) e in
    subst
      (λ r.
        Returns
          ((expect r.0 >>= λ v.
              (say "[alloc] Test alloc ok, len="
                >> (dec 3
                    >> (say "\n" >> modify λ m. record m { allocator = dealloc v m.allocator }))))
            (record (with_heap m) { allocator = r.1 }))
          (HeapReady image m))
      (sym found) (refl, refl, refl, refl, refl)

-- The machine when the tasks are about to be spawned.
pub record IsSetUp (hart : PmpHart) (image : Image) (m m' : Machine) : Type 0 where
  pub heap_eq : m'.allocator ≡ heap_of image
  pub scheduler_eq : m'.scheduler ≡ m.scheduler
  pub csr_eq : m'.csr ≡ enable_timer (record (m.csr) { mtvec = image.vector })
  pub pmp_eq : m'.pmp ≡ Pmp.init hart image.symbols m.pmp
  pub timer_eq : m'.clint ≡ record (m.clint) { mtimecmp = m.clint.mtime + 100_000 }

timer_lem :
    (m : Machine)
    → m.clint.mtime + 100_000 < 2 ^ 64
    → Returns (Timer.init m) (λ _ m'.
      (m'.allocator ≡ m.allocator)
      × (m'.csr ≡ enable_timer m.csr)
      × (m'.pmp ≡ m.pmp)
      × (m'.clint ≡ record (m.clint) { mtimecmp = m.clint.mtime + 100_000 })
      × (m'.scheduler ≡ m.scheduler))
unfolding Timer.init clear_timer enable_timer_interrupt write_mtimecmp say dec
timer_lem m fits =
    (refl, refl, refl, ap (λ t. record (m.clint) { mtimecmp = t }) (mod-eq_of_lt fits), refl)

-- What follows the setup runs on a machine that is set up.
pub set_up-Returns :
    {B : Type 0} (hart : PmpHart) (image : Image) (m : Machine) (rest : M B)
    (Q : B → Machine → Type 0)
    → image.sheap + 3 ≤ image.symbols.eheap
    → image.symbols.eheap < 2 ^ 55
    → m.clint.mtime + 100_000 < 2 ^ 64
    → ((m' : Machine) → IsSetUp hart image m m' → Returns (rest m') Q)
    → Returns
        ((print_banner
            >> (init_heap image
                >> (Trap.init image.vector >> (pmp_init hart image >> (Timer.init >> rest)))))
          m)
        Q
unfolding print_banner pmp_init Trap.init say
set_up-Returns hart image m rest Q room within fits next =
    bind-Returns (init_heap image) _ _ Q _ (init_heap_lem image _ room within)
      (λ _ m1 (heap, csr, pmp, clint, sched).
        bind-Returns Timer.init (λ _. rest) _ Q _
          (timer_lem _ (subst (λ (c : Clint). c.mtime + 100_000 < 2 ^ 64) (sym clint) fits))
          (λ _ m2 (heap2, csr2, pmp2, clint2, sched2). next m2 (record {
            heap_eq = heap2 ∙ heap;
            scheduler_eq = sched2 ∙ sched;
            csr_eq =
                csr2 ∙ ap {A = Csr} (λ c. enable_timer (record c { mtvec = image.vector })) csr;
            pmp_eq = pmp2 ∙ ap (Pmp.init hart image.symbols) pmp;
            timer_eq =
                clint2 ∙ ap {A = Clint} (λ c. record c { mtimecmp = c.mtime + 100_000 }) clint;
          })))
