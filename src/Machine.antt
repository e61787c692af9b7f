-- ===== src/Machine.antt =====
-- The state that the kernel works on, and the outcome of kernel code: it returns, or it panics and
-- the machine stops there.
use cyptos.Prelude.{ℕ, String, ◌≡◌, refl, ap}
use cyptos.Arch.Csr.{Csr}
use cyptos.Pmp.Hart.{PmpRegs}
use cyptos.Serial.{Console, puts, put_dec}
use cyptos.Allocator.{BumpAllocator}
use cyptos.Sched.Table.{SchedulerState}

-- The CLINT's two registers for hart 0.
pub record Clint : Type 0 where
  pub mtime : ℕ
  pub mtimecmp : ℕ

pub record Machine : Type 0 where
  pub csr : Csr
  pub pmp : PmpRegs
  pub clint : Clint
  pub console : Console
  pub allocator : BumpAllocator
  pub tick_count : ℕ
  pub scheduler : SchedulerState

pub data Outcome (A : Type 0) : Type 0 where
  done : A → Machine → Outcome A
  panicked : Machine → Outcome A

abbrev pub M : Type 0 → Type 0
M A = Machine → Outcome A

abbrev pub pure : {A : Type 0} → A → M A
pure a m = done a m

abbrev pub and_then : {A B : Type 0} → Outcome A → (A → M B) → Outcome B
and_then (done a m) g = g a m
and_then (panicked m) g = panicked m

infixl 5 ◌>>=◌ ◌>>◌
abbrev pub ◌>>=◌ : {A B : Type 0} → M A → (A → M B) → M B
◌>>=◌ f g m = and_then (f m) g

abbrev pub ◌>>◌ : {B : Type 0} → M (Unit {0}) → M B → M B
f >> g = f >>= λ _. g

-- Code that returns hands over to what follows it.
pub bind_done :
    {A B : Type 0} (f : M A) (g : A → M B) (m m' : Machine) (a : A)
    → f m ≡ done a m'
    → (f >>= g) m ≡ g a m'
bind_done f g m m' a e = ap (λ r. and_then r g) e

-- The code returns, with a value and a machine that satisfy `P`.
abbrev pub Returns : {A : Type 0} → Outcome A → (A → Machine → Type 0) → Type 0
Returns (done a m) P = P a m
Returns (panicked m) P = ⊥

pub Returns-done :
    {A : Type 0} (r : Outcome A) (P : A → Machine → Type 0)
    → Returns r P
    → (a : A) × (m : Machine) × (r ≡ done a m) × P a m
Returns-done (done a m) P h = (a, m, refl, h)
Returns-done (panicked m) P h = absurd h

pub Returns-weaken :
    {A : Type 0} (r : Outcome A) (P Q : A → Machine → Type 0)
    → Returns r P
    → ((a : A) (m : Machine) → P a m → Q a m)
    → Returns r Q
Returns-weaken (done a m) P Q h k = k a m h
Returns-weaken (panicked m) P Q h k = h

and_then-Returns :
    {A B : Type 0} (r : Outcome A) (g : A → M B) (P : A → Machine → Type 0)
    (Q : B → Machine → Type 0)
    → Returns r P
    → ((a : A) (m : Machine) → P a m → Returns (g a m) Q)
    → Returns (and_then r g) Q
and_then-Returns (done a m) g P Q h k = k a m h
and_then-Returns (panicked m) g P Q h k = h

pub bind-Returns :
    {A B : Type 0} (f : M A) (g : A → M B) (P : A → Machine → Type 0) (Q : B → Machine → Type 0)
    (m : Machine)
    → Returns (f m) P
    → ((a : A) (m' : Machine) → P a m' → Returns (g a m') Q)
    → Returns ((f >>= g) m) Q
bind-Returns f g P Q m = and_then-Returns (f m) g P Q

abbrev pub modify : (Machine → Machine) → M (Unit {0})
modify f m = done tt (f m)

abbrev pub panic : {A : Type 0} → M A
panic m = panicked m

-- Output on the console; `dec` is how `println!` prints a number too.
unfoldable pub say : String → M (Unit {0})
say s = modify λ m. record m { console = puts s m.console }

unfoldable pub dec : ℕ → M (Unit {0})
dec n = modify λ m. record m { console = put_dec n m.console }

-- The CSR accesses of `arch::csr`.
abbrev pub csr_of : {A : Type 0} → (Csr → A) → M A
csr_of f m = done (f m.csr) m

abbrev pub set_csr : (Csr → Csr) → M (Unit {0})
set_csr f = modify λ m. record m { csr = f m.csr }

unfoldable pub write_mepc : ℕ → M (Unit {0})
write_mepc val = set_csr λ c. record c { mepc = val }

unfoldable pub write_mstatus : ℕ → M (Unit {0})
write_mstatus val = set_csr λ c. record c { mstatus = val }
