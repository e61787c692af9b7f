-- ===== src/Serial/Uart.antt =====
-- The polling functions of crates/kernel/src/serial/uart16550.rs on a UART with registers, and that they do
-- what the functions on a `Console` do.
use cyptos.Prelude.{
  ℕ, zero, suc, ◌+◌, ◌-◌, ◌≤◌, ◌<◌, ◌≡◌, refl, ◌∙◌, ap, arith, List, [], ◌∷◌, Option, none, some,
  Bool, true, false, not, bit_and, ◌==◌, if◌then◌else◌, inl, inr, Bool-cases,
}
use cyptos.Serial.{Console, put_bytes, received}
use cyptos.Serial

-- The device: a read of the register at an offset, and a write to it.
pub record Device : Type 1 where
  pub State : Type 0
  pub read : ℕ → State → ℕ × State
  pub write : ℕ → ℕ → State → State

abbrev lsr : ℕ
lsr = 5

abbrev lsr_tx_empty : ℕ
lsr_tx_empty = 0x20

abbrev lsr_rx_ready : ℕ
lsr_rx_ready = 1

module _ (dev : Device) where
  open dev use {State, read, write}

  -- `while (LSR & mask) == 0 {}`, for `fuel` reads at most.
  unfoldable pub wait_for : ℕ → ℕ → State → Option State
  wait_for zero mask s = none
  wait_for (suc fuel) mask s =
      let (status, s') = read lsr s in
      let rest = wait_for fuel mask s' in if bit_and status mask == 0 then rest else some s'

  abbrev pub then_write : ℕ → Option State → Option State
  then_write c none = none
  then_write c (some s) = some (write 0 c s)

  unfoldable pub putc : ℕ → ℕ → State → Option State
  unfolding wait_for
  putc fuel c s = then_write c (wait_for fuel lsr_tx_empty s)

  abbrev pub and_then : Option State → (State → Option State) → Option State
  and_then none f = none
  and_then (some s) f = f s

  -- `puts`, on the bytes of the text.
  unfoldable pub puts : ℕ → List ℕ → State → Option State
  unfolding putc
  puts fuel [] s = some s
  puts fuel (c ∷ cs) s =
      and_then (if c == b'\n' then putc fuel b'\r' s else some s)
        λ s'. and_then (putc fuel c s') (puts fuel cs)

  abbrev pub then_read : Option State → Option (ℕ × State)
  then_read none = none
  then_read (some s) = some (read 0 s)

  unfoldable pub getc : ℕ → State → Option (ℕ × State)
  unfolding wait_for
  getc fuel s = then_read (wait_for fuel lsr_rx_ready s)

  unfoldable pub try_getc : State → Option ℕ × State
  try_getc s =
      let (status, s') = read lsr s in
      let (c, s'') = read 0 s' in
      if not (bit_and status lsr_rx_ready == 0) then (some c, s'') else (none, s')

abbrev pub is_empty : List ℕ → Bool
is_empty [] = true
is_empty (c ∷ cs) = false

-- The 16550 in normal register mode: `busy` is how many reads of the line status are left until the
-- transmitter is empty, at most `limit`.
pub record IsUart (dev : Device) (limit : ℕ) : Type 0 where
  pub view : dev.State → Console
  pub busy : dev.State → ℕ
  pub drains : (s : dev.State) → busy s ≤ limit
  pub status_view : (s : dev.State) → view (dev.read 5 s).1 ≡ view s
  pub status_busy : (s : dev.State) → busy (dev.read 5 s).1 ≡ busy s - 1
  pub tx_empty : (s : dev.State) → (bit_and (dev.read 5 s).0 0x20 == 0) ≡ not (busy s == 0)
  pub rx_ready : (s : dev.State) → (bit_and (dev.read 5 s).0 1 == 0) ≡ is_empty (view s).rx
  pub rbr :
      (s : dev.State) (c : ℕ) (cs : List ℕ)
      → (view s).rx ≡ c ∷ cs
      → ((dev.read 0 s).0 ≡ c) × (view (dev.read 0 s).1 ≡ record (view s) { rx = cs })
  pub thr : (c : ℕ) (s : dev.State) → busy s ≡ 0 → view (dev.write 0 c s) ≡ Serial.putc c (view s)

module _ (dev : Device) (limit : ℕ) (u : IsUart dev limit) where
  wait_lem :
      (fuel : ℕ) (s : dev.State)
      → u.busy s < fuel
      → (s' : dev.State) × (wait_for dev fuel 0x20 s ≡ some s')
        × (u.busy s' ≡ 0)
        × (u.view s' ≡ u.view s)
  unfolding wait_for
  wait_lem zero s lt = absurd (omega arith)
  wait_lem (suc fuel) s lt = elim (Bool-cases (u.busy s == 0)) [
    | inl idle ↦ (
      (dev.read 5 s).1,
      rw (u.tx_empty s, idle) refl,
      u.status_busy s ∙ ground arith,
      u.status_view s,
    )
    | inr active ↦
        let less : u.busy (dev.read 5 s).1 < fuel = ground (arith, u.status_busy s) in
        let (s', e, now, same) = wait_lem fuel (dev.read 5 s).1 less in
        (s', rw (u.tx_empty s, active) e, now, same ∙ u.status_view s)
  ]

  putc_lem :
      (c : ℕ) (s : dev.State)
      → (s' : dev.State) × (putc dev (limit + 1) c s ≡ some s')
        × (u.view s' ≡ Serial.putc c (u.view s))
  unfolding putc
  putc_lem c s =
      let (s', e, now, same) = wait_lem (limit + 1) s (omega (arith, u.drains s)) in
      (dev.write 0 c s', ap (then_write dev c) e, u.thr c s' now ∙ ap (Serial.putc c) same)

  -- The carriage return before a line feed.
  return_lem :
      (b : Bool) (s : dev.State)
      → (s' : dev.State) × ((if b then putc dev (limit + 1) b'\r' s else some s) ≡ some s')
        × (u.view s' ≡ (if b then Serial.putc b'\r' (u.view s) else u.view s))
  return_lem true s = putc_lem b'\r' s
  return_lem false s = (s, refl, refl)

  -- On a 16550 whose transmitter is empty after at most `limit` reads of the line status: with a bound of
  -- one read more the polling loops of `puts` end, for any text, and the UART has sent the bytes that
  -- `put_bytes` appends, a carriage return before each line feed.
  pub puts_lem :
      (cs : List ℕ) (s : dev.State)
      → (s' : dev.State) × (puts dev (limit + 1) cs s ≡ some s')
        × (u.view s' ≡ put_bytes cs (u.view s))
  unfolding puts put_bytes
  puts_lem [] s = (s, refl, refl)
  puts_lem (c ∷ cs) s =
      let (s1, e1, v1) = return_lem (c == b'\n') s in
      let (s2, e2, v2) = putc_lem c s1 in
      let (s3, e3, v3) = puts_lem cs s2 in
      (
        s3,
        ap
              (λ o.
                and_then dev o
                  (λ x. and_then dev (putc dev (limit + 1) c x) (puts dev (limit + 1) cs)))
              e1
            ∙ (ap (λ o. and_then dev o (puts dev (limit + 1) cs)) e2 ∙ e3),
        v3 ∙ ap (put_bytes cs) (v2 ∙ ap (Serial.putc c) v1),
      )

  -- `try_getc`, by what waits in the receive buffer.
  try_lem :
      (s : dev.State) (rx : List ℕ)
      → (u.view s).rx ≡ rx
      → ((try_getc dev s).0 ≡ (received (u.view s) rx).0)
        × (u.view (try_getc dev s).1 ≡ (received (u.view s) rx).1)
  unfolding try_getc received
  try_lem s [] e =
      let off : (bit_and (dev.read 5 s).0 1 == 0) ≡ true = u.rx_ready s ∙ ap is_empty e in
      (rw off refl, rw off (u.status_view s))
  try_lem s (c ∷ cs) e =
      let on : (bit_and (dev.read 5 s).0 1 == 0) ≡ false = u.rx_ready s ∙ ap is_empty e in
      let (byte, left) =
        u.rbr (dev.read 5 s).1 c cs (ap {A = Console} (λ k. k.rx) (u.status_view s) ∙ e) in
      (
        rw on (ap some byte),
        rw on (left ∙ ap {A = Console} (λ k. record k { rx = cs }) (u.status_view s)),
      )

  -- On a 16550: `try_getc` gives the first byte of the receive buffer and takes it out, or none if the buffer
  -- is empty, and never touches what has been sent.
  pub try_getc_lem :
      (s : dev.State)
      → ((try_getc dev s).0 ≡ (Serial.try_getc (u.view s)).0)
        × (u.view (try_getc dev s).1 ≡ (Serial.try_getc (u.view s)).1)
  unfolding Serial.try_getc
  try_getc_lem s = try_lem s (u.view s).rx refl
