-- ===== src/Boot/Entry.antt =====
-- crates/kernel/src/main.rs, before `kmain`: `_start` on each hart, and `clear_bss`.
use cyptos.Prelude.{
  ℕ, zero, suc, ◌+◌, ◌-◌, ◌<◌, ◌≤◌, ◌≡◌, ◌≢◌, refl, ◌⊎◌, inl, inr, ◌∙◌, arith, Bool-cases,
  ℕ_discrete, ltb, ltb→lt, ◌==◌, ==_ne, ==_refl, if◌then◌else◌, Option, none, some,
}

pub record EntrySymbols : Type 0 where
  pub stack_top : ℕ
  pub sbss : ℕ
  pub ebss : ℕ

-- Memory by bytes.
abbrev write_byte : ℕ → ℕ → (ℕ → ℕ) → ℕ → ℕ
write_byte p v mem a = if a == p then v else mem a

-- The loop, with `fuel` for its rounds: `none` if it has not ended by then.
unfoldable pub clear_from : ℕ → ℕ → ℕ → (ℕ → ℕ) → Option (ℕ → ℕ)
clear_from zero ptr end mem = none
clear_from (suc fuel) ptr end mem =
    let rest = clear_from fuel (ptr + 1) end (write_byte ptr 0 mem) in
    if ltb ptr end then rest else some mem

unfoldable pub clear_bss : ℕ → EntrySymbols → (ℕ → ℕ) → Option (ℕ → ℕ)
unfolding clear_from
clear_bss fuel k mem = clear_from fuel k.sbss k.ebss mem

-- Where a hart comes to: the parking loop, `kmain` with its sp and memory, or nowhere within the fuel.
pub data Entered : Type 0 where
  parked : Entered
  in_kmain : ℕ → (ℕ → ℕ) → Entered
  clearing : Entered

abbrev call_kmain : ℕ → Option (ℕ → ℕ) → Entered
call_kmain sp none = clearing
call_kmain sp (some mem) = in_kmain sp mem

unfoldable pub start : ℕ → EntrySymbols → ℕ → (ℕ → ℕ) → Entered
unfolding clear_bss
start fuel k mhartid mem =
    if mhartid == 0 then call_kmain k.stack_top (clear_bss fuel k mem) else parked

-- From `ptr` to `end` memory is zero, and as before elsewhere.
abbrev pub Cleared : ℕ → ℕ → (ℕ → ℕ) → (ℕ → ℕ) → Type 0
Cleared ptr end mem mem' =
    ((a : ℕ) → ptr ≤ a → a < end → mem' a ≡ 0) × ((a : ℕ) → (a < ptr) ⊎ (end ≤ a) → mem' a ≡ mem a)

-- One round more than there are bytes is enough, and more change nothing.
clear_from-Cleared :
    (fuel ptr end : ℕ) (mem : ℕ → ℕ)
    → end - ptr < fuel
    → (mem' : ℕ → ℕ) × (clear_from fuel ptr end mem ≡ some mem') × Cleared ptr end mem mem'
unfolding clear_from
clear_from-Cleared zero ptr end mem enough = absurd (omega arith)
clear_from-Cleared (suc fuel) ptr end mem enough = elim (Bool-cases (ltb ptr end)) [
  | inl more ↦
      let below = ltb→lt ptr end more in
      let (mem', ends, (zeroed, kept)) =
        clear_from-Cleared fuel (ptr + 1) end (write_byte ptr 0 mem) (omega arith) in
      (
        mem',
        rw more ends,
        (
          λ a low high. elim (ℕ_discrete a ptr) [
            | yes e ↦ kept a (inl (omega arith)) ∙ rw (e, ==_refl ptr) refl
            | no ne ↦ zeroed a (omega arith) high
          ],
          λ a out.
              kept a (ground (arith, out))
              ∙ rw (==_ne a ptr (λ e. absurd (ground (arith, out)))) refl,
        ),
      )
  | inr stop ↦ (mem, rw stop refl, (λ a low high. absurd (ground arith), λ a out. refl))
]

-- For any fuel of more than the bytes from _sbss up to _ebss: `clear_bss` ends, and hart 0 reaches `kmain`
-- with sp at the top of the stack, those bytes zero and memory elsewhere as it was; every other hart parks.
pub start_lem :
    (fuel : ℕ) (k : EntrySymbols) (mhartid : ℕ) (mem : ℕ → ℕ)
    → k.ebss - k.sbss < fuel
    → ((mhartid ≡ 0)
        × (mem' : ℕ → ℕ) × (start fuel k mhartid mem ≡ in_kmain k.stack_top mem')
        × Cleared k.sbss k.ebss mem mem')
      ⊎ ((mhartid ≢ 0) × (start fuel k mhartid mem ≡ parked))
unfolding start clear_bss
start_lem fuel k mhartid mem enough =
    let (mem', ends, cleared) = clear_from-Cleared fuel k.sbss k.ebss mem enough in
    elim (ℕ_discrete mhartid 0) [
      | yes e ↦ inl (e, mem', rw (e, ends) refl, cleared)
      | no n ↦ inr (n, rw (==_ne mhartid 0 n) refl)
    ]
