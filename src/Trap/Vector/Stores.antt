-- ===== src/Trap/Vector/Stores.antt =====
-- A run of stores through one base register: what memory holds afterwards.
use native.Mathlib.Nat.{mod-eq_of_lt}
use mathlib.Core.List.{map}
use cyptos.Prelude.{
  ℕ, ◌+◌, ◌^◌, ◌≤◌, ◌<◌, ◌≡◌, refl, ◌⊎◌, ◌∙◌, arith, List, [], ◌∷◌, ◌++◌, Option, none, some, ◌==◌,
  ==_refl, ==_ne, if◌then◌else◌, u64, ℕ_discrete,
}
use cyptos.Arch.Asm.{Reg, Cpu, set_mem, Instr, run}
use cyptos.Trap.Vector.{save_to}

-- Memory after the stores of the table.
abbrev pub store_all : (Reg → ℕ) → ℕ → List (Reg × ℕ) → (ℕ → ℕ) → ℕ → ℕ
store_all regs base [] mem = mem
store_all regs base ((r, off) ∷ table) mem =
    store_all regs base table (set_mem (u64 (base + off)) (regs r) mem)

pub run-save :
    (callee : Cpu → Cpu) (b : Reg) (table : List (Reg × ℕ)) (rest : List Instr) (c : Cpu)
    → run callee (map (save_to b) table ++ rest) c
      ≡ run callee rest (record c { mem = store_all c.regs (c.regs b) table c.mem })
unfolding run
run-save callee b [] rest c = refl
run-save callee b ((r, off) ∷ table) rest c = run-save callee b table rest _

-- The register that the table stores at an offset.
abbrev pub stored_at : ℕ → List (Reg × ℕ) → Option Reg
stored_at off [] = none
stored_at off ((r, o) ∷ table) = elim (stored_at off table) [
  | some q ↦ some q
  | none ↦ if off == o then some r else none
]

-- All offsets stay below `n`.
abbrev pub Below : ℕ → List (Reg × ℕ) → Type 0
Below n [] = Unit
Below n ((r, off) ∷ table) = (off < n) × Below n table

module _ (regs : Reg → ℕ) (base n : ℕ) (fits : base + n ≤ 2 ^ 64) where
  -- Outside the table's area memory is as before.
  pub store_all-outside :
      (table : List (Reg × ℕ)) (mem : ℕ → ℕ) (a : ℕ)
      → Below n table
      → (a < base) ⊎ (base + n ≤ a)
      → store_all regs base table mem a ≡ mem a
  store_all-outside [] mem a h out = refl
  store_all-outside ((r, off) ∷ table) mem a (lt, h) out =
      let e : u64 (base + off) ≡ base + off = mod-eq_of_lt (omega arith) in
      store_all-outside table _ a h out ∙ rw (e, ==_ne a (base + off) (ground arith)) refl

  -- Inside it an offset holds the last register stored there, or what it held.
  abbrev pub value : Option Reg → ℕ → ℕ
  value (some r) v = regs r
  value none v = v

  one_store :
      (r : Reg) (o off : ℕ) (mem : ℕ → ℕ) (later : Option Reg)
      → o < n
      → off < n
      → value later (set_mem (u64 (base + o)) (regs r) mem (base + off))
        ≡ value
            (elim later [ some q ↦ some q | none ↦ if off == o then some r else none ])
            (mem (base + off))
  one_store r o off mem (some q) lo lt = refl
  one_store r o off mem none lo lt =
      let e : u64 (base + o) ≡ base + o = mod-eq_of_lt (omega arith) in
      rw e (elim (ℕ_discrete off o) [
        | yes same ↦ rw (same, ==_refl o, ==_refl (base + o)) refl
        | no ne ↦ rw (==_ne off o ne, ==_ne (base + off) (base + o) (λ q. ne (omega arith))) refl
      ])

  pub store_all-at :
      (table : List (Reg × ℕ)) (mem : ℕ → ℕ) (off : ℕ)
      → Below n table
      → off < n
      → store_all regs base table mem (base + off) ≡ value (stored_at off table) (mem (base + off))
  store_all-at [] mem off h lt = refl
  store_all-at ((r, o) ∷ table) mem off (lo, h) lt =
      store_all-at table _ off h lt ∙ one_store r o off mem (stored_at off table) lo lt
