-- ===== src/Sched/Spec/Layout.antt =====
-- The PMP regions that `spawn` builds for a user task.
use cyptos.Prelude.{
  ℕ, zero, suc, ◌+◌, ◌-◌, ◌<◌, ◌≤◌, ◌≡◌, refl, ◌∙◌, ap, arith, List, [], ◌∷◌, length, ltb, ◌==◌,
  if◌then◌else◌, dec_lt, ℕ_discrete, lt→ltb,
}
use cyptos.Pmp.Region.{PmpRegion, new, flag_rx, flag_rw}
use cyptos.Pmp.Load.{IsGrant, region_at, IsTaskConfig}
use cyptos.Machine.{Machine, done, ◌>>=◌, and_then}
use cyptos.Sched.Task.{PmpConfigBuilder, builder, code_region, stack_region, mmio_region, build}
use cyptos.Sched.Task.Builder.{IsBuilder, builder-IsBuilder, region-IsBuilder}
use cyptos.Sched.Spec.{expect, mmio_regions, task_builder}

-- The regions that `mmio` asks for, in order.
abbrev pub mmio_at : List (ℕ × ℕ) → ℕ → PmpRegion
mmio_at [] i = new 0 0 0
mmio_at ((base, size) ∷ mmio) zero = new base size flag_rw
mmio_at ((base, size) ∷ mmio) (suc i) = mmio_at mmio i

abbrev pub AllGrants : List (ℕ × ℕ) → Type 0
AllGrants [] = Unit
AllGrants ((base, size) ∷ mmio) = IsGrant (new base size flag_rw) × AllGrants mmio

mmio_step :
    (n i base size : ℕ) (mmio : List (ℕ × ℕ)) (old : PmpRegion)
    → (if ltb i (n + 1)
        then (if i == n then new base size flag_rw else old)
        else mmio_at mmio (i - (n + 1)))
      ≡ (if ltb i n then old else mmio_at ((base, size) ∷ mmio) (i - n))
mmio_step n i base size mmio old = elim (dec_lt i n) [
  | yes below ↦ ground arith
  | no above ↦ elim (ℕ_discrete i n) [
    | yes same ↦ let z : i - n ≡ 0 = omega arith in rw z (ground arith)
    | no ne ↦ let z : i - n ≡ suc (i - (n + 1)) = omega arith in rw z (ground arith)
  ]
]

pub mmio_regions-IsBuilder :
    (mmio : List (ℕ × ℕ)) (b : PmpConfigBuilder) (m : Machine)
    → IsBuilder b
    → AllGrants mmio
    → b.next_idx + length mmio ≤ 16
    → (b' : PmpConfigBuilder) × (mmio_regions mmio b m ≡ done b' m)
      × IsBuilder b'
      × ((i : ℕ)
          → region_at b'.regions i
            ≡ (if ltb i b.next_idx then region_at b.regions i else mmio_at mmio (i - b.next_idx)))
unfolding mmio_regions mmio_region
mmio_regions-IsBuilder [] b m v g room = (
  b,
  refl,
  v,
  λ i. elim (dec_lt i b.next_idx) [
    | yes below ↦ rw (lt→ltb i b.next_idx below) refl
    | no above ↦ v.rest_off i (omega arith) ∙ ground arith
  ],
)
mmio_regions-IsBuilder ((base, size) ∷ mmio) b m v (g, gs) room =
    let (b1, e, v1, next, at) = region-IsBuilder base size flag_rw b v (omega arith) g in
    let (b', e', v', at') = mmio_regions-IsBuilder mmio b1 m v1 gs (omega arith) in
    (
      b',
      ap (λ o. and_then (expect o m) (mmio_regions mmio)) e ∙ e',
      v',
      λ i.
          at' i
          ∙ (ap (λ n. if ltb i n then region_at b1.regions i else mmio_at mmio (i - n)) next
              ∙ (ap (λ r. if ltb i (b.next_idx + 1) then r else mmio_at mmio (i - (b.next_idx + 1)))
                    (at i)
                  ∙ mmio_step b.next_idx i base size mmio (region_at b.regions i))),
    )

-- The regions of a user task: its code, its stack, and what `mmio` asks for.
pub record IsLaid (code_base code_size : ℕ) (mmio : List (ℕ × ℕ)) (bottom : ℕ)
    (regions : List PmpRegion) : Type 0 where
  pub code_eq : region_at regions 4 ≡ new code_base code_size flag_rx
  pub stack_eq : region_at regions 5 ≡ new bottom 8192 flag_rw
  pub mmio_eq : (i : ℕ) → region_at regions (i + 6) ≡ mmio_at mmio i
  pub valid : IsTaskConfig regions

pub task_builder-IsLaid :
    (code_base code_size : ℕ) (mmio : List (ℕ × ℕ)) (bottom : ℕ) (m : Machine)
    → IsGrant (new code_base code_size flag_rx)
    → AllGrants mmio
    → length mmio ≤ 10
    → IsGrant (new bottom 8192 flag_rw)
    → (b : PmpConfigBuilder) × (task_builder code_base code_size mmio bottom m ≡ done b m)
      × IsLaid code_base code_size mmio bottom (build b).regions
unfolding task_builder code_region stack_region build builder
task_builder-IsLaid code_base code_size mmio bottom m code gs few stack =
    let (b1, e1, v1, n1, at1) =
      region-IsBuilder code_base code_size flag_rx builder builder-IsBuilder (omega arith) code in
    let (b2, e2, v2, n2, at2) = region-IsBuilder bottom 8192 flag_rw b1 v1 (omega arith) stack in
    let n : b2.next_idx ≡ 6 = omega arith in
    let (b3, e3, v3, at3) = mmio_regions-IsBuilder mmio b2 m v2 gs (omega arith) in
    let low = λ (i : ℕ) (lt : i < 6).
      at3 i
      ∙ (ap (λ n. if ltb i n then region_at b2.regions i else mmio_at mmio (i - n)) n
          ∙ (rw (lt→ltb i 6 lt) refl
              ∙ (at2 i
                  ∙ ap (λ k. if i == k then new bottom 8192 flag_rw else region_at b1.regions i)
                      n1))) in
    (
      b3,
      ap
            (λ o.
              and_then (expect o m)
                (λ b. (expect (stack_region bottom 8192 b) >>= mmio_regions mmio)))
            e1
          ∙ (ap (λ o. and_then (expect o m) (mmio_regions mmio)) e2 ∙ e3),
      record {
        code_eq = low 4 (omega arith) ∙ at1 4;
        stack_eq = low 5 (omega arith);
        mmio_eq = λ i.
            at3 (i + 6)
            ∙ (ap
                  (λ n.
                    if ltb (i + 6) n
                    then region_at b2.regions (i + 6)
                    else mmio_at mmio (i + 6 - n))
                  n
                ∙ ground arith);
        valid = v3.config;
      },
    )
