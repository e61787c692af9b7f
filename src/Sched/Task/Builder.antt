-- ===== src/Sched/Task/Builder.antt =====
-- The builder: what it takes, and the configuration that it gives.
use cyptos.Prelude.{
  ℕ, zero, suc, ◌+◌, ◌-◌, ◌%◌, ◌<◌, ◌≤◌, ◌≡◌, refl, ◌⊎◌, inl, inr, ◌∙◌, sym, ap, subst, arith, true,
  List, [], ◌∷◌, some, length, set, get_or, replicate, length-set, bit_and, bit_and_mask,
  is_power_of_two, pow_of_eight_le, ◌==◌, ==_refl, ==_ne, if◌then◌else◌, ℕ_discrete,
}
use cyptos.Pmp.Region.{PmpRegion, new}
use cyptos.Pmp.Load.{IsGrant, region_at, IsTaskConfig}
use cyptos.Sched.Task.{PmpConfigBuilder, builder, region}

get_or-set :
    (rs : List PmpRegion) (i j : ℕ) (r d : PmpRegion)
    → i < length rs
    → get_or (set rs i r) j d ≡ (if j == i then r else get_or rs j d)
get_or-set [] i j r d lt = absurd (omega arith)
get_or-set (x ∷ rs) zero zero r d lt = refl
get_or-set (x ∷ rs) zero (suc j) r d lt = ground arith
get_or-set (x ∷ rs) (suc i) zero r d lt = ground arith
get_or-set (x ∷ rs) (suc i) (suc j) r d lt = ground (arith, get_or-set rs i j r d)

-- Sixteen regions, each off or a grant from entry 4 on, and all off from `next_idx` on.
pub record IsBuilder (b : PmpConfigBuilder) : Type 0 where
  pub size : length b.regions ≡ 16
  pub low : 4 ≤ b.next_idx
  pub config : IsTaskConfig b.regions
  pub rest_off : (i : ℕ) → b.next_idx ≤ i → region_at b.regions i ≡ new 0 0 0

replicate_at : (n i : ℕ) → region_at (replicate n (new 0 0 0)) i ≡ new 0 0 0
replicate_at zero i = refl
replicate_at (suc n) zero = refl
replicate_at (suc n) (suc i) = replicate_at n i

pub builder-IsBuilder : IsBuilder builder
unfolding builder
builder-IsBuilder = record {
  size = refl;
  low = omega arith;
  config = λ i lo hi. inl (ap (λ r. r.size) (replicate_at 16 i));
  rest_off = λ i lo. replicate_at 16 i;
}

aligned_test :
    (base size : ℕ)
    → is_power_of_two size ≡ true
    → 8 ≤ size
    → base % size ≡ 0
    → bit_and base (size - 1) ≡ 0
aligned_test base size power least aligned =
    let (e, p) = pow_of_eight_le size power least in
    ap (λ (s : ℕ). bit_and base (s - 1)) p
    ∙ (bit_and_mask (e + 3) base ∙ (ap (λ (s : ℕ). base % s) (sym p) ∙ aligned))

-- With room in the table, a request of a NAPOT range with R, W, X flags (never W without R) is taken: the
-- region goes to `next_idx`, the others stay, and the configuration stays valid.
pub region-IsBuilder :
    (base size flags : ℕ) (b : PmpConfigBuilder)
    → IsBuilder b
    → b.next_idx < 16
    → IsGrant (new base size flags)
    → (b' : PmpConfigBuilder) × (region base size flags b ≡ some b')
      × IsBuilder b'
      × (b'.next_idx ≡ b.next_idx + 1)
      × ((i : ℕ)
          → region_at b'.regions i
            ≡ (if i == b.next_idx then new base size flags else region_at b.regions i))
unfolding region
region-IsBuilder base size flags b v room g =
    let b' : PmpConfigBuilder = record {
      regions = set b.regions b.next_idx (new base size flags);
      next_idx = b.next_idx + 1;
    } in
    let at = λ (i : ℕ).
      get_or-set b.regions b.next_idx i (new base size flags) (new 0 0 0) (omega (arith, v.size)) in
    (
      b',
      ground (
        arith,
        g.shape.power,
        g.shape.least,
        aligned_test base size g.shape.power g.shape.least g.shape.aligned,
      ),
      record {
        size = length-set b.regions b.next_idx (new base size flags) ∙ v.size;
        low = omega (arith, v.low);
        config = λ i lo hi. elim (ℕ_discrete i b.next_idx) [
          | yes e ↦ inr (subst IsGrant (sym (at i ∙ rw (e, ==_refl b.next_idx) refl)) g)
          | no ne ↦
              subst (λ r. (r.size ≡ 0) ⊎ IsGrant r) (sym (at i ∙ rw (==_ne i b.next_idx ne) refl))
                (v.config i lo hi)
        ];
        rest_off = λ i lo.
            at i ∙ rw (==_ne i b.next_idx (λ q. absurd (omega arith))) (v.rest_off i (omega arith));
      },
      refl,
      at,
    )
