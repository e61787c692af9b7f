-- ===== src/Sched/Policy/Select.antt =====
-- What `select_next_ready` returns: a ready task, idle as a fallback only, nothing only if none is.
use native.Mathlib.Nat.{mod-lt, mod-eq_of_lt, mod-eq-sub-mod}
use cyptos.Prelude.{
  ℕ_discrete, dec_lt, subst, ◌==◌, ◌&&◌, not, ℕ, zero, suc, ◌+◌, ◌-◌, ◌%◌, ◌^◌, ◌≤◌, ◌<◌, ◌≡◌, refl,
  ◌≢◌, ◌⊎◌, inl, inr, Bool, true, false, Option, none, some, arith, ltb, u64, if◌then◌else◌,
  Bool-cases,
}
use cyptos.Sched.Policy.{scan, start_of, or_idle, select_next_ready}

-- The slot that lies `k` places after `start` on the ring of `n`.
pub slot : ℕ → ℕ → ℕ → ℕ
slot n start k = if ltb (start + k) n then start + k else start + k - n

pub index_slot :
    (n start k : ℕ) → start < n → k < n → n ≤ 2 ^ 63 → u64 (start + k) % n ≡ slot n start k
unfolding slot
index_slot n start k hs hk fits = elim (dec_lt (start + k) n) [
  | yes p ↦ ground (arith, mod-eq_of_lt {n = start + k} {m = n} p)
  | no p ↦ ground (
    arith,
    mod-eq-sub-mod {n = start + k} {m = n} (omega arith),
    mod-eq_of_lt {n = start + k - n} {m = n} (omega arith),
  )
]

pub start_lt : (n : ℕ) (current : Option ℕ) → 0 < n → start_of n current < n
unfolding start_of
start_lt n none h = mod-lt 1 h
start_lt n (some c) h = mod-lt (u64 (c + 1)) h

-- A slot that the loop passes over.
abbrev pub Skipped : (ℕ → Bool) → ℕ → Type 0
Skipped is_ready idx = (idx ≡ 0) ⊎ (is_ready idx ≡ false)

abbrev passes : (ℕ → Bool) → ℕ → Bool
passes is_ready idx = not (idx == 0) && is_ready idx

passes-Skipped :
    (is_ready : ℕ → Bool) (idx : ℕ) → passes is_ready idx ≡ false → Skipped is_ready idx
passes-Skipped is_ready idx h = ground arith

module _ (n start : ℕ) (is_ready : ℕ → Bool) (hs : start < n) (fits : n ≤ 2 ^ 63) where
  scan_step :
      (left offset : ℕ)
      → offset < n
      → scan n start is_ready (suc left) offset ≡ (
          if passes is_ready (slot n start offset)
          then some (slot n start offset)
          else scan n start is_ready left (offset + 1))
  unfolding scan
  scan_step left offset lt = rw (index_slot n start offset hs lt fits)

  -- From an offset on, `idx` is the first slot that the loop does not pass over.
  abbrev First : ℕ → ℕ → Type 0
  First offset idx =
      (k : ℕ) × (offset ≤ k)
      × (k < n)
      × (idx ≡ slot n start k)
      × (idx ≢ 0)
      × (is_ready idx ≡ true)
      × ((j : ℕ) → offset ≤ j → j < k → Skipped is_ready (slot n start j))

  abbrev AllSkipped : ℕ → Type 0
  AllSkipped offset = (j : ℕ) → offset ≤ j → j < n → Skipped is_ready (slot n start j)

  scan_cases :
      (left offset : ℕ)
      → left + offset ≡ n
      → ((idx : ℕ) × (scan n start is_ready left offset ≡ some idx) × First offset idx)
        ⊎ ((scan n start is_ready left offset ≡ none) × AllSkipped offset)
  scan_cases zero offset e = inr (unfold scan in refl, λ j p q. absurd (omega arith))
  scan_cases (suc left) offset e =
      rw (scan_step left offset (omega arith))
        (elim (Bool-cases (passes is_ready (slot n start offset))) [
          | inl hit ↦ inl (
            slot n start offset,
            rw hit,
            (
              offset,
              omega arith,
              omega arith,
              refl,
              ground arith,
              ground arith,
              λ j p q. absurd (omega arith),
            ),
          )
          | inr miss ↦
              let skip = passes-Skipped is_ready (slot n start offset) miss in
              rw miss (elim (scan_cases left (offset + 1) (omega arith)) [
                | inl (idx, r, (k, p, q, i, z, t, before)) ↦ inl (
                  idx,
                  r,
                  (k, omega arith, q, i, z, t, λ j a b. from_next skip j a (λ c. before j c b)),
                )
                | inr (r, all) ↦ inr (r, λ j a b. from_next skip j a (λ c. all j c b))
              ])
        ])
    where
      from_next :
          Skipped is_ready (slot n start offset)
          → (j : ℕ) → offset ≤ j
          → (offset + 1 ≤ j → Skipped is_ready (slot n start j))
          → Skipped is_ready (slot n start j)
      from_next skip j a later = elim (dec_lt offset j) [
        | yes c ↦ later (omega arith)
        | no c ↦
            let e : offset ≡ j = omega arith in
            subst (λ t. Skipped is_ready (slot n start t)) e skip
      ]

-- How many places after `start` the slot `i` lies.
abbrev pub ahead : ℕ → ℕ → ℕ → ℕ
ahead n start i = if ltb i start then i + n - start else i - start

pub slot-ahead :
    (n start i : ℕ)
    → start < n
    → i < n
    → (ahead n start i < n) × (slot n start (ahead n start i) ≡ i)
unfolding slot
slot-ahead n start i hs hi = ground arith

pub ahead-slot : (n start k : ℕ) → start < n → k < n → ahead n start (slot n start k) ≡ k
unfolding slot
ahead-slot n start k hs hk = ground arith

pub slot_lt : (n start k : ℕ) → start < n → k < n → slot n start k < n
unfolding slot
slot_lt n start k hs hk = ground arith

-- The three outcomes: the nearest ready task that is not idle; idle, if it is the only one ready; none.
pub data Selects (n start : ℕ) (is_ready : ℕ → Bool) (r : Option ℕ) : Type 0 where
  task :
      (idx : ℕ)
      → r ≡ some idx
      → idx < n
      → idx ≢ 0
      → is_ready idx ≡ true
      → ((i : ℕ) → i < n → i ≢ 0 → is_ready i ≡ true → ahead n start idx ≤ ahead n start i)
      → Selects n start is_ready r
  idle :
      r ≡ some 0
      → is_ready 0 ≡ true
      → ((i : ℕ) → i < n → i ≢ 0 → is_ready i ≡ false)
      → Selects n start is_ready r
  nothing : r ≡ none → ((i : ℕ) → i < n → is_ready i ≡ false) → Selects n start is_ready r

module _ (n : ℕ) (current : Option ℕ) (is_ready : ℕ → Bool) (pos : 0 < n) (fits : n ≤ 2 ^ 63) where
  pub select_cases : Selects n (start_of n current) is_ready (select_next_ready n current is_ready)
  unfolding select_next_ready or_idle
  select_cases = elim (scan_cases n start is_ready hs fits n 0 (omega arith)) [
    | inl (idx, r, (k, p, q, i, z, t, before)) ↦
        task idx (ground arith) (rw i (slot_lt n start k hs q)) z t λ j hj nz rj.
          ground
            (arith, before (ahead n start j), slot-ahead n start j hs hj, ahead-slot n start k hs q)
    | inr (r, all) ↦
        let others : (j : ℕ) → j < n → j ≢ 0 → is_ready j ≡ false =
          λ j hj nz. ground (arith, all (ahead n start j), slot-ahead n start j hs hj) in
        elim (Bool-cases (is_ready 0)) [
          | inl on ↦ idle (ground arith) on others
          | inr off ↦
              nothing (ground arith)
                λ j hj. elim (ℕ_discrete j 0) [ yes e ↦ rw e off | no nz ↦ others j hj nz ]
        ]
  ]
    where
      start : ℕ
      start = start_of n current

      hs : start < n
      hs = start_lt n current pos
