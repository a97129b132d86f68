-- ===== src/Emergency/Ration.antt =====
-- `check` and `spend` of crates/curfew-core/src/emergency.rs: the quota of the window and the cooldown.
use curfew.Prelude.{
  ◌⊎◌, ◌≡◌, ◌+◌, ◌≤◌, ◌<◌, refl, none, some, List, [], ◌∷◌, arith, Bool-cases, inl, inr, ap, ◌↔◌,
  ltb, leb, Option-cases,
}
use curfew.Prelude.Lists.{length, All, All-filter}
use curfew.Prelude.Order.{nat_ord}
use curfew.Prelude.I64.{I64, plus, minus, modulus, u32_max}
use curfew.Prelude.Result.{ok, err, Result-cases}
use curfew.Emergency.{
  Passes, EmergencyPolicy, enabled, record_use, recent, check, check_cooldown, check_quota, spend,
  max_of, PassRefusal,
}

max_of-none : (xs : List I64) → max_of xs ≡ none → xs ≡ []
unfolding max_of
max_of-none [] h = refl
max_of-none (x ∷ xs) h = ground arith

max_of-le : (xs : List I64) (m : I64) → max_of xs ≡ some m → All (λ a. a ≤ m) xs
unfolding max_of
max_of-le [] m h = tt
max_of-le (x ∷ xs) m h = elim (Option-cases (max_of xs)) [
  | inl e ↦ (ground arith, rw (max_of-none xs e) tt)
  | inr (y, e) ↦ (ground arith, weaken xs y m (ground arith) (max_of-le xs y e))
]
  where
    weaken : (l : List I64) (y m : I64) → y ≤ m → All (λ a. a ≤ y) l → All (λ a. a ≤ m) l
    weaken [] y m le h = tt
    weaken (x ∷ xs) y m le h = (omega arith, weaken xs y m le h.1)

max_of-All : (P : I64 → Type 0) (xs : List I64) (m : I64) → max_of xs ≡ some m → All P xs → P m
unfolding max_of
max_of-All P [] m h ps = absurd (ground arith)
max_of-All P (x ∷ xs) m h ps = elim (Option-cases (max_of xs)) [
  | inl e ↦ let q : m ≡ x = ground arith in rw q ps.0
  | inr (y, e) ↦ elim (Bool-cases (leb x y)) [
    | inl le ↦ let q : m ≡ y = ground arith in rw q (max_of-All P xs y e ps.1)
    | inr gt ↦ let q : m ≡ x = ground arith in rw q ps.0
  ]
]

-- The uses `xs` are all at least the cooldown old at `now`.
abbrev pub Cooled : List I64 → I64 → EmergencyPolicy → Type 0
Cooled xs now policy = All (λ at. at + policy.cooldown_seconds ≤ now) xs

-- The end of each cooldown can be written in 64 bits.
abbrev pub CanAge : List I64 → EmergencyPolicy → Type 0
CanAge xs policy = All (λ at. at + policy.cooldown_seconds < modulus) xs

Cooled-of_le :
    (xs : List I64) (m now : I64) (policy : EmergencyPolicy)
    → m + policy.cooldown_seconds ≤ now
    → All (λ a. a ≤ m) xs
    → Cooled xs now policy
Cooled-of_le [] m now policy le h = tt
Cooled-of_le (x ∷ xs) m now policy le h = (omega arith, Cooled-of_le xs m now policy le h.1)

max_of-Cooled :
    (xs : List I64) (m now : I64) (policy : EmergencyPolicy)
    → max_of xs ≡ some m
    → CanAge xs policy
    → (plus m policy.cooldown_seconds ≤ now) ↔ Cooled xs now policy
max_of-Cooled xs m now policy h fits =
    let room = max_of-All (λ at. at + policy.cooldown_seconds < modulus) xs m h fits in
    (
      λ le. Cooled-of_le xs m now policy (omega arith) (max_of-le xs m h),
      λ c. omega (arith, max_of-All (λ at. at + policy.cooldown_seconds ≤ now) xs m h c),
    )

CanAge-recent :
    (s : Passes) (now : I64) (policy : EmergencyPolicy)
    → CanAge s.used policy
    → CanAge (recent s now policy) policy
unfolding recent
CanAge-recent s now policy h =
    All-filter (λ at. at + policy.cooldown_seconds < modulus)
      (λ at. ltb (minus now policy.window_seconds) at) s.used h

-- `check` passes exactly when the hatch is on, fewer passes than the quota were used in the window,
-- and every use in the window is at least the cooldown old.
abbrev pub MaySpend : Passes → I64 → EmergencyPolicy → Type 0
MaySpend s now policy =
    (0 < policy.passes)
    × (length (recent s now policy) < policy.passes)
    × Cooled (recent s now policy) now policy

check_quota_iff :
    (xs : List I64) (now : I64) (policy : EmergencyPolicy)
    → policy.passes ≤ u32_max
    → (check_quota xs now policy ≡ ok tt) ↔ (length xs < policy.passes)
unfolding check_quota
check_quota_iff xs now policy h = (λ e. ground arith, λ lt. ground arith)

check_cooldown_iff :
    (xs : List I64) (now : I64) (policy : EmergencyPolicy)
    → policy.passes ≤ u32_max
    → CanAge xs policy
    → (check_cooldown (max_of xs) xs now policy ≡ ok tt)
      ↔ ((length xs < policy.passes) × Cooled xs now policy)
unfolding check_cooldown
check_cooldown_iff xs now policy h fits = elim (Option-cases (max_of xs)) [
  | inl e ↦ rw e (λ q. (quota.0 q, let n : xs ≡ [] = max_of-none xs e in rw n tt), λ r. quota.1 r.0)
  | inr (m, e) ↦
      let cooled = max_of-Cooled xs m now policy e fits in
      elim (Bool-cases (ltb now (plus m policy.cooldown_seconds))) [
        | inl early ↦ rw (e, early) (λ q. cc, λ r. absurd (ground (arith, cooled.1 r.1)))
        | inr late ↦ rw (e, late) (λ q. (quota.0 q, cooled.0 (ground arith)), λ r. quota.1 r.0)
      ]
]
  where
    quota : (check_quota xs now policy ≡ ok tt) ↔ (length xs < policy.passes)
    quota = check_quota_iff xs now policy h

check_iff :
    (s : Passes) (now : I64) (policy : EmergencyPolicy)
    → policy.passes ≤ u32_max
    → CanAge s.used policy
    → (check s now policy ≡ ok tt) ↔ MaySpend s now policy
unfolding check
check_iff s now policy h fits = elim (Bool-cases (enabled policy)) [
  | inl on ↦ rw on (λ q. (ground arith, (inner.0 q).0, (inner.0 q).1), λ m. inner.1 (m.1, m.2))
  | inr off ↦ rw off (λ q. cc, λ m. absurd (ground (arith, m.0)))
]
  where
    inner :
        (check_cooldown (max_of (recent s now policy)) (recent s now policy) now policy ≡ ok tt)
        ↔ ((length (recent s now policy) < policy.passes) × Cooled (recent s now policy) now policy)
    inner = check_cooldown_iff (recent s now policy) now policy h (CanAge-recent s now policy fits)

pub spend-ok :
    (s : Passes) (now : I64) (policy : EmergencyPolicy) {u : Unit {0}}
    → check s now policy ≡ ok u
    → spend s now policy ≡ (record_use s now, ok (record { at = now }))
unfolding spend
spend-ok s now policy e = rw (e, spend)

pub spend-err :
    (s : Passes) (now : I64) (policy : EmergencyPolicy) {r : PassRefusal}
    → check s now policy ≡ err r
    → spend s now policy ≡ (s, err r)
unfolding spend
spend-err s now policy e = rw (e, spend)

-- Where the quota fits a `u32` and the cooldowns end within 64 bits: either the hatch is on, fewer
-- passes than the quota were used in the window ending at `now`, and each of those is at least the
-- cooldown old, and then a pass dated `now` is spent and the use recorded; or one of these does not
-- hold, and then nothing changes and the pass is refused.
pub spend_exact :
    (s : Passes) (now : I64) (policy : EmergencyPolicy)
    → policy.passes ≤ u32_max
    → CanAge s.used policy
    → (MaySpend s now policy × (spend s now policy ≡ (record_use s now, ok (record { at = now }))))
      ⊎ ((¬ MaySpend s now policy)
          × ((spend s now policy).0 ≡ s)
          × ((r : PassRefusal) × ((spend s now policy).1 ≡ err r)))
spend_exact s now policy h fits = elim (Result-cases (check s now policy)) [
  | inl (u, e) ↦ inl (may.0 e, spend-ok s now policy e)
  | inr (r, e) ↦
      let refused = spend-err s now policy e in
      inr (λ m. cc (e, may.1 m), ap (λ t. t.0) refused, (r, ap (λ t. t.1) refused))
]
  where
    may : (check s now policy ≡ ok tt) ↔ MaySpend s now policy
    may = check_iff s now policy h fits
