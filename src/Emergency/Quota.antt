-- ===== src/Emergency/Quota.antt =====
-- Attempts one after the other, and cooldowns, in crates/curfew-core/src/emergency.rs.
use curfew.Prelude.{
  suc, ◌≡◌, ◌+◌, ◌≤◌, ◌<◌, refl, Bool, false, List, [], ◌∷◌, arith, inl, inr, ap, ltb,
}
use curfew.Prelude.Lists.{filter, length}
use curfew.Prelude.Order.{nat_ord}
use curfew.Prelude.I64.{I64, minus, modulus, u32_max}
use curfew.Prelude.Set
use curfew.Prelude.Result.{ok, Result-cases}
use curfew.Emergency.{
  Passes, EmergencyPolicy, record_use, recent, check, check_cooldown, check_quota, spend, max_of,
}
use curfew.Emergency.Ration.{spend-ok, spend-err}

length-filter_mono :
    (lo hi : I64) (xs : List I64)
    → lo ≤ hi
    → length (filter (λ at. ltb hi at) xs) ≤ length (filter (λ at. ltb lo at) xs)
length-filter_mono lo hi [] h = omega arith
length-filter_mono lo hi (x ∷ xs) h = ground (arith, length-filter_mono lo hi xs h)

length-insert_le :
    (p : I64 → Bool) (x : I64) (xs : List I64)
    → length (filter p (Set.insert x xs)) ≤ suc (length (filter p xs))
unfolding Set.insert
length-insert_le p x [] = ground arith
length-insert_le p x (y ∷ xs) = ground (arith, length-insert_le p x xs)

-- Attempts at the given instants, one after the other, refused ones included.
abbrev pub spend_all : Passes → List I64 → EmergencyPolicy → Passes
spend_all s [] policy = s
spend_all s (now ∷ rest) policy = spend_all (spend s now policy).0 rest policy

-- The instants do not go back, from `from` up to `to`.
abbrev pub Ascending : I64 → List I64 → I64 → Type 0
Ascending from [] to = from ≤ to
Ascending from (now ∷ rest) to = (from ≤ now) × Ascending now rest to

recent_mono :
    (s : Passes) (from now : I64) (policy : EmergencyPolicy)
    → policy.window_seconds ≤ from
    → from ≤ now
    → now < modulus
    → length (recent s now policy) ≤ length (recent s from policy)
unfolding recent
recent_mono s from now policy w h k =
    length-filter_mono (minus from policy.window_seconds) (minus now policy.window_seconds) s.used
      (omega arith)

check-quota_ok :
    (s : Passes) (now : I64) (policy : EmergencyPolicy)
    → policy.passes ≤ u32_max
    → check s now policy ≡ ok tt
    → length (recent s now policy) < policy.passes
unfolding check check_cooldown check_quota
check-quota_ok s now policy h e = ground arith

length-recent_use :
    (s : Passes) (now : I64) (policy : EmergencyPolicy)
    → length (recent (record_use s now) now policy) ≤ suc (length (recent s now policy))
unfolding recent record_use
length-recent_use s now policy =
    length-insert_le (λ at. ltb (minus now policy.window_seconds) at) now s.used

spend-within_quota :
    (s : Passes) (now : I64) (policy : EmergencyPolicy)
    → policy.passes ≤ u32_max
    → length (recent s now policy) ≤ policy.passes
    → length (recent (spend s now policy).0 now policy) ≤ policy.passes
spend-within_quota s now policy h q = elim (Result-cases (check s now policy)) [
  | inl (u, e) ↦
      rw (spend-ok s now policy e)
        (omega (arith, check-quota_ok s now policy h e, length-recent_use s now policy))
  | inr (r, e) ↦ rw (spend-err s now policy e) q
]

-- Where the quota fits a `u32`, the window does not reach below the smallest instant and the last
-- instant is below the end of 64 bits: over attempts at instants that do not go back, if the
-- window that ends at the start holds no more uses than the quota, so does the window that ends at
-- the instant reached.
pub spend_all-within_quota :
    (s : Passes) (from : I64) (attempts : List I64) (to : I64) (policy : EmergencyPolicy)
    → policy.passes ≤ u32_max
    → policy.window_seconds ≤ from
    → to < modulus
    → Ascending from attempts to
    → length (recent s from policy) ≤ policy.passes
    → length (recent (spend_all s attempts policy) to policy) ≤ policy.passes
spend_all-within_quota s from [] to policy h w k a q =
    omega (arith, recent_mono s from to policy w a k)
spend_all-within_quota s from (now ∷ rest) to policy h w k a q =
    spend_all-within_quota (spend s now policy).0 now rest to policy h (omega arith) k a.1 (
      spend-within_quota s now policy h
        (omega (arith, recent_mono s from now policy w a.0 (last_bound now rest to a.1 k))))
  where
    last_bound : (t : I64) (l : List I64) (u : I64) → Ascending t l u → u < modulus → t < modulus
    last_bound t [] u b c = omega arith
    last_bound t (x ∷ xs) u b c = omega (arith, last_bound x xs u b.1 c)

abbrev fresh : Passes
fresh = record { used = [] }

check-fresh :
    (now : I64) (policy : EmergencyPolicy)
    → 0 < policy.passes
    → policy.passes ≤ u32_max
    → check fresh now policy ≡ ok tt
unfolding check check_cooldown check_quota recent max_of
check-fresh now policy p h = ground arith

check-after_window :
    (now : I64) (policy : EmergencyPolicy)
    → 0 < policy.passes
    → policy.passes ≤ u32_max
    → now + policy.window_seconds < modulus
    → check (record { used = now ∷ [] }) (now + policy.window_seconds) policy ≡ ok tt
unfolding check check_cooldown check_quota recent max_of
check-after_window now policy p h k =
    let aged : ltb (minus (now + policy.window_seconds) policy.window_seconds) now ≡ false =
      ground arith in
    ground (arith, aged)

-- A cooldown longer than the window is not enforced for its length: where the quota is at least
-- one and fits a `u32`, and the window ends within 64 bits, after a pass spent from a fresh ration
-- the next one is granted as soon as the window is over, though the cooldown still runs.
pub cooldown_cut_by_window :
    (now : I64) (policy : EmergencyPolicy)
    → 0 < policy.passes
    → policy.passes ≤ u32_max
    → policy.window_seconds < policy.cooldown_seconds
    → now + policy.window_seconds < modulus
    → let s = (spend (record { used = [] }) now policy).0 in
      let next = now + policy.window_seconds in
      (s.used ≡ now ∷ [])
      × (next < now + policy.cooldown_seconds)
      × ((spend s next policy).1 ≡ ok (record { at = next }))
unfolding record_use Set.insert
cooldown_cut_by_window now policy p h w k =
    let first = spend-ok fresh now policy (check-fresh now policy p h) in
    rw first (
      refl,
      omega arith,
      ap (λ t. t.1)
          (spend-ok (record { used = now ∷ [] }) (now + policy.window_seconds) policy
            (check-after_window now policy p h k)),
    )
