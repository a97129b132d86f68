-- ===== src/Examples/Passes.antt =====
-- Examples of crates/curfew-core/src/emergency.rs.
use curfew.Prelude.{◌⊎◌, ◌≡◌, ◌≤◌, [], ◌∷◌, arith}
use curfew.Prelude.Lists.{length}
use curfew.Prelude.I64.{I64}
use curfew.Prelude.Result.{ok, err}
use curfew.Emergency.{
  PassRefusal, Passes, EmergencyPolicy, record_use, recent, remaining, spend, merge, no_passes,
}
use curfew.Emergency.Ration.{MaySpend, spend_exact}
use curfew.Emergency.Quota.{spend_all, spend_all-within_quota}
use curfew.Emergency.Merge.{IsValid, merge-grow_only}
use curfew.Examples.Data.{morning, noon, evening}

-- Two passes in a week, a day apart.
abbrev policy : EmergencyPolicy
policy = record { passes = 2; window_seconds = 604800; cooldown_seconds = 86400 }

abbrev one_used : Passes
one_used = record { used = morning ∷ [] }

abbrev other_used : Passes
other_used = record { used = noon ∷ [] }

spend_exact_example :
    let s = one_used in
    (MaySpend s noon policy
      × (spend s noon policy ≡ (record_use s noon, ok (record { at = noon }))))
    ⊎ ((¬ MaySpend s noon policy)
        × ((spend s noon policy).0 ≡ s)
        × ((r : PassRefusal) × ((spend s noon policy).1 ≡ err r)))
spend_exact_example = spend_exact one_used noon policy (omega arith) (omega arith, tt)

one_recent : length (recent one_used morning policy) ≤ policy.passes
unfolding recent
one_recent = omega arith

spend_all-within_quota_example :
    length (recent (spend_all one_used (noon ∷ evening ∷ []) policy) evening policy) ≤ policy.passes
spend_all-within_quota_example =
    spend_all-within_quota one_used morning (noon ∷ evening ∷ []) evening policy (omega arith)
      (omega arith) (omega arith) (omega arith, (omega arith, omega arith)) one_recent

-- The cooldown is a month, the window a week.
abbrev long_cooldown : EmergencyPolicy
long_cooldown = record { passes = 1; window_seconds = 604800; cooldown_seconds = 2592000 }

merge-grow_only_example :
    let a = one_used in
    let b = other_used in
    let c = no_passes in
    (merge a b ≡ merge b a)
    × (merge (merge a b) c ≡ merge a (merge b c))
    × (merge a a ≡ a)
    × IsValid (merge a b)
    × ((now : I64) (policy : EmergencyPolicy)
        → (remaining (merge a b) now policy ≤ remaining a now policy)
          × (remaining (merge a b) now policy ≤ remaining b now policy))
merge-grow_only_example = merge-grow_only one_used other_used no_passes (tt, tt) (tt, tt) tt
