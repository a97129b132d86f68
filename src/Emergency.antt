-- ===== src/Emergency.antt =====
-- crates/curfew-core/src/emergency.rs: the rationed escape hatch.
pub mod Ration
pub mod Quota
pub mod Merge
use curfew.Prelude.{
  ℕ, ◌+◌, ◌-◌, min, max, Bool, true, false, Option, none, some, List, [], ◌∷◌, leb, ltb,
  if◌then◌else◌,
}
use curfew.Prelude.Lists.{filter, length}
use curfew.Prelude.Order.{nat_ord}
use curfew.Prelude.I64.{I64, plus, minus, u32_max}
use curfew.Prelude.Set
use curfew.Prelude.Set.{BTreeSet}
use curfew.Prelude.Result.{Result, ok, err}

-- The fields are `u32`.
pub record EmergencyPolicy : Type 0 where
  pub passes : ℕ
  pub window_seconds : ℕ
  pub cooldown_seconds : ℕ

abbrev default_window : ℕ
default_window = 604800

abbrev default_cooldown : ℕ
default_cooldown = 86400

abbrev pub default : EmergencyPolicy
default = record {
  passes = 0;
  window_seconds = default_window;
  cooldown_seconds = default_cooldown;
}

abbrev pub enabled : EmergencyPolicy → Bool
enabled policy = ltb 0 policy.passes

pub data PassRefusal : Type 0 where
  disabled : PassRefusal
  quota_spent : I64 → PassRefusal
  cooling_down : I64 → PassRefusal

pub record Pass : Type 0 where
  pub at : I64

-- Ascending, each instant once.
pub record Passes : Type 0 where
  pub used : BTreeSet I64

abbrev pub no_passes : Passes
no_passes = record { used = [] }

-- `binary_search` and `insert` at the index that it returns.
unfoldable pub record_use : Passes → I64 → Passes
record_use s at = record s { used = Set.insert at s.used }

unfoldable pub recent : Passes → I64 → EmergencyPolicy → List I64
recent s now policy =
    let since = minus now policy.window_seconds in filter (λ at. ltb since at) s.used

-- `u32::try_from(len).unwrap_or(u32::MAX)`
abbrev pub u32_len : List I64 → ℕ
u32_len xs = min (length xs) u32_max

unfoldable pub remaining : Passes → I64 → EmergencyPolicy → ℕ
remaining s now policy = policy.passes - u32_len (recent s now policy)

-- `iter().max()` and `iter().min()`
unfoldable pub max_of : List I64 → Option I64
max_of [] = none
max_of (x ∷ xs) = elim (max_of xs) [ none ↦ some x | some y ↦ some (max x y) ]

unfoldable pub min_of : List I64 → Option I64
min_of [] = none
min_of (x ∷ xs) = elim (min_of xs) [ none ↦ some x | some y ↦ some (min x y) ]

abbrev or_else : Option I64 → I64 → I64
or_else none d = d
or_else (some t) d = t

-- The quota test, once the cooldown has passed.
unfoldable pub check_quota : List I64 → I64 → EmergencyPolicy → Result Unit PassRefusal
check_quota recent now policy =
    if leb policy.passes (u32_len recent)
    then err (quota_spent (plus (or_else (min_of recent) now) policy.window_seconds))
    else ok tt

-- The cooldown test against the latest use.
unfoldable pub check_cooldown :
    Option I64 → List I64 → I64 → EmergencyPolicy → Result Unit PassRefusal
check_cooldown none recent now policy = check_quota recent now policy
check_cooldown (some last) recent now policy =
    let until = plus last policy.cooldown_seconds in
    if ltb now until then err (cooling_down until) else check_quota recent now policy

unfoldable pub check : Passes → I64 → EmergencyPolicy → Result Unit PassRefusal
check s now policy =
    if enabled policy
    then (let found = recent s now policy in check_cooldown (max_of found) found now policy)
    else err disabled

unfoldable pub spend : Passes → I64 → EmergencyPolicy → Passes × Result Pass PassRefusal
spend s now policy = elim (check s now policy) [
  | err refusal ↦ (s, err refusal)
  | ok _ ↦ (record_use s now, ok (record { at = now }))
]

record_all : Passes → List I64 → Passes
record_all s [] = s
record_all s (at ∷ rest) = record_all (record_use s at) rest

unfoldable pub merge : Passes → Passes → Passes
unfolding record_all
merge s other = record_all s other.used

unfoldable pub compact : Passes → I64 → EmergencyPolicy → Passes
compact s now policy =
    let horizon = minus now policy.window_seconds in
    record s { used = filter (λ at. ltb horizon at) s.used }
