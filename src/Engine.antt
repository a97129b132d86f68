-- ===== src/Engine.antt =====
-- crates/curfew-core/src/engine.rs: the decision about what the platform reports.
pub mod Asked
pub mod Weighing
pub mod Strictness
pub mod Charges
use curfew.Prelude.{
  ℕ, max, ◌++◌, Bool, true, false, not, ◌&&◌, ◌||◌, Option, none, some, List, [], ◌∷◌, map, leb,
  if◌then◌else◌, is_none,
}
use curfew.Prelude.Lists.{any}
use curfew.Prelude.Order.{list_ord, list_eq}
use curfew.Prelude.Text.{Text}
use curfew.Prelude.I64.{I64}
use curfew.Prelude.Unicode.{Unicode}
use curfew.Prelude.Map
use curfew.Prelude.Map.{BTreeMap}
use curfew.Chrono.{Chrono}
use curfew.Lock.{LockSet}
use curfew.Budget.{Refill, Consumption, Launches, used_since, count_since, window_start}
use curfew.Target.{Target, Observation, idle, key, matches, is_notification}
use curfew.Config
use curfew.Config.{
  Config, Profile, Rule, Platform, same_platform, android, windows, browser, Action, allow_only,
  budget, launch_limit, mute_notifications, meters,
}

pub record State : Type 0 where
  pub active_profiles : List Text
  pub lock : LockSet
  pub usage : BTreeMap Text Consumption
  pub launches : BTreeMap Text Launches
  pub platform : Platform

pub data BlockReason : Type 0 where
  blocked : Text → BlockReason
  not_allowlisted : Text → BlockReason
  budget_exhausted : Text → ℕ → BlockReason
  launch_limit_reached : Text → ℕ → BlockReason

pub data Decision : Type 0 where
  allow : Decision
  block : BlockReason → Decision
  delay : ℕ → Decision
  mute : Decision

unfoldable pub applies_to : Rule → Platform → Bool
applies_to rule platform = elim rule.platforms [
  | [] ↦ true
  | p ∷ ps ↦ any (same_platform platform) (p ∷ ps)
]

-- The variables that the loops of `decide` change.
pub record Tally : Type 0 where
  pub blocked : Option BlockReason
  pub budget_spent : Option BlockReason
  pub launches_spent : Option BlockReason
  pub allow_only : Option Text
  pub allowlisted : Bool
  pub delay : Option ℕ
  pub mute : Bool

abbrev pub nothing : Tally
nothing = record {
  blocked = none;
  budget_spent = none;
  launches_spent = none;
  allow_only = none;
  allowlisted = false;
  delay = none;
  mute = false;
}

-- `get_or_insert_with`
abbrev pub get_or_insert {ℓ} : {A : Type ℓ} → Option A → A → Option A
get_or_insert none a = some a
get_or_insert (some b) a = some b

abbrev pub longer : Option ℕ → ℕ → ℕ
longer none seconds = seconds
longer (some d) seconds = max d seconds

abbrev pub used : Option Consumption → Option I64 → ℕ
used none from = 0
used (some c) from = used_since c from

abbrev pub opens : Option Launches → Option I64 → ℕ
opens none from = 0
opens (some l) from = count_since l from

module _ {Tz Date Local : Type 0} (chrono : Chrono Tz Date Local) (unicode : Unicode) where
  abbrev or_utc : Option Tz → Tz
  or_utc none = chrono.utc
  or_utc (some tz) = tz

  abbrev pub zone : Config → Tz
  zone config = or_utc (chrono.parse config.timezone)

  unfoldable pub budget_used : I64 → Tz → State → Target → Refill → ℕ
  budget_used now tz state target refill =
      used (Map.get (key unicode target) state.usage) (window_start chrono refill now tz)

  unfoldable pub times_opened : I64 → Tz → State → Target → Refill → ℕ
  times_opened now tz state target refill =
      opens (Map.get (key unicode target) state.launches) (window_start chrono refill now tz)

  -- The `match` on the action of a rule of the profile `id` that applies to the platform.
  unfoldable pub weigh : I64 → Tz → State → Text → Bool → Target → Action → Tally → Tally
  weigh now tz state id hit target Action.block t =
      if hit then record t { blocked = get_or_insert t.blocked (blocked id) } else t
  weigh now tz state id hit target allow_only t = record t {
    allow_only = get_or_insert t.allow_only id;
    allowlisted = t.allowlisted || hit;
  }
  weigh now tz state id hit target (budget seconds refill) t =
      if hit && leb seconds (budget_used now tz state target refill)
      then record t { budget_spent = get_or_insert t.budget_spent (budget_exhausted id seconds) }
      else t
  weigh now tz state id hit target (launch_limit count refill) t =
      if hit && leb count (times_opened now tz state target refill)
      then record t {
        launches_spent = get_or_insert t.launches_spent (launch_limit_reached id count);
      }
      else t
  weigh now tz state id hit target (Action.delay seconds) t =
      if hit then record t { delay = some (longer t.delay seconds) } else t
  weigh now tz state id hit target mute_notifications t =
      if hit then record t { mute = true } else t

  unfoldable pub weigh_rules : I64 → Tz → State → Observation → Text → List Rule → Tally → Tally
  weigh_rules now tz state obs id [] t = t
  weigh_rules now tz state obs id (rule ∷ rest) t =
      let next =
        if applies_to rule state.platform
        then weigh now tz state id (matches unicode rule.target obs) rule.target rule.action t
        else t in
      weigh_rules now tz state obs id rest next

  abbrev pub weigh_profile : I64 → Tz → State → Observation → Option Profile → Tally → Tally
  weigh_profile now tz state obs none t = t
  weigh_profile now tz state obs (some p) t = weigh_rules now tz state obs p.id p.rules t

  unfoldable pub weigh_profiles :
      I64 → Tz → State → Observation → Config → List Text → Tally → Tally
  weigh_profiles now tz state obs config [] t = t
  weigh_profiles now tz state obs config (id ∷ rest) t =
      weigh_profiles now tz state obs config rest
        (weigh_profile now tz state obs (Config.profile config id) t)

abbrev pub or_reason : Option BlockReason → Option BlockReason → Option BlockReason
or_reason none y = y
or_reason (some r) y = some r

abbrev delayed : Option ℕ → Decision
delayed none = allow
delayed (some seconds) = delay seconds

abbrev listed : Option Text → Bool → Option ℕ → Decision
listed none allowlisted wait = delayed wait
listed (some id) allowlisted wait =
    if not allowlisted then block (not_allowlisted id) else delayed wait

-- What is left to decide once the rules are weighed.
unfoldable pub resolve : Bool → Tally → Decision
resolve notification t =
    if notification
    then (if t.mute || not (is_none t.blocked) then mute else allow)
    else elim (or_reason (or_reason t.blocked t.budget_spent) t.launches_spent) [
      | some reason ↦ block reason
      | none ↦ listed t.allow_only t.allowlisted t.delay
    ]

abbrev pub is_idle : Observation → Bool
is_idle idle = true
is_idle _ = false

module _ {Tz Date Local : Type 0} (chrono : Chrono Tz Date Local) (unicode : Unicode) where
  unfoldable pub decide : I64 → State → Observation → Config → Decision
  decide now state obs config =
      if is_idle obs
      then allow
      else resolve (is_notification obs) (
          weigh_profiles chrono unicode now (zone chrono unicode config) state obs config
            state.active_profiles nothing)

abbrev pub push_new : Text → List Text → List Text
push_new k keys = if any (list_eq k) keys then keys else keys ++ k ∷ []

module _ (unicode : Unicode) where
  abbrev pub charged : State → Observation → Rule → Bool
  charged state obs rule =
      meters rule.action && (applies_to rule state.platform && matches unicode rule.target obs)

  unfoldable pub charge_rules : State → Observation → List Rule → List Text → List Text
  charge_rules state obs [] keys = keys
  charge_rules state obs (rule ∷ rest) keys =
      let next = if charged state obs rule then push_new (key unicode rule.target) keys else keys in
      charge_rules state obs rest next

  abbrev pub charge_profile : State → Observation → Option Profile → List Text → List Text
  charge_profile state obs none keys = keys
  charge_profile state obs (some p) keys = charge_rules state obs p.rules keys

  unfoldable pub charge_profiles : State → Observation → Config → List Text → List Text → List Text
  charge_profiles state obs config [] keys = keys
  charge_profiles state obs config (id ∷ rest) keys =
      charge_profiles state obs config rest
        (charge_profile state obs (Config.profile config id) keys)

  unfoldable pub charged_keys : State → Observation → Config → List Text
  charged_keys state obs config = charge_profiles state obs config state.active_profiles []
