-- ===== src/Config/Edits.antt =====
-- crates/curfew-core/src/config.rs: the edits of a document. Each returns the document that it leaves.
use curfew.Prelude.{
  ℕ, ◌-◌, Bool, true, false, not, ◌&&◌, Option, none, some, List, [], ◌∷◌, ◌++◌, map, ◌==◌,
  if◌then◌else◌,
}
use curfew.Prelude.Lists.{filter, find, any, length, modify_first, sort_by}
use curfew.Prelude.Order.{list_ord, list_eq, list_lt}
use curfew.Prelude.Text.{Text}
use curfew.Prelude.Unicode.{Unicode}
use curfew.Prelude.Set
use curfew.Prelude.Result.{Result, ok, err}
use curfew.Schedule.Weekly.{WeeklySchedule, is_nil}
use curfew.Schedule.Calendar.{CalendarSchedule, CalendarSource}
use curfew.Target
use curfew.Target.{Target, app_package}
use curfew.Config
use curfew.Config.{Config, Profile, Rule, Action, block, budget}
use curfew.Config.Weakening.{same_platforms}
use curfew.Config.Validation.{
  ConfigError, invalid, Checked, validate, blank, no_profile, empty_package, still_used,
}

pub data Upserted : Type 0 where
  added replaced already_present : Upserted

abbrev pub has_id : Text → Profile → Bool
has_id id p = list_eq p.id id

-- The first profile of that id, changed.
abbrev pub edit_profile : Text → (Profile → Profile) → Config → Config
edit_profile id f c = record c { profiles = modify_first (has_id id) f c.profiles }

-- What `iter_mut().find(p)` replaces, or `push` adds.
abbrev pub replace_or_push {ℓ} : {A : Type ℓ} → (A → Bool) → A → List A → List A
replace_or_push p a xs = elim (find p xs) [
  | some x ↦ modify_first p (λ y. a) xs
  | none ↦ xs ++ a ∷ []
]

-- A plain block or a budget, on an app, on every platform: what the app picker owns.
abbrev pub package_of : Target → Option Text
package_of (app_package name) = some name
package_of _ = none

abbrev pub is_budget : Action → Bool
is_budget (budget seconds refill) = true
is_budget _ = false

abbrev pub is_picked_action : Action → Bool
is_picked_action block = true
is_picked_action (budget seconds refill) = true
is_picked_action _ = false

abbrev pub when {ℓ} : {A : Type ℓ} → Bool → Option A → Option A
when true o = o
when false o = none

abbrev pub picked : Rule → Option Text
picked r = when (is_picked_action r.action && is_nil r.platforms) (package_of r.target)

abbrev pub budgeted : Rule → Option Text
budgeted r = when (is_budget r.action && is_nil r.platforms) (package_of r.target)

abbrev pub is_some {ℓ} : {A : Type ℓ} → Option A → Bool
is_some none = false
is_some (some a) = true

abbrev pub with_action : Action → Option Text → List (Text × Action)
with_action action none = []
with_action action (some app) = (app, action) ∷ []

unfoldable pub budgets : List Rule → List (Text × Action)
budgets [] = []
budgets (r ∷ rs) = with_action r.action (budgeted r) ++ budgets rs

abbrev pub or_block : Option (Text × Action) → Action
or_block none = block
or_block (some (app, action)) = action

abbrev pub app_rule : List (Text × Action) → Text → Rule
app_rule had app = record {
  target = app_package app;
  action = or_block (find (λ b. list_eq b.0 app) had);
  platforms = [];
}

-- The loop over the wanted packages: the rules it pushed, and whether it ended early.
unfoldable pub push_apps : List (Text × Action) → List Text → List Rule × Bool
push_apps had [] = ([], true)
push_apps had (app ∷ rest) =
    let (rules, done) = push_apps had rest in
    if blank app then ([], false) else (app_rule had app ∷ rules, done)

abbrev pub not_picked : Rule → Bool
not_picked r = not (is_some (picked r))

abbrev pub listed {ℓ} : {A : Type ℓ} → Option A → List A
listed none = []
listed (some a) = a ∷ []

-- `filter_map` and `collect`.
unfoldable pub picked_packages : List Rule → List Text
picked_packages [] = []
picked_packages (r ∷ rs) = listed (picked r) ++ picked_packages rs

abbrev pub rules_of : Option Profile → List Rule
rules_of none = []
rules_of (some p) = p.rules

unfoldable pub blocked_apps : Config → Text → List Text
blocked_apps c id = picked_packages (rules_of (Config.profile c id))

-- The ids of the schedules that name a profile, in ascending order.
abbrev pub used_by : Config → Text → List Text
used_by c id = sort_by list_lt (
    map (λ w. w.id) (filter (λ w. list_eq w.profile id) c.weekly)
    ++ map (λ s. s.id) (filter (λ s. list_eq s.profile id) c.calendars))

unfoldable pub remove_profile : Config → Text → Config × Checked
remove_profile c id =
    if not (is_nil (used_by c id))
    then (c, err (invalid (still_used id (used_by c id))))
    else (record c { profiles = filter (λ p. not (has_id id p)) c.profiles }, ok tt)

unfoldable pub remove_weekly : Config → Text → Config
remove_weekly c id = record c { weekly = filter (λ w. not (list_eq w.id id)) c.weekly }

unfoldable pub remove_calendar : Config → Text → Config
remove_calendar c id = record c { calendars = filter (λ s. not (list_eq s.id id)) c.calendars }

unfoldable pub remove_source : Config → Text → Config
remove_source c id = record c {
  calendar_sources = filter (λ s. not (list_eq s.id id)) c.calendar_sources;
}

abbrev same_numbers : List ℕ → List ℕ → Bool
same_numbers xs ys = list_eq xs ys

-- The same profile on the same days between the same minutes.
abbrev pub same_window : WeeklySchedule → WeeklySchedule → Bool
same_window window w =
    list_eq w.profile window.profile
    && (same_numbers w.days window.days
        && ((w.start_minute == window.start_minute) && (w.end_minute == window.end_minute)))

module _ (unicode : Unicode) where
  abbrev pub same_rule : Rule → Rule → Bool
  same_rule rule r =
      list_eq (Target.key unicode r.target) (Target.key unicode rule.target)
      && same_platforms r.platforms rule.platforms

  abbrev pub points_at : Target → Rule → Bool
  points_at target r = list_eq (Target.key unicode r.target) (Target.key unicode target)

  unfoldable pub remove_rule : Config → Text → Target → Config × ℕ
  remove_rule c id target = elim (find (has_id id) c.profiles) [
    | none ↦ (c, 0)
    | some p ↦
        let kept = filter (λ r. not (points_at target r)) p.rules in
        (edit_profile id (λ q. record q { rules = kept }) c, length p.rules - length kept)
  ]

abbrev pub renamed : Text → Text → Profile → Profile
renamed name description p = record p { name = name; description = description }

abbrev pub with_profile : Config → Text → Text → Text → Config
with_profile c id name description = elim (find (has_id id) c.profiles) [
  | some p ↦ edit_profile id (renamed name description) c
  | none ↦ record c {
    profiles =
        c.profiles ++ record { id = id; name = name; description = description; rules = [] } ∷ [];
  }
]

-- The edited document where it stands up, and otherwise the one that was put back.
abbrev pub or_back : {A : Type 0} → Config → Config → A → Checked → Config × Result A ConfigError
or_back changed before a (ok u) = (changed, ok a)
or_back changed before a (err e) = (before, err e)

module _ (unicode : Unicode) (is_zone : Text → Bool) where
  unfoldable pub upsert_rule : Config → Text → Rule → Config × Checked
  upsert_rule c id rule = elim (find (has_id id) c.profiles) [
    | none ↦ (c, err (invalid (no_profile id)))
    | some p ↦
        let changed =
          edit_profile id
            (λ q. record q { rules = replace_or_push (same_rule unicode rule) rule q.rules }) c in
        or_back changed (edit_profile id (λ q. record q { rules = p.rules }) changed) tt
          (validate is_zone changed)
  ]

module _ (is_zone : Text → Bool) where
  abbrev pub after_push : Config → Bool → Config × Checked
  after_push changed true = (changed, validate is_zone changed)
  after_push changed false = (changed, err (invalid empty_package))

  -- `sort` and `dedup` leave the distinct packages in ascending order.
  unfoldable pub set_blocked_apps : Config → Text → List Text → Config × Checked
  set_blocked_apps c id packages = elim (find (has_id id) c.profiles) [
    | none ↦ (c, err (invalid (no_profile id)))
    | some p ↦
        let pushed = push_apps (budgets p.rules) (Set.from_list packages) in
        after_push
          (edit_profile id (λ q. record q { rules = filter not_picked p.rules ++ pushed.0 }) c)
          pushed.1
  ]

  unfoldable pub upsert_profile : Config → Text → Text → Text → Config × Checked
  upsert_profile c id name description =
      let changed = with_profile c id name description in
      or_back changed (record changed { profiles = c.profiles }) tt (validate is_zone changed)

  abbrev pub store_weekly :
      Config → Upserted → List WeeklySchedule → Config × Result Upserted ConfigError
  store_weekly c outcome weekly =
      let changed = record c { weekly = weekly } in
      or_back changed (record changed { weekly = c.weekly }) outcome (validate is_zone changed)

  unfoldable pub upsert_weekly : Config → WeeklySchedule → Config × Result Upserted ConfigError
  upsert_weekly c window = elim (find (λ w. list_eq w.id window.id) c.weekly) [
    | some w ↦
        store_weekly c replaced (modify_first (λ w. list_eq w.id window.id) (λ w. window) c.weekly)
    | none ↦
        if any (same_window window) c.weekly
        then (c, ok already_present)
        else store_weekly c added (c.weekly ++ window ∷ [])
  ]

  unfoldable pub upsert_calendar : Config → CalendarSchedule → Config × Checked
  upsert_calendar c rule =
      let changed = record c {
        calendars = replace_or_push (λ s. list_eq s.id rule.id) rule c.calendars;
      } in
      or_back changed (record changed { calendars = c.calendars }) tt (validate is_zone changed)

  unfoldable pub upsert_source : Config → CalendarSource → Config × Checked
  upsert_source c source =
      let changed = record c {
        calendar_sources = replace_or_push (λ s. list_eq s.id source.id) source c.calendar_sources;
      } in
      or_back changed (record changed { calendar_sources = c.calendar_sources }) tt
        (validate is_zone changed)
