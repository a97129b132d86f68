-- ===== src/Examples/Edits.antt =====
-- Examples of the edits and the checks of crates/curfew-core/src/config.rs.
use curfew.Prelude.{◌<◌, ◌≡◌, refl, Bool, true, false, none, [], ◌∷◌, is_none}
use curfew.Prelude.Lists.{All, filter}
use curfew.Prelude.Order.{list_ord, list_eq, list_lt}
use curfew.Prelude.Text.{Text, codes, trim}
use curfew.Prelude.Set
use curfew.Prelude.Result.{ok, err, check_all}
use curfew.Budget.{rolling}
use curfew.Lock.{confirm}
use curfew.Schedule.Weekly.{WeeklySchedule}
use curfew.Schedule.Calendar.{CalendarSchedule, CalendarSource}
use curfew.Target.{app_package, domain}
use curfew.Config
use curfew.Config.{Config, Profile, Rule, Action, profile}
use curfew.Config.Validation.{
  validate, check_profiles, check_tokens, check_schedules, check_sources, entries, invalid,
  empty_package,
}
use curfew.Config.Edits.{
  remove_rule, remove_profile, remove_weekly, remove_calendar, remove_source, set_blocked_apps,
  blocked_apps, not_picked, rules_of, budgets, push_apps,
}
use curfew.Config.Picker.{blocked_apps-set_blocked_apps}
use curfew.Config.Removal.{removals-stay_valid}
use curfew.Config.Guards.{AreDistinctIds, IsNamed, IsWindow, validate-guards}
use curfew.Examples.Data.{ascii_only}

abbrev is_utc : Text → Bool
is_utc zone = list_eq zone (codes "UTC")

abbrev chat : Rule
chat = record { target = app_package (codes "chat"); action = Action.block; platforms = [] }

abbrev site : Rule
site = record { target = domain (codes "a.org"); action = Action.block; platforms = [] }

abbrev work : Profile
work = record { id = codes "work"; name = codes "Work"; description = []; rules = chat ∷ site ∷ [] }

abbrev mornings : WeeklySchedule
mornings = record {
  id = codes "mornings";
  profile = codes "work";
  days = 0 ∷ 1 ∷ [];
  start_minute = 540;
  end_minute = 720;
  locks = confirm ∷ [];
  enabled = true;
}

abbrev simple : Config
simple = record Config.default { profiles = work ∷ []; weekly = mornings ∷ [] }

simple_passes : validate is_utc simple ≡ ok tt
unfolding validate list_eq check_profiles trim Set.mem check_all check_tokens check_schedules
    profile check_sources
simple_passes = refl

abbrev lectures : CalendarSchedule
lectures = record {
  id = codes "lectures";
  profile = codes "gone";
  matcher = record {
    title = none;
    calendar = none;
    location = none;
    busy_only = false;
    all_day = none;
    categories = [];
    min_duration_seconds = none;
    max_duration_seconds = none;
  };
  pad_before_seconds = 0;
  pad_after_seconds = 0;
  locks = confirm ∷ [];
  enabled = true;
}

abbrev feed : CalendarSource
feed = record { id = codes "uni"; location = codes "uni.ics"; refresh_seconds = 0 }

blocked_apps-set_blocked_apps_example :
    let packages = codes "mail" ∷ codes "chat" ∷ codes "mail" ∷ [] in
    let c' = (set_blocked_apps is_utc simple (codes "work") packages).0 in
    (blocked_apps c' (codes "work") ≡ Set.from_list packages)
    × (validate is_utc c' ≡ ok tt)
    × (filter not_picked (rules_of (Config.profile c' (codes "work")))
        ≡ filter not_picked (rules_of (Config.profile simple (codes "work"))))
unfolding set_blocked_apps push_apps Set.from_list list_lt budgets validate list_eq check_profiles
    trim Set.mem check_all check_tokens check_schedules profile check_sources
blocked_apps-set_blocked_apps_example =
    blocked_apps-set_blocked_apps is_utc simple (codes "work")
      (codes "mail" ∷ codes "chat" ∷ codes "mail" ∷ []) refl

removals-stay_valid_example :
    (validate is_utc (remove_rule ascii_only simple (codes "work") (app_package (codes "chat"))).0
      ≡ ok tt)
    × (validate is_utc (remove_profile simple (codes "work")).0 ≡ ok tt)
    × (validate is_utc (remove_weekly simple (codes "work")) ≡ ok tt)
    × (validate is_utc (remove_calendar simple (codes "work")) ≡ ok tt)
    × (validate is_utc (remove_source simple (codes "work")) ≡ ok tt)
removals-stay_valid_example =
    removals-stay_valid is_utc ascii_only simple (codes "work") (app_package (codes "chat"))
      simple_passes

validate-guards_example :
    AreDistinctIds simple.profiles
    × All IsNamed simple.profiles
    × All (λ e. is_none (Config.profile simple e.profile) ≡ false) (entries simple)
    × All IsWindow simple.weekly
    × (0 < simple.emergency.window_seconds)
    × (0 < simple.emergency.passes → 0 < simple.emergency.cooldown_seconds)
validate-guards_example = validate-guards is_utc simple simple_passes

-- A refused choice of apps has already dropped the rules that the picker owned.
refused_choice_run : set_blocked_apps is_utc simple (codes "work") ([] ∷ []) ≡ (
  record simple { profiles = record work { rules = site ∷ [] } ∷ [] },
  err (invalid empty_package),
)
unfolding set_blocked_apps list_eq push_apps Set.from_list trim
refused_choice_run = refl

-- A launch limit over a rolling window of no seconds passes, though it can never be reached.
abbrev unlimited : Config
unlimited = record simple {
  profiles =
      record work { rules = record chat { action = Action.launch_limit 3 (rolling 0) } ∷ [] } ∷ [];
}

unlimited_passes_run : validate is_utc unlimited ≡ ok tt
unfolding validate list_eq check_profiles trim Set.mem check_all check_tokens check_schedules
    profile check_sources
unlimited_passes_run = refl
