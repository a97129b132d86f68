-- ===== src/Config/Validation.antt =====
-- crates/curfew-core/src/config.rs, `validate`: the checks on a document, in their order. A message is
-- a constructor with what it names.
use curfew.Prelude.{
  ℕ, Bool, true, false, not, ◌&&◌, ◌||◌, List, [], ◌∷◌, ◌++◌, map, ltb, leb, ◌==◌, is_none,
}
use curfew.Prelude.Lists.{all, any, length}
use curfew.Prelude.Order.{list_ord, nat_ord, pair_ord}
use curfew.Prelude.Text.{Text, trim, as_bytes}
use curfew.Prelude.Set
use curfew.Prelude.Set.{BTreeSet}
use curfew.Prelude.Result.{Result, ok, refuse_if, and_then, check_all}
use curfew.Budget.{Refill, rolling}
use curfew.Emergency.{EmergencyPolicy}
use curfew.Schedule.Weekly.{WeeklySchedule}
use curfew.Schedule.Calendar.{CalendarSchedule, CalendarSource}
use curfew.Config.{Config, Profile, Rule, Tag, Action, budget, launch_limit, profile}

pub data Kind : Type 0 where
  weekly_schedule calendar_rule : Kind

pub data Reason : Type 0 where
  empty_profile_id : Reason
  unnamed_profile : Text → Reason
  duplicate_profile : Text → Reason
  zero_budget : Text → Reason
  zero_launch_limit : Text → Reason
  empty_token_id : Reason
  duplicate_token : Text → Reason
  bad_fingerprint : Text → Reason
  undefined_profile : Kind → Text → Text → Reason
  empty_schedule_id : Kind → Reason
  duplicate_schedule : Kind → Text → Reason
  empty_source_id : Reason
  duplicate_source : Text → Reason
  no_location : Text → Reason
  zero_refresh : Text → Reason
  zero_window : Reason
  zero_cooldown : Reason
  zero_rolling : Text → Reason
  outside_the_day : Text → Reason
  same_minute : Text → Reason
  no_such_day : Text → Reason
  no_profile : Text → Reason
  empty_package : Reason
  still_used : Text → List Text → Reason

pub data ConfigError : Type 0 where
  unknown_timezone : Text → ConfigError
  invalid : Reason → ConfigError

abbrev pub Checked : Type 0
Checked = Result Unit ConfigError

abbrev pub refuse : Bool → Reason → Checked
refuse b reason = refuse_if b (invalid reason)

abbrev no_text : Text → Bool
no_text [] = true
no_text (c ∷ cs) = false

abbrev pub blank : Text → Bool
blank s = no_text (trim s)

abbrev pub is_zero_budget : Action → Bool
is_zero_budget (budget seconds refill) = seconds == 0
is_zero_budget _ = false

abbrev pub is_zero_launch_limit : Action → Bool
is_zero_launch_limit (launch_limit count refill) = count == 0
is_zero_launch_limit _ = false

abbrev is_zero_rolling : Refill → Bool
is_zero_rolling (rolling seconds) = seconds == 0
is_zero_rolling _ = false

abbrev pub never_spent : Action → Bool
never_spent (budget seconds refill) = is_zero_rolling refill
never_spent _ = false

abbrev pub check_rule : Text → Rule → Checked
check_rule id r =
    and_then (refuse (is_zero_budget r.action) (zero_budget id))
      (refuse (is_zero_launch_limit r.action) (zero_launch_limit id))

unfoldable pub check_profiles : BTreeSet Text → List Profile → Checked
check_profiles seen [] = ok tt
check_profiles seen (p ∷ rest) = and_then (refuse (blank p.id) empty_profile_id) (
    and_then (refuse (blank p.name) (unnamed_profile p.id)) (
      and_then (refuse (Set.mem p.id seen) (duplicate_profile p.id)) (
        and_then (check_all (check_rule p.id) p.rules)
          (check_profiles (Set.insert p.id seen) rest))))

-- `u8::is_ascii_hexdigit`
abbrev is_ascii_hexdigit : ℕ → Bool
is_ascii_hexdigit c =
    (leb b'0' c && leb c b'9') || ((leb b'a' c && leb c b'f') || (leb b'A' c && leb c b'F'))

abbrev is_fingerprint : Text → Bool
is_fingerprint hash =
    let bytes = as_bytes (trim hash) in (length bytes == 64) && all is_ascii_hexdigit bytes

unfoldable pub check_tokens : BTreeSet Text → List Tag → Checked
check_tokens seen [] = ok tt
check_tokens seen (t ∷ rest) = and_then (refuse (blank t.id) empty_token_id) (
    and_then (refuse (Set.mem t.id seen) (duplicate_token t.id)) (
      and_then (refuse (not (is_fingerprint t.hash)) (bad_fingerprint t.id))
        (check_tokens (Set.insert t.id seen) rest)))

-- A schedule as the loop over both kinds of them reads it.
pub record Entry : Type 0 where
  pub kind : Kind
  pub id : Text
  pub profile : Text

abbrev pub of_weekly : WeeklySchedule → Entry
of_weekly w = record { kind = weekly_schedule; id = w.id; profile = w.profile }

abbrev pub of_calendar : CalendarSchedule → Entry
of_calendar c = record { kind = calendar_rule; id = c.id; profile = c.profile }

-- The two kinds in the order of their names, as `seen` compares them.
abbrev kind_rank : Kind → ℕ
kind_rank calendar_rule = 0
kind_rank weekly_schedule = 1

abbrev pub entry_key : Entry → ℕ × Text
entry_key e = (kind_rank e.kind, e.id)

unfoldable pub check_schedules : Config → BTreeSet (ℕ × Text) → List Entry → Checked
check_schedules c seen [] = ok tt
check_schedules c seen (e ∷ rest) =
    and_then (refuse (is_none (profile c e.profile)) (undefined_profile e.kind e.id e.profile)) (
      and_then (refuse (blank e.id) (empty_schedule_id e.kind)) (
        and_then (refuse (Set.mem (entry_key e) seen) (duplicate_schedule e.kind e.id))
          (check_schedules c (Set.insert (entry_key e) seen) rest)))

abbrev pub entries : Config → List Entry
entries c = map of_weekly c.weekly ++ map of_calendar c.calendars

unfoldable pub check_sources : BTreeSet Text → List CalendarSource → Checked
check_sources seen [] = ok tt
check_sources seen (s ∷ rest) = and_then (refuse (blank s.id) empty_source_id) (
    and_then (refuse (Set.mem s.id seen) (duplicate_source s.id)) (
      and_then (refuse (blank s.location) (no_location s.id)) (
        and_then (refuse (s.refresh_seconds == 0) (zero_refresh s.id))
          (check_sources (Set.insert s.id seen) rest))))

abbrev pub check_emergency : EmergencyPolicy → Checked
check_emergency e =
    and_then (refuse (e.window_seconds == 0) zero_window)
      (refuse (ltb 0 e.passes && (e.cooldown_seconds == 0)) zero_cooldown)

abbrev pub check_rolling : Profile → Checked
check_rolling p = check_all (λ r. refuse (never_spent r.action) (zero_rolling p.id)) p.rules

abbrev pub check_window : WeeklySchedule → Checked
check_window w =
    and_then (refuse (leb 1440 w.start_minute || leb 1440 w.end_minute) (outside_the_day w.id)) (
      and_then (refuse (w.start_minute == w.end_minute) (same_minute w.id))
        (refuse (any (λ d. ltb 6 d) w.days) (no_such_day w.id)))

-- `timezone.parse()` is chrono-tz's.
module _ (is_zone : Text → Bool) where
  unfoldable pub validate : Config → Checked
  validate c = and_then (refuse_if (not (is_zone c.timezone)) (unknown_timezone c.timezone)) (
      and_then (check_profiles [] c.profiles) (
        and_then (check_tokens [] c.tokens) (
          and_then (check_schedules c [] (entries c)) (
            and_then (check_sources [] c.calendar_sources) (
              and_then (check_emergency c.emergency) (
                and_then (check_all check_rolling c.profiles)
                  (check_all check_window c.weekly)))))))
