-- ===== src/Schedule/Calendar.antt =====
-- crates/curfew-core/src/schedule.rs, `CalendarSchedule`: windows around calendar events.
use curfew.Prelude.{
  ℕ, ◌+◌, ◌-◌, min, max, Bool, true, false, ◌&&◌, not, Option, none, some, List, [], ◌∷◌, ◌++◌, map,
  leb, ltb, is_some_and, if◌then◌else◌,
}
use curfew.Prelude.Lists.{any, filter}
use curfew.Prelude.Text.{Text, str_eq_ci}
use curfew.Prelude.I64.{I64, epoch, saturating_minus, saturating_plus}
use curfew.Prelude.Unicode.{Unicode}
use curfew.Chrono.{Chrono}
use curfew.Lock.{Lock}
use curfew.Glob.{glob_match}
use curfew.Schedule.{Activation, calendar}
use curfew.Schedule.Weekly
use curfew.Schedule.Weekly.{WeeklySchedule, is_nil}

pub record CalendarEvent : Type 0 where
  pub id : Text
  pub title : Text
  pub calendar : Text
  pub location : Text
  pub start : I64
  pub end : I64
  pub all_day : Bool
  pub busy : Bool
  pub categories : List Text

-- `end.saturating_sub(start).max(0) as u64`: the difference of two instants saturates at 2 ^ 63 - 1.
unfoldable pub duration_seconds : CalendarEvent → ℕ
duration_seconds e = min (e.end - e.start) (epoch - 1)

pub record CalendarSource : Type 0 where
  pub id : Text
  pub location : Text
  pub refresh_seconds : ℕ

pub record EventMatcher : Type 0 where
  pub title : Option Text
  pub calendar : Option Text
  pub location : Option Text
  pub busy_only : Bool
  pub all_day : Option Bool
  pub categories : List Text
  pub min_duration_seconds : Option ℕ
  pub max_duration_seconds : Option ℕ

pub record CalendarSchedule : Type 0 where
  pub id : Text
  pub profile : Text
  pub matcher : EventMatcher
  pub pad_before_seconds : ℕ
  pub pad_after_seconds : ℕ
  pub locks : List Lock
  pub enabled : Bool

abbrev differ : Bool → Bool → Bool
differ true b = not b
differ false b = b

abbrev pub contains : I64 → Activation → Bool
contains now a = leb a.start now && ltb now a.end

module _ (unicode : Unicode) where
  -- The early returns, in their order.
  unfoldable pub matches : EventMatcher → CalendarEvent → Bool
  matches m e =
      if m.busy_only && not e.busy
      then false
      else if is_some_and m.all_day (λ want. differ want e.all_day)
      then false
      else if is_some_and m.title (λ pattern. not (glob_match unicode pattern e.title))
      then false
      else if is_some_and m.location (λ pattern. not (glob_match unicode pattern e.location))
      then false
      else if is_some_and m.calendar (λ name. not (str_eq_ci name e.calendar))
      then false
      else if not (is_nil m.categories)
          && not (any (λ want. any (λ have. str_eq_ci have want) e.categories) m.categories)
      then false
      else if is_some_and m.min_duration_seconds (λ least. ltb (duration_seconds e) least)
      then false
      else if is_some_and m.max_duration_seconds (λ most. ltb most (duration_seconds e))
      then false
      else true

  abbrev pub activation : CalendarSchedule → CalendarEvent → Activation
  activation s e = record {
    profile = s.profile;
    source = calendar s.id e.id;
    start = saturating_minus e.start s.pad_before_seconds;
    end = saturating_plus (max e.end e.start) (s.pad_after_seconds + 1);
    locks = s.locks;
  }

  unfoldable pub activations : CalendarSchedule → List CalendarEvent → List Activation
  activations s events =
      if s.enabled then map (activation s) (filter (λ e. matches s.matcher e) events) else []

module _ {Tz Date Local : Type 0} (chrono : Chrono Tz Date Local) (unicode : Unicode) where
  unfoldable pub weekly_at : I64 → Tz → List WeeklySchedule → List Activation
  weekly_at now tz [] = []
  weekly_at now tz (w ∷ rest) =
      let more = weekly_at now tz rest in
      elim (Weekly.active_at chrono w now tz) [ none ↦ more | some a ↦ a ∷ more ]

  unfoldable pub calendars_at : I64 → List CalendarSchedule → List CalendarEvent → List Activation
  calendars_at now [] events = []
  calendars_at now (s ∷ rest) events =
      filter (contains now) (activations unicode s events) ++ calendars_at now rest events

  unfoldable pub active_at :
      I64 → Tz → List WeeklySchedule → List CalendarSchedule → List CalendarEvent → List Activation
  active_at now tz weekly calendars events =
      weekly_at now tz weekly ++ calendars_at now calendars events
