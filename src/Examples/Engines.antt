-- ===== src/Examples/Engines.antt =====
-- Examples of crates/curfew-core/src/engine.rs, schedule.rs and budget.rs, with a calendar of twelve
-- months of thirty days in one time zone.
use curfew.Prelude.{
  ℕ, ◌+◌, ◌-◌, ◌*◌, ◌/◌, ◌%◌, ◌≡◌, ◌≢◌, ◌<◌, refl, min, true, false, ◌&&◌, Option, none, some, [],
  ◌∷◌, map, ltb, leb, if◌then◌else◌, arith,
}
use curfew.Prelude.Lists.{In, any}
use curfew.Prelude.Order.{list_eq}
use curfew.Prelude.Text.{
  Text, codes, ascii_lower, str_eq_ci, as_bytes, utf8_char, eq_ignore_ascii_case, eq_byte_ci,
}
use curfew.Prelude.I64.{I64, epoch, u32_max}
use curfew.Prelude.Unicode.{Unicode}
use curfew.Chrono.{Chrono}
use curfew.Lock.{unlocked}
use curfew.Budget.{Consumption, used_since, record_seconds, daily}
use curfew.Budget.Sums.{total, counted, seconds_of, used_since_exact}
use curfew.Schedule.{Activation}
use curfew.Schedule.Instants.{local_date, local_instant, instant_of}
use curfew.Schedule.Weekly.{WeeklySchedule, active_at, active_on, span_on, runs_on, activated}
use curfew.Schedule.Opening.{IsOpen, RunsOn, IsWindowOf, active_at_exact}
use curfew.Schedule.Calendar.{CalendarSchedule, CalendarEvent, matches}
use curfew.Target.{Observation, app, app_package, is_notification}
use curfew.Config
use curfew.Config.{Config, Rule, android, block, delay, budget}
use curfew.Engine.{State, decide, zone, is_idle, charged_keys}
use curfew.Engine.Asked.{active_rules, allowed, outcome}
use curfew.Engine.Strictness.{strictest, decide-strictest}
use curfew.Engine.Charges.{AreDistinct, charges, charged_keys_exact}
use curfew.Examples.Data.{morning, noon, evening}

-- The ASCII mapping, for any text.
abbrev ascii_only : Unicode
ascii_only = record { to_lowercase = λ s. map ascii_lower s; to_lowercase-ascii = λ s h. refl }

abbrev time_of_day : ℕ → ℕ → ℕ → Option ℕ
time_of_day date h m = if ltb h 24 && ltb m 60 then some (date * 1440 + h * 60 + m) else none

time_of_day-some : (date h m : ℕ) → h < 24 → m < 60 → time_of_day date h m ≢ none
time_of_day-some date h m p q e = ground (arith, p, q, e)

-- A date is the number of days, a local time the number of minutes since the epoch.
abbrev thirty_days : Chrono (Unit {0}) ℕ ℕ
thirty_days = record {
  utc = tt;
  parse = λ name. some tt;
  date_at = λ tz at. some ((at - epoch) / 86400);
  plus_days = λ date n. date + n;
  minus_days = λ date n. date - n;
  weekday = λ date. (date + 3) % 7;
  year = λ date. epoch + 1970 + date / 360;
  month = λ date. date % 360 / 30 + 1;
  from_ymd_opt =
      λ y m d. if leb d 30 then some ((y - epoch - 1970) * 360 + (m - 1) * 30 + d - 1) else none;
  from_ymd = λ y m d. (y - epoch - 1970) * 360 + (m - 1) * 30 + d - 1;
  and_hms = λ date h m. date * 1440 + h * 60 + m;
  and_hms_opt = time_of_day;
  plus_minutes = λ local n. local + n;
  earliest = λ tz local. some (epoch + local * 60);
  and_utc = λ local. epoch + local * 60;
  and_hms_opt-some = time_of_day-some;
}

abbrev game : Rule
game = record { target = app_package (codes "com.game"); action = block; platforms = [] }

abbrev slow_game : Rule
slow_game = record {
  target = app_package (codes "com.game");
  action = budget 600 (daily 240);
  platforms = android ∷ [];
}

abbrev config : Config
config = record Config.default {
  profiles =
      record {
        id = codes "focus";
        name = codes "Focus";
        description = [];
        rules = slow_game ∷ game ∷ [];
      }
      ∷ [];
}

abbrev state : State
state = record {
  active_profiles = codes "focus" ∷ [];
  lock = unlocked;
  usage = [];
  launches = [];
  platform = android;
}

abbrev playing : Observation
playing = app (codes "Com.Game") none

decide-strictest_example : outcome (decide thirty_days ascii_only noon state playing config) ≡ (
    if is_idle playing
    then allowed
    else strictest thirty_days ascii_only noon
        (zone thirty_days ascii_only config)
        state
        playing
        (is_notification playing)
        (active_rules config state.active_profiles))
decide-strictest_example = decide-strictest thirty_days ascii_only noon state playing config

charged_keys_exact_example :
    AreDistinct (charged_keys ascii_only state playing config)
    × ((k : Text)
        → any (list_eq k) (charged_keys ascii_only state playing config)
          ≡ any (charges ascii_only state playing k) (active_rules config state.active_profiles))
charged_keys_exact_example = charged_keys_exact ascii_only state playing config

-- Ten in the evening to six in the morning, every day.
abbrev nights : WeeklySchedule
nights = record {
  id = codes "nights";
  profile = codes "sleep";
  days = [];
  start_minute = 1320;
  end_minute = 360;
  locks = [];
  enabled = true;
}

abbrev one_at_night : I64
one_at_night = epoch + 20000 * 86400 + 3600

abbrev open_window : Activation
open_window = activated nights (epoch + 19999 * 86400 + 79200) (epoch + 20000 * 86400 + 21600)

open_run : active_at thirty_days nights one_at_night tt ≡ some open_window
unfolding active_at active_on span_on runs_on local_instant instant_of local_date
open_run = refl

abbrev today_there : ℕ
today_there = 20000

today_run : local_date thirty_days one_at_night tt ≡ some today_there
unfolding local_date
today_run = refl

active_at_exact_example :
    ((a : Activation)
      → active_at thirty_days nights one_at_night tt ≡ some a
      → IsOpen thirty_days one_at_night a
        × ((date : ℕ) × In date (thirty_days.minus_days today_there 1 ∷ today_there ∷ [])
            × RunsOn thirty_days nights date
            × IsWindowOf thirty_days nights date tt a))
    × (active_at thirty_days nights one_at_night tt ≡ none
        → (date : ℕ) (a : Activation)
        → In date (thirty_days.minus_days today_there 1 ∷ today_there ∷ [])
        → RunsOn thirty_days nights date
        → IsWindowOf thirty_days nights date tt a
        → ¬ IsOpen thirty_days one_at_night a)
active_at_exact_example = active_at_exact thirty_days nights one_at_night tt today_there today_run

abbrev meeting : CalendarEvent
meeting = record {
  id = codes "e1";
  title = codes "Focus";
  calendar = codes "Work";
  location = [];
  start = noon;
  end = evening;
  all_day = false;
  busy = true;
  categories = [];
}

abbrev meetings : CalendarSchedule
meetings = record {
  id = codes "work";
  profile = codes "focus";
  matcher = record {
    title = none;
    calendar = some (codes "work");
    location = none;
    busy_only = true;
    all_day = none;
    categories = [];
    min_duration_seconds = none;
    max_duration_seconds = none;
  };
  pad_before_seconds = 300;
  pad_after_seconds = 60;
  locks = [];
  enabled = true;
}

meeting_accepted : matches ascii_only meetings.matcher meeting ≡ true
unfolding matches str_eq_ci as_bytes utf8_char eq_ignore_ascii_case eq_byte_ci ascii_lower
meeting_accepted = refl

abbrev half_hour : Consumption
half_hour = record { rollups = record { at = morning; seconds = 1800 } ∷ [] }

used_since_exact_example :
    (used_since half_hour (some morning)
      ≡ min (total (counted (some morning) half_hour.rollups)) u32_max)
    × (used_since (record_seconds half_hour noon 600) (some morning)
        ≡ min
            (total (counted (some morning) half_hour.rollups) + seconds_of (some morning) noon 600)
            u32_max)
used_since_exact_example = used_since_exact half_hour (some morning) noon 600
