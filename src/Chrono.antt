-- ===== src/Chrono.antt =====
-- What the core uses of the crates chrono and chrono-tz, as an interface: time zones, dates of the
-- civil calendar and local times. An instant is an `i64` of seconds.
use curfew.Prelude.{ℕ, ◌<◌, ◌≢◌, Option, none}
use curfew.Prelude.Text.{Text}
use curfew.Prelude.I64.{I64}

pub record Chrono (Tz Date Local : Type 0) : Type 0 where
  -- `Tz::UTC` and `str::parse::<Tz>`
  pub utc : Tz
  pub parse : Text → Option Tz
  -- `tz.timestamp_opt(at, 0).earliest().map(|d| d.date_naive())`
  pub date_at : Tz → I64 → Option Date
  -- `date + Duration::days(n)` and `date - Duration::days(n)`
  pub plus_days : Date → ℕ → Date
  pub minus_days : Date → ℕ → Date
  -- `weekday().num_days_from_monday()`
  pub weekday : Date → ℕ
  pub year : Date → I64
  pub month : Date → ℕ
  pub from_ymd_opt : I64 → ℕ → ℕ → Option Date
  -- `from_ymd_opt` and `and_hms_opt` where the code expects a date and a time
  pub from_ymd : I64 → ℕ → ℕ → Date
  pub and_hms : Date → ℕ → ℕ → Local
  pub and_hms_opt : Date → ℕ → ℕ → Option Local
  -- `local + Duration::minutes(n)`
  pub plus_minutes : Local → ℕ → Local
  -- `tz.from_local_datetime(&local).earliest().map(|d| d.timestamp())`
  pub earliest : Tz → Local → Option I64
  -- `local.and_utc().timestamp()`
  pub and_utc : Local → I64
  -- An hour below 24 and a minute below 60 are a time of any day.
  pub and_hms_opt-some : (date : Date) (h m : ℕ) → h < 24 → m < 60 → and_hms_opt date h m ≢ none
