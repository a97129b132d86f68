-- ===== src/Budget.antt =====
-- crates/curfew-core/src/budget.rs: what was used, how often something was opened, and since when it
-- counts.
pub mod Sums
use curfew.Prelude.{
  ℕ, zero, suc, ◌+◌, ◌-◌, ◌*◌, ◌/◌, ◌%◌, ◌^◌, min, max, Bool, Option, none, some, List, [], ◌∷◌,
  ◌++◌, is_none_or, leb, ◌==◌, if◌then◌else◌,
}
use curfew.Prelude.Lists.{filter, length}
use curfew.Prelude.I64.{I64, epoch, minus, u32_max}
use curfew.Chrono.{Chrono}
use curfew.Schedule.Instants

pub data Refill : Type 0 where
  never : Refill
  rolling : ℕ → Refill
  daily : ℕ → Refill
  weekly : ℕ → ℕ → Refill
  monthly : ℕ → ℕ → Refill

abbrev pub default_refill : Refill
default_refill = daily (4 * 60)

module _ {Tz Date Local : Type 0} (chrono : Chrono Tz Date Local) where
  abbrev or_date : Option Date → Date
  or_date none = chrono.from_ymd (epoch + 1970) 1 1
  or_date (some date) = date

  unfoldable pub local_date : I64 → Tz → Date
  local_date now tz = or_date (chrono.date_at tz now)

  -- The loop over `(1..=day).rev()`.
  unfoldable pub latest_day : I64 → ℕ → ℕ → Date
  latest_day year month zero = chrono.from_ymd year month 1
  latest_day year month (suc d) =
      let rest = latest_day year month d in
      elim (chrono.from_ymd_opt year month (suc d)) [ some date ↦ date | none ↦ rest ]

  unfoldable pub clamp_day : I64 → ℕ → ℕ → Date
  clamp_day year month day = latest_day year month (min (max day 1) 31)

  abbrev or_utc : Date → ℕ → Option I64 → I64
  or_utc date at_minute (some at) = at
  or_utc date at_minute none =
      let m = min at_minute (24 * 60 - 1) in chrono.and_utc (chrono.and_hms date (m / 60) (m % 60))

  unfoldable pub local_instant : Date → ℕ → Tz → I64
  local_instant date at_minute tz =
      or_utc date at_minute (Instants.local_instant chrono date at_minute tz)

  -- `rounds` of the loop, and the instant after it.
  unfoldable pub walk_back : ℕ → Date → ℕ → Tz → I64 → (Date → Date) → I64
  walk_back zero date at_minute tz now prev = local_instant date at_minute tz
  walk_back (suc rounds) date at_minute tz now prev =
      let at = local_instant date at_minute tz in
      let rest = walk_back rounds (prev date) at_minute tz now prev in
      if leb at now then at else rest

  abbrev month_before : ℕ → Date → Date
  month_before day d =
      if chrono.month d == 1
      then clamp_day (chrono.year d - 1) 12 day
      else clamp_day (chrono.year d) (chrono.month d - 1) day

  unfoldable pub window_start : Refill → I64 → Tz → Option I64
  window_start never now tz = none
  window_start (rolling seconds) now tz = some (minus now seconds)
  window_start (daily at_minute) now tz =
      some (walk_back 3 (local_date now tz) at_minute tz now (λ d. chrono.minus_days d 1))
  window_start (weekly weekday at_minute) now tz =
      let today = local_date now tz in
      let back = (chrono.weekday today + 7 - min weekday 6) % 7 in
      some
        (walk_back 3 (chrono.minus_days today back) at_minute tz now (λ d. chrono.minus_days d 7))
  window_start (monthly day at_minute) now tz =
      let today = local_date now tz in
      some (
        walk_back 3 (clamp_day (chrono.year today) (chrono.month today) day) at_minute tz now
          (month_before day))

pub record Rollup : Type 0 where
  pub at : I64
  pub seconds : ℕ

pub record Consumption : Type 0 where
  pub rollups : List Rollup

abbrev pub counts : Option I64 → I64 → Bool
counts from at = is_none_or from (λ f. leb f at)

-- `fold(acc, saturating_add)`
unfoldable pub saturating_sum : ℕ → List Rollup → ℕ
saturating_sum acc [] = acc
saturating_sum acc (r ∷ rs) = saturating_sum (min (acc + r.seconds) u32_max) rs

unfoldable pub used_since : Consumption → Option I64 → ℕ
used_since c from = saturating_sum 0 (filter (λ r. counts from r.at) c.rollups)

unfoldable pub record_seconds : Consumption → I64 → ℕ → Consumption
record_seconds c at seconds = record {
  rollups = c.rollups ++ record { at = at; seconds = seconds } ∷ [];
}

unfoldable pub prune_rollups : Consumption → I64 → Consumption
prune_rollups c before = record { rollups = filter (λ r. leb before r.at) c.rollups }

pub record Launches : Type 0 where
  pub at : List I64

unfoldable pub record_launch : Launches → I64 → Launches
record_launch l at = record { at = l.at ++ at ∷ [] }

-- `count() as u32`
unfoldable pub count_since : Launches → Option I64 → ℕ
count_since l from = length (filter (λ t. counts from t) l.at) % (2 ^ 32)

unfoldable pub prune_launches : Launches → I64 → Launches
prune_launches l before = record { at = filter (λ t. leb before t) l.at }
