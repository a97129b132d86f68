-- ===== src/Schedule/Weekly.antt =====
-- crates/curfew-core/src/schedule.rs, `WeeklySchedule`: recurring windows in local time.
use curfew.Prelude.{
  ℕ, Bool, true, false, ◌&&◌, ◌||◌, Option, none, some, List, [], ◌∷◌, leb, ltb, ◌==◌,
  if◌then◌else◌,
}
use curfew.Prelude.Lists.{any}
use curfew.Prelude.Text.{Text}
use curfew.Prelude.I64.{I64}
use curfew.Chrono.{Chrono}
use curfew.Lock.{Lock}
use curfew.Schedule.{Activation, weekly}
use curfew.Schedule.Instants.{local_date, local_instant}

pub record WeeklySchedule : Type 0 where
  pub id : Text
  pub profile : Text
  pub days : List ℕ
  pub start_minute : ℕ
  pub end_minute : ℕ
  pub locks : List Lock
  pub enabled : Bool

abbrev pub is_nil {ℓ} : {A : Type ℓ} → List A → Bool
is_nil [] = true
is_nil (x ∷ xs) = false

abbrev pub activated : WeeklySchedule → I64 → I64 → Activation
activated w start end = record {
  profile = w.profile;
  source = weekly w.id;
  start = start;
  end = end;
  locks = w.locks;
}

module _ {Tz Date Local : Type 0} (chrono : Chrono Tz Date Local) where
  unfoldable pub runs_on : WeeklySchedule → Date → Bool
  runs_on w date = w.enabled && (is_nil w.days || any (λ d. d == chrono.weekday date) w.days)

  abbrev pub end_date : WeeklySchedule → Date → Date
  end_date w date = if leb w.end_minute w.start_minute then chrono.plus_days date 1 else date

  unfoldable pub span_on : WeeklySchedule → Date → Tz → Option (I64 × I64)
  span_on w date tz = elim (local_instant chrono date w.start_minute tz) [
    | none ↦ none
    | some start ↦ elim (local_instant chrono (end_date w date) w.end_minute tz) [
      | none ↦ none
      | some end ↦ some (start, end)
    ]
  ]

  -- The loop over the candidate days: a day without a span ends it.
  unfoldable pub active_on : WeeklySchedule → I64 → Tz → List Date → Option Activation
  active_on w now tz [] = none
  active_on w now tz (date ∷ rest) =
      let later = active_on w now tz rest in
      elim (span_on w date tz) [
        | none ↦ none
        | some (start, end) ↦
            if runs_on w date && (leb start now && ltb now end)
            then some (activated w start end)
            else later
      ]

  unfoldable pub active_at : WeeklySchedule → I64 → Tz → Option Activation
  active_at w now tz = elim (local_date chrono now tz) [
    | none ↦ none
    | some today ↦ active_on w now tz (chrono.minus_days today 1 ∷ today ∷ [])
  ]
