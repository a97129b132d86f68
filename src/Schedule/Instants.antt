-- ===== src/Schedule/Instants.antt =====
-- crates/curfew-core/src/schedule.rs, `local_instant`: local times as instants.
use curfew.Prelude.{
  ◌+◌, ℕ, zero, suc, ◌*◌, ◌/◌, ◌%◌, ◌≡◌, ◌≤◌, ◌<◌, refl, min, Option, none, some, ◌==◌,
  if◌then◌else◌, arith, Option-cases, inl, inr,
}
use curfew.Prelude.I64.{I64}
use curfew.Chrono.{Chrono}

module _ {Tz Date Local : Type 0} (chrono : Chrono Tz Date Local) where
  unfoldable pub local_date : I64 → Tz → Option Date
  local_date now tz = chrono.date_at tz now

  -- The loop over the minutes `extra`, `extra + 1`, …, of which `left` are left.
  unfoldable pub step_forward : Tz → Local → ℕ → ℕ → I64
  step_forward tz naive zero extra = chrono.and_utc naive
  step_forward tz naive (suc left) extra =
      let rest = step_forward tz naive left (suc extra) in
      elim (chrono.earliest tz (chrono.plus_minutes naive extra)) [ some at ↦ at | none ↦ rest ]

  unfoldable pub instant_of : Tz → Local → I64
  instant_of tz naive = elim (chrono.earliest tz naive) [
    | some at ↦ at
    | none ↦ step_forward tz naive 180 1
  ]

  -- The 1440th minute is the next day's midnight.
  abbrev pub rolled : Date → ℕ → Date × ℕ
  rolled date minute = if minute == 24 * 60 then (chrono.plus_days date 1, 0) else (date, minute)

  abbrev at_time : Tz → Option Local → Option I64
  at_time tz none = none
  at_time tz (some naive) = some (instant_of tz naive)

  unfoldable pub local_instant : Date → ℕ → Tz → Option I64
  local_instant date minute tz =
      let (day, m) = rolled date (min minute (24 * 60)) in
      at_time tz (chrono.and_hms_opt day (m / 60) (m % 60))

  rolled_lt : (date : Date) (m : ℕ) → m ≤ 24 * 60 → (rolled date m).1 < 24 * 60
  rolled_lt date m h = ground (arith, h)

  placed :
      (tz : Tz) (day : Date) (m : ℕ)
      → m < 24 * 60
      → (at : I64) × (at_time tz (chrono.and_hms_opt day (m / 60) (m % 60)) ≡ some at)
  placed tz day m h = elim (Option-cases (chrono.and_hms_opt day (m / 60) (m % 60))) [
    | inl e ↦ absurd (chrono.and_hms_opt-some day (m / 60) (m % 60) (omega arith) (omega arith) e)
    | inr (naive, e) ↦ rw e (instant_of tz naive, refl)
  ]

  -- Every minute of every date has an instant, whatever the time zone skips, and any minute from 1440
  -- on is the next day's midnight.
  pub local_instant-total :
      (date : Date) (minute : ℕ) (tz : Tz)
      → ((at : I64) × (local_instant date minute tz ≡ some at))
        × (local_instant date (24 * 60 + minute) tz ≡ local_instant (chrono.plus_days date 1) 0 tz)
  unfolding local_instant
  local_instant-total date minute tz = (
    placed tz (rolled date (min minute (24 * 60))).0 (rolled date (min minute (24 * 60))).1
        (rolled_lt date (min minute (24 * 60)) (omega arith)),
    let m : min (24 * 60 + minute) (24 * 60) ≡ 24 * 60 = omega arith in rw m refl,
  )
