-- ===== src/Schedule/Opening.antt =====
-- The activations of weekly schedules in crates/curfew-core/src/schedule.rs.
use curfew.Prelude.{
  ◌≡◌, ◌≤◌, ◌<◌, refl, sym, ap, subst, ◌∙◌, true, false, ◌&&◌, ◌==◌, ℕ, none, some, List, [], ◌∷◌,
  leb, ltb, arith, Bool-cases, inl, inr, ◌⊎◌,
}
use curfew.Prelude.Lists.{any, In}
use curfew.Prelude.I64.{I64}
use curfew.Chrono.{Chrono}
use curfew.Schedule.{Activation, weekly}
use curfew.Schedule.Instants.{local_date, local_instant, local_instant-total}
use curfew.Schedule.Weekly.{
  WeeklySchedule, runs_on, span_on, end_date, activated, active_on, active_at, is_nil,
}

any-In : (n : ℕ) (xs : List ℕ) → In n xs → any (λ d. d == n) xs ≡ true
any-In n [] i = absurd i
any-In n (x ∷ xs) (inl e) = ground (arith, e)
any-In n (x ∷ xs) (inr i) = ground (arith, any-In n xs i)

In-any : (n : ℕ) (xs : List ℕ) → any (λ d. d == n) xs ≡ true → In n xs
In-any n [] h = absurd (cc h)
In-any n (x ∷ xs) h = elim (Bool-cases (x == n)) [
  | inl e ↦ inl (ground (arith, e))
  | inr e ↦ inr (In-any n xs (ground (arith, h, e)))
]

nil_of : (xs : List ℕ) → is_nil xs ≡ true → xs ≡ []
nil_of [] h = refl
nil_of (x ∷ xs) h = absurd (cc h)

module _ {Tz Date Local : Type 0} (chrono : Chrono Tz Date Local) where
  -- The schedule is not paused, and it names no day of the week or that of the date.
  abbrev pub RunsOn : WeeklySchedule → Date → Type 0
  RunsOn w date = (w.enabled ≡ true) × ((w.days ≡ []) ⊎ In (chrono.weekday date) w.days)

  -- The activation is the schedule's window of that date: from the minute of its start to that of its
  -- end, on the next date where the end is not after the start, under its profile, id and locks.
  abbrev pub IsWindowOf : WeeklySchedule → Date → Tz → Activation → Type 0
  IsWindowOf w date tz a =
      (a.profile ≡ w.profile)
      × (a.source ≡ weekly w.id)
      × (a.locks ≡ w.locks)
      × (local_instant chrono date w.start_minute tz ≡ some a.start)
      × ((w.start_minute < w.end_minute) × (local_instant chrono date w.end_minute tz ≡ some a.end)
          ⊎ (w.end_minute ≤ w.start_minute)
            × (local_instant chrono (chrono.plus_days date 1) w.end_minute tz ≡ some a.end))

  runs_on-RunsOn : (w : WeeklySchedule) (date : Date) → runs_on chrono w date ≡ true → RunsOn w date
  unfolding runs_on
  runs_on-RunsOn w date h = (
    ground (arith, h),
    elim (Bool-cases (is_nil w.days)) [
      | inl e ↦ inl (nil_of w.days e)
      | inr e ↦ inr (In-any (chrono.weekday date) w.days (ground (arith, h, e)))
    ],
  )

  RunsOn-runs_on : (w : WeeklySchedule) (date : Date) → RunsOn w date → runs_on chrono w date ≡ true
  unfolding runs_on
  RunsOn-runs_on w date (e, inl f) = rw (e, f)
  RunsOn-runs_on w date (e, inr i) = ground (arith, e, any-In (chrono.weekday date) w.days i)

  span_on-parts :
      (w : WeeklySchedule) (date : Date) (tz : Tz) (start end : I64)
      → local_instant chrono date w.start_minute tz ≡ some start
      → local_instant chrono (end_date chrono w date) w.end_minute tz ≡ some end
      → span_on chrono w date tz ≡ some (start, end)
  unfolding span_on
  span_on-parts w date tz start end e f = rw (span_on, e, f)

  closes :
      (w : WeeklySchedule) (date : Date) (tz : Tz) (end : I64)
      → local_instant chrono (end_date chrono w date) w.end_minute tz ≡ some end
      → (w.start_minute < w.end_minute) × (local_instant chrono date w.end_minute tz ≡ some end)
        ⊎ (w.end_minute ≤ w.start_minute)
          × (local_instant chrono (chrono.plus_days date 1) w.end_minute tz ≡ some end)
  closes w date tz end f = elim (Bool-cases (leb w.end_minute w.start_minute)) [
    | inl h ↦ inr (ground (arith, h), rw h at f)
    | inr h ↦ inl (ground (arith, h), rw h at f)
  ]

  -- The span of a date, which it has on every one.
  span_on-IsWindowOf :
      (w : WeeklySchedule) (date : Date) (tz : Tz)
      → (start : I64) × (end : I64) × (span_on chrono w date tz ≡ some (start, end))
        × IsWindowOf w date tz (activated w start end)
  span_on-IsWindowOf w date tz =
      let (start, e) = (local_instant-total chrono date w.start_minute tz).0 in
      let (end, f) = (local_instant-total chrono (end_date chrono w date) w.end_minute tz).0 in
      (
        start,
        end,
        span_on-parts w date tz start end e f,
        (refl, refl, refl, e, closes w date tz end f),
      )

  IsWindowOf-span_on :
      (w : WeeklySchedule) (date : Date) (tz : Tz) (a : Activation)
      → IsWindowOf w date tz a
      → span_on chrono w date tz ≡ some (a.start, a.end)
  IsWindowOf-span_on w date tz a (p, s, l, e, inl (h, f)) =
      let later : leb w.end_minute w.start_minute ≡ false = ground (arith, h) in
      span_on-parts w date tz a.start a.end e (rw later f)
  IsWindowOf-span_on w date tz a (p, s, l, e, inr (h, f)) =
      let next : leb w.end_minute w.start_minute ≡ true = ground (arith, h) in
      span_on-parts w date tz a.start a.end e (rw next f)

  abbrev pub IsOpen : I64 → Activation → Type 0
  IsOpen now a = (a.start ≤ now) × (now < a.end)

  active_on-found :
      (w : WeeklySchedule) (now : I64) (tz : Tz) (dates : List Date) (a : Activation)
      → active_on chrono w now tz dates ≡ some a
      → IsOpen now a × ((date : Date) × In date dates × RunsOn w date × IsWindowOf w date tz a)
  unfolding active_on
  active_on-found w now tz [] a h = absurd (cc h)
  active_on-found w now tz (date ∷ rest) a h =
      let (start, end, e, window) = span_on-IsWindowOf w date tz in
      elim (Bool-cases (runs_on chrono w date && (leb start now && ltb now end))) [
        | inl c ↦
            let same : activated w start end ≡ a = cc (rw (e, c, active_on) at h) in
            subst
              (λ z.
                IsOpen now z × ((d : Date) × In d (date ∷ rest) × RunsOn w d × IsWindowOf w d tz z))
              same
              (
                (ground (arith, c), ground (arith, c)),
                (date, inl refl, runs_on-RunsOn w date (ground (arith, c)), window),
              )
        | inr c ↦
            let (here, (d, i, runs, found)) =
              active_on-found w now tz rest a (rw (e, c, active_on) at h) in
            (here, (d, inr i, runs, found))
      ]

  active_on-missed :
      (w : WeeklySchedule) (now : I64) (tz : Tz) (dates : List Date)
      → active_on chrono w now tz dates ≡ none
      → (date : Date) (a : Activation) → In date dates
      → RunsOn w date
      → IsWindowOf w date tz a
      → ¬ IsOpen now a
  unfolding active_on
  active_on-missed w now tz [] h date a i runs window here = absurd i
  active_on-missed w now tz (d ∷ rest) h date a i runs window here =
      let (start, end, e, of_d) = span_on-IsWindowOf w d tz in
      elim (Bool-cases (runs_on chrono w d && (leb start now && ltb now end))) [
        | inl c ↦ absurd (cc (rw (e, c, active_on) at h))
        | inr c ↦ elim i [
          | inr j ↦
              active_on-missed w now tz rest (rw (e, c, active_on) at h) date a j runs window here
          | inl same ↦
              let span = IsWindowOf-span_on w date tz a window in
              let span' : span_on chrono w d tz ≡ some (a.start, a.end) =
                ap (λ z. span_on chrono w z tz) (sym same) ∙ span in
              let runs' : runs_on chrono w d ≡ true =
                ap (runs_on chrono w) (sym same) ∙ RunsOn-runs_on w date runs in
              let starts : start ≡ a.start = cc (e, span') in
              let ends : end ≡ a.end = cc (e, span') in
              absurd (ground (arith, c, runs', starts, ends, here.0, here.1))
        ]
      ]

  -- What a weekly schedule is found to ask for at `now`, whose local date is `today`, is a window of
  -- its own that contains `now`, of today or of the day before, on which the schedule runs; and where
  -- it is found to ask for nothing, no window of those two days on which it runs contains `now`.
  pub active_at_exact :
      (w : WeeklySchedule) (now : I64) (tz : Tz) (today : Date)
      → local_date chrono now tz ≡ some today
      → ((a : Activation)
          → active_at chrono w now tz ≡ some a
          → IsOpen now a
            × ((date : Date) × In date (chrono.minus_days today 1 ∷ today ∷ [])
                × RunsOn w date
                × IsWindowOf w date tz a))
        × (active_at chrono w now tz ≡ none
            → (date : Date) (a : Activation) → In date (chrono.minus_days today 1 ∷ today ∷ [])
            → RunsOn w date
            → IsWindowOf w date tz a
            → ¬ IsOpen now a)
  unfolding active_at
  active_at_exact w now tz today e =
      let dates = chrono.minus_days today 1 ∷ today ∷ [] in
      (
        λ a h. active_on-found w now tz dates a (rw (e, active_at) at h),
        λ h. active_on-missed w now tz dates (rw (e, active_at) at h),
      )
