-- ===== src/Config/Guards.antt =====
-- `validate` of crates/curfew-core/src/config.rs: what a document that passes is.
use curfew.Prelude.{
  ℕ, ◌<◌, ◌≢◌, ltb, leb, ◌≡◌, ap, ◌∙◌, Bool, true, false, ◌&&◌, ◌||◌, List, [], ◌∷◌, inl, inr,
  Bool-cases, arith, is_none, ◌==◌,
}
use curfew.Prelude.Lists.{any, All}
use curfew.Prelude.Order.{list_ord, nat_ord, pair_ord, list_eq, list_eq→eq, list_eq_refl}
use curfew.Prelude.Text.{Text}
use curfew.Prelude.Set
use curfew.Prelude.Set.{BTreeSet, mem-insert}
use curfew.Prelude.Result.{ok, and_then, check_all, and_then-split, refuse_if-passed}
use curfew.Schedule.Weekly.{WeeklySchedule}
use curfew.Config
use curfew.Config.{Config, Profile, Rule}
use curfew.Config.Validation.{
  Checked, Entry, validate, check_profiles, check_rule, check_schedules, check_window, blank,
  entries, entry_key, refuse, is_zero_budget, is_zero_launch_limit, zero_budget, zero_launch_limit,
  outside_the_day, same_minute, no_such_day, zero_window, zero_cooldown,
}
use curfew.Config.Checks.{check_profiles-parts, check_schedules-parts, validate-Parts}

-- What a loop over `check_all` lets through.
check_all-All :
    {A : Type 0} (check : A → Checked) (P : A → Type 0) (xs : List A)
    → ((x : A) → check x ≡ ok tt → P x)
    → check_all check xs ≡ ok tt
    → All P xs
unfolding check_all
check_all-All check P [] f h = tt
check_all-All check P (x ∷ xs) f h =
    let (a, rest) = and_then-split (check x) (check_all check xs) h in
    (f x a, check_all-All check P xs f rest)

-- Ids that are new to those seen, and to each other.
abbrev pub AreDistinctIds : List Profile → Type 0
AreDistinctIds [] = Unit
AreDistinctIds (p ∷ ps) = All (λ q. list_eq q.id p.id ≡ false) ps × AreDistinctIds ps

unseen :
    (seen : BTreeSet Text) (id : Text) (ps : List Profile)
    → Set.mem id seen ≡ true
    → check_profiles seen ps ≡ ok tt
    → All (λ q. list_eq q.id id ≡ false) ps
unseen seen id [] m h = tt
unseen seen id (q ∷ qs) m h =
    let (a, b, new, d, rest) = check_profiles-parts seen q qs h in
    (
      elim (Bool-cases (list_eq q.id id)) [
        | inl e ↦ absurd (cc (new, m, ap (λ z. Set.mem z seen) (list_eq→eq q.id id e)))
        | inr e ↦ e
      ],
      unseen (Set.insert q.id seen) id qs (mem-insert id q.id seen ∙ ground (arith, m)) rest,
    )

distinct :
    (seen : BTreeSet Text) (ps : List Profile) → check_profiles seen ps ≡ ok tt → AreDistinctIds ps
distinct seen [] h = tt
distinct seen (p ∷ ps) h =
    let (a, b, new, d, rest) = check_profiles-parts seen p ps h in
    (
      unseen (Set.insert p.id seen) p.id ps
          (mem-insert p.id p.id seen ∙ ground (arith, list_eq_refl p.id)) rest,
      distinct (Set.insert p.id seen) ps rest,
    )

-- A rule whose allowance is something and can be used up.
abbrev pub IsRation : Rule → Type 0
IsRation r = (is_zero_budget r.action ≡ false) × (is_zero_launch_limit r.action ≡ false)

abbrev pub IsNamed : Profile → Type 0
IsNamed p = (blank p.id ≡ false) × (blank p.name ≡ false) × All IsRation p.rules

named : (seen : BTreeSet Text) (ps : List Profile) → check_profiles seen ps ≡ ok tt → All IsNamed ps
named seen [] h = tt
named seen (p ∷ ps) h =
    let (a, b, new, d, rest) = check_profiles-parts seen p ps h in
    (
      (
        a,
        b,
        check_all-All (check_rule p.id) IsRation p.rules
            (λ r e.
              let (x, y) =
                and_then-split (refuse (is_zero_budget r.action) (zero_budget p.id))
                  (refuse (is_zero_launch_limit r.action) (zero_launch_limit p.id)) e in
              (refuse_if-passed _ _ x, refuse_if-passed _ _ y))
            d,
      ),
      named (Set.insert p.id seen) ps rest,
    )

defined :
    (c : Config) (seen : BTreeSet (ℕ × Text)) (es : List Entry)
    → check_schedules c seen es ≡ ok tt
    → All (λ e. is_none (Config.profile c e.profile) ≡ false) es
defined c seen [] h = tt
defined c seen (e ∷ es) h =
    let (a, b, d, rest) = check_schedules-parts c seen e es h in
    (a, defined c (Set.insert (entry_key e) seen) es rest)

-- A window that lies in the day, is not empty, and runs on days of the week.
abbrev pub IsWindow : WeeklySchedule → Type 0
IsWindow w =
    (w.start_minute < 1440)
    × (w.end_minute < 1440)
    × (w.start_minute ≢ w.end_minute)
    × (any (λ d. ltb 6 d) w.days ≡ false)

window : (w : WeeklySchedule) → check_window w ≡ ok tt → IsWindow w
window w h =
    let outside =
      refuse (leb 1440 w.start_minute || leb 1440 w.end_minute) (outside_the_day w.id) in
    let same = refuse (w.start_minute == w.end_minute) (same_minute w.id) in
    let day = refuse (any (λ d. ltb 6 d) w.days) (no_such_day w.id) in
    let (a, rest) = and_then-split outside (and_then same day) h in
    let (b, d) = and_then-split same day rest in
    let inside = refuse_if-passed _ _ a in
    let differ = refuse_if-passed _ _ b in
    (
      ground (arith, inside),
      ground (arith, inside),
      λ e. ground (arith, differ, e),
      refuse_if-passed _ _ d,
    )

module _ (is_zone : Text → Bool) where
  -- What a document that passes is: no two profiles share an id, each has an id, a name and only
  -- budgets and launch limits above zero, every schedule names a profile that is defined, every weekly
  -- window starts and ends at two different minutes of the day on days of the week, and a pass is
  -- rationed by a window, and by a cooldown where there are passes, that are not zero.
  pub validate-guards :
      (c : Config)
      → validate is_zone c ≡ ok tt
      → AreDistinctIds c.profiles
        × All IsNamed c.profiles
        × All (λ e. is_none (Config.profile c e.profile) ≡ false) (entries c)
        × All IsWindow c.weekly
        × (0 < c.emergency.window_seconds)
        × (0 < c.emergency.passes → 0 < c.emergency.cooldown_seconds)
  validate-guards c h =
      let q = validate-Parts is_zone c h in
      let emergency = c.emergency in
      let (x, y) =
        and_then-split (refuse (emergency.window_seconds == 0) zero_window)
          (refuse (ltb 0 emergency.passes && (emergency.cooldown_seconds == 0)) zero_cooldown)
          q.5 in
      let some_window = refuse_if-passed _ _ x in
      let some_cooldown = refuse_if-passed _ _ y in
      (
        distinct [] c.profiles q.1,
        named [] c.profiles q.1,
        defined c [] (entries c) q.3,
        check_all-All check_window IsWindow c.weekly window q.7,
        ground (arith, some_window),
        λ p. ground (arith, some_cooldown, p),
      )
