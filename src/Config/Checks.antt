-- ===== src/Config/Checks.antt =====
-- `validate` of crates/curfew-core/src/config.rs: each check, and fewer things to check.
use curfew.Prelude.{ℕ, ◌≡◌, refl, Bool, false, not, List, [], ◌∷◌, arith, is_none, ◌==◌}
use curfew.Prelude.Lists.{All}
use curfew.Prelude.Order.{list_ord, nat_ord, pair_ord, Ord}
use curfew.Prelude.Sublist.{IsSublist, nothing, keep, skip}
use curfew.Prelude.Text.{Text}
use curfew.Prelude.Set
use curfew.Prelude.Set.{BTreeSet, mem-insert}
use curfew.Prelude.Result.{
  ok, refuse_if, and_then, check_all, and_then-split, refuse_if-passed, split4,
}
use curfew.Schedule.Calendar.{CalendarSource}
use curfew.Config
use curfew.Config.{Config, Profile, Rule}
use curfew.Config.Validation.{
  Entry, validate, check_profiles, check_rule, check_schedules, check_sources, check_rolling,
  check_tokens, check_emergency, check_window, blank, entries, entry_key, refuse, empty_profile_id,
  unnamed_profile, duplicate_profile, empty_source_id, duplicate_source, no_location, zero_refresh,
  undefined_profile, empty_schedule_id, duplicate_schedule, unknown_timezone,
}

-- Fewer have been seen.
abbrev pub Fewer : {A : Type 0} ⦃o : Ord A⦄ → BTreeSet A → BTreeSet A → Type 0
Fewer {A = A} xs ys = (a : A) → Set.mem a ys ≡ false → Set.mem a xs ≡ false

module _ {A : Type 0} ⦃o : Ord A⦄ where
  pub Fewer-insert :
      (x : A) (xs ys : BTreeSet A) → Fewer xs ys → Fewer (Set.insert x xs) (Set.insert x ys)
  Fewer-insert x xs ys h a e = ground (arith, mem-insert a x xs, mem-insert a x ys, h a)

  pub Fewer-skip : (x : A) (xs ys : BTreeSet A) → Fewer xs ys → Fewer xs (Set.insert x ys)
  Fewer-skip x xs ys h a e = ground (arith, mem-insert a x ys, h a)

pub Fewer-refl : {A : Type 0} ⦃o : Ord A⦄ (xs : BTreeSet A) → Fewer xs xs
Fewer-refl xs a h = h

-- What one round of each loop asks for.
pub check_profiles-parts :
    (seen : BTreeSet Text) (x : Profile) (ys : List Profile)
    → check_profiles seen (x ∷ ys) ≡ ok tt
    → (blank x.id ≡ false)
      × (blank x.name ≡ false)
      × (Set.mem x.id seen ≡ false)
      × (check_all (check_rule x.id) x.rules ≡ ok tt)
      × (check_profiles (Set.insert x.id seen) ys ≡ ok tt)
unfolding check_profiles
check_profiles-parts seen x ys h =
    let rules = check_all (check_rule x.id) x.rules in
    let rest = check_profiles (Set.insert x.id seen) ys in
    let (a, b, c, d) =
      split4 (refuse (blank x.id) empty_profile_id) (refuse (blank x.name) (unnamed_profile x.id))
        (refuse (Set.mem x.id seen) (duplicate_profile x.id)) (and_then rules rest) h in
    let (e, f) = and_then-split rules rest d in
    (refuse_if-passed _ _ a, refuse_if-passed _ _ b, refuse_if-passed _ _ c, e, f)

pub check_profiles-IsSublist :
    (seen seen' : BTreeSet Text) {ps qs : List Profile}
    → IsSublist ps qs
    → Fewer seen' seen
    → check_profiles seen qs ≡ ok tt
    → check_profiles seen' ps ≡ ok tt
unfolding check_profiles
check_profiles-IsSublist seen seen' nothing f h = refl
check_profiles-IsSublist seen seen' (keep {x} {xs} {ys} r) f h =
    let (a, b, c, d, rest) = check_profiles-parts seen x ys h in
    rw (a, b, f x.id c, d)
      (check_profiles-IsSublist (Set.insert x.id seen) (Set.insert x.id seen') r
        (Fewer-insert x.id seen' seen f) rest)
check_profiles-IsSublist seen seen' (skip {x} {xs} {ys} r) f h =
    let (a, b, c, d, rest) = check_profiles-parts seen x ys h in
    check_profiles-IsSublist (Set.insert x.id seen) seen' r (Fewer-skip x.id seen' seen f) rest

pub check_sources-parts :
    (seen : BTreeSet Text) (x : CalendarSource) (ys : List CalendarSource)
    → check_sources seen (x ∷ ys) ≡ ok tt
    → (blank x.id ≡ false)
      × (Set.mem x.id seen ≡ false)
      × (blank x.location ≡ false)
      × ((x.refresh_seconds == 0) ≡ false)
      × (check_sources (Set.insert x.id seen) ys ≡ ok tt)
unfolding check_sources
check_sources-parts seen x ys h =
    let refresh = refuse (x.refresh_seconds == 0) (zero_refresh x.id) in
    let rest = check_sources (Set.insert x.id seen) ys in
    let (a, b, c, d) =
      split4 (refuse (blank x.id) empty_source_id)
        (refuse (Set.mem x.id seen) (duplicate_source x.id))
        (refuse (blank x.location) (no_location x.id)) (and_then refresh rest) h in
    let (e, f) = and_then-split refresh rest d in
    (
      refuse_if-passed _ _ a,
      refuse_if-passed _ _ b,
      refuse_if-passed _ _ c,
      refuse_if-passed _ _ e,
      f,
    )

pub check_sources-IsSublist :
    (seen seen' : BTreeSet Text) {ps qs : List CalendarSource}
    → IsSublist ps qs
    → Fewer seen' seen
    → check_sources seen qs ≡ ok tt
    → check_sources seen' ps ≡ ok tt
unfolding check_sources
check_sources-IsSublist seen seen' nothing f h = refl
check_sources-IsSublist seen seen' (keep {x} {xs} {ys} r) f h =
    let (a, b, c, d, rest) = check_sources-parts seen x ys h in
    rw (a, f x.id b, c, d)
      (check_sources-IsSublist (Set.insert x.id seen) (Set.insert x.id seen') r
        (Fewer-insert x.id seen' seen f) rest)
check_sources-IsSublist seen seen' (skip {x} {xs} {ys} r) f h =
    let (a, b, c, d, rest) = check_sources-parts seen x ys h in
    check_sources-IsSublist (Set.insert x.id seen) seen' r (Fewer-skip x.id seen' seen f) rest

pub check_schedules-parts :
    (c : Config) (seen : BTreeSet (ℕ × Text)) (x : Entry) (ys : List Entry)
    → check_schedules c seen (x ∷ ys) ≡ ok tt
    → (is_none (Config.profile c x.profile) ≡ false)
      × (blank x.id ≡ false)
      × (Set.mem (entry_key x) seen ≡ false)
      × (check_schedules c (Set.insert (entry_key x) seen) ys ≡ ok tt)
unfolding check_schedules
check_schedules-parts c seen x ys h =
    let (a, b, d, rest) =
      split4
        (refuse (is_none (Config.profile c x.profile)) (undefined_profile x.kind x.id x.profile))
        (refuse (blank x.id) (empty_schedule_id x.kind))
        (refuse (Set.mem (entry_key x) seen) (duplicate_schedule x.kind x.id))
        (check_schedules c (Set.insert (entry_key x) seen) ys) h in
    (refuse_if-passed _ _ a, refuse_if-passed _ _ b, refuse_if-passed _ _ d, rest)

-- A profile that one document defines, the other does.
abbrev pub StillDefined : Config → Config → Entry → Type 0
StillDefined c c' e =
    is_none (Config.profile c e.profile) ≡ false → is_none (Config.profile c' e.profile) ≡ false

pub check_schedules-IsSublist :
    (c c' : Config) (seen seen' : BTreeSet (ℕ × Text)) {ps qs : List Entry}
    → IsSublist ps qs
    → All (StillDefined c c') ps
    → Fewer seen' seen
    → check_schedules c seen qs ≡ ok tt
    → check_schedules c' seen' ps ≡ ok tt
unfolding check_schedules
check_schedules-IsSublist c c' seen seen' nothing d f h = refl
check_schedules-IsSublist c c' seen seen' (keep {x} {xs} {ys} r) d f h =
    let (a, b, e, rest) = check_schedules-parts c seen x ys h in
    rw (d.0 a, b, f (entry_key x) e)
      (check_schedules-IsSublist c c' (Set.insert (entry_key x) seen)
        (Set.insert (entry_key x) seen') r d.1 (Fewer-insert (entry_key x) seen' seen f) rest)
check_schedules-IsSublist c c' seen seen' (skip {x} {xs} {ys} r) d f h =
    let (a, b, e, rest) = check_schedules-parts c seen x ys h in
    check_schedules-IsSublist c c' (Set.insert (entry_key x) seen) seen' r d
      (Fewer-skip (entry_key x) seen' seen f) rest

module _ (is_zone : Text → Bool) where
  -- What `validate` asks for, part by part.
  abbrev pub Parts : Config → Type 0
  Parts c =
      (refuse_if (not (is_zone c.timezone)) (unknown_timezone c.timezone) ≡ ok tt)
      × (check_profiles [] c.profiles ≡ ok tt)
      × (check_tokens [] c.tokens ≡ ok tt)
      × (check_schedules c [] (entries c) ≡ ok tt)
      × (check_sources [] c.calendar_sources ≡ ok tt)
      × (check_emergency c.emergency ≡ ok tt)
      × (check_all check_rolling c.profiles ≡ ok tt)
      × (check_all check_window c.weekly ≡ ok tt)

  pub validate-Parts : (c : Config) → validate is_zone c ≡ ok tt → Parts c
  unfolding validate
  validate-Parts c h =
      let windows = check_all check_window c.weekly in
      let rolling = check_all check_rolling c.profiles in
      let sources = check_sources [] c.calendar_sources in
      let tail =
        and_then sources (and_then (check_emergency c.emergency) (and_then rolling windows)) in
      let schedules = check_schedules c [] (entries c) in
      let (a, b, d, rest) =
        split4 (refuse_if (not (is_zone c.timezone)) (unknown_timezone c.timezone))
          (check_profiles [] c.profiles) (check_tokens [] c.tokens) (and_then schedules tail) h in
      let (e, rest') = and_then-split schedules tail rest in
      let (f, g, i, j) = split4 sources (check_emergency c.emergency) rolling windows rest' in
      (a, b, d, e, f, g, i, j)

  pub validate-join : (c : Config) → Parts c → validate is_zone c ≡ ok tt
  unfolding validate
  validate-join c p = rw (p.0, p.1, p.2, p.3, p.4, p.5, p.6) p.7
