-- ===== src/Config/Removal.antt =====
-- The removals of crates/curfew-core/src/config.rs, after which nothing is validated.
use curfew.Prelude.{
  ◌≡◌, refl, sym, ap, ◌∙◌, subst, Bool, true, false, not, some, List, [], ◌∷◌, ◌++◌, map, inl, inr,
  Bool-cases, Option-cases, is_none,
}
use curfew.Prelude.Lists.{All, All-append, All-map, filter, find, modify_first, sort_by, insert_by}
use curfew.Prelude.Order.{list_ord, nat_ord, pair_ord, list_eq, list_eq→eq, list_eq_refl, list_lt}
use curfew.Prelude.Sublist.{filter-IsSublist, map-IsSublist, append-IsSublist, IsSublist-refl}
use curfew.Prelude.Text.{Text}
use curfew.Prelude.Unicode.{Unicode}
use curfew.Prelude.Set
use curfew.Prelude.Set.{BTreeSet, mem-insert}
use curfew.Prelude.Result.{ok, check_all, and_then-split, check_all-filter}
use curfew.Schedule.Weekly.{is_nil}
use curfew.Target.{Target}
use curfew.Config
use curfew.Config.{Config, Profile, Rule}
use curfew.Config.Validation.{
  Checked, Entry, validate, check_profiles, check_rule, check_rolling, check_window, entries,
  of_weekly, of_calendar, refuse, never_spent, zero_rolling,
}
use curfew.Config.Edits.{
  has_id, points_at, used_by, remove_rule, remove_profile, remove_weekly, remove_calendar,
  remove_source,
}
use curfew.Config.Checks.{
  Fewer-refl, check_profiles-parts, check_profiles-IsSublist, check_sources-IsSublist, StillDefined,
  check_schedules-IsSublist, validate-Parts, validate-join,
}

-- The first profile of an id, with some of its rules.
abbrev with_rules : Text → List Rule → List Profile → List Profile
with_rules id kept ps = modify_first (has_id id) (λ q. record q { rules = kept }) ps

check_profiles-with_rules :
    (seen : BTreeSet Text) (id : Text) (ps : List Profile) (p : Profile) (keeps : Rule → Bool)
    → find (has_id id) ps ≡ some p
    → check_profiles seen ps ≡ ok tt
    → check_profiles seen (with_rules id (filter keeps p.rules) ps) ≡ ok tt
unfolding check_profiles
check_profiles-with_rules seen id [] p keeps e h = absurd (cc e)
check_profiles-with_rules seen id (q ∷ qs) p keeps e h =
    let (a, b, c, d, rest) = check_profiles-parts seen q qs h in
    elim (Bool-cases (has_id id q)) [
      | inl k ↦
          let same : q ≡ p = cc (rw k at e) in
          let fewer : check_all (check_rule q.id) (filter keeps p.rules) ≡ ok tt =
            subst (λ z. check_all (check_rule q.id) (filter keeps z.rules) ≡ ok tt) same
              (check_all-filter (check_rule q.id) keeps q.rules d) in
          rw (k, a, b, c, fewer) rest
      | inr k ↦
          rw (k, a, b, c, d)
            (check_profiles-with_rules (Set.insert q.id seen) id qs p keeps (rw k at e) rest)
    ]

check_rolling-with_rules :
    (id : Text) (ps : List Profile) (p : Profile) (keeps : Rule → Bool)
    → find (has_id id) ps ≡ some p
    → check_all check_rolling ps ≡ ok tt
    → check_all check_rolling (with_rules id (filter keeps p.rules) ps) ≡ ok tt
unfolding check_all
check_rolling-with_rules id [] p keeps e h = absurd (cc e)
check_rolling-with_rules id (q ∷ qs) p keeps e h =
    let (d, rest) = and_then-split (check_rolling q) (check_all check_rolling qs) h in
    elim (Bool-cases (has_id id q)) [
      | inl k ↦
          let same : q ≡ p = cc (rw k at e) in
          let check : Rule → Checked = λ r. refuse (never_spent r.action) (zero_rolling q.id) in
          let fewer : check_all check (filter keeps p.rules) ≡ ok tt =
            subst (λ z. check_all check (filter keeps z.rules) ≡ ok tt) same
              (check_all-filter check keeps q.rules d) in
          rw (k, fewer) rest
      | inr k ↦ rw (k, d) (check_rolling-with_rules id qs p keeps (rw k at e) rest)
    ]

All-StillDefined :
    (c c' : Config) (es : List Entry)
    → ((e : Entry) → StillDefined c c' e)
    → All (StillDefined c c') es
All-StillDefined c c' [] f = tt
All-StillDefined c c' (e ∷ es) f = (f e, All-StillDefined c c' es f)

is_none-find-modify_first :
    (p q : Profile → Bool) (f : Profile → Profile) (ps : List Profile)
    → ((x : Profile) → p (f x) ≡ p x)
    → is_none (find p (modify_first q f ps)) ≡ is_none (find p ps)
is_none-find-modify_first p q f [] h = refl
is_none-find-modify_first p q f (x ∷ xs) h = elim (Bool-cases (q x)) [
  | inl k ↦ elim (Bool-cases (p x)) [ inl m ↦ rw (k, h x, m) | inr m ↦ rw (k, h x, m) ]
  | inr k ↦ elim (Bool-cases (p x)) [
    | inl m ↦ rw (k, m)
    | inr m ↦ rw (k, m) (is_none-find-modify_first p q f xs h)
  ]
]

-- A profile of another id is found after one is dropped.
is_none-find-filter :
    (id name : Text) (ps : List Profile)
    → list_eq name id ≡ false
    → is_none (find (has_id name) (filter (λ p. not (has_id id p)) ps))
      ≡ is_none (find (has_id name) ps)
is_none-find-filter id name [] n = refl
is_none-find-filter id name (x ∷ xs) n = elim (Bool-cases (has_id id x)) [
  | inl k ↦
      let other : has_id name x ≡ false = elim (Bool-cases (has_id name x)) [
        | inl m ↦
            let same : name ≡ id = sym (list_eq→eq x.id name m) ∙ list_eq→eq x.id id k in
            absurd (cc (n, ap (λ z. list_eq z id) same, list_eq_refl id))
        | inr m ↦ m
      ] in
      rw (k, other) (is_none-find-filter id name xs n)
  | inr k ↦ elim (Bool-cases (has_id name x)) [
    | inl m ↦ rw (k, m)
    | inr m ↦ rw (k, m) (is_none-find-filter id name xs n)
  ]
]

filter_empty {ℓ} :
    {A : Type ℓ} (p : A → Bool) (xs : List A) → filter p xs ≡ [] → All (λ x. p x ≡ false) xs
filter_empty p [] h = tt
filter_empty p (x ∷ xs) h = elim (Bool-cases (p x)) [
  | inl k ↦ absurd (cc (rw k at h))
  | inr k ↦ (k, filter_empty p xs (rw k at h))
]

map_empty : {A B : Type 0} (f : A → B) (xs : List A) → map f xs ≡ [] → xs ≡ []
map_empty f [] h = refl
map_empty f (x ∷ xs) h = absurd (cc h)

append_empty : {A : Type 0} (xs ys : List A) → xs ++ ys ≡ [] → (xs ≡ []) × (ys ≡ [])
append_empty [] ys h = (refl, h)
append_empty (x ∷ xs) ys h = absurd (cc h)

sort_by_empty : (xs : List Text) → is_nil (sort_by list_lt xs) ≡ true → xs ≡ []
unfolding sort_by insert_by
sort_by_empty [] h = refl
sort_by_empty (x ∷ xs) h = absurd (filled x (sort_by list_lt xs) h)
  where
    filled : (x : Text) (ys : List Text) → is_nil (insert_by list_lt x ys) ≡ true → ⊥
    filled x [] h = cc h
    filled x (y ∷ ys) h = elim (Bool-cases (list_lt y x)) [
      | inl k ↦ cc (rw k at h)
      | inr k ↦ cc (rw k at h)
    ]

All-mapped :
    {A B : Type 0} (P : B → Type 0) (f : A → B) (xs : List A)
    → All (λ x. P (f x)) xs
    → All P (map f xs)
All-mapped P f [] h = tt
All-mapped P f (x ∷ xs) h = (h.0, All-mapped P f xs h.1)

-- No schedule names a profile that nothing uses.
unused :
    (c : Config) (id : Text)
    → is_nil (used_by c id) ≡ true
    → All (λ e. list_eq e.profile id ≡ false) (entries c)
unused c id h =
    let ws = filter (λ w. list_eq w.profile id) c.weekly in
    let ss = filter (λ s. list_eq s.profile id) c.calendars in
    let (a, b) = append_empty (map (λ w. w.id) ws) (map (λ s. s.id) ss) (sort_by_empty _ h) in
    All-append _ (map of_weekly c.weekly) (map of_calendar c.calendars)
      (All-mapped _ of_weekly c.weekly
        (filter_empty (λ w. list_eq w.profile id) c.weekly (map_empty (λ w. w.id) ws a)))
      (All-mapped _ of_calendar c.calendars
        (filter_empty (λ s. list_eq s.profile id) c.calendars (map_empty (λ s. s.id) ss b)))

module _ (is_zone : Text → Bool) where
  remove_rule-valid :
      (unicode : Unicode) (c : Config) (id : Text) (target : Target)
      → validate is_zone c ≡ ok tt
      → validate is_zone (remove_rule unicode c id target).0 ≡ ok tt
  unfolding remove_rule Config.profile
  remove_rule-valid unicode c id target h = elim (Option-cases (find (has_id id) c.profiles)) [
    | inl e ↦ rw (remove_rule, e) h
    | inr (p, e) ↦
        let keeps : Rule → Bool = λ r. not (points_at unicode target r) in
        let c' : Config = record c { profiles = with_rules id (filter keeps p.rules) c.profiles } in
        let q = validate-Parts is_zone c h in
        rw (remove_rule, e)
          (validate-join is_zone c' (
            q.0,
            check_profiles-with_rules [] id c.profiles p keeps e q.1,
            q.2,
            check_schedules-IsSublist c c' [] [] (IsSublist-refl (entries c))
                (All-StillDefined c c' (entries c) λ x d.
                  is_none-find-modify_first (has_id x.profile) (has_id id)
                    (λ z. record z { rules = filter keeps p.rules }) c.profiles (λ z. refl)
                  ∙ d)
                (Fewer-refl []) q.3,
            q.4,
            q.5,
            check_rolling-with_rules id c.profiles p keeps e q.6,
            q.7,
          ))
  ]

  remove_profile-valid :
      (c : Config) (id : Text)
      → validate is_zone c ≡ ok tt
      → validate is_zone (remove_profile c id).0 ≡ ok tt
  unfolding remove_profile Config.profile
  remove_profile-valid c id h = elim (Bool-cases (is_nil (used_by c id))) [
    | inr k ↦ rw (remove_profile, k) h
    | inl k ↦
        let c' : Config = record c { profiles = filter (λ p. not (has_id id p)) c.profiles } in
        let q = validate-Parts is_zone c h in
        rw (remove_profile, k)
          (validate-join is_zone c' (
            q.0,
            check_profiles-IsSublist [] [] (filter-IsSublist _ c.profiles) (Fewer-refl []) q.1,
            q.2,
            check_schedules-IsSublist c c' [] [] (IsSublist-refl (entries c))
                (All-map _ _ (entries c)
                  (λ e n d. is_none-find-filter id e.profile c.profiles n ∙ d) (unused c id k))
                (Fewer-refl []) q.3,
            q.4,
            q.5,
            check_all-filter check_rolling (λ p. not (has_id id p)) c.profiles q.6,
            q.7,
          ))
  ]

  -- Taking something away needs no check: from a document that passes every check, removing the rules
  -- that point at a target, a profile, a window, a calendar rule or a subscription leaves a document
  -- that passes every check.
  pub removals-stay_valid :
      (unicode : Unicode) (c : Config) (id : Text) (target : Target)
      → validate is_zone c ≡ ok tt
      → (validate is_zone (remove_rule unicode c id target).0 ≡ ok tt)
        × (validate is_zone (remove_profile c id).0 ≡ ok tt)
        × (validate is_zone (remove_weekly c id) ≡ ok tt)
        × (validate is_zone (remove_calendar c id) ≡ ok tt)
        × (validate is_zone (remove_source c id) ≡ ok tt)
  unfolding remove_weekly remove_calendar remove_source Config.profile
  removals-stay_valid unicode c id target h =
      let q = validate-Parts is_zone c h in
      (
        remove_rule-valid unicode c id target h,
        remove_profile-valid c id h,
        (let c' = remove_weekly c id in
            validate-join is_zone c' (
              q.0,
              q.1,
              q.2,
              check_schedules-IsSublist c c' [] []
                  (append-IsSublist (map-IsSublist of_weekly (filter-IsSublist _ c.weekly))
                    (IsSublist-refl (map of_calendar c.calendars)))
                  (All-StillDefined c c' (entries c') λ x d. d) (Fewer-refl []) q.3,
              q.4,
              q.5,
              q.6,
              check_all-filter check_window (λ w. not (list_eq w.id id)) c.weekly q.7,
            )),
        (let c' = remove_calendar c id in
            validate-join is_zone c' (
              q.0,
              q.1,
              q.2,
              check_schedules-IsSublist c c' [] []
                  (append-IsSublist (IsSublist-refl (map of_weekly c.weekly))
                    (map-IsSublist of_calendar (filter-IsSublist _ c.calendars)))
                  (All-StillDefined c c' (entries c') λ x d. d) (Fewer-refl []) q.3,
              q.4,
              q.5,
              q.6,
              q.7,
            )),
        validate-join is_zone (remove_source c id) (
          q.0,
          q.1,
          q.2,
          check_schedules-IsSublist c (remove_source c id) [] [] (IsSublist-refl (entries c))
              (All-StillDefined c (remove_source c id) (entries c) λ x d. d) (Fewer-refl []) q.3,
          check_sources-IsSublist [] [] (filter-IsSublist _ c.calendar_sources) (Fewer-refl []) q.4,
          q.5,
          q.6,
          q.7,
        ),
      )
