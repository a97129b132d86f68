-- ===== src/Config/Picker.antt =====
-- `set_blocked_apps` and `blocked_apps` of crates/curfew-core/src/config.rs: the app picker.
use curfew.Prelude.{
  ◌≡◌, refl, sym, ap, ap₂, ◌∙◌, Bool, true, false, none, some, List, [], ◌∷◌, ◌++◌, inl, inr,
  Bool-cases, Option-cases,
}
use curfew.Prelude.Lists.{
  All, All-In, All-append, filter, find, find-some, find-modify_first, filter-All, filter-append,
  filter_same, append_nil, append_assoc,
}
use curfew.Prelude.Order.{list_ord, list_eq}
use curfew.Prelude.Text.{Text}
use curfew.Prelude.Set
use curfew.Prelude.Result.{ok, err}
use curfew.Config
use curfew.Config.{Config, Profile, Rule, Action}
use curfew.Config.Validation.{invalid, no_profile, validate, blank}
use curfew.Config.Edits.{
  has_id, edit_profile, picked, budgeted, budgets, app_rule, push_apps, not_picked, picked_packages,
  blocked_apps, set_blocked_apps, is_budget, is_picked_action, with_action, after_push, rules_of,
  listed,
}

-- Actions that are kept for a package are budgets.
abbrev AreBudgets : List (Text × Action) → Type 0
AreBudgets had = All (λ b. is_picked_action b.1 ≡ true) had

budgeted-action : (r : Rule) → AreBudgets (with_action r.action (budgeted r))
budgeted-action r = elim (Option-cases (budgeted r)) [
  | inl e ↦ rw e tt
  | inr (app, e) ↦ rw e (
    picked_budget r.action
        (elim (Bool-cases (is_budget r.action)) [ inl k ↦ k | inr k ↦ absurd (cc (rw k at e)) ]),
    tt,
  )
]
  where
    picked_budget : (a : Action) → is_budget a ≡ true → is_picked_action a ≡ true
    picked_budget Action.block h = refl
    picked_budget Action.allow_only h = absurd (cc h)
    picked_budget (Action.budget seconds refill) h = refl
    picked_budget (Action.launch_limit count refill) h = absurd (cc h)
    picked_budget (Action.delay seconds) h = absurd (cc h)
    picked_budget Action.mute_notifications h = absurd (cc h)

budgets-AreBudgets : (rs : List Rule) → AreBudgets (budgets rs)
unfolding budgets
budgets-AreBudgets [] = tt
budgets-AreBudgets (r ∷ rs) =
    All-append _ (with_action r.action (budgeted r)) (budgets rs) (budgeted-action r)
      (budgets-AreBudgets rs)

picked-app_rule :
    (had : List (Text × Action)) (app : Text)
    → AreBudgets had
    → picked (app_rule had app) ≡ some app
picked-app_rule had app h = elim (Option-cases (find (λ b. list_eq b.0 app) had)) [
  | inl e ↦ rw e
  | inr ((name, action), e) ↦
      let held = (find-some (λ b. list_eq b.0 app) had e).0 in
      rw (e, All-In (λ b. is_picked_action b.1 ≡ true) had (name, action) h held)
]

picked_packages-append :
    (xs ys : List Rule) → picked_packages (xs ++ ys) ≡ picked_packages xs ++ picked_packages ys
unfolding picked_packages
picked_packages-append [] ys = refl
picked_packages-append (x ∷ xs) ys =
    ap (◌++◌ (listed (picked x))) (picked_packages-append xs ys)
    ∙ sym (append_assoc (listed (picked x)) (picked_packages xs) (picked_packages ys))

picked_packages-kept : (rs : List Rule) → picked_packages (filter not_picked rs) ≡ []
unfolding picked_packages
picked_packages-kept [] = refl
picked_packages-kept (r ∷ rs) = elim (Option-cases (picked r)) [
  | inl e ↦ rw e (rw e (picked_packages-kept rs))
  | inr (app, e) ↦ rw e (picked_packages-kept rs)
]

push_apps-filled :
    (had : List (Text × Action)) (app : Text) (apps : List Text)
    → blank app ≡ false
    → push_apps had (app ∷ apps)
      ≡ (app_rule had app ∷ (push_apps had apps).0, (push_apps had apps).1)
unfolding push_apps
push_apps-filled had app apps k = rw k

-- The pushed rules are the wanted packages, and all of them are the picker's.
pushed_packages :
    (had : List (Text × Action)) (apps : List Text)
    → AreBudgets had
    → (push_apps had apps).1 ≡ true
    → (picked_packages (push_apps had apps).0 ≡ apps)
      × (filter not_picked (push_apps had apps).0 ≡ [])
unfolding push_apps picked_packages
pushed_packages had [] h e = (refl, refl)
pushed_packages had (app ∷ apps) h e = elim (Bool-cases (blank app)) [
  | inl k ↦ absurd (cc (rw k at e))
  | inr k ↦
      let rest = pushed_packages had apps h (rw k at e) in
      let own = picked-app_rule had app h in
      let filled = push_apps-filled had app apps k in
      (
        ap (λ r. picked_packages r.0) filled
            ∙ ap (λ o. listed o ++ picked_packages (push_apps had apps).0) own
            ∙ ap (◌∷◌ app) rest.0,
        ap (λ r. filter not_picked r.0) filled ∙ rw own rest.1,
      )
]

module _ (is_zone : Text → Bool) where
  set_blocked_apps-found :
      (c : Config) (id : Text) (packages : List Text) (p : Profile)
      → find (has_id id) c.profiles ≡ some p
      → let pushed = push_apps (budgets p.rules) (Set.from_list packages) in
        set_blocked_apps is_zone c id packages
        ≡ after_push is_zone
            (edit_profile id (λ q. record q { rules = filter not_picked p.rules ++ pushed.0 }) c)
            pushed.1
  unfolding set_blocked_apps
  set_blocked_apps-found c id packages p e = rw (set_blocked_apps, e)

  set_blocked_apps-missing :
      (c : Config) (id : Text) (packages : List Text)
      → find (has_id id) c.profiles ≡ none
      → set_blocked_apps is_zone c id packages ≡ (c, err (invalid (no_profile id)))
  unfolding set_blocked_apps
  set_blocked_apps-missing c id packages e = rw (set_blocked_apps, e)

  -- What the picker wrote is what it reads: after a successful edit the blocked apps of the profile are
  -- the packages that were ticked, each once and in ascending order, the document passes every check,
  -- and the profile's rules other than plain blocks and budgets of apps on every platform are the
  -- ones that it had.
  pub blocked_apps-set_blocked_apps :
      (c : Config) (id : Text) (packages : List Text)
      → (set_blocked_apps is_zone c id packages).1 ≡ ok tt
      → let c' = (set_blocked_apps is_zone c id packages).0 in
        (blocked_apps c' id ≡ Set.from_list packages)
        × (validate is_zone c' ≡ ok tt)
        × (filter not_picked (rules_of (Config.profile c' id))
            ≡ filter not_picked (rules_of (Config.profile c id)))
  unfolding blocked_apps Config.profile
  blocked_apps-set_blocked_apps c id packages done =
      elim (Option-cases (find (has_id id) c.profiles)) [
        | inl e ↦ absurd (cc (done, set_blocked_apps-missing c id packages e))
        | inr (p, e) ↦
            let wanted = Set.from_list packages in
            let pushed = push_apps (budgets p.rules) wanted in
            let kept = filter not_picked p.rules in
            let edit : Profile → Profile = λ q. record q { rules = kept ++ pushed.0 } in
            let found = set_blocked_apps-found c id packages p e in
            elim (Bool-cases pushed.1) [
              | inr k ↦ absurd (cc (done, ap (λ r. r.1) found, k))
              | inl k ↦
                  let own =
                    pushed_packages (budgets p.rules) wanted (budgets-AreBudgets p.rules) k in
                  let result : set_blocked_apps is_zone c id packages
                      ≡ (edit_profile id edit c, validate is_zone (edit_profile id edit c)) =
                    found ∙ ap (after_push is_zone (edit_profile id edit c)) k in
                  let there : find (has_id id) (edit_profile id edit c).profiles ≡ some (edit p) =
                    find-modify_first (has_id id) edit c.profiles p (λ y. refl) e in
                  rw (result, there, e)
                    (
                      picked_packages-append kept pushed.0
                          ∙ ap₂ ◌++◌ (picked_packages-kept p.rules) own.0,
                      sym (ap (λ r. r.1) result) ∙ done,
                      filter-append not_picked kept pushed.0
                          ∙ ap₂ ◌++◌ (filter_same not_picked kept (filter-All not_picked p.rules))
                              own.1
                          ∙ append_nil kept,
                    )
            ]
      ]
