-- ===== src/Engine/Charges.antt =====
-- `charged_keys` of crates/curfew-core/src/engine.rs.
use curfew.Prelude.{
  ◌≡◌, refl, ap, ◌∙◌, Bool, true, false, ◌&&◌, ◌||◌, Option, none, some, List, [], ◌∷◌, ◌++◌, arith,
  Bool-cases, inl, inr,
}
use curfew.Prelude.Lists.{any}
use curfew.Prelude.Order.{list_eq, list_ord, list_eq→eq, beq_symm}
use curfew.Prelude.Text.{Text}
use curfew.Prelude.Unicode.{Unicode}
use curfew.Target.{Observation, key, matches}
use curfew.Schedule.Weekly.{is_nil}
use curfew.Config
use curfew.Config.{Config, Profile, Rule, Action, Platform, budget, launch_limit, same_platform}
use curfew.Engine.{
  State, charged, applies_to, push_new, charge_rules, charge_profile, charge_profiles, charged_keys,
}
use curfew.Engine.Asked.{active_rules, rules_of}

any-append {ℓ} :
    {A : Type ℓ} (p : A → Bool) (xs ys : List A) → any p (xs ++ ys) ≡ (any p xs || any p ys)
any-append p [] ys = refl
any-append p (x ∷ xs) ys = ground (arith, any-append p xs ys)

-- No key stands twice.
abbrev pub AreDistinct : List Text → Type 0
AreDistinct [] = Unit
AreDistinct (k ∷ ks) = (any (list_eq k) ks ≡ false) × AreDistinct ks

AreDistinct-append_one :
    (k : Text) (ks : List Text)
    → any (list_eq k) ks ≡ false
    → AreDistinct ks
    → AreDistinct (ks ++ k ∷ [])
AreDistinct-append_one k [] h d = (refl, tt)
AreDistinct-append_one k (j ∷ ks) h d = (
  any-append (list_eq j) ks (k ∷ []) ∙ ground (arith, d.0, h, beq_symm j k),
  AreDistinct-append_one k ks (ground (arith, h)) d.1,
)

push_new-AreDistinct : (k : Text) (ks : List Text) → AreDistinct ks → AreDistinct (push_new k ks)
push_new-AreDistinct k ks d = elim (Bool-cases (any (list_eq k) ks)) [
  | inl e ↦ rw e d
  | inr e ↦ rw e (AreDistinct-append_one k ks e d)
]

any-of_eq :
    (j k : Text) (ks : List Text) → list_eq j k ≡ true → any (list_eq j) ks ≡ any (list_eq k) ks
any-of_eq j k ks h = ap (λ z. any (list_eq z) ks) (list_eq→eq j k h)

any-push_new :
    (j k : Text) (ks : List Text)
    → any (list_eq j) (push_new k ks) ≡ (any (list_eq j) ks || list_eq j k)
any-push_new j k ks = elim (Bool-cases (any (list_eq k) ks)) [
  | inl e ↦ elim (Bool-cases (list_eq j k)) [
    | inl f ↦ rw e (ground (arith, any-of_eq j k ks f, e, f))
    | inr f ↦ rw e (ground (arith, f))
  ]
  | inr e ↦ rw e (any-append (list_eq j) ks (k ∷ []) ∙ ground arith)
]

abbrev pub counts_action : Action → Bool
counts_action (budget seconds refill) = true
counts_action (launch_limit count refill) = true
counts_action _ = false

module _ (unicode : Unicode) (state : State) (obs : Observation) where
  -- A budget or a launch limit, for every platform or for this one, on something that is seen, and
  -- that counts under the key.
  abbrev pub charges : Text → Rule → Bool
  charges k r =
      counts_action r.action
      && ((is_nil r.platforms || any (same_platform state.platform) r.platforms)
          && (matches unicode r.target obs && list_eq k (key unicode r.target)))

  abbrev passes : Text → Rule → Bool
  passes k r = charged unicode state obs r && list_eq k (key unicode r.target)

  applies_here :
      (r : Rule)
      → applies_to r state.platform
        ≡ (is_nil r.platforms || any (same_platform state.platform) r.platforms)
  unfolding applies_to
  applies_here r = applied r.platforms
    where
      applied :
          (ps : List Platform)
          → applies_to (record r { platforms = ps }) state.platform
            ≡ (is_nil ps || any (same_platform state.platform) ps)
      applied [] = refl
      applied (p ∷ ps) = refl

  passes-charges : (k : Text) (rs : List Rule) → any (passes k) rs ≡ any (charges k) rs
  passes-charges k [] = refl
  passes-charges k (r ∷ rs) = ground (arith, applies_here r, passes-charges k rs)

  charge_rules-AreDistinct :
      (rs : List Rule) (ks : List Text)
      → AreDistinct ks
      → AreDistinct (charge_rules unicode state obs rs ks)
  unfolding charge_rules
  charge_rules-AreDistinct [] ks d = d
  charge_rules-AreDistinct (r ∷ rs) ks d = elim (Bool-cases (charged unicode state obs r)) [
    | inl e ↦ rw e (
        charge_rules-AreDistinct rs (push_new (key unicode r.target) ks)
          (push_new-AreDistinct (key unicode r.target) ks d))
    | inr e ↦ rw e (charge_rules-AreDistinct rs ks d)
  ]

  any-charge_rules :
      (k : Text) (rs : List Rule) (ks : List Text)
      → any (list_eq k) (charge_rules unicode state obs rs ks)
        ≡ (any (list_eq k) ks || any (passes k) rs)
  unfolding charge_rules
  any-charge_rules k [] ks = ground arith
  any-charge_rules k (r ∷ rs) ks = elim (Bool-cases (charged unicode state obs r)) [
    | inl e ↦ rw e (
        any-charge_rules k rs (push_new (key unicode r.target) ks)
        ∙ ground (arith, any-push_new k (key unicode r.target) ks))
    | inr e ↦ rw e (any-charge_rules k rs ks)
  ]

  charge_profile-AreDistinct :
      (p : Option Profile) (ks : List Text)
      → AreDistinct ks
      → AreDistinct (charge_profile unicode state obs p ks)
  charge_profile-AreDistinct none ks d = d
  charge_profile-AreDistinct (some p) ks d = charge_rules-AreDistinct p.rules ks d

  any-charge_profile :
      (k : Text) (p : Option Profile) (ks : List Text)
      → any (list_eq k) (charge_profile unicode state obs p ks)
        ≡ (any (list_eq k) ks || any (passes k) (rules_of p))
  any-charge_profile k none ks = ground arith
  any-charge_profile k (some p) ks = any-charge_rules k p.rules ks

  charge_profiles-AreDistinct :
      (config : Config) (ids ks : List Text)
      → AreDistinct ks
      → AreDistinct (charge_profiles unicode state obs config ids ks)
  unfolding charge_profiles
  charge_profiles-AreDistinct config [] ks d = d
  charge_profiles-AreDistinct config (id ∷ ids) ks d =
      charge_profiles-AreDistinct config ids
        (charge_profile unicode state obs (Config.profile config id) ks)
        (charge_profile-AreDistinct (Config.profile config id) ks d)

  any-charge_profiles :
      (k : Text) (config : Config) (ids ks : List Text)
      → any (list_eq k) (charge_profiles unicode state obs config ids ks)
        ≡ (any (list_eq k) ks || any (passes k) (active_rules config ids))
  unfolding charge_profiles active_rules
  any-charge_profiles k config [] ks = ground arith
  any-charge_profiles k config (id ∷ ids) ks =
      any-charge_profiles k config ids
        (charge_profile unicode state obs (Config.profile config id) ks)
      ∙ ground (
        arith,
        any-charge_profile k (Config.profile config id) ks,
        any-append (passes k) (rules_of (Config.profile config id)) (active_rules config ids),
      )

  -- An observation is charged against each key at most once, and against exactly the keys of those
  -- budgets and launch limits of the active profiles that are for every platform or for this one and
  -- whose target matches it.
  pub charged_keys_exact :
      (config : Config)
      → AreDistinct (charged_keys unicode state obs config)
        × ((k : Text)
            → any (list_eq k) (charged_keys unicode state obs config)
              ≡ any (charges k) (active_rules config state.active_profiles))
  unfolding charged_keys
  charged_keys_exact config = (
    charge_profiles-AreDistinct config state.active_profiles [] tt,
    λ k.
        any-charge_profiles k config state.active_profiles []
        ∙ passes-charges k (active_rules config state.active_profiles),
  )
