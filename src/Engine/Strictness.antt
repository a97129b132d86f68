-- ===== src/Engine/Strictness.antt =====
-- `decide` of crates/curfew-core/src/engine.rs and the rules of the active profiles.
use mathlib.Core.List.{append-nil, append_assoc}
use curfew.Prelude.{
  ℕ, ◌≡◌, refl, sym, ap, ◌∙◌, subst, Bool, not, ◌&&◌, ◌||◌, Option, none, some, List, [], ◌∷◌, ◌++◌,
  if◌then◌else◌, is_none, arith, Bool-cases, inl, inr,
}
use curfew.Prelude.Lists.{any}
use curfew.Prelude.Text.{Text}
use curfew.Prelude.I64.{I64}
use curfew.Prelude.Unicode.{Unicode}
use curfew.Chrono.{Chrono}
use curfew.Target.{Observation, matches, is_notification}
use curfew.Config
use curfew.Config.{
  Config, Profile, Rule, Action, allow_only, budget, launch_limit, mute_notifications,
}
use curfew.Engine.{
  State, Tally, applies_to, nothing, zone, weigh, weigh_rules, weigh_profile, weigh_profiles,
  resolve, is_idle, decide,
}
use curfew.Engine.Asked.{
  Outcome, allowed, stopped, muted, outcome, waiting, rules_of, active_rules, blocks_action,
  lists_action, mutes_action, wait_action, longest, longest_assoc, longest-none, spent_action,
}
use curfew.Engine.Weighing.{weigh-Grows}

module _ {Tz Date Local : Type 0} (chrono : Chrono Tz Date Local) (unicode : Unicode) where
  module _ (now : I64) (tz : Tz) (state : State) (obs : Observation) where
    -- What a rule asks for: a block for good, for its budget or for its launches; a list of what is
    -- allowed, and to be on it; silence; to wait.
    abbrev in_force : Rule → Bool
    in_force r = applies_to r state.platform && matches unicode r.target obs

    abbrev pub blocks : Rule → Bool
    blocks r = in_force r && blocks_action r.action

    -- Its budget or its launches are used up.
    abbrev pub is_spent : Rule → Bool
    is_spent r = in_force r && spent_action chrono unicode now tz state r.target r.action

    abbrev pub lists : Rule → Bool
    lists r = applies_to r state.platform && lists_action r.action

    abbrev pub allows : Rule → Bool
    allows r = in_force r && lists_action r.action

    abbrev pub mutes : Rule → Bool
    mutes r = in_force r && mutes_action r.action

    abbrev pub wait_of : Rule → Option ℕ
    wait_of r = if in_force r then wait_action r.action else none

    -- The longest wait that a rule asks for.
    unfoldable pub longest_wait : List Rule → Option ℕ
    longest_wait [] = none
    longest_wait (r ∷ rs) = longest (wait_of r) (longest_wait rs)

    -- What has been met so far is `rs`.
    record Weighed (t : Tally) (rs : List Rule) : Type 0 where
      blocks_so_far : not (is_none t.blocked) ≡ any blocks rs
      spent_so_far :
          (not (is_none t.budget_spent) || not (is_none t.launches_spent)) ≡ any is_spent rs
      lists_so_far : not (is_none t.allow_only) ≡ any lists rs
      allows_so_far : t.allowlisted ≡ any allows rs
      mutes_so_far : t.mute ≡ any mutes rs
      waits_so_far : t.delay ≡ longest_wait rs

    any-append_one :
        (p : Rule → Bool) (rs : List Rule) (r : Rule) → any p (rs ++ r ∷ []) ≡ (any p rs || p r)
    any-append_one p [] r = ground arith
    any-append_one p (x ∷ rs) r = ground (arith, any-append_one p rs r)

    longest_wait-append_one :
        (rs : List Rule) (r : Rule)
        → longest_wait (rs ++ r ∷ []) ≡ longest (longest_wait rs) (wait_of r)
    unfolding longest_wait
    longest_wait-append_one [] r = longest-none (wait_of r)
    longest_wait-append_one (x ∷ rs) r =
        ap (longest (wait_of x)) (longest_wait-append_one rs r)
        ∙ sym (longest_assoc (wait_of x) (longest_wait rs) (wait_of r))

    abbrev weigh_rule : Text → Rule → Tally → Tally
    weigh_rule id r t =
        if applies_to r state.platform
        then weigh chrono unicode now tz state id (matches unicode r.target obs) r.target r.action t
        else t

    weigh_rule-Weighed :
        (id : Text) (r : Rule) (t : Tally) (rs : List Rule)
        → Weighed t rs
        → Weighed (weigh_rule id r t) (rs ++ r ∷ [])
    weigh_rule-Weighed id r t rs w = elim (Bool-cases (applies_to r state.platform)) [
      | inl e ↦
          let g =
            weigh-Grows chrono unicode now tz state id (matches unicode r.target obs) r.target
              r.action t in
          rw e (record {
            blocks_so_far =
                g.blocks_more ∙ ground (arith, e, w.blocks_so_far, any-append_one blocks rs r);
            spent_so_far =
                g.spent_more ∙ ground (arith, e, w.spent_so_far, any-append_one is_spent rs r);
            lists_so_far =
                g.lists_more ∙ ground (arith, e, w.lists_so_far, any-append_one lists rs r);
            allows_so_far =
                g.allows_more ∙ ground (arith, e, w.allows_so_far, any-append_one allows rs r);
            mutes_so_far =
                g.mutes_more ∙ ground (arith, e, w.mutes_so_far, any-append_one mutes rs r);
            waits_so_far =
                g.waits_more
                ∙ ap
                    (λ d.
                      longest d
                        (if matches unicode r.target obs then wait_action r.action else none))
                    w.waits_so_far
                ∙ sym (longest_wait-append_one rs r ∙ rw e refl);
          })
      | inr e ↦ rw e (record {
        blocks_so_far = ground (arith, e, w.blocks_so_far, any-append_one blocks rs r);
        spent_so_far = ground (arith, e, w.spent_so_far, any-append_one is_spent rs r);
        lists_so_far = ground (arith, e, w.lists_so_far, any-append_one lists rs r);
        allows_so_far = ground (arith, e, w.allows_so_far, any-append_one allows rs r);
        mutes_so_far = ground (arith, e, w.mutes_so_far, any-append_one mutes rs r);
        waits_so_far =
            w.waits_so_far
            ∙ sym (longest_wait-append_one rs r ∙ rw e (longest-none (longest_wait rs)));
      })
    ]

    weigh_rules-Weighed :
        (id : Text) (qs : List Rule) (t : Tally) (rs : List Rule)
        → Weighed t rs
        → Weighed (weigh_rules chrono unicode now tz state obs id qs t) (rs ++ qs)
    unfolding weigh_rules
    weigh_rules-Weighed id [] t rs w = subst (Weighed t) (sym (append-nil rs)) w
    weigh_rules-Weighed id (q ∷ qs) t rs w =
        subst (Weighed (weigh_rules chrono unicode now tz state obs id qs (weigh_rule id q t)))
          (append_assoc rs (q ∷ []) qs)
          (weigh_rules-Weighed id qs (weigh_rule id q t) (rs ++ q ∷ [])
            (weigh_rule-Weighed id q t rs w))

    weigh_profile-Weighed :
        (p : Option Profile) (t : Tally) (rs : List Rule)
        → Weighed t rs
        → Weighed (weigh_profile chrono unicode now tz state obs p t) (rs ++ rules_of p)
    weigh_profile-Weighed none t rs w = subst (Weighed t) (sym (append-nil rs)) w
    weigh_profile-Weighed (some p) t rs w = weigh_rules-Weighed p.id p.rules t rs w

    weigh_profiles-Weighed :
        (config : Config) (ids : List Text) (t : Tally) (rs : List Rule)
        → Weighed t rs
        → Weighed
            (weigh_profiles chrono unicode now tz state obs config ids t)
            (rs ++ active_rules config ids)
    unfolding weigh_profiles active_rules
    weigh_profiles-Weighed config [] t rs w = subst (Weighed t) (sym (append-nil rs)) w
    weigh_profiles-Weighed config (id ∷ ids) t rs w =
        let p = Config.profile config id in
        let u = weigh_profile chrono unicode now tz state obs p t in
        subst (Weighed (weigh_profiles chrono unicode now tz state obs config ids u))
          (append_assoc rs (rules_of p) (active_rules config ids))
          (weigh_profiles-Weighed config ids u (rs ++ rules_of p) (weigh_profile-Weighed p t rs w))

    -- The strictest answer to what the rules ask for.
    abbrev pub strictest : Bool → List Rule → Outcome
    strictest notification rs =
        if notification
        then (if any mutes rs || any blocks rs then muted else allowed)
        else if any blocks rs || (any is_spent rs || (any lists rs && not (any allows rs)))
        then stopped
        else waiting (longest_wait rs)

    resolve-strictest :
        (n : Bool) (t : Tally) (rs : List Rule)
        → Weighed t rs
        → outcome (resolve n t) ≡ strictest n rs
    unfolding resolve
    resolve-strictest n t rs w = ground (
      arith, w.blocks_so_far, w.spent_so_far, w.lists_so_far, w.allows_so_far, w.mutes_so_far,
      w.waits_so_far,
    )

    nothing-Weighed : Weighed nothing []
    unfolding longest_wait
    nothing-Weighed = record {
      blocks_so_far = refl;
      spent_so_far = refl;
      lists_so_far = refl;
      allows_so_far = refl;
      mutes_so_far = refl;
      waits_so_far = refl;
    }

  -- Whatever is seen, but for an idle screen, which is always allowed, the outcome is a function of
  -- which rules of the active profiles are met, not of their order. A notification is muted exactly
  -- if some rule mutes or blocks it. Anything else is blocked exactly if some rule blocks it, a budget
  -- or a number of launches is used up, or there is a list of what is allowed and it is on none; if
  -- not, it waits for the longest delay that a rule asks for.
  pub decide-strictest :
      (now : I64) (state : State) (obs : Observation) (config : Config)
      → outcome (decide chrono unicode now state obs config) ≡ (
          if is_idle obs
          then allowed
          else strictest now
              (zone chrono unicode config)
              state
              obs
              (is_notification obs)
              (active_rules config state.active_profiles))
  unfolding decide
  decide-strictest now state obs config = elim (Bool-cases (is_idle obs)) [
    | inl e ↦ rw e refl
    | inr e ↦
        let tz = zone chrono unicode config in
        rw e (
          resolve-strictest now tz state obs (is_notification obs)
            (weigh_profiles chrono unicode now tz state obs config state.active_profiles nothing)
            (active_rules config state.active_profiles)
            (weigh_profiles-Weighed now tz state obs config state.active_profiles nothing []
              (nothing-Weighed now tz state obs)))
  ]
