-- ===== src/Config/Weakening.antt =====
-- crates/curfew-core/src/config.rs, `rules_weakened_by` and `weakening_a_running_session`: what another
-- document would take away from what runs.
use curfew.Prelude.{
  Bool, true, false, not, ◌&&◌, Option, none, some, List, [], ◌∷◌, ◌++◌, map, ◌==◌, if◌then◌else◌,
}
use curfew.Prelude.Lists.{find}
use curfew.Prelude.Order.{list_ord, list_eq}
use curfew.Prelude.Text.{Text, codes}
use curfew.Prelude.Unicode.{Unicode}
use curfew.Prelude.Set
use curfew.Prelude.Map
use curfew.Prelude.Map.{BTreeMap}
use curfew.Budget.{Refill, never, rolling, daily, weekly, monthly}
use curfew.Target.{key}
use curfew.Session.{Session}
use curfew.Config
use curfew.Config.{
  Config, Profile, Rule, Platform, same_platform, Action, block, allow_only, budget, launch_limit,
  delay, mute_notifications,
}

-- The derived `PartialEq`.
abbrev pub same_refill : Refill → Refill → Bool
same_refill never never = true
same_refill (rolling a) (rolling b) = a == b
same_refill (daily a) (daily b) = a == b
same_refill (weekly a b) (weekly c d) = (a == c) && (b == d)
same_refill (monthly a b) (monthly c d) = (a == c) && (b == d)
same_refill _ _ = false

abbrev pub same_action : Action → Action → Bool
same_action block block = true
same_action allow_only allow_only = true
same_action (budget a r) (budget b s) = (a == b) && same_refill r s
same_action (launch_limit a r) (launch_limit b s) = (a == b) && same_refill r s
same_action (delay a) (delay b) = a == b
same_action mute_notifications mute_notifications = true
same_action _ _ = false

abbrev pub same_platforms : List Platform → List Platform → Bool
same_platforms [] [] = true
same_platforms (p ∷ ps) (q ∷ qs) = same_platform p q && same_platforms ps qs
same_platforms _ _ = false

module _ (unicode : Unicode) where
  -- The rule of the other document that stands for `rule`.
  abbrev pub stands_for : Rule → Rule → Bool
  stands_for rule r =
      list_eq (key unicode r.target) (key unicode rule.target)
      && same_platforms r.platforms rule.platforms

  abbrev pub found : Option Profile → Rule → Option Rule
  found none rule = none
  found (some p) rule = find (stands_for rule) p.rules

  abbrev pub loss : Rule → Option Rule → List Text
  loss rule none = (key unicode rule.target ++ codes " is no longer blocked") ∷ []
  loss rule (some new) =
      if not (same_action new.action rule.action)
      then (key unicode rule.target ++ codes " is enforced differently now") ∷ []
      else []

  unfoldable pub losses : Option Profile → List Rule → List Text
  losses after [] = []
  losses after (rule ∷ rest) = loss rule (found after rule) ++ losses after rest

  abbrev pub losses_of : Option Profile → Option Profile → List Text
  losses_of none after = []
  losses_of (some before) after = losses after before.rules

  unfoldable pub rules_weakened_by : Config → Config → Text → List Text
  rules_weakened_by config next profile =
      losses_of (Config.profile config profile) (Config.profile next profile)

  abbrev pub named : Option Text → Text → Text
  named none profile = profile
  named (some name) profile = name

  -- The loop over the sessions.
  unfoldable pub details : Config → Config → List Session → BTreeMap Text Text → List Text
  details config next [] profile_names = []
  details config next (session ∷ rest) profile_names =
      map
        (λ detail.
          named (Map.get session.profile profile_names) session.profile ++ codes ": " ++ detail)
        (rules_weakened_by config next session.profile)
      ++ details config next rest profile_names

  -- `sort` and `dedup` leave the distinct sentences in ascending order.
  unfoldable pub weakening_a_running_session :
      Config → Config → List Session → BTreeMap Text Text → List Text
  weakening_a_running_session config next running profile_names =
      Set.from_list (details config next running profile_names)
