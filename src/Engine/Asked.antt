-- ===== src/Engine/Asked.antt =====
-- What a rule asks for, and what a decision does, as words for `decide` of crates/curfew-
-- core/src/engine.rs.
use curfew.Prelude.{
  ℕ, ◌≡◌, refl, ap, max, Bool, true, false, Option, none, some, List, [], ◌∷◌, ◌++◌, leb, arith,
}
use curfew.Prelude.Text.{Text}
use curfew.Prelude.I64.{I64}
use curfew.Prelude.Unicode.{Unicode}
use curfew.Chrono.{Chrono}
use curfew.Target.{Target}
use curfew.Config
use curfew.Config.{
  Config, Profile, Rule, Action, allow_only, budget, launch_limit, mute_notifications,
}
use curfew.Engine.{State, Decision, allow, block, delay, mute, budget_used, times_opened}

-- What a decision does, without its reason; a wait of none is to let through.
pub data Outcome : Type 0 where
  allowed stopped muted : Outcome
  delayed : ℕ → Outcome

abbrev pub outcome : Decision → Outcome
outcome allow = allowed
outcome (block reason) = stopped
outcome (delay seconds) = delayed seconds
outcome mute = muted

abbrev pub waiting : Option ℕ → Outcome
waiting none = allowed
waiting (some seconds) = delayed seconds

-- The rules of the active profiles, in the order in which they are met.
abbrev pub rules_of : Option Profile → List Rule
rules_of none = []
rules_of (some p) = p.rules

unfoldable pub active_rules : Config → List Text → List Rule
active_rules config [] = []
active_rules config (id ∷ rest) = rules_of (Config.profile config id) ++ active_rules config rest

abbrev pub blocks_action : Action → Bool
blocks_action Action.block = true
blocks_action _ = false

abbrev pub lists_action : Action → Bool
lists_action allow_only = true
lists_action _ = false

abbrev pub mutes_action : Action → Bool
mutes_action mute_notifications = true
mutes_action _ = false

abbrev pub wait_action : Action → Option ℕ
wait_action (Action.delay seconds) = some seconds
wait_action _ = none

abbrev pub longest : Option ℕ → Option ℕ → Option ℕ
longest none y = y
longest (some a) none = some a
longest (some a) (some b) = some (max a b)

pub longest_assoc : (a b c : Option ℕ) → longest (longest a b) c ≡ longest a (longest b c)
longest_assoc none b c = refl
longest_assoc (some a) none c = refl
longest_assoc (some a) (some b) none = refl
longest_assoc (some a) (some b) (some c) = ap some (omega arith)

pub longest-none : (a : Option ℕ) → longest a none ≡ a
longest-none none = refl
longest-none (some a) = refl

module _ {Tz Date Local : Type 0} (chrono : Chrono Tz Date Local) (unicode : Unicode) where
  module _ (now : I64) (tz : Tz) (state : State) where
    -- Its budget or its launches are used up.
    abbrev pub spent_action : Target → Action → Bool
    spent_action target (budget seconds refill) =
        leb seconds (budget_used chrono unicode now tz state target refill)
    spent_action target (launch_limit count refill) =
        leb count (times_opened chrono unicode now tz state target refill)
    spent_action target _ = false
