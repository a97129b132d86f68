-- ===== src/Examples/Configs.antt =====
-- Examples of crates/curfew-core/src/config.rs.
use curfew.Prelude.{◌≡◌, refl, List, [], ◌∷◌}
use curfew.Prelude.Lists.{All}
use curfew.Prelude.Order.{list_eq}
use curfew.Prelude.Text.{codes, ascii_lower}
use curfew.Prelude.Set
use curfew.Prelude.Map
use curfew.Budget.{daily}
use curfew.Target.{app_package, key}
use curfew.Config
use curfew.Config.{Config, Rule, block, budget}
use curfew.Config.Weakening.{losses, rules_weakened_by, details, weakening_a_running_session}
use curfew.Config.Kept.{AreKept, weakening-finds_every_loss}
use curfew.Examples.Data.{focus, ascii_only}

abbrev game : Rule
game = record { target = app_package (codes "com.game"); action = block; platforms = [] }

abbrev slow_game : Rule
slow_game = record game { action = budget 600 (daily 240) }

abbrev mail : Rule
mail = record { target = app_package (codes "com.mail"); action = block; platforms = [] }

abbrev blocking : List Rule → Config
blocking rules = record Config.default {
  profiles =
      record { id = codes "focus"; name = codes "Focus"; description = []; rules = rules } ∷ [];
}

-- A block that becomes a budget is reported.
changed_run :
    weakening_a_running_session ascii_only
      (blocking (game ∷ []))
      (blocking (slow_game ∷ []))
      (focus ∷ [])
      ((codes "focus", codes "Focus") ∷ [])
    ≡ codes "Focus: app:com.game is enforced differently now" ∷ []
unfolding weakening_a_running_session details rules_weakened_by losses Set.from_list Config.profile
    list_eq key ascii_lower Map.get
changed_run = refl

-- One more rule takes nothing away.
more_rules_run :
    weakening_a_running_session ascii_only
      (blocking (game ∷ []))
      (blocking (mail ∷ game ∷ []))
      (focus ∷ [])
      []
    ≡ []
unfolding weakening_a_running_session details rules_weakened_by losses Set.from_list Config.profile
    list_eq key ascii_lower
more_rules_run = refl

weakening-finds_every_loss_example :
    All
      (λ s.
        AreKept ascii_only
          (Config.profile (blocking (game ∷ [])) s.profile)
          (Config.profile (blocking (mail ∷ game ∷ [])) s.profile))
      (focus ∷ [])
weakening-finds_every_loss_example =
    weakening-finds_every_loss ascii_only (blocking (game ∷ [])) (blocking (mail ∷ game ∷ []))
      (focus ∷ []) [] more_rules_run
