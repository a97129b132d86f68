-- ===== src/Examples/Restores.antt =====
-- Examples of `restore_without_weakening` of crates/curfew-core/src/session.rs.
use curfew.Prelude.{◌≡◌, some, [], ◌∷◌}
use curfew.Prelude.Order.{list_ord}
use curfew.Prelude.Text.{Text, codes}
use curfew.Prelude.I64.{I64}
use curfew.Prelude.Map
use curfew.Lock.{unlocked}
use curfew.Session.{Sessions, restore_without_weakening}
use curfew.Session.Keeping.{Keeps, restore_without_weakening-Keeps}
use curfew.Examples.Data.{two_running, work, morning}

-- A stored state that holds `work` without a lock, and a dismissal of another profile.
abbrev stored : Sessions
stored = record {
  running = record work { lock = unlocked } ∷ [];
  dismissed = (codes "sleep", morning) ∷ [];
}

restore_without_weakening-Keeps_example :
    Keeps two_running (restore_without_weakening two_running stored)
    × ((profile : Text) (at : I64)
        → Map.get profile two_running.dismissed ≡ some at
        → Map.get profile (restore_without_weakening two_running stored).dismissed ≡ some at)
restore_without_weakening-Keeps_example = restore_without_weakening-Keeps two_running stored
