-- ===== src/Boot.antt =====
-- crates/curfew-core/src/boot.rs: which boot each session was first seen in, and a count of boots.
pub mod Restart
pub mod Counter
use curfew.Prelude.{
  ℕ, ◌+◌, ◌%◌, Bool, true, false, not, ◌||◌, List, [], ◌∷◌, map, Option, is_some_and, ltb, ◌==◌,
  if◌then◌else◌,
}
use curfew.Prelude.Order.{list_ord}
use curfew.Prelude.Text.{Text}
use curfew.Prelude.I64.{I64, epoch, u64_mod}
use curfew.Prelude.Set
use curfew.Prelude.Set.{BTreeSet}
use curfew.Prelude.Map
use curfew.Prelude.Map.{BTreeMap}
use curfew.Lock.{Lock, restart_required}
use curfew.Session.{Session}

pub record Boots : Type 0 where
  pub seen : BTreeMap Text ℕ

abbrev pub no_boots : Boots
no_boots = record { seen = [] }

-- The first loop of `observe`.
unfoldable pub note_running : ℕ → List Session → BTreeMap Text ℕ → BTreeMap Text ℕ
note_running boot_id [] seen = seen
note_running boot_id (session ∷ rest) seen =
    note_running boot_id rest (Map.or_insert session.id boot_id seen)

abbrev pub live_ids : List Session → BTreeSet Text
live_ids running = Set.from_list (map (λ s. s.id) running)

unfoldable pub observe : Boots → ℕ → List Session → Boots
observe b boot_id running =
    let live = live_ids running in
    record { seen = Map.retain_keys (λ id. Set.mem id live) (note_running boot_id running b.seen) }

unfoldable pub restarted : Boots → Text → ℕ → Bool
restarted b id boot_id = is_some_and (Map.get id b.seen) (λ first. not (first == boot_id))

unfoldable pub evidence : Boots → Text → ℕ → BTreeSet Lock
evidence b id boot_id = if restarted b id boot_id then restart_required ∷ [] else []

pub record BootCounter : Type 0 where
  pub last_uptime : I64
  pub boot_id : ℕ

-- `BootCounter::default()`
abbrev pub no_reading : BootCounter
no_reading = record { last_uptime = epoch; boot_id = 0 }

unfoldable pub count_boot : BootCounter → I64 → BootCounter × ℕ
count_boot c uptime =
    let id =
      if (c.boot_id == 0) || ltb uptime c.last_uptime
      then (c.boot_id + 1) % u64_mod
      else c.boot_id in
    (record { last_uptime = uptime; boot_id = id }, id)
