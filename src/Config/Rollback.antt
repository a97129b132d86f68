-- ===== src/Config/Rollback.antt =====
-- The edits of crates/curfew-core/src/config.rs: what one that is refused leaves.
use curfew.Prelude.{◌≡◌, Bool, ◌⊎◌}
use curfew.Prelude.Lists.{In}
use curfew.Prelude.Text.{Text}
use curfew.Prelude.Unicode.{Unicode}
use curfew.Prelude.Result.{Result, ok, err}
use curfew.Schedule.Weekly.{WeeklySchedule}
use curfew.Config.{Config}
use curfew.Config.Validation.{ConfigError, validate}
use curfew.Config.Edits.{Upserted, already_present}
use curfew.Config.Stored.{IsSameWindow}

module _ (is_zone : Text → Bool) where
  -- A refused edit leaves the document as it was, and any other leaves one that passes every check and
  -- holds what was to be stored.
  abbrev pub IsAtomic :
      {A : Type 0} → (Config → Type 0) → Config → Config × Result A ConfigError → Type 0
  IsAtomic {A = A} Stored c r =
      ((e : ConfigError) → r.1 ≡ err e → r.0 ≡ c)
      × ((a : A) → r.1 ≡ ok a → (validate is_zone r.0 ≡ ok tt) × Stored r.0)

  -- A refused window leaves the document as it was, and so does one that is there already under
  -- another id; any other is in the document that is left, which passes every check.
  abbrev pub IsAtomicWindow :
      Config → WeeklySchedule → Config × Result Upserted ConfigError → Type 0
  IsAtomicWindow c window r =
      ((e : ConfigError) → r.1 ≡ err e → r.0 ≡ c)
      × ((u : Upserted)
          → r.1 ≡ ok u
          → (validate is_zone r.0 ≡ ok tt) × In window r.0.weekly
            ⊎ (u ≡ already_present)
              × (r.0 ≡ c)
              × ((w : WeeklySchedule) × In w c.weekly × IsSameWindow w window))
