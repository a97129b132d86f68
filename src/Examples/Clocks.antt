-- ===== src/Examples/Clocks.antt =====
-- Examples of crates/curfew-core/src/clock.rs and crates/curfew-core/src/frozen.rs.
use curfew.Prelude.{◌+◌, ◌≡◌, ◌↔◌, ◌⊎◌, ◌<◌, refl, true, false, [], ◌∷◌, arith}
use curfew.Prelude.Text.{codes}
use curfew.Prelude.I64.{epoch}
use curfew.Clock.{
  Reading, ClockWitness, observe, tampered, adoption_moves_forward, tolerance_seconds, zero_seconds,
}
use curfew.Clock.Trust.{
  IsPlausible, IsPlausibleReading, observe_all, observe_all-same_boot, observe-tampered_exact,
}
use curfew.Frozen.{Countdown, peer}
use curfew.Examples.Data.{morning, noon, evening}

abbrev witness : ClockWitness
witness = record {
  last_wall = morning;
  last_uptime = epoch + 500;
  last_boot_id = 7;
  trusted = morning;
}

-- The same boot, an hour of uptime later, the wall clock moved ahead to the evening.
abbrev moved : Reading
moved = record { wall = evening; uptime = epoch + 4100; boot_id = 7 }

abbrev after_reboot : Reading
after_reboot = record { wall = evening; uptime = epoch + 20; boot_id = 8 }

moved_run : (observe witness moved).0.trusted ≡ morning + 3600
unfolding observe
moved_run = refl

witness-IsPlausible : IsPlausible witness
witness-IsPlausible = record {
  wall = (omega arith, omega arith);
  uptime = (omega arith, omega arith);
  trusted = (omega arith, omega arith);
}

moved-IsPlausibleReading : IsPlausibleReading moved
moved-IsPlausibleReading = record {
  wall = (omega arith, omega arith);
  uptime = (omega arith, omega arith);
}

after_reboot-IsPlausibleReading : IsPlausibleReading after_reboot
after_reboot-IsPlausibleReading = record {
  wall = (omega arith, omega arith);
  uptime = (omega arith, omega arith);
}

observe_all-same_boot_example :
    (observe_all witness (moved ∷ [])).trusted + witness.last_uptime
    ≡ witness.trusted + (observe_all witness (moved ∷ [])).last_uptime
observe_all-same_boot_example =
    observe_all-same_boot witness (moved ∷ []) (omega arith, omega arith) (omega arith)
      ((refl, omega arith), (omega arith, omega arith), tt)

observe-tampered_exact_example :
    let w = witness in
    let r = moved in
    let v = (observe w r).1 in
    ((tampered v ≡ true) ↔ (
      (w.last_wall + r.uptime + tolerance_seconds < r.wall + w.last_uptime)
      ⊎ (r.wall + w.last_uptime + tolerance_seconds < w.last_wall + r.uptime)))
    × (v.unverified ≡ zero_seconds)
    × (zero_seconds < v.refused_forward
        → v.refused_forward + (w.last_wall + r.uptime) ≡ zero_seconds + (r.wall + w.last_uptime))
    × (zero_seconds < v.refused_backward
        → v.refused_backward + (r.wall + w.last_uptime) ≡ zero_seconds + (w.last_wall + r.uptime))
observe-tampered_exact_example =
    observe-tampered_exact witness moved witness-IsPlausible moved-IsPlausibleReading
      (refl, omega arith)

-- A witness that is behind in trusted time and level otherwise.
abbrev behind : ClockWitness
behind = record witness { trusted = epoch + 1788510000 }

behind-IsPlausible : IsPlausible behind
behind-IsPlausible = record {
  wall = (omega arith, omega arith);
  uptime = (omega arith, omega arith);
  trusted = (omega arith, omega arith);
}

behind_allowed : adoption_moves_forward witness behind ≡ false
unfolding adoption_moves_forward
behind_allowed = refl

abbrev counting : Countdown
counting = record {
  profile = codes "focus";
  seconds = 600;
  origin = peer;
  announced_at = morning;
  fires_at = noon;
  confirmed = true;
}
