-- ===== src/Clock/Trust.antt =====
-- `observe` of crates/curfew-core/src/clock.rs, on one reading and on many.
use curfew.Prelude.{◌≡◌, ◌+◌, ◌-◌, ◌^◌, ◌≤◌, ◌<◌, ◌↔◌, ◌⊎◌, refl, true, List, [], ◌∷◌, arith}
use curfew.Prelude.I64.{I64, epoch, modulus}
use curfew.Clock.{
  Reading, ClockWitness, observe, rebooted, tampered, tolerance_seconds, zero_seconds,
}

-- Within 2 ^ 60 seconds of the epoch, where no difference of two readings wraps.
abbrev pub Plausible : I64 → Type 0
Plausible t = (epoch - 2 ^ 60 ≤ t) × (t < epoch + 2 ^ 60)

pub record IsPlausible (w : ClockWitness) : Type 0 where
  pub wall : Plausible w.last_wall
  pub uptime : Plausible w.last_uptime
  pub trusted : Plausible w.trusted

pub record IsPlausibleReading (r : Reading) : Type 0 where
  pub wall : Plausible r.wall
  pub uptime : Plausible r.uptime

-- The readings folded into the witness, the first one first.
abbrev pub observe_all : ClockWitness → List Reading → ClockWitness
observe_all w [] = w
observe_all w (r ∷ rs) = observe_all (observe w r).0 rs

observe-trusted_le : (w : ClockWitness) (r : Reading) → w.trusted ≤ (observe w r).0.trusted
unfolding observe
observe-trusted_le w r = omega arith

-- Whatever the readings are, trusted time does not go back.
pub observe_all-trusted_le :
    (w : ClockWitness) (rs : List Reading) → w.trusted ≤ (observe_all w rs).trusted
observe_all-trusted_le w [] = omega arith
observe_all-trusted_le w (r ∷ rs) =
    omega (arith, observe-trusted_le w r, observe_all-trusted_le (observe w r).0 rs)

-- Later readings of the boot that the witness is in.
abbrev pub SameBoot : ClockWitness → Reading → Type 0
SameBoot w r = (r.boot_id ≡ w.last_boot_id) × (w.last_uptime ≤ r.uptime)

observe-SameBoot :
    (w : ClockWitness) (r : Reading)
    → SameBoot w r
    → Plausible w.last_uptime
    → Plausible r.uptime
    → w.trusted + (r.uptime - w.last_uptime) < modulus
    → (observe w r).0.trusted ≡ w.trusted + (r.uptime - w.last_uptime)
unfolding observe
observe-SameBoot w r h p q k = ground arith

-- Readings of one boot, in the order of its uptime.
abbrev pub OneBoot : ClockWitness → List Reading → Type 0
OneBoot w [] = Unit
OneBoot w (r ∷ rs) = SameBoot w r × Plausible r.uptime × OneBoot (observe w r).0 rs

observe-last_uptime : (w : ClockWitness) (r : Reading) → (observe w r).0.last_uptime ≡ r.uptime
unfolding observe
observe-last_uptime w r = refl

-- Over readings of one boot, in the order of its uptime, each uptime within 2 ^ 60 seconds of the
-- epoch, and where the trusted time has as much room below the largest instant: trusted time
-- advances by exactly what uptime does, however the wall clock is set in between.
pub observe_all-same_boot :
    (w : ClockWitness) (rs : List Reading)
    → Plausible w.last_uptime
    → w.trusted + (epoch + 2 ^ 60) ≤ modulus + w.last_uptime
    → OneBoot w rs
    → (observe_all w rs).trusted + w.last_uptime ≡ w.trusted + (observe_all w rs).last_uptime
observe_all-same_boot w [] p k h = omega arith
observe_all-same_boot w (r ∷ rs) p k h =
    let step = observe-SameBoot w r h.0 p h.1 (omega arith) in
    let up = observe-last_uptime w r in
    omega (
      arith,
      step,
      up,
      observe_all-same_boot (observe w r).0 rs (rw up h.1) (omega (arith, step, up)) h.2,
    )

-- What a reading of the same boot reports, where it and the witness are within 2 ^ 60 seconds of
-- the epoch: nothing unverified, and tampering exactly where the wall clock gained or lost more
-- than the tolerance against uptime, by the whole difference.
pub observe-tampered_exact :
    (w : ClockWitness) (r : Reading)
    → IsPlausible w
    → IsPlausibleReading r
    → SameBoot w r
    → let v = (observe w r).1 in
      ((tampered v ≡ true) ↔ (
        (w.last_wall + r.uptime + tolerance_seconds < r.wall + w.last_uptime)
        ⊎ (r.wall + w.last_uptime + tolerance_seconds < w.last_wall + r.uptime)))
      × (v.unverified ≡ zero_seconds)
      × (zero_seconds < v.refused_forward
          → v.refused_forward + (w.last_wall + r.uptime) ≡ zero_seconds + (r.wall + w.last_uptime))
      × (zero_seconds < v.refused_backward
          → v.refused_backward + (r.wall + w.last_uptime) ≡ zero_seconds + (w.last_wall + r.uptime))
unfolding observe tampered
observe-tampered_exact w r h k s =
    ((λ e. ground arith, λ d. ground arith), ground arith, λ e. ground arith, λ e. ground arith)

-- Across a reboot, where the reading and the witness are within 2 ^ 60 seconds of the epoch: a
-- gain of the wall clock beyond the tolerance is credited whole and reported as unverified,
-- without such a gain trusted time stays and nothing is unverified, and nothing is ever refused
-- forward.
pub observe-across_reboot :
    (w : ClockWitness) (r : Reading)
    → IsPlausible w
    → IsPlausibleReading r
    → rebooted w r ≡ true
    → let v = (observe w r).1 in
      (w.last_wall + tolerance_seconds < r.wall
        → (v.now + w.last_wall ≡ w.trusted + r.wall)
          × (v.unverified + w.last_wall ≡ zero_seconds + r.wall))
      × (r.wall ≤ w.last_wall + tolerance_seconds
          → (v.now ≡ w.trusted) × (v.unverified ≡ zero_seconds))
      × (v.refused_forward ≡ zero_seconds)
unfolding observe
observe-across_reboot w r h k b =
    (λ e. (ground arith, ground arith), λ e. (ground arith, ground arith), ground arith)
