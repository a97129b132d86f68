-- ===== src/Clock/Adoption.antt =====
-- `adoption_moves_forward` of crates/curfew-core/src/clock.rs: readings with and without an
-- adopted witness.
use curfew.Prelude.{
  ◌≡◌, ◌≢◌, ◌+◌, ◌≤◌, ◌<◌, ◌⊎◌, true, false, arith, suc, ◌∙◌, Bool-cases, inl, inr,
}
use curfew.Clock.{
  Reading, ClockWitness, observe, adoption_moves_forward, rebooted, tolerance_seconds,
}
use native.Mathlib.Decide.{dec_lt}
use curfew.Clock.Trust.{observe-across_reboot, IsPlausible, IsPlausibleReading}

guard_facts :
    (w incoming : ClockWitness)
    → adoption_moves_forward w incoming ≡ false
    → incoming.last_boot_id ≡ w.last_boot_id
    → (incoming.trusted ≤ w.trusted)
      × (w.last_wall ≤ incoming.last_wall)
      × (w.last_uptime ≤ incoming.last_uptime)
unfolding adoption_moves_forward
guard_facts w incoming guard same = ground arith

now-same_boot :
    (w : ClockWitness) (r : Reading)
    → IsPlausible w
    → IsPlausibleReading r
    → rebooted w r ≡ false
    → (observe w r).1.now + w.last_uptime ≡ w.trusted + r.uptime
unfolding observe
now-same_boot w r h k e = ground arith

now-trusted_le : (w : ClockWitness) (r : Reading) → w.trusted ≤ (observe w r).1.now
unfolding observe
now-trusted_le w r = omega arith

now-across_reboot_le :
    (w incoming : ClockWitness) (r : Reading)
    → IsPlausible w
    → IsPlausible incoming
    → IsPlausibleReading r
    → rebooted w r ≡ true
    → rebooted incoming r ≡ true
    → incoming.trusted ≤ w.trusted
    → w.last_wall ≤ incoming.last_wall
    → (observe incoming r).1.now ≤ (observe w r).1.now
now-across_reboot_le w incoming r hw hi hr ew ei t l =
    let (ahead, behind, _) = observe-across_reboot w r hw hr ew in
    let (ahead', behind', _) = observe-across_reboot incoming r hi hr ei in
    elim (dec_lt (incoming.last_wall + tolerance_seconds) r.wall) [
      | yes far ↦ omega (arith, (ahead' far).0, (ahead (omega arith)).0)
      | no near ↦ omega (arith, (behind' (omega arith)).0, now-trusted_le w r)
    ]

same_boot_of :
    (w incoming : ClockWitness) (r : Reading)
    → incoming.last_boot_id ≡ w.last_boot_id
    → w.last_uptime ≤ incoming.last_uptime
    → (r.boot_id ≢ w.last_boot_id) ⊎ (incoming.last_uptime ≤ r.uptime)
    → rebooted incoming r ≡ rebooted w r
same_boot_of w incoming r same up fits = ground arith

-- Where the guard lets in a witness of the same boot, and it, the running witness and the reading
-- are within 2 ^ 60 seconds of the epoch: at a reading of another boot, or one of this boot that
-- is not behind the uptime of the adopted witness, trusted time is at most what it would have been
-- without the adoption.
pub adoption-never_ahead :
    (w incoming : ClockWitness) (r : Reading)
    → IsPlausible w
    → IsPlausible incoming
    → IsPlausibleReading r
    → adoption_moves_forward w incoming ≡ false
    → incoming.last_boot_id ≡ w.last_boot_id
    → (r.boot_id ≢ w.last_boot_id) ⊎ (incoming.last_uptime ≤ r.uptime)
    → (observe incoming r).1.now ≤ (observe w r).1.now
adoption-never_ahead w incoming r hw hi hr guard same fits =
    let (t, l, up) = guard_facts w incoming guard same in
    let alike = same_boot_of w incoming r same up fits in
    elim (Bool-cases (rebooted w r)) [
      | inl e ↦ now-across_reboot_le w incoming r hw hi hr e (alike ∙ e) t l
      | inr e ↦ omega (arith, now-same_boot w r hw hr e, now-same_boot incoming r hi hr (alike ∙ e))
    ]

-- The guard does not compare boots: a witness that differs only in its boot id is let in, and the
-- next reading of the boot that is running is then taken for a reboot. Where the wall clock was
-- moved ahead of uptime by more than the tolerance, and all is within 2 ^ 60 seconds of the epoch,
-- trusted time jumps by the wall clock's gain, which the running witness refuses.
pub adoption_of_other_boot :
    (w : ClockWitness) (r : Reading)
    → IsPlausible w
    → IsPlausibleReading r
    → r.boot_id ≡ w.last_boot_id
    → w.last_uptime ≤ r.uptime
    → w.last_wall + r.uptime + tolerance_seconds < r.wall + w.last_uptime
    → let forged = record w { last_boot_id = suc w.last_boot_id } in
      (adoption_moves_forward w forged ≡ false)
      × ((observe w r).1.now + w.last_uptime ≡ w.trusted + r.uptime)
      × ((observe forged r).1.now + w.last_wall ≡ w.trusted + r.wall)
      × ((observe w r).1.now + tolerance_seconds < (observe forged r).1.now)
unfolding observe adoption_moves_forward
adoption_of_other_boot w r hw hr same up ahead =
    (ground arith, ground arith, ground arith, ground arith)
