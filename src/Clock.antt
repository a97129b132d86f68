-- ===== src/Clock.antt =====
-- crates/curfew-core/src/clock.rs: the trusted clock that locks are judged against.
pub mod Trust
pub mod Adoption
use curfew.Prelude.{ℕ, ◌+◌, max, Bool, not, ◌&&◌, ◌||◌, ltb, ◌==◌, if◌then◌else◌}
use curfew.Prelude.I64.{I64, add, sub, neg, epoch}

-- 60 and -60, as signed numbers.
abbrev pub tolerance_seconds : ℕ
tolerance_seconds = 60

abbrev pub tolerance : I64
tolerance = epoch + tolerance_seconds

abbrev pub neg_tolerance : I64
neg_tolerance = neg tolerance

abbrev pub zero_seconds : I64
zero_seconds = epoch

pub record Reading : Type 0 where
  pub wall : I64
  pub uptime : I64
  pub boot_id : ℕ

pub record Verdict : Type 0 where
  pub now : I64
  pub refused_forward : I64
  pub refused_backward : I64
  pub unverified : I64

unfoldable pub tampered : Verdict → Bool
tampered v = ltb zero_seconds v.refused_forward || ltb zero_seconds v.refused_backward

pub record ClockWitness : Type 0 where
  pub last_wall : I64
  pub last_uptime : I64
  pub last_boot_id : ℕ
  pub trusted : I64

unfoldable pub new : Reading → ClockWitness
new reading = record {
  last_wall = reading.wall;
  last_uptime = reading.uptime;
  last_boot_id = reading.boot_id;
  trusted = reading.wall;
}

unfoldable pub adoption_moves_forward : ClockWitness → ClockWitness → Bool
adoption_moves_forward w incoming =
    ltb w.trusted incoming.trusted
    || (ltb incoming.last_wall w.last_wall
        || ((incoming.last_boot_id == w.last_boot_id) && ltb incoming.last_uptime w.last_uptime))

abbrev pub rebooted : ClockWitness → Reading → Bool
rebooted w r = not (r.boot_id == w.last_boot_id) || ltb r.uptime w.last_uptime

-- The verdict before `now` is held at the trusted time.
abbrev blank : ClockWitness → Verdict
blank w = record {
  now = w.trusted;
  refused_forward = zero_seconds;
  refused_backward = zero_seconds;
  unverified = zero_seconds;
}

unfoldable pub across_reboot : ClockWitness → I64 → Verdict
across_reboot w wall_delta =
    if ltb tolerance wall_delta
    then record (blank w) { unverified = wall_delta; now = add w.trusted wall_delta }
    else if ltb wall_delta neg_tolerance
    then record (blank w) { refused_backward = neg wall_delta }
    else blank w

unfoldable pub same_boot : ClockWitness → I64 → I64 → Verdict
same_boot w wall_delta elapsed =
    let v = record (blank w) { now = add w.trusted elapsed } in
    let drift = sub wall_delta elapsed in
    if ltb tolerance drift
    then record v { refused_forward = drift }
    else if ltb drift neg_tolerance
    then record v { refused_backward = neg drift }
    else v

unfoldable pub verdict : ClockWitness → Reading → Verdict
unfolding across_reboot same_boot
verdict w r =
    let wall_delta = sub r.wall w.last_wall in
    let v =
      if rebooted w r
      then across_reboot w wall_delta
      else same_boot w wall_delta (sub r.uptime w.last_uptime) in
    record v { now = max v.now w.trusted }

unfoldable pub observe : ClockWitness → Reading → ClockWitness × Verdict
unfolding verdict
observe w r =
    let v = verdict w r in
    (
      record {
        last_wall = r.wall;
        last_uptime = r.uptime;
        last_boot_id = r.boot_id;
        trusted = v.now;
      },
      v,
    )
