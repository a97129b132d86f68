-- ===== src/Frozen.antt =====
-- crates/curfew-core/src/frozen.rs: the countdown before a freeze of the whole device.
pub mod Countdowns
use curfew.Prelude.{ℕ, ◌+◌, max, Bool, true, false, not, ◌&&◌, leb, if◌then◌else◌}
use curfew.Prelude.Lists.{any, filter}
use curfew.Prelude.Order.{list_eq}
use curfew.Prelude.Text.{Text}
use curfew.Prelude.I64.{I64, plus, sub, epoch}
use curfew.Target.{Target, whole_device}
use curfew.Config.{Config, Action, block, allow_only}

abbrev pub minimum_warning_seconds : ℕ
minimum_warning_seconds = 60

abbrev pub confirmation_window_seconds : ℕ
confirmation_window_seconds = 300

pub data Origin : Type 0 where
  local peer : Origin

pub record Countdown : Type 0 where
  pub profile : Text
  pub seconds : ℕ
  pub origin : Origin
  pub announced_at : I64
  pub fires_at : I64
  pub confirmed : Bool

unfoldable pub announce : I64 → Text → ℕ → Origin → ℕ → Countdown
announce now profile seconds origin warning = record {
  profile = profile;
  seconds = seconds;
  origin = origin;
  announced_at = now;
  fires_at = plus now (max warning minimum_warning_seconds);
  confirmed = false;
}

pub data Due : Type 0 where
  waiting awaiting_confirmation fire expired : Due

abbrev pub is_peer : Origin → Bool
is_peer local = false
is_peer peer = true

unfoldable pub due : Countdown → I64 → Due
due c now =
    if is_peer c.origin && not c.confirmed
    then (if leb (epoch + confirmation_window_seconds) (sub now c.announced_at)
        then expired
        else awaiting_confirmation)
    else if leb c.fires_at now
    then fire
    else waiting

-- `(fires_at - now).max(0)`
unfoldable pub remaining : Countdown → I64 → I64
remaining c now = max (sub c.fires_at now) epoch

abbrev is_whole_device : Target → Bool
is_whole_device whole_device = true
is_whole_device _ = false

abbrev takes_away : Action → Bool
takes_away block = true
takes_away allow_only = true
takes_away _ = false

unfoldable pub freezes : Config → Text → Bool
freezes config profile =
    any (λ p. any (λ r. is_whole_device r.target && takes_away r.action) p.rules)
      (filter (λ p. list_eq p.id profile) config.profiles)
