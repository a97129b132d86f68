-- ===== src/Frozen/Countdowns.antt =====
-- When a countdown of crates/curfew-core/src/frozen.rs is due, and what it shows.
use curfew.Prelude.{ℕ, ◌≡◌, ◌≢◌, ◌+◌, ◌≤◌, ◌<◌, ◌↔◌, true, arith, max}
use curfew.Prelude.Text.{Text}
use curfew.Prelude.I64.{I64, modulus, epoch}
use curfew.Frozen.{
  Countdown, local, peer, announce, due, remaining, waiting, fire, expired, minimum_warning_seconds,
  confirmation_window_seconds,
}

-- A freeze announced at `now`, with whatever warning: asked for here, it waits for the warning and at
-- least a minute and fires from then on; asked for by a peer and not confirmed, it never fires, and is
-- dropped when five minutes are over, however long its warning; once confirmed, it fires when one
-- asked for here would. The instants lie between the epoch and the largest one.
pub announce-due :
    (now t : I64) (profile : Text) (seconds warning : ℕ)
    → epoch ≤ now
    → now ≤ t
    → t < modulus
    → now + max warning minimum_warning_seconds < modulus
    → let here = announce now profile seconds local warning in
      let remote = announce now profile seconds peer warning in
      ((due here t ≡ fire) ↔ (now + max warning minimum_warning_seconds ≤ t))
      × (due here t ≢ fire → due here t ≡ waiting)
      × (t < now + minimum_warning_seconds → due here t ≡ waiting)
      × (due remote t ≢ fire)
      × ((due remote t ≡ expired) ↔ (now + confirmation_window_seconds ≤ t))
      × (due (record remote { confirmed = true }) t ≡ due here t)
unfolding announce due
announce-due now t profile seconds warning e h k w = (
  (λ q. ground arith, λ q. ground arith),
  λ q. ground arith,
  λ q. ground arith,
  λ q. ground arith,
  (λ q. ground arith, λ q. ground arith),
  ground arith,
)

-- What is left to show is never below zero, and is zero exactly when a countdown that waits for
-- nothing else fires.
pub remaining-due :
    (c : Countdown) (now : I64)
    → epoch ≤ now
    → now < modulus
    → epoch ≤ c.fires_at
    → c.fires_at < modulus
    → c.confirmed ≡ true
    → (epoch ≤ remaining c now)
      × ((remaining c now ≡ epoch) ↔ (due c now ≡ fire))
      × (due c now ≡ waiting → now + remaining c now ≡ epoch + c.fires_at)
unfolding remaining due
remaining-due c now e h f k b =
    (ground arith, (λ q. ground arith, λ q. ground arith), λ q. ground arith)
