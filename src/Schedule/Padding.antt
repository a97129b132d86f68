-- ===== src/Schedule/Padding.antt =====
-- The activations of calendar events in crates/curfew-core/src/schedule.rs.
use curfew.Prelude.{◌+◌, ◌-◌, ◌≡◌, ◌≤◌, ◌<◌, ap, true, List, [], ◌∷◌, map, arith, inl, inr}
use curfew.Prelude.Lists.{filter, In, In-filter}
use curfew.Prelude.I64.{I64, modulus}
use curfew.Prelude.Unicode.{Unicode}
use curfew.Schedule.Calendar.{
  CalendarSchedule, CalendarEvent, activation, activations, contains, matches,
}

In-map : {A B : Type 0} (f : A → B) (x : A) (xs : List A) → In x xs → In (f x) (map f xs)
In-map f x [] m = absurd m
In-map f x (y ∷ xs) (inl e) = inl (ap f e)
In-map f x (y ∷ xs) (inr m) = inr (In-map f x xs m)

module _ (unicode : Unicode) where
  -- Of a schedule that is not paused, each event that its matcher accepts has a window. The window
  -- contains the event's start, whatever the event's end is, and each instant from the padding before
  -- the event to the padding behind it, where these instants are below the two largest ones.
  pub activations-contains :
      (s : CalendarSchedule) (events : List CalendarEvent) (e : CalendarEvent) (now : I64)
      → s.enabled ≡ true
      → In e events
      → matches unicode s.matcher e ≡ true
      → e.start < modulus - 1
      → e.start ≤ now + s.pad_before_seconds
      → now ≤ e.end + s.pad_after_seconds
      → now < modulus - 1
      → In (activation unicode s e) (activations unicode s events)
        × (contains e.start (activation unicode s e) ≡ true)
        × (contains now (activation unicode s e) ≡ true)
  unfolding activations
  activations-contains s events e now on i m first lo hi last = (
    rw on (
        In-map (activation unicode s) e (filter (λ x. matches unicode s.matcher x) events)
          (In-filter e (λ x. matches unicode s.matcher x) events i m)),
    ground (arith, first),
    ground (arith, lo, hi, last),
  )
