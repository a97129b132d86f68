-- ===== src/Mirror.antt =====
-- crates/curfew-sync/src/mirror.rs: what runs on this device and what the log says, kept the same.
-- Here is what is kept between the passes, and `adopt`.
pub mod Publishing
pub mod Adoption
pub mod Dismissal
pub mod Said
pub mod Settling
use curfew.Prelude.{
  ℕ, suc, Bool, true, false, not, ◌&&◌, ◌||◌, Option, none, some, List, [], ◌∷◌, ◌++◌, map, ltb,
  leb, ◌==◌, if◌then◌else◌, is_none, is_some_and, min, ◌-◌, ◌^◌,
}
use curfew.Prelude.Lists.{any, drop, filter, length, sort_by}
use curfew.Prelude.Order.{list_ord, list_eq, list_lt}
use curfew.Prelude.Text.{Text, codes}
use curfew.Prelude.I64.{I64}
use curfew.Prelude.Equal
use curfew.Prelude.Equal.{list_same_eq, option_eq, nat_eq}
use curfew.Prelude.Set
use curfew.Prelude.Set.{BTreeSet}
use curfew.Prelude.Map
use curfew.Prelude.Map.{BTreeMap}
use curfew.Prelude.Result.{Result, ok, err}
use curfew.Emergency.{Passes, no_passes}
use curfew.Budget.{Rollup, Consumption, Launches}
use curfew.Schedule.{Activation}
use curfew.Schedule.Calendar.{CalendarEvent}
use curfew.Session
use curfew.Session.{Session, Sessions, is_dismissed, dismissal_covers, for_profile, has_id}
use curfew.Device
use curfew.Device.{Crypto, DeviceId, Identity}
use curfew.Oplog.{Op, Entry}
use curfew.Oplog.Equality.{event_eq}
use curfew.Replay.{Replay}
use curfew.Log
use curfew.Log.{Log}

pub record Pass : Type 0 where
  pub published : ℕ
  pub adopted : List Text
  pub still_locked : List Text
  pub calendar : List CalendarEvent
  pub released : BTreeMap Text (BTreeSet Text)
  pub passes : Passes

pub record Published : Type 0 where
  pub profile : Text
  pub release : Option I64

pub record Mirror : Type 0 where
  pub sessions : BTreeMap Text Published
  pub usage : BTreeMap Text ℕ
  pub launches : BTreeMap Text ℕ
  pub calendar : Option (List CalendarEvent × I64)
  pub passes : ℕ
  pub released : BTreeSet Text

abbrev pub default : Mirror
default = record {
  sessions = [];
  usage = [];
  launches = [];
  calendar = none;
  passes = 0;
  released = [];
}

abbrev pub calendar_seconds : ℕ
calendar_seconds = 900

abbrev pub published_as : Session → Published
published_as session = record {
  profile = session.profile;
  release = session.lock.delayed_release_at;
}

abbrev pub is_fresh : Option Published → Session → Bool
is_fresh none session = true
is_fresh (some published) session = not (list_eq published.profile session.profile)

abbrev pub release_of : Option Published → Option I64
release_of none = none
release_of (some published) = published.release

-- `release.filter(...)` of the release that is not announced yet.
abbrev pub unannounced : Option Published → Session → Option I64
unannounced known session =
    if option_eq.same (release_of known) session.lock.delayed_release_at
    then none
    else session.lock.delayed_release_at

-- The ids that were published and run no more.
abbrev pub gone_ids : BTreeMap Text Published → Sessions → List Text
gone_ids sessions local =
    let running = Set.from_list (map (λ s. s.id) local.running) in
    filter (λ key. not (Set.mem key running)) (map (λ e. e.0) sessions)

abbrev pub or_zero : Option ℕ → ℕ
or_zero none = 0
or_zero (some n) = n

-- Whether the calendar was said already, less than a quarter of an hour ago.
abbrev pub is_due : Option (List CalendarEvent × I64) → List CalendarEvent → I64 → Bool
is_due none events now = true
is_due (some (said, at)) events now =
    not (list_same_eq.same said events) || leb calendar_seconds (min (now - at) (2 ^ 63 - 1))

unfoldable pub ended_here : Sessions → List Activation → Session → Bool
ended_here sessions activations session = is_some_and session.lock.ends_at λ end.
    any (λ a. list_eq a.profile session.profile && ((a.end == end) && is_dismissed sessions a))
      activations

-- One round of the first loop of `adopt`, with the ids adopted so far.
unfoldable pub adopt_session :
    List Activation → Session → Mirror × Sessions × List Text → Mirror × Sessions × List Text
adopt_session activations session (m, sessions, adopted) =
    if is_none (for_profile sessions session.profile)
    then (if dismissal_covers sessions session || ended_here sessions activations session
        then (m, sessions, adopted)
        else (
          record m { sessions = Map.insert session.id (published_as session) m.sessions },
          Session.start sessions session,
          adopted ++ session.id ∷ [],
        ))
    else (m, Session.start sessions session, adopted)

unfoldable pub adopt_sessions :
    List Activation → List Session → Mirror × Sessions × List Text → Mirror × Sessions × List Text
adopt_sessions activations [] state = state
adopt_sessions activations (session ∷ rest) state =
    adopt_sessions activations rest (adopt_session activations session state)

-- The sessions that the log says are over.
abbrev pub over_ids : List Session → List Session → List Text
over_ids running believed =
    map (λ s. s.id) (filter (λ s. not (any (λ b. list_eq b.id s.id) believed)) running)

abbrev pub after_end :
    Text → Mirror × Sessions → Sessions × Result Session Session.Refusal → Mirror × Sessions
after_end id (m, sessions) (sessions', ok _) =
    (record m { sessions = Map.remove id m.sessions }, sessions')
after_end id (m, sessions) (sessions', err _) = (m, sessions')

unfoldable pub end_over : I64 → List Text → Mirror × Sessions → Mirror × Sessions
end_over now [] state = state
end_over now (id ∷ rest) state =
    end_over now rest (after_end id state (Session.end state.1 id now []))

-- Another device's events, by start and id.
abbrev pub tagged : DeviceId → CalendarEvent → CalendarEvent
tagged author event = record event { id = author ++ codes "/" ++ event.id }

unfoldable pub others_events : DeviceId → List (DeviceId × List CalendarEvent) → List CalendarEvent
others_events mine [] = []
others_events mine ((author, events) ∷ rest) =
    if list_eq author mine
    then others_events mine rest
    else map (tagged author) events ++ others_events mine rest

abbrev pub starts_before : CalendarEvent → CalendarEvent → Bool
starts_before a b = ltb a.start b.start || ((a.start == b.start) && list_lt a.id b.id)

-- What runs and was used on the device.
pub record Local : Type 0 where
  pub sessions : Sessions
  pub usage : BTreeMap Text Consumption
  pub launches : BTreeMap Text Launches

-- `adopt` with what the log is replayed into, by the device `mine`.
unfoldable pub adopt_replay :
    DeviceId → Replay → I64 → List Activation → Mirror → Local → Mirror × Local × Pass
adopt_replay mine believed now activations m local =
    let (m1, sessions1, adopted) =
      adopt_sessions activations believed.sessions.running (m, local.sessions, []) in
    let (m2, sessions2) =
      end_over now (over_ids sessions1.running believed.sessions.running) (m1, sessions1) in
    (
      record m2 {
        usage = map (λ e. (e.0, length e.1.rollups)) believed.usage;
        launches = map (λ e. (e.0, length e.1.at)) believed.launches;
        passes = length believed.passes.used;
      },
      record { sessions = sessions2; usage = believed.usage; launches = believed.launches },
      record {
        published = 0;
        adopted = adopted;
        still_locked =
            filter (λ id. any (λ s. list_eq s.id id) sessions2.running) believed.still_locked;
        calendar = sort_by starts_before (others_events mine believed.calendars);
        released = map (λ e. (e.0, Set.from_list e.1)) believed.released;
        passes = believed.passes;
      },
    )
